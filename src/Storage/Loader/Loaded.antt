-- ===== src/Storage/Loader/Loaded.antt =====
-- What LoadDir leaves in the registry.
use license_proxyserver.Base.{
  subst, Text, List, [], ◌∷◌, Option, none, Bool, true, false, Bool-cases, ◌≡◌, ◌≢◌, inl, inr, refl,
  sym, arith, Returns, returns, Returns-bind, Returns-map, ok, Error, Result-cases, Option-cases,
  All,
}
use license_proxyserver.Api.{License, Time}
use license_proxyserver.Heap.Order.{IsStrictWeak}
use license_proxyserver.Storage.Registry.{LicenseRegistry, get, join}
use license_proxyserver.Storage.Registry.Sound.{IsAuthority, IsSound}
use license_proxyserver.Storage.Loader.{
  FileSystem, FileType, regular, directory, symlink, other, DirEntry, is_directory,
  is_symlink_to_dir, load_file, load_entry, load_entries, load_dir,
}
use license_proxyserver.Storage.Loader.Lasting.{
  Grown, Grown-refl, Grown-trans, lasts, add_lasting-Grown,
}
use license_proxyserver.Verifier.{Verifier}
use license_proxyserver.Request.Finding.{Signs}

-- The entry is no directory; and a link leads to a file that is none.
pub record IsFile (fs : FileSystem) (dir : Text) (entry : DirEntry) : Type 0 where
  pub no_dir : entry.type_of ≢ directory
  pub leads :
      entry.type_of ≡ symlink
      → (path : Text) × (fs.eval_symlinks (join dir entry.name) ≡ ok path)
        × (fs.stat path ≡ ok false)

no_directory : (t : FileType) → t ≢ directory → is_directory t ≡ false
no_directory regular n = refl
no_directory directory n = absurd (n refl)
no_directory symlink n = refl
no_directory other n = refl

IsFile-unlinked :
    (fs : FileSystem) (dir : Text) (entry : DirEntry)
    → IsFile fs dir entry
    → is_symlink_to_dir fs dir entry ≡ ok false
unfolding is_symlink_to_dir
IsFile-unlinked fs dir entry f = by_type entry.type_of refl
  where
    by_type : (t : FileType) → entry.type_of ≡ t → is_symlink_to_dir fs dir entry ≡ ok false
    by_type regular e = rw e refl
    by_type directory e = absurd (f.no_dir e)
    by_type other e = rw e refl
    by_type symlink e = let (path, p, q) = f.leads e in rw (e, p, q) refl

module _ (less : License → License → Bool) (Issued : License → Type 0) (order : IsStrictWeak less)
    (authority : IsAuthority Issued) {Certificate : Type 0} (v : Verifier Certificate)
    (signs : Signs v Issued) (fs : FileSystem) (cid dir : Text) (now : Time) where
  -- The entry is a file, or a link to one, that holds the license `l`.
  pub record Carries (ca_cert : Certificate) (entry : DirEntry) (l : License) : Type 0 where
    pub is_file : IsFile fs dir entry
    pub bytes : Text
    pub reads : fs.read_file (join dir entry.name) ≡ ok bytes
    pub parses : v.parse_license cid ca_cert bytes ≡ ok l

  -- The lasting license of the entry is stored.
  abbrev pub IsLoaded : Certificate → LicenseRegistry → DirEntry → Type 0
  IsLoaded ca_cert reg entry =
      (l : License) → Carries ca_cert entry l → lasts less Issued now l ≡ true → get reg l.id ≢ none

  pub IsLoaded-Grown :
      (ca_cert : Certificate) (r r' : LicenseRegistry) (entry : DirEntry)
      → Grown less Issued now r r'
      → IsLoaded ca_cert r entry
      → IsLoaded ca_cert r' entry
  IsLoaded-Grown ca_cert r r' entry g h l c long gone = elim (Option-cases (get r l.id)) [
    | inl e ↦ h l c long e
    | inr (rec, e) ↦ cc (g.keeps l.id rec e)
  ]

  load_file-Grown :
      (ca_cert : Certificate) (r : LicenseRegistry) (entry : DirEntry)
      → IsSound less Issued now r
      → Returns
          (λ res. Grown less Issued now r res.0 × (res.1 ≡ none → IsLoaded ca_cert res.0 entry))
          (load_file less v fs cid dir ca_cert now r entry)
  unfolding load_file
  load_file-Grown ca_cert r entry s = elim (Result-cases (fs.read_file (join dir entry.name))) [
    | inr (e, failed) ↦
        rw (failed, load_file) (returns (Grown-refl less Issued now r s, λ h. absurd (cc)))
    | inl (bytes, read) ↦ elim (Result-cases (v.parse_license cid ca_cert bytes)) [
      | inr (e, refused) ↦
          rw (read, load_file, refused)
            (returns
              (Grown-refl less Issued now r s, λ h l c. absurd (ground (arith, c.reads, c.parses))))
      | inl (l, parsed) ↦
          rw (read, load_file, parsed)
            (Returns-bind
              (add_lasting-Grown less Issued now order authority r l s (signs _ _ _ l parsed))
              λ r' (g, there). returns (
                g,
                λ h m c long.
                    let same : l ≡ m = ground (arith, c.reads, c.parses) in
                    subst (λ x. lasts less Issued now x ≡ true → get r' x.id ≢ none) same there
                      long,
              ))
    ]
  ]

  load_entry-Grown :
      (ca_cert : Certificate) (r : LicenseRegistry) (entry : DirEntry)
      → IsSound less Issued now r
      → Returns
          (λ res. Grown less Issued now r res.0 × (res.1 ≡ none → IsLoaded ca_cert res.0 entry))
          (load_entry less v fs cid dir ca_cert now r entry)
  unfolding load_entry
  load_entry-Grown ca_cert r entry s = elim (Bool-cases (is_directory entry.type_of)) [
    | inl d ↦
        rw (d, load_entry)
          (returns (
            Grown-refl less Issued now r s,
            λ h l c.
                absurd
                  (let no = no_directory entry.type_of c.is_file.no_dir in ground (arith, no, d)),
          ))
    | inr f ↦ elim (Result-cases (is_symlink_to_dir fs dir entry)) [
      | inr (e, failed) ↦
          rw (f, load_entry, failed) (returns (Grown-refl less Issued now r s, λ h. absurd (cc)))
      | inl (true, linked) ↦
          rw (f, load_entry, linked)
            (returns (
              Grown-refl less Issued now r s,
              λ h l c. absurd (
                  let plain = IsFile-unlinked fs dir entry c.is_file in
                  ground (arith, plain, linked)),
            ))
      | inl (false, plain) ↦ rw (f, load_entry, plain) (load_file-Grown ca_cert r entry s)
    ]
  ]

  load_entries-Grown :
      (ca_cert : Certificate) (entries : List DirEntry) (r : LicenseRegistry)
      → IsSound less Issued now r
      → Returns
          (λ res.
            Grown less Issued now r res.0 × (res.1 ≡ none → All (IsLoaded ca_cert res.0) entries))
          (load_entries less v fs cid dir ca_cert now r entries)
  unfolding load_entries
  load_entries-Grown ca_cert [] r s = returns (Grown-refl less Issued now r s, λ h. tt)
  load_entries-Grown ca_cert (entry ∷ entries) r s =
      Returns-bind (load_entry-Grown ca_cert r entry s) λ (r', e) (g, loaded).
        elim (Option-cases e) [
          | inr (failed, q) ↦ rw q (returns (g, λ h. absurd (cc)))
          | inl q ↦ rw q (
              Returns-map (load_entries-Grown ca_cert entries r' g.sound) λ res (g', rest). (
                Grown-trans less Issued now g g',
                λ h. (IsLoaded-Grown ca_cert r' res.0 entry g' (loaded q), rest h),
              ))
        ]

  -- the certificate and the entries that LoadDir reads
  pub record Listed (reg : LicenseRegistry) : Type 0 where
    pub ca_data : Text
    pub ca_cert : Certificate
    pub entries : List DirEntry
    pub ca : v.load_license_ca ≡ ok ca_data
    pub cert : v.parse_certificate ca_data ≡ ok ca_cert
    pub read : fs.read_dir dir ≡ ok entries
    pub loaded : All (IsLoaded ca_cert reg) entries

  abbrev Loads : LicenseRegistry → LicenseRegistry × Option Error → Type 0
  Loads r res = Grown less Issued now r res.0 × (res.1 ≡ none → Listed res.0)

  load_dir-found :
      (r : LicenseRegistry) (ca_data : Text) (ca_cert : Certificate) (entries : List DirEntry)
      → v.load_license_ca ≡ ok ca_data
      → v.parse_certificate ca_data ≡ ok ca_cert
      → fs.read_dir dir ≡ ok entries
      → load_dir less v fs cid dir now r ≡ load_entries less v fs cid dir ca_cert now r entries
  unfolding load_dir
  load_dir-found r ca_data ca_cert entries ca cert read = rw (ca, load_dir, cert, read) refl

  -- If `less` is a strict weak order, issued licenses have an expiry date that their ID
  -- determines, the parser accepts issued licenses only, and the registry is sound, then LoadDir
  -- ends without a panic in a sound registry that still has every record it had. If it gives no
  -- error, the CA certificate and the directory were read, and for every entry that is a file or a
  -- link to one and holds a license with MinRemainingLife or more left, that license's ID is
  -- stored.
  pub load_dir-Grown :
      (r : LicenseRegistry)
      → IsSound less Issued now r
      → Returns
          (λ res. Grown less Issued now r res.0 × (res.1 ≡ none → Listed res.0))
          (load_dir less v fs cid dir now r)
  unfolding load_dir
  load_dir-Grown r s = elim (Result-cases v.load_license_ca) [
    | inr (e, failed) ↦
        rw (failed, load_dir) (returns (Grown-refl less Issued now r s, λ h. absurd (cc)))
    | inl (ca_data, ca) ↦ elim (Result-cases (v.parse_certificate ca_data)) [
      | inr (e, failed) ↦
          rw (ca, load_dir, failed) (returns (Grown-refl less Issued now r s, λ h. absurd (cc)))
      | inl (ca_cert, cert) ↦ elim (Result-cases (fs.read_dir dir)) [
        | inr (e, failed) ↦
            rw (ca, load_dir, cert, failed)
              (returns (Grown-refl less Issued now r s, λ h. absurd (cc)))
        | inl (entries, read) ↦
            subst (Returns (Loads r)) (sym (load_dir-found r ca_data ca_cert entries ca cert read))
              (Returns-map (load_entries-Grown ca_cert entries r s) λ res (g, all). (
                g,
                λ h. record {
                  ca_data = ca_data;
                  ca_cert = ca_cert;
                  entries = entries;
                  ca = ca;
                  cert = cert;
                  read = read;
                  loaded = all h;
                },
              ))
      ]
    ]
  ]
