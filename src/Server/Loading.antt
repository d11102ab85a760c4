-- ===== src/Server/Loading.antt =====
-- What LoadDir of the two directories leaves in the registry.
use license_proxyserver.Base.{
  ite, Text, str, List, [], ◌∷◌, Option, none, Bool, ◌≡◌, ◌≢◌, ite, arith, done, Returns, returns,
  Returns-bind, Returns-map, Error, Option-cases, inl, inr, All,
}
use license_proxyserver.Api.{License, Time}
use license_proxyserver.Heap.Order.{IsStrictWeak}
use license_proxyserver.Verifier.{Verifier}
use license_proxyserver.Storage.Registry.{LicenseRegistry}
use license_proxyserver.Storage.Registry.Sound.{IsAuthority, IsSound}
use license_proxyserver.Storage.Loader.{FileSystem, DirEntry, load_dir}
use license_proxyserver.Storage.Loader.Lasting.{Grown, Grown-refl, Grown-trans}
use license_proxyserver.Storage.Loader.Loaded.{IsLoaded, IsLoaded-Grown, Listed, load_dir-Grown}
use license_proxyserver.Request.Finding.{Signs}
use license_proxyserver.Server.{ExtraConfig, load_set, load_dirs}

module _ (less : License → License → Bool) (Issued : License → Type 0) (order : IsStrictWeak less)
    (authority : IsAuthority Issued) {Certificate : Type 0} (v : Verifier Certificate)
    (signs : Signs v Issued) (fs : FileSystem) (now : Time) where
  -- the licenses of the directory are stored
  abbrev pub Loaded : Text → Text → LicenseRegistry → Type 0
  Loaded cid dir reg = Listed less Issued order authority v signs fs cid dir now reg

  All-Grown :
      (cid dir : Text) (ca_cert : Certificate) (r r' : LicenseRegistry) (entries : List DirEntry)
      → Grown less Issued now r r'
      → All (IsLoaded less Issued order authority v signs fs cid dir now ca_cert r) entries
      → All (IsLoaded less Issued order authority v signs fs cid dir now ca_cert r') entries
  All-Grown cid dir ca_cert r r' [] g a = tt
  All-Grown cid dir ca_cert r r' (entry ∷ entries) g a = (
    IsLoaded-Grown less Issued order authority v signs fs cid dir now ca_cert r r' entry g a.0,
    All-Grown cid dir ca_cert r r' entries g a.1,
  )

  Loaded-Grown :
      (cid dir : Text) (r r' : LicenseRegistry)
      → Grown less Issued now r r'
      → Loaded cid dir r
      → Loaded cid dir r'
  Loaded-Grown cid dir r r' g l = record {
    ca_data = l.ca_data;
    ca_cert = l.ca_cert;
    entries = l.entries;
    ca = l.ca;
    cert = l.cert;
    read = l.read;
    loaded = All-Grown cid dir l.ca_cert r r' l.entries g l.loaded;
  }

  load_set-Loaded :
      (cid dir : Text) (r : LicenseRegistry)
      → IsSound less Issued now r
      → Returns
          (λ res. Grown less Issued now r res.0 × (res.1 ≡ none → dir ≢ [] → Loaded cid dir res.0))
          (load_set less v fs cid dir now r)
  unfolding load_set
  load_set-Loaded cid dir r s =
      elim (str dir [])
        as (λ x.
          Returns
            (λ res.
              Grown less Issued now r res.0 × (res.1 ≡ none → dir ≢ [] → Loaded cid dir res.0))
            (ite x (done (r, none)) (load_dir less v fs cid dir now r))) [
              | yes p ↦ returns (Grown-refl less Issued now r s, λ h set. absurd (set p))
              | no n ↦
                  Returns-map
                    (load_dir-Grown less Issued order authority v signs fs cid dir now r s)
                    λ res (g, l). (g, λ h set. l h)
            ]

  -- what the two directories leave
  abbrev pub DirsLoaded :
      ExtraConfig → Text → LicenseRegistry → LicenseRegistry × Option Error → Type 0
  DirsLoaded c cid r (reg, e) =
      Grown less Issued now r reg
      × (e ≡ none
          → (c.license_dir ≢ [] → Loaded cid c.license_dir reg)
            × (c.cache_dir ≢ [] → Loaded cid c.cache_dir reg))

  pub load_dirs-Loaded :
      (c : ExtraConfig) (cid : Text) (r : LicenseRegistry)
      → IsSound less Issued now r
      → Returns (DirsLoaded c cid r) (load_dirs less v fs c cid now r)
  unfolding load_dirs
  load_dirs-Loaded c cid r s =
      Returns-bind (load_set-Loaded cid c.license_dir r s) λ (r', e) (g, first).
        elim (Option-cases e) [
          | inr (stop, q) ↦ rw q (returns (g, λ h. absurd (ground (arith, h))))
          | inl q ↦ rw q (
              Returns-map (load_set-Loaded cid c.cache_dir r' g.sound) λ res (g', second). (
                Grown-trans less Issued now g g',
                λ h. ((λ set. Loaded-Grown cid c.license_dir r' res.0 g' (first q set)), second h),
              ))
        ]
