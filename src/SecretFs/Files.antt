-- ===== src/SecretFs/Files.antt =====
-- Files that were written, read back.
use license_proxyserver.Base.{
  ◌∙◌, ite, Text, str, [], Option, none, some, true, false, ◌≡◌, ◌≢◌, inl, inr, refl, sym, subst,
  arith, ok, err, Result-cases, Option-cases,
}
use license_proxyserver.Base.Dict
use license_proxyserver.Kube.{Secret, entries, entry, empty_secret, KubeClient, IsKubeClient, Holds}
use license_proxyserver.SecretFs.{SecretFs, put, write_file, read_file, delete_file, exists}

-- the files of the system, as its two readers show them
pub record Files (k : KubeClient) (s : SecretFs) (c : k.State) (file : Text → Option Text)
    : Type 0 where
  pub reads : (path bytes : Text) → file path ≡ some bytes → read_file k s c path ≡ ok bytes
  pub missing : (path : Text) → file path ≡ none → (bytes : Text) → read_file k s c path ≢ ok bytes
  pub finds :
      (path : Text) → exists k s c path ≡ ok (elim (file path) [ none ↦ false | some _ ↦ true ])

module _ (k : KubeClient) (lawful : IsKubeClient k) (s : SecretFs) where
  Files-of :
      (c : k.State) (obj : Secret) (file : Text → Option Text)
      → k.get_secret c s.key ≡ ok obj
      → ((path : Text) → entry obj path ≡ file path)
      → Files k s c file
  unfolding read_file exists
  Files-of c obj file e same = record {
    reads = λ path bytes h. ground (arith, e, same path);
    missing = λ path h bytes q. ground (arith, e, same path);
    finds = λ path. ground (arith, e, same path);
  }

  -- the files in the cluster's state
  abbrev pub files : k.State → Text → Option Text
  files c path = elim (k.get_secret c s.key) [ ok obj ↦ entry obj path | err e ↦ none ]

  Files-Holds :
      (c : k.State) (secret : Secret) (file : Text → Option Text)
      → secret.key ≡ s.key
      → Holds k c secret
      → ((path : Text) → entry secret path ≡ file path)
      → Files k s c file
  Files-Holds c secret file key h same =
      Files-of c h.object file (subst (λ x. k.get_secret c x ≡ ok h.object) key h.there)
        λ path. h.same_entries path ∙ same path

  -- If the client reads back what it has written, then after a WriteFile without an error,
  -- ReadFile of the path gives the bytes that were written, and of every other path what was there
  -- before, with an error for a file that is missing; and Exists tells which files there are.
  pub write_file-Files :
      (c : k.State) (path bytes : Text)
      → (write_file k s c path bytes).1 ≡ none
      → Files k s (write_file k s c path bytes).0 (λ p. ite (str path p) (some bytes) (files c p))
  unfolding write_file put Dict.lookup
  write_file-Files c path bytes =
      elim (Result-cases (k.create_or_patch c s.key (put path bytes)).1) [
        | inr (e, failed) ↦ λ h. absurd (ground (arith, failed, h))
        | inl (v, done_) ↦ λ h. elim (Result-cases (k.get_secret c s.key)) [
          | inl (old, there) ↦
              Files-Holds _ (put path bytes old) _ (lawful.keyed _ _ _ there)
                (lawful.after_patched c _ s.key (put path bytes) v old there (λ x. refl)
                  (λ i. ((k.create_or_patch c s.key (put path bytes)).0, done_ i)))
                λ p.
                  ground (arith, there, Dict.lookup-insert str path p bytes (entries old.data_map))
          | inr (e, gone) ↦
              Files-Holds _ (put path bytes (empty_secret s.key)) _ refl
                (lawful.after_created c _ s.key (put path bytes) v e gone (λ x. refl)
                  (λ i. ((k.create_or_patch c s.key (put path bytes)).0, done_ i)))
                λ p. ground (arith, gone, Dict.lookup-insert str path p bytes [])
        ]
      ]

  -- If the client reads back what it has written, then after a DeleteFile without an error,
  -- ReadFile of the path gives an error and of every other path what was there before, with an
  -- error for a file that is missing; and Exists tells which files there are.
  pub delete_file-Files :
      (c : k.State) (path : Text)
      → (delete_file k s c path).1 ≡ none
      → Files k s (delete_file k s c path).0 (λ p. ite (str path p) none (files c p))
  unfolding delete_file
  delete_file-Files c path = elim (Result-cases (k.get_secret c s.key)) [
    | inr (e, gone) ↦ rw (gone, delete_file) λ h. absurd (cc)
    | inl (old, there) ↦ elim (Option-cases (entry old path)) [
      | inl missing ↦
          rw (there, delete_file, missing)
            λ h. Files-of c old _ there λ p. ground (arith, there, missing)
      | inr (bytes, found) ↦
          rw (there, delete_file, found)
            λ h.
              let new : Secret = record old {
                data_map = some (Dict.delete str path (entries old.data_map));
              } in
              Files-Holds _ new _ (lawful.keyed _ _ _ there)
                (lawful.after_patch c _ old new
                  (subst (λ key. k.get_secret c key ≡ ok old) (sym (lawful.keyed _ _ _ there))
                    there)
                  refl (λ i. ((k.patch_secret c old new).0, h i)))
                λ p. ground (arith, there, Dict.lookup-delete str path p (entries old.data_map))
    ]
  ]
