-- ===== src/Syncer/Synced.antt =====
-- What Reconcile of the syncer leaves on the spoke cluster.
use license_proxyserver.Base.{
  ◌>>=◌, ◌⊎◌, subst, Text, List, [], ◌∷◌, Option, none, some, Bool, true, ◌≡◌, ◌≢◌, inl, inr, refl,
  sym, arith, done, Returns, returns, Returns-bind, Returns-map, ok, err, Error, Result-cases,
  Option-cases, All,
}
use license_proxyserver.Api.{License, Time}
use license_proxyserver.Heap.Order.{IsStrictWeak}
use license_proxyserver.Kube.{ObjectKey, Secret, entries, entry, VerbType, KubeClient, IsKubeClient}
use license_proxyserver.Storage.Registry.{LicenseRegistry, get}
use license_proxyserver.Storage.Registry.Sound.{IsAuthority, IsSound}
use license_proxyserver.Storage.Loader.Lasting.{
  Grown, Grown-refl, Grown-trans, lasts, add_lasting-Grown,
}
use license_proxyserver.Verifier.{Verifier}
use license_proxyserver.Request.Finding.{Signs}
use license_proxyserver.Syncer.{dst_key, copy_data, add_license, add_licenses, reconcile}

module _ (less : License → License → Bool) (Issued : License → Type 0) (order : IsStrictWeak less)
    (authority : IsAuthority Issued) {Certificate : Type 0} (v : Verifier Certificate)
    (signs : Signs v Issued) (hub spoke : KubeClient) (faithful : IsKubeClient spoke)
    (namespace cluster_id : Text) (ca_cert : Certificate) (now : Time) where
  -- The entry holds a license, and if it lasts, it is stored.
  pub record Stocked (reg : LicenseRegistry) (bytes : Text × Text) : Type 0 where
    pub license : License
    pub parses : v.parse_license cluster_id ca_cert bytes.1 ≡ ok license
    pub stored : lasts less Issued now license ≡ true → get reg license.id ≢ none

  Stocked-Grown :
      (r r' : LicenseRegistry) (bytes : Text × Text)
      → Grown less Issued now r r'
      → Stocked r bytes
      → Stocked r' bytes
  Stocked-Grown r r' bytes g h = record {
    license = h.license;
    parses = h.parses;
    stored = λ long gone. elim (Option-cases (get r h.license.id)) [
      | inl e ↦ h.stored long e
      | inr (rec, e) ↦ cc (g.keeps h.license.id rec e)
    ];
  }

  add_license-Grown :
      (name bytes : Text) (r : LicenseRegistry)
      → IsSound less Issued now r
      → Returns
          (λ res. Grown less Issued now r res.0 × (res.1 ≡ none → Stocked res.0 (name, bytes)))
          (add_license less v hub spoke namespace cluster_id ca_cert now r bytes)
  unfolding add_license
  add_license-Grown name bytes r s =
      elim (Result-cases (v.parse_license cluster_id ca_cert bytes)) [
        | inr (e, refused) ↦
            rw (refused, add_license) (returns (Grown-refl less Issued now r s, λ h. absurd (cc)))
        | inl (l, parsed) ↦
            rw (parsed, add_license)
              (Returns-bind
                (add_lasting-Grown less Issued now order authority r l s (signs _ _ _ l parsed))
                λ r' (g, there).
                  returns (g, λ h. record { license = l; parses = parsed; stored = there }))
      ]

  add_licenses-Grown :
      (files : List (Text × Text)) (r : LicenseRegistry)
      → IsSound less Issued now r
      → Returns
          (λ res. Grown less Issued now r res.0 × (res.1 ≡ none → All (Stocked res.0) files))
          (add_licenses less v hub spoke namespace cluster_id ca_cert now r files)
  unfolding add_licenses
  add_licenses-Grown [] r s = returns (Grown-refl less Issued now r s, λ h. tt)
  add_licenses-Grown ((name, bytes) ∷ files) r s =
      Returns-bind (add_license-Grown name bytes r s) λ (r', e) (g, stocked).
        elim (Option-cases e) [
          | inr (failed, q) ↦ rw q (returns (g, λ h. absurd (cc)))
          | inl q ↦ rw q (
              Returns-map (add_licenses-Grown files r' g.sound) λ res (g', rest). (
                Grown-trans less Issued now g g',
                λ h. (Stocked-Grown r' res.0 (name, bytes) g' (stocked q), rest h),
              ))
        ]

  -- Reconcile wrote a copy of `src`, the secret of the hub cluster, once it had added its licenses.
  pub record Synced (h : hub.State) (request : ObjectKey) (reg : LicenseRegistry) (s' : spoke.State)
      : Type 0 where
    pub src : Secret
    pub read : hub.get_secret h request ≡ ok src
    pub stocked : All (Stocked reg) (entries src.data_map)
    pub copy : Secret
    pub there : spoke.get_secret s' (dst_key namespace) ≡ ok copy
    pub same_entries : (path : Text) → entry copy path ≡ entry src path

  copied :
      (s : spoke.State) (src : Secret) (kt : VerbType)
      → (spoke.create_or_patch s (dst_key namespace) (copy_data src)).1 ≡ ok kt
      → (copy : Secret) × (spoke.get_secret
            (spoke.create_or_patch s (dst_key namespace) (copy_data src)).0
            (dst_key namespace)
          ≡ ok copy)
        × ((path : Text) → entry copy path ≡ entry src path)
  unfolding copy_data
  copied s src kt h = elim (Result-cases (spoke.get_secret s (dst_key namespace))) [
    | inl (old, there) ↦
        let holds =
          faithful.after_patched s _ (dst_key namespace) (copy_data src) kt old there (λ x. refl)
            (λ i. ((spoke.create_or_patch s (dst_key namespace) (copy_data src)).0, h i)) in
        (
          holds.object,
          subst
              (λ key.
                spoke.get_secret (spoke.create_or_patch s (dst_key namespace) (copy_data src)).0 key
                ≡ ok holds.object)
              (faithful.keyed _ _ _ there) holds.there,
          holds.same_entries,
        )
    | inr (e, gone) ↦
        let holds =
          faithful.after_created s _ (dst_key namespace) (copy_data src) kt e gone (λ x. refl)
            (λ i. ((spoke.create_or_patch s (dst_key namespace) (copy_data src)).0, h i)) in
        (holds.object, holds.there, holds.same_entries)
  ]

  -- The hub cluster's secret was read, and each entry of it is a license.
  abbrev pub Checked : ObjectKey → hub.State → LicenseRegistry → Type 0
  Checked request h reg =
      (src : Secret) × (hub.get_secret h request ≡ ok src)
      × All (Stocked reg) (entries src.data_map)

  -- what Reconcile leaves
  abbrev pub Ends :
      ObjectKey
      → hub.State
      → LicenseRegistry
      → spoke.State
      → LicenseRegistry × spoke.State × Option Error
      → Type 0
  Ends request h reg s (reg', s', e) =
      Grown less Issued now reg reg'
      × (e ≡ none → Synced h request reg' s')
      × ((s' ≡ s) ⊎ Checked request h reg')

  -- the write of the copy, after the loop
  write : Secret → spoke.State → LicenseRegistry → LicenseRegistry × spoke.State × Option Error
  write src s reg =
      let (s', res) = spoke.create_or_patch s (dst_key namespace) (copy_data src) in
      (reg, s', elim res [ ok kt ↦ none | err e ↦ some e ])

  reconcile-found :
      (request : ObjectKey) (h : hub.State) (reg : LicenseRegistry) (s : spoke.State) (src : Secret)
      → hub.get_secret h request ≡ ok src
      → reconcile less v hub spoke namespace cluster_id ca_cert now request h reg s ≡ (
          add_licenses less v hub spoke namespace cluster_id ca_cert now reg (entries src.data_map)
          >>= λ (reg, e). elim e [
            | some failed ↦ done (reg, s, some failed)
            | none ↦ done (write src s reg)
          ])
  unfolding reconcile write
  reconcile-found request h reg s src read = rw (read, reconcile) refl

  write-Ends :
      (request : ObjectKey) (h : hub.State) (reg reg' : LicenseRegistry) (s : spoke.State)
      (src : Secret)
      → hub.get_secret h request ≡ ok src
      → Grown less Issued now reg reg'
      → All (Stocked reg') (entries src.data_map)
      → Ends request h reg s (write src s reg')
  unfolding write
  write-Ends request h reg reg' s src read g all = (
    g,
    (λ q. elim (Result-cases (spoke.create_or_patch s (dst_key namespace) (copy_data src)).1) [
      | inr (e, failed) ↦ absurd (ground (arith, failed, q))
      | inl (kt, wrote) ↦
          let (copy, there, same) = copied s src kt wrote in
          record {
            src = src;
            read = read;
            stocked = all;
            copy = copy;
            there = there;
            same_entries = same;
          }
    ]),
    inr (src, read, all),
  )

  reconcile-failed :
      (request : ObjectKey) (h : hub.State) (reg : LicenseRegistry) (s : spoke.State) (e : Error)
      → hub.get_secret h request ≡ err e
      → reconcile less v hub spoke namespace cluster_id ca_cert now request h reg s
        ≡ done (reg, s, some e)
  unfolding reconcile
  reconcile-failed request h reg s e failed = rw (failed, reconcile) refl

  -- If `less` is a strict weak order, issued licenses have an expiry date that their ID
  -- determines, the parser accepts issued licenses only, the client of the spoke cluster reads
  -- back what it has written, and the registry is sound, then Reconcile of the syncer ends without
  -- a panic in a sound registry that still has every record it had. If it reports no error, every
  -- entry of the hub cluster's secret is a license, which is stored if it has MinRemainingLife or
  -- more left, and the secret of the spoke cluster has the same entries. And the spoke cluster is
  -- unchanged unless the hub cluster's secret was read and every entry of it is such a license.
  pub reconcile-Ends :
      (request : ObjectKey) (h : hub.State) (reg : LicenseRegistry) (s : spoke.State)
      → IsSound less Issued now reg
      → Returns
          (Ends request h reg s)
          (reconcile less v hub spoke namespace cluster_id ca_cert now request h reg s)
  reconcile-Ends request h reg s sound = elim (Result-cases (hub.get_secret h request)) [
    | inr (e, failed) ↦
        subst (Returns (Ends request h reg s)) (sym (reconcile-failed request h reg s e failed)) (
          returns
            (Grown-refl less Issued now reg sound, (λ q. absurd (ground (arith, q))), inl refl))
    | inl (src, read) ↦
        subst (Returns (Ends request h reg s)) (sym (reconcile-found request h reg s src read)) (
          Returns-bind (add_licenses-Grown (entries src.data_map) reg sound) λ (reg', e) (g, all).
            elim (Option-cases e) [
              | inr (failed, q) ↦ rw q (returns (g, (λ q. absurd (ground (arith, q))), inl refl))
              | inl q ↦ rw q (returns (write-Ends request h reg reg' s src read g (all q)))
            ])
  ]
