-- ===== src/Delivery/Syncing.antt =====
-- Reconcile of the syncer, and then a Create on the spoke cluster, which share the registry.
use mathlib.Core.HLevel.{¬_prop}
use mathlib.Core.Logic.Or
use mathlib.Core.List.{mem-cons, not-mem-nil}
use license_proxyserver.Base.{
  Result, ◌∙◌, [], ◌∷◌, done, ◌∙◌, Text, List, Mem, Option, none, some, Bool, true, ◌≡◌, ◌≢◌, subst,
  sym, arith, Returns, Returns-map, ok, Option-cases, Bool-cases, inl, inr, All,
}
use license_proxyserver.Base.Int.{◌≤ℤ◌}
use license_proxyserver.Api.{License, Time, User, LicenseRequest, LicenseRequestRequest}
use license_proxyserver.Clock.{min_remaining_life}
use license_proxyserver.Heap.Order.{IsStrictWeak}
use license_proxyserver.Kube.{ObjectKey, Secret, entries, KubeClient, IsKubeClient}
use license_proxyserver.Storage.Registry.{LicenseRegistry, get}
use license_proxyserver.Storage.Registry.Invariant.{is_live, is_live-expiry, is_live_mono}
use license_proxyserver.Storage.Registry.Sound.{IsAuthority, IsSound, IsSound-later}
use license_proxyserver.Storage.Loader.Lasting.{lasts}
use license_proxyserver.Verifier.{Verifier, LicenseClient}
use license_proxyserver.Request.{Storage, SpokeClient, StringSets, create}
use license_proxyserver.Request.Finding.{Signs}
use license_proxyserver.Syncer.{reconcile}
use license_proxyserver.Syncer.Synced.{Stocked, reconcile-Ends}
use license_proxyserver.Delivery.Answering.{Offered, Serves, create-Serves}

-- Licenses of the same ID have the same features.
abbrev pub SameFeatures : (License → Type 0) → Type 0
SameFeatures Issued = (l m : License) → Issued l → Issued m → l.id ≡ m.id → l.features ≡ m.features

-- the secret of the hub cluster has a license for one of the features
pub record Carries {Certificate : Type 0} (v : Verifier Certificate) (cid : Text)
    (ca_cert : Certificate) (src : Secret) (features : List Text) : Type 0 where
  pub file : Text × Text
  pub there : Mem file (entries src.data_map)
  pub license : License
  pub parses : v.parse_license cid ca_cert file.1 ≡ ok license
  pub feature : Text
  pub asked : Mem feature features
  pub tagged : Mem feature license.features

module _ (less : License → License → Bool) (Issued : License → Type 0) (order : IsStrictWeak less)
    (authority : IsAuthority Issued) (same : SameFeatures Issued) {Certificate : Type 0}
    (v : Verifier Certificate) (signs : Signs v Issued) (hub spoke : KubeClient)
    (faithful : IsKubeClient spoke) (namespace cid : Text) (ca_cert : Certificate)
    (now : Time) where
  -- The file's license, if it lasts, is stored.
  abbrev Keeps : LicenseRegistry → Text × Text → Type 0
  Keeps reg file =
      (l : License)
      → v.parse_license cid ca_cert file.1 ≡ ok l
      → lasts less Issued now l ≡ true
      → get reg l.id ≢ none

  Stocked-Keeps :
      (reg : LicenseRegistry) (file : Text × Text)
      → Stocked less Issued order authority v signs hub spoke faithful namespace cid ca_cert now reg
          file
      → Keeps reg file
  Stocked-Keeps reg file h l parsed long =
      let equal : h.license ≡ l = ground (arith, h.parses, parsed) in
      subst (λ l. get reg l.id ≢ none) equal (h.stored (rw equal long))

  All-Keeps :
      (reg : LicenseRegistry) (files : List (Text × Text))
      → All
          (Stocked less Issued order authority v signs hub spoke faithful namespace cid ca_cert now
            reg)
          files
      → (file : Text × Text) → Mem file files
      → Keeps reg file
  All-Keeps reg [] h file i l parsed long = absurd (not-mem-nil i)
  All-Keeps reg (head ∷ files) h file i l parsed long =
      Or.elim ¬_prop (mem-cons.0 i)
        (λ e.
          Stocked-Keeps reg head h.0 l
            (subst (λ f. v.parse_license cid ca_cert f.1 ≡ ok l) e parsed) long)
        (λ j. All-Keeps reg files h.1 file j l parsed long)

  stored-Offered :
      (reg : LicenseRegistry) (later : Time) (features : List Text) (l : License) (feature : Text)
      → IsSound less Issued now reg
      → Issued l
      → get reg l.id ≢ none
      → is_live later reg.ttl l ≡ true
      → Mem feature features
      → Mem feature l.features
      → Offered later features reg
  unfolding get
  stored-Offered reg later features l feature s issued stored live i j =
      elim (Option-cases (get reg l.id)) [
        | inl gone ↦ absurd (stored gone)
        | inr (rec, there) ↦
            let one_id : rec.license.id ≡ l.id = s.wf.keyed l.id rec there in
            let vouched = s.vouched l.id rec there in
            record {
              record_of = rec;
              stored = subst (λ id. get reg id ≡ some rec) (sym one_id) there;
              live =
                  is_live-expiry later reg.ttl rec.license l
                    (authority.identified rec.license l vouched issued one_id)
                  ∙ live;
              feature = feature;
              asked = i;
              tagged = subst (Mem feature) (sym (same rec.license l vouched issued one_id)) j;
            }
      ]

  -- a license that is live at a later time lasts until then
  lasts_before :
      (later : Time) (l : License)
      → now ≤ℤ later
      → is_live later min_remaining_life l ≡ true
      → lasts less Issued now l ≡ true
  lasts_before later l h live = elim (Bool-cases (is_live now min_remaining_life l)) [
    | inl yes_live ↦ yes_live
    | inr dead ↦ absurd (ground (arith, is_live_mono now later min_remaining_life l h dead, live))
  ]

  read_once : {A : Type 0} {r : Result A} (a b : A) → r ≡ ok a → r ≡ ok b → a ≡ b
  read_once a b p q = ground (arith, p, q)

  -- what a Create at a later time gives, with the registry that the syncer has left
  module _ (k : SpokeClient) (sets : StringSets) (request : ObjectKey) (h : hub.State)
      (reg : LicenseRegistry) (s : spoke.State) (lc : Option LicenseClient) (later : Time)
      (user : User) (req : LicenseRequest) (asked : LicenseRequestRequest) (c : k.State)
      (is_spoke : Bool) where
    abbrev storage : LicenseRegistry → Storage Certificate
    storage reg = record { cid = cid; ca_cert = ca_cert; lc = lc; reg = reg }

    abbrev pub Delivers : LicenseRegistry → Type 0
    Delivers reg =
        Returns
          (Serves less Issued order authority later v signs k sets user asked.features
            (storage reg))
          (create less v k sets later (some user) req (storage reg) c)

    -- If `less` is a strict weak order, issued licenses have an expiry date and features that
    -- their ID determines, the parser accepts issued licenses only, the client of the spoke
    -- cluster reads back what it has written, the registry is sound, keeps licenses to
    -- MinRemainingLife and has a book, the hub cluster's secret can be read and has a file with a
    -- license that has a requested feature, and the request is not nil and the test for a spoke
    -- cluster returns, then Reconcile of the syncer ends without a panic. If it reports no error,
    -- then at every later time at which that license still has MinRemainingLife or more left,
    -- Create for an authenticated user, on the registry that Reconcile has left, ends without a
    -- panic and answers with the contents of an issued license that has MinRemainingLife or more
    -- left and has a requested feature, and that the book says the user was given for the
    -- requested features.
    pub reconcile-Delivers :
        (src : Secret)
        → hub.get_secret h request ≡ ok src
        → (carried : Carries v cid ca_cert src asked.features) → IsSound less Issued now reg
        → reg.ttl ≡ min_remaining_life
        → reg.rb ≢ none
        → now ≤ℤ later
        → is_live later min_remaining_life carried.license ≡ true
        → req.request ≡ some asked
        → k.is_open_cluster_spoke c ≡ done is_spoke
        → Returns
            (λ res. res.2 ≡ none → Delivers res.0)
            (reconcile less v hub spoke namespace cid ca_cert now request h reg s)
    reconcile-Delivers src read carried sound ttl book after live requested spoke_test =
        Returns-map
          (reconcile-Ends less Issued order authority v signs hub spoke faithful namespace cid
            ca_cert now request h reg s sound)
          (λ (reg', s', e) (grown, synced, _) no_error.
            let y = synced no_error in
            let same_source = read_once src y.src read y.read in
            let l = carried.license in
            let issued = signs cid ca_cert carried.file.1 l carried.parses in
            let long = lasts_before later l after live in
            let there =
              All-Keeps reg' (entries y.src.data_map) y.stocked carried.file
                (subst (λ src. Mem carried.file (entries src.data_map)) same_source carried.there) l
                carried.parses long in
            create-Serves less Issued order authority later v signs k sets user req asked
              (storage reg') c is_spoke requested spoke_test (λ gone. book (sym grown.rb ∙ gone))
              (IsSound-later less Issued now later reg' after grown.sound)
              (stored-Offered reg' later asked.features l carried.feature grown.sound issued there
                (subst (λ d. is_live later d l ≡ true) (sym (grown.ttl ∙ ttl)) live) carried.asked
                carried.tagged))
