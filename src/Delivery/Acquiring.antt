-- ===== src/Delivery/Acquiring.antt =====
-- From a claim of the spoke cluster to an answer on it: reconcile of the acquirer on the hub cluster,
-- then Reconcile of the syncer, then Create (pkg/manager/license_acquirer.go and the files above).
use mathlib.Core.Logic.Or
use mathlib.Core.List.{mem-cons, not-mem-nil, Mem-prop}
use license_proxyserver.Acquirer.Obtaining.{IsFor}
use license_proxyserver.Syncer.{license_secret}
use license_proxyserver.Base.{
  Result, done, str, Text, List, [], ◌∷◌, Mem, Option, none, some, Bool, true, ◌≡◌, ◌≢◌, refl, sym,
  subst, arith, Returns, Returns-map, ok, err, inl, inr, All,
}
use license_proxyserver.Base.Int.{ℤ, ◌≤ℤ◌}
use license_proxyserver.Api.{License, Time, User, LicenseRequest, LicenseRequestRequest}
use license_proxyserver.Clock.{min_remaining_life}
use license_proxyserver.Heap.Order.{IsStrictWeak}
use license_proxyserver.Kube.{ObjectKey, Secret, entry, KubeClient, IsKubeClient}
use license_proxyserver.Storage.Registry.{LicenseRegistry}
use license_proxyserver.Storage.Registry.Invariant.{is_live}
use license_proxyserver.Storage.Registry.Sound.{IsAuthority, IsSound}
use license_proxyserver.Verifier.{Verifier, LicenseClient}
use license_proxyserver.Request.{SpokeClient, StringSets}
use license_proxyserver.Request.Finding.{Signs}
use license_proxyserver.Syncer
use license_proxyserver.Acquirer.{Host, LicenseAcquirer}
use license_proxyserver.Acquirer.Loop.{reconcile_secret}
use license_proxyserver.Acquirer.Cached.{CacheSound}
use license_proxyserver.Acquirer.Refreshing.{EndsLater}
use license_proxyserver.Acquirer.Saving.{Covered}
use license_proxyserver.Acquirer.Reconciled.{before, reconcile_secret-Ends}
use license_proxyserver.Delivery.Syncing.{Delivers, reconcile-Delivers}
use license_proxyserver.Delivery.Issuing.{IsIssuer, Grants, key_of, lookup-Mem}

-- A later reconcile of the syncer, and after it a request of a user for the feature on the spoke cluster.
pub record Later (less : License → License → Bool) (Issued : License → Type 0) (spoke : KubeClient)
    (k : SpokeClient) (feature : Text) : Type 0 where
  pub synced : Time
  pub asked : Time
  pub reg : LicenseRegistry
  pub state : spoke.State
  pub user : User
  pub req : LicenseRequest
  pub request : LicenseRequestRequest
  pub c : k.State
  pub is_spoke : Bool
  pub sound : IsSound less Issued synced reg
  pub ttl : reg.ttl ≡ min_remaining_life
  pub book : reg.rb ≢ none
  pub after : synced ≤ℤ asked
  pub requested : req.request ≡ some request
  pub wanted : Mem feature request.features
  pub test : k.is_open_cluster_spoke c ≡ done is_spoke

module _ (less : License → License → Bool) (Issued : License → Type 0) (order : IsStrictWeak less)
    (authority : IsAuthority Issued) (ends : EndsLater Issued) {Certificate : Type 0}
    (v : Verifier Certificate) (signs : Signs v Issued) (host : Host) (hub spoke : KubeClient)
    (hub_faithful : IsKubeClient hub) (spoke_faithful : IsKubeClient spoke) (namespace cid : Text)
    (ca_cert : Certificate) (issuer : IsIssuer Issued v cid ca_cert) (feature : Text)
    (grants : Grants v host cid feature) (now : Time) where
  -- the hub cluster's secret has a license for the feature
  record Holding (s : hub.State) (key : ObjectKey) : Type 0 where
    pub secret : Secret
    pub there : hub.get_secret s key ≡ ok secret
    pub license : License
    pub path : Text
    pub stored : entry secret path ≡ some license.contents
    pub issued : Issued license
    pub tagged : Mem feature license.features

  IsFor-tagged :
      (r : LicenseAcquirer) (l : License) → IsFor v host r cid feature l → Mem feature l.features
  IsFor-tagged r l (inl i) = i
  IsFor-tagged r l (inr (c, got)) =
      let (m, d, got', i) = grants r in
      let same : m ≡ l = ground (arith, got, got') in subst (λ l. Mem feature l.features) same i

  Covered-Holding :
      (r : LicenseAcquirer) (s : hub.State) (key : ObjectKey) (secret : Secret) (due : ℤ)
      → hub.get_secret s key ≡ ok secret
      → Covered less Issued order authority ends v signs host hub hub_faithful now cid r secret due
          feature
      → Holding s key
  Covered-Holding r s key secret due there (inl (l, issued, for, fresh)) =
      let f = fresh (issuer.active l issued) in
      record {
        secret = secret;
        there = there;
        license = f.license;
        path = l.plan_name;
        stored = f.stored;
        issued = f.issued;
        tagged =
            subst (Mem feature) (sym (issuer.by_plan f.license l f.issued issued f.plan))
              (IsFor-tagged r l for);
      }
  Covered-Holding r s key secret due there (inr (e, failed, dropped)) =
      absurd (ground (arith, failed, (grants r).2))

  Saved-Holding :
      (r : LicenseAcquirer) (s : hub.State) (key : ObjectKey) (secret : Secret) (due : ℤ)
      (features : List Text)
      → hub.get_secret s key ≡ ok secret
      → All
          (Covered less Issued order authority ends v signs host hub hub_faithful now cid r secret
            due)
          features
      → Mem feature features
      → Holding s key
  Saved-Holding r s key secret due [] there all i = absurd (not-mem-nil i)
  Saved-Holding r s key secret due (f ∷ features) there all i = elim (str f feature) [
    | yes p ↦ Covered-Holding r s key secret due there (
        subst
          (Covered less Issued order authority ends v signs host hub hub_faithful now cid r secret
            due)
          p all.0)
    | no n ↦
        Saved-Holding r s key secret due features there all.1
          (Or.elim Mem-prop (mem-cons.0 i) (λ e. absurd (n (sym e))) (λ j. j))
  ]

  keyed :
      (s : hub.State) (key : ObjectKey) (found : Result Secret)
      → hub.get_secret s key ≡ found
      → (elim found as (λ x. Secret) [
        | ok sec ↦ sec
        | err e ↦ record { key = key; data_map = none }
      ]).key
        ≡ key
  keyed s key (ok sec) e = hub_faithful.keyed s key sec e
  keyed s key (err x) e = refl

  before-key :
      (s : hub.State) (key : ObjectKey)
      → (before less Issued order authority ends v signs host hub hub_faithful now cid s key).key
        ≡ key
  before-key s key = keyed s key (hub.get_secret s key) refl

  module _ (k : SpokeClient) (sets : StringSets) (lc : Option LicenseClient)
      (t : Later less Issued spoke k feature) where
    -- The syncer reads the hub cluster in state `s`, and the user who then asks for the feature on the
    -- spoke cluster gets a license, if the one that the hub cluster holds has MinRemainingLife left.
    abbrev pub Reaches : ObjectKey → hub.State → License → Type 0
    Reaches key s l =
        is_live t.asked min_remaining_life l ≡ true
        → Returns
            (λ res.
              res.2 ≡ none
              → Delivers less Issued order authority issuer.by_id v signs hub spoke spoke_faithful
                  namespace cid ca_cert t.synced k sets key s t.reg t.state lc t.asked t.user t.req
                  t.request t.c t.is_spoke res.0)
            (Syncer.reconcile less v hub spoke namespace cid ca_cert t.synced key s t.reg t.state)

    Holding-Reaches :
        (key : ObjectKey) (s : hub.State) (held : Holding s key) → Reaches key s held.license
    Holding-Reaches key s held live =
        reconcile-Delivers less Issued order authority issuer.by_id v signs hub spoke spoke_faithful
          namespace cid ca_cert t.synced k sets key s t.reg t.state lc t.asked t.user t.req
          t.request t.c t.is_spoke held.secret held.there
          (record {
            file = (held.path, held.license.contents);
            there = lookup-Mem held.path held.license.contents _ held.stored;
            license = held.license;
            parses = issuer.reads held.license held.issued;
            feature = feature;
            asked = t.wanted;
            tagged = held.tagged;
          })
          t.sound t.ttl t.book t.after live t.requested t.test

    -- The hub cluster holds a license for the feature that reaches the spoke cluster's user.
    pub record Delivered (key : ObjectKey) (s : hub.State) : Type 0 where
      pub secret : Secret
      pub there : hub.get_secret s key ≡ ok secret
      pub license : License
      pub path : Text
      pub stored : entry secret path ≡ some license.contents
      pub issued : Issued license
      pub tagged : Mem feature license.features
      pub reaches : Reaches key s license

    -- Suppose that `less` is a strict weak order; issued licenses are active, have an expiry date
    -- that is not Go's zero time and that their ID determines, and have features that their ID and
    -- also their plan determines; the parser accepts issued licenses only, and reads back the
    -- contents of each; the license server gives every acquirer a license that has the feature;
    -- both clusters' clients read back what they have written; every registry of the acquirer's
    -- cache is sound; and the feature is among the claimed ones. Suppose also that the syncer of
    -- the spoke cluster later reconciles with a sound registry that has a book and keeps licenses
    -- to MinRemainingLife, and that an authenticated user then asks for the feature, where the
    -- test for a spoke cluster returns. Then reconcile of the acquirer ends without a panic. If it
    -- reports no error, the cluster's secret on the hub holds the contents of an issued license
    -- with the feature; and if that license has MinRemainingLife or more left when the user asks,
    -- Reconcile of the syncer ends without a panic, and if it reports no error, Create answers
    -- with the contents of an issued license that is live and has a requested feature, and that
    -- the book says the user was given.
    pub reconcile_secret-Delivered :
        (r : LicenseAcquirer) (cluster_name : Text) (features : List Text) (s : hub.State)
        → CacheSound less Issued now r
        → Mem feature features
        → Returns
            (λ (r', s', due, errs). errs ≡ [] → Delivered (key_of cluster_name) s')
            (reconcile_secret less v host hub now r cluster_name cid features s)
    reconcile_secret-Delivered r cluster_name features s cached i =
        Returns-map
          (reconcile_secret-Ends less Issued order authority ends v signs host hub hub_faithful now
            cid r cluster_name features s cached)
          (λ (r', s', due, errs) (_, saved) no_error.
            let y = saved no_error in
            let there =
              subst (λ key. hub.get_secret s' key ≡ ok y.secret)
                (before-key s (key_of cluster_name)) y.there in
            let held =
              Saved-Holding r' s' (key_of cluster_name) y.secret due features there y.covered i in
            record {
              secret = held.secret;
              there = held.there;
              license = held.license;
              path = held.path;
              stored = held.stored;
              issued = held.issued;
              tagged = held.tagged;
              reaches = Holding-Reaches (key_of cluster_name) s' held;
            })
