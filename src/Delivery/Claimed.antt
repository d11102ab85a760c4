-- ===== src/Delivery/Claimed.antt =====
-- A request on a spoke cluster that no license answers at once: Create puts its features on the cluster
-- claim, and Reconcile of the acquirer on the hub cluster reads them there.
use mathlib.Core.List.{not-mem-nil}
use license_proxyserver.Base.{
  Text, str, List, [], ◌∷◌, Mem, Option, none, some, Bool, true, ite, ◌≡◌, ◌≢◌, ◌⊎◌, inl, inr, refl,
  sym, subst, arith, ok, done, Returns, Returns-at, All,
}
use license_proxyserver.Base.Int.{pos}
use license_proxyserver.Base.Split.{split, IsPlain}
use license_proxyserver.Api.{License, Time, User, LicenseRequest, LicenseRequestRequest}
use license_proxyserver.Heap.Order.{IsStrictWeak}
use license_proxyserver.Kube.{
  ObjectKey, ManagedCluster, ManagedClusterClaim, KubeClient, IsKubeClient,
}
use license_proxyserver.Storage.Registry.Sound.{IsAuthority, IsSound}
use license_proxyserver.Verifier.{Verifier, LicenseClient}
use license_proxyserver.Request.{
  comma, SpokeClient, StringSets, Storage, ClusterClaim, cluster_claim_license, create,
}
use license_proxyserver.Request.Finding.{Signs}
use license_proxyserver.Request.Granting.{Granted}
use license_proxyserver.Request.Merging.{IsStringSets}
use license_proxyserver.Request.Claiming.{IsSpokeClient}
use license_proxyserver.Request.Settled.{create-Settled}
use license_proxyserver.Acquirer.{Host, LicenseAcquirer, cluster_claim_cluster_id, read_claims}
use license_proxyserver.Acquirer.Loop.{reconcile, reconcile_claims, reconcile_secret, Reconciled}
use license_proxyserver.Acquirer.Cached.{CacheSound}
use license_proxyserver.Acquirer.Refreshing.{EndsLater}
use license_proxyserver.Acquirer.Claims.{Named, read_claims-uid, read_claims-features}
use license_proxyserver.Delivery.Issuing.{IsIssuer, Grants, key_of}
use license_proxyserver.Delivery.Acquiring.{Later, Delivered, reconcile_secret-Delivered}

-- The claims of the managed cluster are those of the spoke cluster: its UID, and what the license claim
-- says.
pub record Shows (k : SpokeClient) (c : k.State) (uid : Text) (claims : List ManagedClusterClaim)
    : Type 0 where
  pub uid_there : Mem (record { name = cluster_claim_cluster_id; value = uid }) claims
  pub uid_only : Named cluster_claim_cluster_id uid claims
  pub license_there :
      (claim : ClusterClaim)
      → k.get_claim c cluster_claim_license ≡ ok claim
      → Mem (record { name = cluster_claim_license; value = claim.value }) claims
  pub license_only :
      (claim : ClusterClaim)
      → k.get_claim c cluster_claim_license ≡ ok claim
      → Named cluster_claim_license claim.value claims

module _ (less : License → License → Bool) (Issued : License → Type 0) (order : IsStrictWeak less)
    (authority : IsAuthority Issued) (ends : EndsLater Issued) {Certificate : Type 0}
    (v : Verifier Certificate) (signs : Signs v Issued) (host : Host) (hub spoke : KubeClient)
    (hub_faithful : IsKubeClient hub) (spoke_faithful : IsKubeClient spoke) (namespace cid : Text)
    (ca_cert : Certificate) (issuer : IsIssuer Issued v cid ca_cert) (feature : Text)
    (grants : Grants v host cid feature) (now : Time) (k : SpokeClient) (sets : StringSets)
    (lc : Option LicenseClient) (t : Later less Issued spoke k feature) where
  abbrev DeliveredFrom : Text → Reconciled less v host hub → Type 0
  DeliveredFrom cluster_name (r', s', due, errs) =
      errs ≡ []
      → Delivered less Issued order authority ends v signs host hub spoke hub_faithful
          spoke_faithful namespace cid ca_cert issuer feature grants now k sets lc t
          (key_of cluster_name) s'

  reconcile_claims-Delivered :
      (cluster_name : Text) (r : LicenseAcquirer) (s : hub.State) (found : Text × List Text)
      → CacheSound less Issued now r
      → cid ≢ []
      → found.0 ≡ cid
      → Mem feature found.1
      → Returns
          (DeliveredFrom cluster_name)
          (reconcile_claims less v host hub now r cluster_name s found)
  unfolding reconcile_claims
  reconcile_claims-Delivered cluster_name r s (id, []) cached named e i = absurd (not-mem-nil i)
  reconcile_claims-Delivered cluster_name r s (id, f ∷ features) cached named e i =
      elim (str id [])
        as (λ x. Returns (DeliveredFrom cluster_name) (
          ite x (done (r, s, pos 0, []))
            (reconcile_secret less v host hub now r cluster_name id (f ∷ features) s))) [
              | yes p ↦ absurd (named (ground (arith, p, e)))
              | no n ↦
                  subst
                    (λ id.
                      Returns (DeliveredFrom cluster_name)
                        (reconcile_secret less v host hub now r cluster_name id (f ∷ features) s))
                    (sym e)
                    (reconcile_secret-Delivered less Issued order authority ends v signs host hub
                      spoke hub_faithful spoke_faithful namespace cid ca_cert issuer feature grants
                      now k sets lc t r cluster_name (f ∷ features) s cached i)
            ]

  reconcile-Delivered :
      (request : ObjectKey) (r : LicenseAcquirer) (s : hub.State) (cluster : ManagedCluster)
      (c : k.State) (claim : ClusterClaim)
      → CacheSound less Issued now r
      → cid ≢ []
      → hub.get_managed_cluster s request ≡ ok cluster
      → Shows k c cid cluster.cluster_claims
      → k.get_claim c cluster_claim_license ≡ ok claim
      → Mem feature (split comma claim.value)
      → Returns (DeliveredFrom cluster.name) (reconcile less v host hub now request r s)
  unfolding reconcile
  reconcile-Delivered request r s cluster c claim cached named e shows there i =
      let claims = cluster.cluster_claims in
      let run =
        reconcile_claims-Delivered cluster.name r s (read_claims claims ([], [])) cached named
          (read_claims-uid claims ([], []) (record { name = cluster_claim_cluster_id; value = cid })
            shows.uid_only refl shows.uid_there)
          (subst (Mem feature)
            (sym (
              read_claims-features claims ([], [])
                (record { name = cluster_claim_license; value = claim.value })
                (shows.license_only claim there) refl (shows.license_there claim there)))
            i) in
      record { value = run.value; ends = ground (arith, e, run.ends); holds = run.holds }

  module _ (faithful : IsSpokeClient k) (lawful : IsStringSets sets) (asked : Time) (user : User)
      (c : k.State) where
    -- Suppose that `less` is a strict weak order; issued licenses are active, have an expiry date
    -- that is not Go's zero time and that their ID determines, and have features that their ID and
    -- also their plan determines; the parser accepts issued licenses only, and reads back the
    -- contents of each; the license server gives every acquirer a license that has the feature;
    -- the clients read back the secrets and the claims that they have written; string sets have
    -- the members that their documentation says; the cluster has a UID and the test for a spoke
    -- cluster says yes; the request asks for the feature, and no feature of it has a comma; the
    -- registry is sound and has a book; and Create for an authenticated user ends without an
    -- error. Suppose also that every registry of the acquirer's cache is sound, and that the
    -- managed cluster on the hub has the UID and what the license claim says on the spoke cluster
    -- after Create, and no other value of these names. Then either Create has answered with the
    -- contents of an issued license, whose ID is stored and which the book says the user was given
    -- for the requested features; or Reconcile of the acquirer ends without a panic, and if it
    -- reports no error, the cluster's secret on the hub holds the contents of an issued license
    -- with the feature, which reaches a later user of the spoke cluster as in the theorem on
    -- reconcile of the acquirer.
    pub create-Promised :
        (req : LicenseRequest) (request : LicenseRequestRequest) (r r' : Storage Certificate)
        (c' : k.State) (out : LicenseRequest) (key : ObjectKey) (a : LicenseAcquirer)
        (s : hub.State) (cluster : ManagedCluster)
        → cid ≢ []
        → req.request ≡ some request
        → Mem feature request.features
        → All (IsPlain comma) request.features
        → k.is_open_cluster_spoke c ≡ done true
        → r.reg.rb ≢ none
        → IsSound less Issued asked r.reg
        → create less v k sets asked (some user) req r c ≡ done (r', c', ok out)
        → CacheSound less Issued now a
        → hub.get_managed_cluster s key ≡ ok cluster
        → Shows k c' cid cluster.cluster_claims
        → Granted Issued r'.reg user request.features out
          ⊎ Returns (DeliveredFrom cluster.name) (reconcile less v host hub now key a s)
    create-Promised req request r r' c' out key a s cluster named wanted i plain test book sound run
          cached e shows =
        elim (Returns-at
          (create-Settled less Issued order authority v signs k faithful sets lawful asked c user
            req request r wanted test plain book sound)
          run out refl) [
            | inl given ↦ inl given
            | inr claimed ↦ inr (
                reconcile-Delivered key a s cluster c' claimed.claim cached named e shows
                  claimed.there (claimed.requested feature i))
          ]
