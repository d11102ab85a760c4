-- ===== src/Acquirer/Series.antt =====
-- The Reconciles of a manager one after the other: each at its time, for its request, with the hub
-- cluster as it is then.
use license_proxyserver.Base.{
  List, [], ◌∷◌, Run, done, ◌>>=◌, Returns, returns, Returns-bind, Returns-map, Result-cases, inl,
  inr,
}
use license_proxyserver.Base.Int.{◌≤ℤ◌}
use license_proxyserver.Api.{License, Time}
use license_proxyserver.Heap.Order.{IsStrictWeak}
use license_proxyserver.Storage.Registry.Sound.{IsAuthority, IsSound-later}
use license_proxyserver.Verifier.{Verifier}
use license_proxyserver.Request.Finding.{Signs}
use license_proxyserver.Kube.{ObjectKey, KubeClient, IsKubeClient}
use license_proxyserver.Acquirer.{Bool, Host, LicenseAcquirer}
use license_proxyserver.Acquirer.Loop.{reconcile}
use license_proxyserver.Acquirer.Cached.{CacheSound}
use license_proxyserver.Acquirer.Refreshing.{EndsLater}
use license_proxyserver.Acquirer.Reconcile.{reconcile-Handled}

pub record Request (k : KubeClient) : Type 0 where
  pub time : Time
  pub key : ObjectKey
  pub hub : k.State

-- The requests come in the order of time.
abbrev pub InOrder : {k : KubeClient} → Time → List (Request k) → Type 0
InOrder now [] = Unit
InOrder now (q ∷ qs) = (now ≤ℤ q.time) × InOrder q.time qs

abbrev pub last_time : {k : KubeClient} → Time → List (Request k) → Time
last_time now [] = now
last_time now (q ∷ qs) = last_time q.time qs

module _ (less : License → License → Bool) {Certificate : Type 0} (v : Verifier Certificate)
    (host : Host) (k : KubeClient) where
  unfoldable pub reconcile_each : List (Request k) → LicenseAcquirer → Run LicenseAcquirer
  unfolding reconcile
  reconcile_each [] r = done r
  reconcile_each (q ∷ qs) r =
      reconcile less v host k q.time q.key r q.hub >>= λ res. reconcile_each qs res.0

module _ (less : License → License → Bool) (Issued : License → Type 0) (order : IsStrictWeak less)
    (authority : IsAuthority Issued) (later : EndsLater Issued) {Certificate : Type 0}
    (v : Verifier Certificate) (signs : Signs v Issued) (host : Host) (k : KubeClient)
    (faithful : IsKubeClient k) where
  reconcile-CacheSound :
      (now : Time) (key : ObjectKey) (r : LicenseAcquirer) (s : k.State)
      → CacheSound less Issued now r
      → Returns (λ res. CacheSound less Issued now res.0) (reconcile less v host k now key r s)
  unfolding reconcile
  reconcile-CacheSound now key r s c = elim (Result-cases (k.get_managed_cluster s key)) [
    | inl (cluster, e) ↦
        Returns-map
          (reconcile-Handled less Issued order authority later v signs host k faithful now key r s
            cluster e c)
          (λ res h. h.sound)
    | inr (failure, e) ↦ rw (e, reconcile) (returns c)
  ]

  pub reconcile_each-CacheSound :
      (qs : List (Request k)) (now : Time) (r : LicenseAcquirer)
      → InOrder now qs
      → CacheSound less Issued now r
      → Returns
          (λ r'. CacheSound less Issued (last_time now qs) r')
          (reconcile_each less v host k qs r)
  unfolding reconcile_each
  reconcile_each-CacheSound [] now r o c = returns c
  reconcile_each-CacheSound (q ∷ qs) now r (before, o) c =
      Returns-bind
        (reconcile-CacheSound q.time q.key r q.hub
          (λ cid reg e. IsSound-later less Issued now q.time reg before (c cid reg e)))
        (λ res c'. reconcile_each-CacheSound qs q.time res.0 o c')
