-- ===== src/Acquirer/Reconciled.antt =====
-- The secret that reconcile writes for a managed cluster.

use license_proxyserver.Base.{
  Text, List, [], none, Bool, true, false, Bool-cases, ◌≡◌, inl, inr, arith, Returns, returns,
  Returns-bind, Result, ok, err, Error, is_not_found, Result-cases,
}
use license_proxyserver.Api.{License, Time}
use license_proxyserver.Clock.{Duration}
use license_proxyserver.Heap.Order.{IsStrictWeak}
use license_proxyserver.Storage.Registry.{LicenseRegistry}
use license_proxyserver.Storage.Registry.Sound.{IsAuthority}
use license_proxyserver.Verifier.{Verifier}
use license_proxyserver.Request.Finding.{Signs}
use license_proxyserver.Kube.{ObjectKey, Secret, KubeClient, IsKubeClient}
use license_proxyserver.Syncer.{license_secret}
use license_proxyserver.Acquirer.{Host, LicenseAcquirer, get_new_license, get_license_registry}
use license_proxyserver.Acquirer.Saving.{Saved, finish}
use license_proxyserver.Acquirer.Loop.{save_from, save, reconcile_secret}
use license_proxyserver.Acquirer.Refreshing.{EndsLater, refresh-Step}
use license_proxyserver.Acquirer.Cached.{
  CacheSound, insert-CacheSound, IsReady, get_license_registry-IsReady,
}

module _ (less : License → License → Bool) (Issued : License → Type 0) (order : IsStrictWeak less)
    (authority : IsAuthority Issued) (later : EndsLater Issued) {Certificate : Type 0}
    (v : Verifier Certificate) (signs : Signs v Issued) (host : Host) (k : KubeClient)
    (faithful : IsKubeClient k) (now : Time) (cid : Text) where
  -- what reconcile leaves: the cache, and the secret if there is no error
  abbrev pub Ends :
      LicenseAcquirer
      → List Text
      → Secret
      → LicenseAcquirer × k.State × Duration × List Error
      → Type 0
  Ends r features old (r', s', due, errs) =
      CacheSound less Issued now r'
      × (errs ≡ []
          → Saved less Issued order authority later v signs host k faithful now cid r features old
              s' due)

  save_from-Ends :
      (features : List Text) (s : k.State) (exists : Bool) (sec : Secret)
      (found : LicenseAcquirer × Result LicenseRegistry)
      → IsReady less Issued now host cid found
      → Returns
          (λ res. Ends res.0 features sec res)
          (save_from less v host k now cid features s exists sec found)
  unfolding save_from get_new_license
  save_from-Ends features s exists sec (r, err e) c = returns (c, λ h. absurd (ground (arith, h)))
  save_from-Ends features s exists sec (r, ok reg) (c, sound) =
      Returns-bind
        (refresh-Step less Issued order authority later v signs host k now r cid features _ sound)
        λ st (p, all). returns (
          insert-CacheSound less Issued now host cid r st.reg c p.sound,
          λ h.
              finish less Issued order authority later v signs host k faithful now cid r _ features
                s exists sec st reg p all h,
        )

  save-Ends :
      (r : LicenseAcquirer) (features : List Text) (s : k.State) (exists : Bool) (sec : Secret)
      → CacheSound less Issued now r
      → Returns
          (λ res. Ends res.0 features sec res)
          (save less v host k now r cid features s exists sec)
  unfolding save
  save-Ends r features s exists sec c =
      save_from-Ends features s exists sec (get_license_registry host cid r)
        (get_license_registry-IsReady less Issued now host cid r c)

  -- the secret of the cluster before: none for a nil map
  abbrev pub before : k.State → ObjectKey → Secret
  before s key = elim (k.get_secret s key) [
    | ok sec ↦ sec
    | err e ↦ record { key = key; data_map = none }
  ]

  abbrev pub secret_key : Text → ObjectKey
  secret_key cluster_name = record { namespace = cluster_name; name = license_secret }

  -- If `less` is a strict weak order, issued licenses have an expiry date that their ID determines
  -- and that is not Go's zero time, the parser accepts issued licenses only, the client reads back
  -- the secrets that it has written, and every registry of the cache is sound, then reconcile ends
  -- without a panic and every registry of the cache is again sound. If it reports no error, the
  -- secret of the cluster is there; each entry of it is as it was before, or holds the contents of
  -- an issued, active license of the plan that names the entry, and the next reconcile is due no
  -- later than when this license has `ttl` left; and each requested feature has an issued license,
  -- which has the feature or is what the license server gave for it, and if this license is
  -- active, the entry of its plan holds such a license, or the license server's error for the
  -- feature is the one that the acquirer drops.
  pub reconcile_secret-Ends :
      (r : LicenseAcquirer) (cluster_name : Text) (features : List Text) (s : k.State)
      → CacheSound less Issued now r
      → Returns
          (λ res. Ends res.0 features (before s (secret_key cluster_name)) res)
          (reconcile_secret less v host k now r cluster_name cid features s)
  unfolding reconcile_secret
  reconcile_secret-Ends r cluster_name features s c =
      elim (Result-cases (k.get_secret s (secret_key cluster_name))) [
        | inl (sec, e) ↦ rw (e, reconcile_secret, before) (save-Ends r features s true sec c)
        | inr (e, missing) ↦ elim (Bool-cases (is_not_found e)) [
          | inl none_yet ↦
              rw (missing, reconcile_secret, before, none_yet)
                (save-Ends r features s false
                  (record { key = secret_key cluster_name; data_map = none }) c)
          | inr failed ↦
              rw (missing, reconcile_secret, before, failed)
                (returns (c, λ h. absurd (ground (arith, h))))
        ]
      ]
