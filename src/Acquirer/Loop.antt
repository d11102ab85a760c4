-- ===== src/Acquirer/Loop.antt =====
-- pkg/manager/license_acquirer.go: reconcile, its loop over the features, and Reconcile.
use license_proxyserver.Base.{
  Text, str, List, [], ◌∷◌, ◌++◌, Option, none, some, Bool, true, false, ◌||◌, ite, if◌then◌else◌,
  Run, done, deref, ◌>>=◌, Result, ok, err, Error, is_not_found,
}
use license_proxyserver.Base.Dict
use license_proxyserver.Base.Int.{pos, ltb_ℤ, ◌-ℤ◌}
use license_proxyserver.Api.{License, LicenseState, Time}
use license_proxyserver.Clock.{is_zero, Duration, until}
use license_proxyserver.Kube.{ObjectKey, Secret, entries, KubeClient}
use license_proxyserver.Verifier.{Verifier}
use license_proxyserver.Storage.Registry.{LicenseRegistry, add, license_for_feature}
use license_proxyserver.Syncer.{license_secret}
use license_proxyserver.Acquirer.{
  ttl, LicenseAcquirer, Host, as_certificate_invalid, read_claims, get_license_registry,
  get_new_license,
}

-- what the loop of reconcile changes
pub record Refresh : Type 0 where
  pub reg : LicenseRegistry
  -- sec.Data
  pub files : List (Text × Text)
  pub earliest_expired : Time
  pub err_list : List (Option Error)

abbrev pub is_active : LicenseState → Bool
is_active LicenseState.active = true
is_active _ = false

-- `if l != nil && l.Status == v1alpha1.LicenseActive`
unfoldable pub use_license : Option License → Refresh → Run Refresh
use_license none st = done st
use_license (some l) st =
    let used = do
      not_after ← deref l.not_after
      done (record st {
        files = Dict.insert str l.plan_name l.contents st.files;
        earliest_expired =
            if is_zero st.earliest_expired || ltb_ℤ not_after st.earliest_expired
            then not_after
            else st.earliest_expired;
      })
    in if is_active l.status then used else done st

-- utilerrors.NewAggregate: the errors of the aggregate, and none for a nil one
unfoldable pub new_aggregate : List (Option Error) → List Error
new_aggregate [] = []
new_aggregate (none ∷ errs) = new_aggregate errs
new_aggregate (some e ∷ errs) = e ∷ new_aggregate errs

unfoldable pub requeue_after : Time → Time → Duration
unfolding ttl
requeue_after now earliest = if is_zero earliest then pos 0 else until now (earliest -ℤ ttl)

module _ (less : License → License → Bool) {Certificate : Type 0} (v : Verifier Certificate)
    (host : Host) (k : KubeClient) where
  -- the license for one feature, from the registry or the license server
  unfoldable pub obtain :
      Time → LicenseAcquirer → Text → Text → Refresh → Run (Refresh × Option License)
  unfolding get_new_license as_certificate_invalid
  obtain now r cid feature st = license_for_feature less now st.reg feature >>= λ (reg, found).
      elim found [
        | some l ↦ done (record st { reg = reg }, some l)
        | none ↦ elim (get_new_license v host r cid (feature ∷ [])) [
          | ok (l, c) ↦ do
            expiry ← deref l.not_after
            reg' ← add less reg l c
            done (record st { reg = reg' }, some l)
          | err e ↦ done (
            record st {
              reg = reg;
              err_list =
                  if as_certificate_invalid e then st.err_list else st.err_list ++ some e ∷ [];
            },
            none,
          )
        ]
      ]

  -- the loop over the features
  unfoldable pub refresh : Time → LicenseAcquirer → Text → List Text → Refresh → Run Refresh
  unfolding obtain use_license
  refresh now r cid [] st = done st
  refresh now r cid (feature ∷ features) st =
      obtain now r cid feature st >>= λ (st, l). use_license l st >>= refresh now r cid features

  abbrev pub Reconciled : Type 0
  Reconciled = LicenseAcquirer × k.State × Duration × List Error

  -- reconcile from the loop on: the secret was looked up, and the registry was got
  unfoldable pub save_from :
      Time
      → Text
      → List Text
      → k.State
      → Bool
      → Secret
      → LicenseAcquirer × Result LicenseRegistry
      → Run Reconciled
  unfolding refresh new_aggregate requeue_after
  save_from now cid features s exists sec (r, err e) = done (r, s, pos 0, e ∷ [])
  save_from now cid features s exists sec (r, ok reg) = do
    st ← refresh now r cid features (record {
      reg = reg;
      files = entries sec.data_map;
      earliest_expired = pos 0;
      err_list = [];
    })
    let new = record sec { data_map = some st.files }
    let (s', e) = if exists then k.update_secret s new else k.create_secret s new
    done (
      record r { license_cache = Dict.insert str cid st.reg r.license_cache },
      s',
      requeue_after now st.earliest_expired,
      new_aggregate (st.err_list ++ e ∷ []),
    )

  unfoldable pub save :
      Time → LicenseAcquirer → Text → List Text → k.State → Bool → Secret → Run Reconciled
  unfolding save_from get_license_registry
  save now r cid features s exists sec =
      save_from now cid features s exists sec (get_license_registry host cid r)

  unfoldable pub reconcile_secret :
      Time → LicenseAcquirer → Text → Text → List Text → k.State → Run Reconciled
  unfolding save
  reconcile_secret now r cluster_name cid features s =
      let key : ObjectKey = record { namespace = cluster_name; name = license_secret } in
      elim (k.get_secret s key) [
        | ok sec ↦ save now r cid features s true sec
        | err e ↦
            let new = save now r cid features s false (record { key = key; data_map = none }) in
            if is_not_found e then new else done (r, s, pos 0, e ∷ [])
      ]

  -- `if cid != "" && len(features) > 0`, for the claims that were read
  unfoldable pub reconcile_claims :
      Time → LicenseAcquirer → Text → k.State → Text × List Text → Run Reconciled
  unfolding reconcile_secret
  reconcile_claims now r cluster_name s (cid, []) = done (r, s, pos 0, [])
  reconcile_claims now r cluster_name s (cid, feature ∷ features) =
      let claimed = reconcile_secret now r cluster_name cid (feature ∷ features) s in
      ite (str cid []) (done (r, s, pos 0, [])) claimed

  -- Reconcile
  unfoldable pub reconcile : Time → ObjectKey → LicenseAcquirer → k.State → Run Reconciled
  unfolding read_claims reconcile_claims
  reconcile now request r s = elim (k.get_managed_cluster s request) [
    | err e ↦ done (r, s, pos 0, e ∷ [])
    | ok cluster ↦
        reconcile_claims now r cluster.name s (read_claims cluster.cluster_claims ([], []))
  ]
