-- ===== src/Syncer.antt =====
-- pkg/controllers/secret/license_syncer.go: the licenses of the hub cluster's secret are added to the
-- registry, and the secret is copied to the spoke cluster. `namespace` is common.Namespace().
pub mod Synced
use license_proxyserver.Base.{
  Text, text, List, [], ◌∷◌, Option, none, some, Bool, Run, done, ◌>>=◌, Result, ok, err, Error,
}
use license_proxyserver.Api.{License, Time}
use license_proxyserver.Verifier.{Verifier}
use license_proxyserver.Kube.{ObjectKey, Secret, entries, VerbType, KubeClient}
use license_proxyserver.Storage.Registry.{LicenseRegistry}
use license_proxyserver.Storage.Loader.{add_lasting}

-- common.LicenseSecret
abbrev pub license_secret : Text
license_secret = text "license-proxyserver-licenses"

-- the key of the secret on the spoke cluster
abbrev pub dst_key : Text → ObjectKey
dst_key namespace = record { namespace = namespace; name = license_secret }

-- `in.Data = src.Data`
unfoldable pub copy_data : Secret → Secret → Secret
copy_data src secret = record secret { data_map = src.data_map }

module _ (less : License → License → Bool) {Certificate : Type 0} (v : Verifier Certificate)
    (hub spoke : KubeClient) (namespace cluster_id : Text) (ca_cert : Certificate) where
  unfoldable pub add_license : Time → LicenseRegistry → Text → Run (LicenseRegistry × Option Error)
  unfolding add_lasting
  add_license now reg bytes = elim (v.parse_license cluster_id ca_cert bytes) [
    | err e ↦ done (reg, some e)
    | ok l ↦ add_lasting less now reg l >>= λ reg. done (reg, none)
  ]

  -- the loop over the entries of the secret
  unfoldable pub add_licenses :
      Time → LicenseRegistry → List (Text × Text) → Run (LicenseRegistry × Option Error)
  unfolding add_license
  add_licenses now reg [] = done (reg, none)
  add_licenses now reg ((_, bytes) ∷ rest) = add_license now reg bytes >>= λ (reg, e). elim e [
    | some failed ↦ done (reg, some failed)
    | none ↦ add_licenses now reg rest
  ]

  -- Reconcile: the registry, the state of the spoke cluster, and the error if there is one
  unfoldable pub reconcile :
      Time
      → ObjectKey
      → hub.State
      → LicenseRegistry
      → spoke.State
      → Run (LicenseRegistry × spoke.State × Option Error)
  unfolding add_licenses copy_data
  reconcile now request h reg s = elim (hub.get_secret h request) [
    | err e ↦ done (reg, s, some e)
    | ok src ↦ add_licenses now reg (entries src.data_map) >>= λ (reg, e). elim e [
      | some failed ↦ done (reg, s, some failed)
      | none ↦
          let (s', res) = spoke.create_or_patch s (dst_key namespace) (copy_data src) in
          done (reg, s', elim res [ ok kt ↦ none | err e ↦ some e ])
    ]
  ]
