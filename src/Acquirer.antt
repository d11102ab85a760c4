-- ===== src/Acquirer.antt =====
-- pkg/manager/license_acquirer.go: for a managed cluster, the manager keeps a secret on the hub
-- cluster with a license for each feature that the cluster claims. A Reconcile runs at one reading of
-- the clock; the registry that it works on stays in the cache.
pub mod Loop
pub mod Requeue
pub mod Obtaining
pub mod Refreshing
pub mod Cached
pub mod Saving
pub mod Reconciled
pub mod Reconcile
pub mod Series
pub mod Claims
use license_proxyserver.Base.{
  zero, Text, str, text, List, [], ◌∷◌, ◌++◌, Option, none, some, Bool, true, false, not, ◌&&◌,
  ◌||◌, ite, if◌then◌else◌, Run, done, deref, ◌>>=◌, Result, ok, err, Error, message, bad_request,
  not_found, certificate_invalid, certificate_invalid_pointer, wrapped, is_not_found,
}
use license_proxyserver.Base.Dict
use license_proxyserver.Base.Int.{ℤ, pos, negsuc, ltb_ℤ, ◌+ℤ◌, ◌-ℤ◌}
use license_proxyserver.Base.Split.{split}
use license_proxyserver.Api.{License, LicenseState, Contract, Time}
use license_proxyserver.Clock.{Duration, until, license_acquisition_buffer, min_remaining_life}
use license_proxyserver.Kube.{
  ObjectKey, Secret, entries, ManagedCluster, ManagedClusterClaim, KubeClient,
}
use license_proxyserver.Verifier.{Verifier, LicenseClient}
use license_proxyserver.Storage.Registry.{
  LicenseRegistry, new_license_registry, join, add, license_for_feature,
}
use license_proxyserver.Request.{comma, cluster_claim_license}
use license_proxyserver.Syncer.{license_secret}

unfoldable pub ttl : Duration
unfolding ◌+ℤ◌
ttl = license_acquisition_buffer +ℤ min_remaining_life

pub record LicenseAcquirer : Type 0 where
  pub base_url : Text
  pub token : Text
  pub ca_cert : Text
  pub insecure_skip_tls_verify : Bool
  pub cache_dir : Text
  pub license_cache : List (Text × LicenseRegistry)

-- What the acquirer calls outside the program.
pub record Host : Type 0 where
  -- os.MkdirAll
  pub mkdir_all : Text → Option Error
  -- NewClient of the license server: its URL, the token, the cluster's UID, the CA certificate, whether
  -- TLS is not verified, and the user agent
  pub new_client : Text → Text → Text → Text → Bool → Text → Result LicenseClient
  -- `license-proxyserver-manager/` and the version
  pub user_agent : Text

-- common.ClusterClaimClusterID
abbrev pub cluster_claim_cluster_id : Text
cluster_claim_cluster_id = text "id.k8s.io"

-- errors.As with a target of type `*x509.CertificateInvalidError`
unfoldable pub as_certificate_invalid : Error → Bool
as_certificate_invalid (message _) = false
as_certificate_invalid (bad_request _) = false
as_certificate_invalid (not_found _) = false
as_certificate_invalid certificate_invalid = false
as_certificate_invalid certificate_invalid_pointer = true
as_certificate_invalid (wrapped _ e) = as_certificate_invalid e

-- the loop over the claims of the cluster: its UID and the features
unfoldable pub read_claims : List ManagedClusterClaim → Text × List Text → Text × List Text
read_claims [] found = found
read_claims (claim ∷ claims) (cid, features) = read_claims claims (
    ite (str claim.name cluster_claim_cluster_id) (claim.value, features)
      (ite (str claim.name cluster_claim_license) (cid, split comma claim.value) (cid, features)))

-- `r.LicenseCache[cid]`, or a new registry in a directory of its own
unfoldable pub get_license_registry :
    Host → Text → LicenseAcquirer → LicenseAcquirer × Result LicenseRegistry
unfolding join new_license_registry
get_license_registry host cid r = elim (Dict.lookup str cid r.license_cache) [
  | some reg ↦ (r, ok reg)
  | none ↦
      let dir = join r.cache_dir cid in
      elim (host.mkdir_all dir) [
        | some e ↦ (r, err e)
        | none ↦
            let reg = new_license_registry dir ttl none in
            (record r { license_cache = Dict.insert str cid reg r.license_cache }, ok reg)
      ]
]

module _ {Certificate : Type 0} (v : Verifier Certificate) (host : Host) where
  -- the certificates and the parser, for the bytes of a license
  unfoldable pub parse_new : Text → Text → Option Contract → Result (License × Option Contract)
  parse_new cid lbytes con = elim v.load_license_ca [
    | err e ↦ err e
    | ok ca_data ↦ elim (v.parse_certificate ca_data) [
      | err e ↦ err e
      | ok ca_cert ↦ elim (v.parse_license cid ca_cert lbytes) [
        | err e ↦ err e
        | ok l ↦ ok (l, con)
      ]
    ]
  ]

  unfoldable pub get_new_license :
      LicenseAcquirer → Text → List Text → Result (License × Option Contract)
  unfolding parse_new
  get_new_license r cid features =
      elim (host.new_client r.base_url r.token cid r.ca_cert r.insecure_skip_tls_verify
        host.user_agent) [
          | err e ↦ err e
          | ok lc ↦ elim (lc features) [
            | err e ↦ err e
            | ok (lbytes, con) ↦ parse_new cid lbytes con
          ]
        ]
