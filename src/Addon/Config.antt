-- ===== src/Addon/Config.antt =====
-- pkg/manager/config.go: GetConfigValues.
use license_proxyserver.Base.{
  Text, str, text, List, [], ◌∷◌, none, some, Bool, true, false, ite, if◌then◌else◌, Result, ok,
  err, wrapped, is_not_found,
}
use license_proxyserver.Base.Fallible.{◌>>=◌}
use license_proxyserver.Base.Base64.{encode_to_string}
use license_proxyserver.Kube.{ManagedCluster, ManagedClusterClaim, KubeClient}
use license_proxyserver.Storage.Loader.{FileSystem}
use license_proxyserver.Syncer.{license_secret}
use license_proxyserver.Addon.{ManagerOptions}
use license_proxyserver.Addon.Chart.{
  Value, nil, boolean, string, object, Fields, end, field, FieldPath, ChartLibrary,
}

-- common.CACertName, common.ServerCertName and common.HubKubeconfigSecretName
abbrev pub ca_cert_name : Text
ca_cert_name = text "ca"

abbrev pub server_cert_name : Text
server_cert_name = text "tls"

abbrev pub hub_kubeconfig_secret_name : Text
hub_kubeconfig_secret_name = text "license-proxyserver-hub-kubeconfig"

-- What the function reads: the certificate store's ReadBytes, which gives a certificate and its key,
-- the files that are embedded in the program, and those of the host.
pub record Sources : Type 0 where
  pub read_bytes : Text → Result (Text × Text)
  pub embedded : Text → Result Text
  pub files : FileSystem

abbrev pub only : Text → Value → Value
only k v = object (field k v end)

-- the values that replace those of the chart
unfoldable pub override_values : Text → Text → Text → Fields
override_values ca_crt crt key =
    field (text "apiserver")
      (only (text "servingCerts") (
        object (
          field (text "generate") (boolean false) (
            field (text "caCrt") (string (encode_to_string ca_crt)) (
              field (text "serverCrt") (string (encode_to_string crt))
                (field (text "serverKey") (string (encode_to_string key)) end))))))
      end

-- a copy of the secret's entries
unfoldable pub license_values : List (Text × Text) → Fields
license_values [] = end
license_values ((key, value) ∷ m) = field key (string value) (license_values m)

-- slices.Contains
unfoldable pub contains : List Text → Text → Bool
contains [] x = false
contains (y ∷ l) x = ite (str y x) true (contains l x)

module _ (c : ChartLibrary) where
  -- a string option, unless it is empty
  unfoldable pub set_option : Text → FieldPath → Fields → Result Fields
  set_option value path vals =
      ite (str value []) (ok vals) (c.set_nested_field vals (string value) path)

  unfoldable pub set_ca_bundle : FileSystem → Text → Fields → Result Fields
  set_ca_bundle fs ca_file vals = ite (str ca_file []) (ok vals) (elim (fs.read_file ca_file) [
    | err e ↦ err (wrapped (text "failed to read CA file") e)
    | ok ca_cert ↦ c.set_nested_field vals (string ca_cert) (text "platform" ∷ text "caBundle" ∷ [])
  ])

  unfoldable pub set_options : FileSystem → ManagerOptions → Fields → Result Fields
  unfolding set_option set_ca_bundle
  set_options fs opts vals = do
    vals ← set_option opts.registry_fqdn (text "registryFQDN" ∷ []) vals
    vals ← set_option opts.base_url (text "platform" ∷ text "baseURL" ∷ []) vals
    vals ← set_ca_bundle fs opts.ca_file vals
    vals ←
        if opts.insecure_skip_tls_verify
        then c.set_nested_field vals (boolean true)
            (text "platform" ∷ text "insecureSkipTLSVerify" ∷ [])
        else ok vals
    set_option opts.token (text "platform" ∷ text "token" ∷ []) vals

  unfoldable pub set_names : Text → Fields → Result Fields
  set_names cluster_name vals = do
    vals ←
        c.set_nested_field vals (string hub_kubeconfig_secret_name)
          (text "hubKubeconfigSecretName" ∷ [])
    vals ← c.set_nested_field vals (string (text "Always")) (text "imagePullPolicy" ∷ [])
    c.set_nested_field vals (string cluster_name) (text "clusterName" ∷ [])

  -- OpenShift picks the user and the group itself.
  unfoldable pub unset_ids : Fields → Result Fields
  unset_ids vals = do
    vals ←
        c.set_nested_field vals nil (text "image" ∷ text "securityContext" ∷ text "runAsUser" ∷ [])
    c.set_nested_field vals nil (text "podSecurityContext" ∷ text "fsGroup" ∷ [])

  -- the loop over the cluster's claims, up to the one that has the cluster's data
  unfoldable pub set_security : List ManagedClusterClaim → Fields → Result Fields
  unfolding unset_ids contains
  set_security [] vals = ok vals
  set_security (claim ∷ claims) vals =
      let rest = set_security claims vals in
      ite (str claim.name c.cluster_claim_key_info)
        (do
          managers ← c.unmarshal_info claim.value
          if contains managers c.open_shift then unset_ids vals else ok vals)
        rest

  module _ (k : KubeClient) where
    unfoldable pub set_licenses : k.State → Text → Fields → Result Fields
    unfolding license_values
    set_licenses s cluster_name vals =
        elim (k.get_secret s (record { namespace = cluster_name; name = license_secret })) [
          | err e ↦ if is_not_found e then ok vals else err e
          | ok sec ↦ elim sec.data_map [
            | none ↦ ok vals
            | some m ↦ c.set_nested_field vals (object (license_values m)) (text "licenses" ∷ [])
          ]
        ]

    -- the function that GetConfigValues returns
    unfoldable pub get_config_values :
        Sources → ManagerOptions → k.State → ManagedCluster → Result Fields
    unfolding override_values set_options set_names set_security set_licenses
    get_config_values from opts s cluster = do
      (ca_crt, ca_key) ← from.read_bytes ca_cert_name
      (crt, key) ← from.read_bytes server_cert_name
      bytes ← from.embedded (text "agent-manifests/license-proxyserver/values.yaml")
      values ← c.unmarshal bytes
      vals ← set_options from.files opts (c.merge_values values (override_values ca_crt crt key))
      vals ← set_names cluster.name vals
      vals ← set_security cluster.cluster_claims vals
      set_licenses s cluster.name vals
