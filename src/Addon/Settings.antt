-- ===== src/Addon/Settings.antt =====
-- What GetConfigValues reads, and the values that it is to give for that.
use license_proxyserver.Base.{
  Mem, is_not_found, Bool-cases, ◌≢◌, inr, inl, Result-cases, All, ◌++◌, wrapped, ℕ_discrete,
  if◌then◌else◌, Text, str, text, List, [], ◌∷◌, Option, none, some, Bool, true, false, ite, Result,
  ok, err, ◌≡◌, refl,
}
use license_proxyserver.Base.Dict
use license_proxyserver.Base.Base64.{encode_to_string}
use license_proxyserver.Kube.{ManagedCluster, ManagedClusterClaim, KubeClient}
use license_proxyserver.Storage.Loader.{FileSystem}
use license_proxyserver.Syncer.{license_secret}
use license_proxyserver.Addon.{ManagerOptions}
use license_proxyserver.Addon.Chart.{
  lookup, Value, nil, boolean, string, object, Fields, FieldPath, ChartLibrary,
}
use license_proxyserver.Addon.Config.{
  Sources, ca_cert_name, server_cert_name, hub_kubeconfig_secret_name, license_values, contains,
}
use license_proxyserver.Addon.Written.{or_else, aside, Setting}

-- What the options and the environment give.
pub record Inputs : Type 0 where
  pub ca_crt : Text
  pub ca_key : Text
  pub crt : Text
  pub key : Text
  pub chart_bytes : Text
  pub chart : Fields
  pub ca_bundle : Option Text
  pub managers : List Text
  pub licenses : Option (List (Text × Text))

abbrev pub given : Text → Option Value
given t = ite (str t []) none (some (string t))

abbrev pub flagged : Bool → Value → Option Value
flagged false v = none
flagged true v = some v

abbrev pub option_map : {A : Type 0} → (A → Value) → Option A → Option Value
option_map f none = none
option_map f (some a) = some (f a)

abbrev pub option_settings : ManagerOptions → Option Text → List Setting
option_settings opts ca_bundle =
    (text "registryFQDN" ∷ [], given opts.registry_fqdn)
    ∷ (text "platform" ∷ text "baseURL" ∷ [], given opts.base_url)
    ∷ (text "platform" ∷ text "caBundle" ∷ [], option_map string ca_bundle)
    ∷ (
      text "platform" ∷ text "insecureSkipTLSVerify" ∷ [],
      flagged opts.insecure_skip_tls_verify (boolean true),
    )
    ∷ (text "platform" ∷ text "token" ∷ [], given opts.token)
    ∷ []

abbrev pub name_settings : Text → List Setting
name_settings cluster_name =
    (text "hubKubeconfigSecretName" ∷ [], some (string hub_kubeconfig_secret_name))
    ∷ (text "imagePullPolicy" ∷ [], some (string (text "Always")))
    ∷ (text "clusterName" ∷ [], some (string cluster_name))
    ∷ []

abbrev pub security_settings : Bool → List Setting
security_settings on_open_shift =
    (text "image" ∷ text "securityContext" ∷ text "runAsUser" ∷ [], flagged on_open_shift nil)
    ∷ (text "podSecurityContext" ∷ text "fsGroup" ∷ [], flagged on_open_shift nil)
    ∷ []

abbrev pub license_settings : Option (List (Text × Text)) → List Setting
license_settings licenses =
    (text "licenses" ∷ [], option_map (λ m. object (license_values m)) licenses) ∷ []

abbrev pub bundle_of : Result Text → Result (Option Text)
bundle_of (err e) = err e
bundle_of (ok bytes) = ok (some bytes)

-- the custom CA certificate, if there is one
abbrev pub read_ca_bundle : FileSystem → Text → Result (Option Text)
read_ca_bundle fs ca_file = ite (str ca_file []) (ok none) (bundle_of (fs.read_file ca_file))

abbrev pub bundle_settings : Option Text → List Setting
bundle_settings b = (text "platform" ∷ text "caBundle" ∷ [], option_map string b) ∷ []

abbrev pub read_managers : ChartLibrary → List ManagedClusterClaim → Result (List Text)
read_managers c [] = ok []
read_managers c (claim ∷ claims) =
    ite (str claim.name c.cluster_claim_key_info) (c.unmarshal_info claim.value)
      (read_managers c claims)

-- the fields that the function writes
abbrev pub settings : ChartLibrary → ManagerOptions → Text → Inputs → List Setting
settings c opts cluster_name i =
    option_settings opts i.ca_bundle
    ++ name_settings cluster_name
    ++ security_settings (contains i.managers c.open_shift)
    ++ license_settings i.licenses

-- the fields of the certificates, under `apiserver.servingCerts`
abbrev pub certificates : Inputs → List (Text × Value)
certificates i =
    (text "generate", boolean false)
    ∷ (text "caCrt", string (encode_to_string i.ca_crt))
    ∷ (text "serverCrt", string (encode_to_string i.crt))
    ∷ (text "serverKey", string (encode_to_string i.key))
    ∷ []

-- The licenses that the acquirer saved for the cluster; a secret that is missing has none.
pub data LicensesRead (k : KubeClient) (s : k.State) (cluster_name : Text)
    : Option (List (Text × Text)) → Type 0 where
  missing :
      (e : license_proxyserver.Base.Error)
      → k.get_secret s (record { namespace = cluster_name; name = license_secret }) ≡ err e
      → license_proxyserver.Base.is_not_found e ≡ true
      → LicensesRead k s cluster_name none
  found :
      (sec : license_proxyserver.Kube.Secret)
      → k.get_secret s (record { namespace = cluster_name; name = license_secret }) ≡ ok sec
      → LicensesRead k s cluster_name sec.data_map

-- what the function reads for a cluster
pub record IsRead (c : ChartLibrary) (k : KubeClient) (from : Sources) (opts : ManagerOptions)
    (s : k.State) (cluster : ManagedCluster) (i : Inputs) : Type 0 where
  pub ca_read : from.read_bytes ca_cert_name ≡ ok (i.ca_crt, i.ca_key)
  pub crt_read : from.read_bytes server_cert_name ≡ ok (i.crt, i.key)
  pub file_read :
      from.embedded (text "agent-manifests/license-proxyserver/values.yaml") ≡ ok i.chart_bytes
  pub chart_read : c.unmarshal i.chart_bytes ≡ ok i.chart
  pub bundle_read : read_ca_bundle from.files opts.ca_file ≡ ok i.ca_bundle
  pub managers_read : read_managers c cluster.cluster_claims ≡ ok i.managers
  pub licenses_read : LicensesRead k s cluster.name i.licenses

-- the fields of the user and of the group
abbrev pub id_paths : List FieldPath
id_paths =
    (text "image" ∷ text "securityContext" ∷ text "runAsUser" ∷ [])
    ∷ (text "podSecurityContext" ∷ text "fsGroup" ∷ [])
    ∷ []

-- The values are those of the chart, the certificates and the fields that the function writes.
pub record Configured (c : ChartLibrary) (k : KubeClient) (from : Sources) (opts : ManagerOptions)
    (s : k.State) (cluster : ManagedCluster) (vals : Fields) : Type 0 where
  pub inputs : Inputs
  pub read : IsRead c k from opts s cluster inputs
  pub set :
      All
        (λ t. lookup vals t.0 ≡ or_else t.1 (lookup inputs.chart t.0))
        (settings c opts cluster.name inputs)
  pub certified :
      All
        (λ t. lookup vals (text "apiserver" ∷ text "servingCerts" ∷ t.0 ∷ []) ≡ some t.1)
        (certificates inputs)
  -- The user and the group are unset just if OpenShift is one of the cluster's managers.
  pub ids_unset :
      Mem c.open_shift inputs.managers → All (λ path. lookup vals path ≡ some nil) id_paths
  pub ids_kept :
      ¬ (Mem c.open_shift inputs.managers)
      → All (λ path. lookup vals path ≡ lookup inputs.chart path) id_paths
  -- Under `licenses` there is every entry of the secret.
  pub licensed :
      (m : List (Text × Text)) (key : Text)
      → inputs.licenses ≡ some m
      → lookup vals (text "licenses" ∷ key ∷ []) ≡ option_map string (Dict.lookup str key m)
  pub kept :
      (name : Text) (path : FieldPath)
      → name ≢ text "apiserver"
      → aside (name ∷ path) (settings c opts cluster.name inputs) ≡ true
      → lookup vals (name ∷ path) ≡ lookup inputs.chart (name ∷ path)
