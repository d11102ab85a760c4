-- ===== src/Command.antt =====
-- pkg/cmds: the command `run` (run.go) with the options of the server (server/start.go and
-- NewExtraOptions of server/options.go), and Complete of pkg/apiserver/apiserver.go. The calls of the
-- API server library and of the controller managers are parameters, of which the program sees the
-- error alone.
pub mod Launched
use license_proxyserver.Base.{
  Text, text, List, [], ◌∷◌, ◌++◌, Option, none, some, Bool, false, if◌then◌else◌, Run, done, ◌>>=◌,
  Result, ok, err, Error, wrapped,
}
use license_proxyserver.Api.{License, Time}
use license_proxyserver.Verifier.{Verifier}
use license_proxyserver.Storage.Loader.{FileSystem}
use license_proxyserver.Server.{
  ExtraOptions, ExtraConfig, Platform, LicenseProxyServer, Outcome, started, failed, exited,
  apply_to, start,
}

-- proxyserver.GroupName, the version, and the plural names of the resources
abbrev pub group_name : Text
group_name = text "proxyserver.licenses.appscode.com"

abbrev pub version : Text
version = text "v1alpha1"

abbrev pub resource_license_requests : Text
resource_license_requests = text "licenserequests"

abbrev pub resource_license_statuses : Text
resource_license_statuses = text "licensestatuses"

-- SchemeGroupVersion, as it is printed
abbrev pub scheme_group_version : Text
scheme_group_version = group_name ++ text "/" ++ version

-- the keys of v1alpha1storage
unfoldable pub storages : List Text
storages = resource_license_requests ∷ resource_license_statuses ∷ []

unfoldable pub new_extra_options : ExtraOptions
new_extra_options = record {
  base_url = [];
  token = [];
  ca_file = [];
  insecure_skip_tls_verify = false;
  license_dir = [];
  cache_dir = [];
  hub_kubeconfig = [];
  spoke_cluster_name = [];
}

-- genericoptions.RecommendedOptions: where etcd keeps its objects, and whether the options of etcd and
-- of the admission control are there
pub record RecommendedOptions : Type 0 where
  pub prefix : Text
  pub etcd : Bool
  pub admission : Bool

pub record LicenseProxyServerOptions : Type 0 where
  pub recommended_options : RecommendedOptions
  pub extra_options : ExtraOptions

abbrev pub default_etcd_path_prefix : Text
default_etcd_path_prefix = text "/registry/k8s.appscode.com"

unfoldable pub new_ui_server_options : LicenseProxyServerOptions
unfolding new_extra_options
new_ui_server_options = record {
  recommended_options = record {
    prefix = default_etcd_path_prefix;
    etcd = false;
    admission = false;
  };
  extra_options = new_extra_options;
}

-- What the command calls outside the program.
pub record CommandPlatform : Type 0 where
  -- Validate, MaybeDefaultWithSelfSignedCerts and ApplyTo of the recommended options
  pub validate : RecommendedOptions → List Error
  pub self_signed_certs : Option Error
  pub apply_recommended : RecommendedOptions → Option Error
  -- v.Version.Version
  pub version : Text
  -- what New calls
  pub platform : Platform
  -- Add of the spoke manager, for the API server and for the hub manager
  pub add_server : Option Error
  pub add_hub_manager : Option Error
  -- Start of the spoke manager, until it stops
  pub start : Option Error

-- the parts of the OpenAPI configuration that the program sets
pub record OpenApiConfig : Type 0 where
  pub title : Text
  pub version : Text
  pub ignore_prefixes : List Text

-- apiserver.Config
pub record Config : Type 0 where
  pub open_api : OpenApiConfig
  pub open_api_v3 : OpenApiConfig
  pub extra_config : ExtraConfig

-- ExtraConfig with the client's configuration alone
abbrev pub empty_config : ExtraConfig
empty_config = record {
  base_url = [];
  token = [];
  ca_cert = [];
  insecure_skip_tls_verify = false;
  license_dir = [];
  cache_dir = [];
  hub_kubeconfig = [];
  spoke_cluster_name = [];
}

unfoldable pub ignore_prefixes : List Text
ignore_prefixes =
    text "/swaggerapi"
    ∷ (text "/apis/" ++ scheme_group_version ++ text "/" ++ resource_license_requests)
    ∷ (text "/apis/" ++ scheme_group_version ++ text "/" ++ resource_license_statuses)
    ∷ []

unfoldable pub open_api_config : Text → OpenApiConfig
unfolding ignore_prefixes
open_api_config version = record {
  title = text "proxyserver";
  version = version;
  ignore_prefixes = ignore_prefixes;
}

-- Validate: the errors of both options; ExtraOptions has none.
unfoldable pub validate : CommandPlatform → LicenseProxyServerOptions → List Error
validate p o = p.validate o.recommended_options ++ []

-- LicenseProxyServerOptions.Config
unfoldable pub config : CommandPlatform → FileSystem → LicenseProxyServerOptions → Result Config
unfolding open_api_config apply_to
config p fs o = elim p.self_signed_certs [
  | some e ↦ err (wrapped (text "error creating self-signed certificates") e)
  | none ↦ elim (p.apply_recommended o.recommended_options) [
    | some e ↦ err e
    | none ↦ elim (apply_to fs o.extra_options empty_config) [
      | err e ↦ err e
      | ok extra_config ↦ ok (record {
        open_api = open_api_config p.version;
        open_api_v3 = open_api_config p.version;
        extra_config = extra_config;
      })
    ]
  ]
]

-- Config.Complete, which keeps the configuration of the program as it is
unfoldable pub complete : Config → ExtraConfig
complete c = c.extra_config

-- How the command ends: with errors of the options or of the start, at an exit of the process, or, for
-- a server that was run, with the result of the spoke manager. The server's hub manager runs if it
-- has one.
pub data CommandEnd (Certificate : Type 0) : Type 0 where
  invalid : List Error → CommandEnd Certificate
  failure : Error → CommandEnd Certificate
  exit : CommandEnd Certificate
  ran : Config → LicenseProxyServer Certificate → Option Error → CommandEnd Certificate

-- from the first Add of Run on
unfoldable pub launch :
    {Certificate : Type 0}
    → CommandPlatform
    → Config
    → LicenseProxyServer Certificate
    → CommandEnd Certificate
launch p c server = elim p.add_server [
  | some e ↦ failure e
  | none ↦
      if server.syncs
      then elim p.add_hub_manager [ some e ↦ exit | none ↦ ran c server p.start ]
      else ran c server p.start
]

unfoldable pub launched :
    {Certificate : Type 0} → CommandPlatform → Config → Outcome Certificate → CommandEnd Certificate
unfolding launch
launched p c (started server) = launch p c server
launched p c (failed e) = failure e
launched p c exited = exit

module _ (less : License → License → Bool) {Certificate : Type 0} (v : Verifier Certificate)
    (fs : FileSystem) (now : Time) (p : CommandPlatform) where
  -- LicenseProxyServerOptions.Run
  unfoldable pub run : LicenseProxyServerOptions → Run (CommandEnd Certificate)
  unfolding config complete launched start
  run o = elim (config p fs o) [
    | err e ↦ done (failure e)
    | ok c ↦ start less v fs now p.platform (complete c) >>= λ outcome. done (launched p c outcome)
  ]

  -- the command of NewCmdRun, for the options that its flags give
  unfoldable pub run_command : LicenseProxyServerOptions → Run (CommandEnd Certificate)
  unfolding run validate
  run_command o = elim (validate p o) [ e ∷ es ↦ done (invalid (e ∷ es)) | [] ↦ run o ]
