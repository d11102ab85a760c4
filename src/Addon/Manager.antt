-- ===== src/Addon/Manager.antt =====
-- pkg/manager/manager.go: the set-up of the addon manager, and Namespace of pkg/common/constants.go.
-- The calls of the frameworks are parameters, of which the program sees the error alone.
use license_proxyserver.Base.{
  Text, str, text, List, [], ◌∷◌, ◌++◌, Option, none, some, Bool, true, ite, Run, Result, ok, err,
  Error, wrapped,
}
use license_proxyserver.Base.Int.{pos}
use license_proxyserver.Clock.{Duration}
use license_proxyserver.Kube.{ObjectKey, ManagedCluster, KubeClient}
use license_proxyserver.SecretFs.{SecretFs, new}
use license_proxyserver.Permission.{HubClient, ManagedClusterAddOn, addon_name, setup_permission}
use license_proxyserver.Prober.{FeedbackValue, health_check}
use license_proxyserver.Acquirer.{LicenseAcquirer}
use license_proxyserver.Addon.{ManagerOptions}
use license_proxyserver.Storage.Loader.{FileSystem}
use license_proxyserver.Addon.Chart.{Fields, ChartLibrary}
use license_proxyserver.Addon.Config.{Sources, server_cert_name, get_config_values}

-- the names of pkg/common
abbrev pub agent_name : Text
agent_name = text "license-proxyserver"

abbrev pub agent_manifests_dir : Text
agent_manifests_dir = text "agent-manifests/license-proxyserver"

abbrev pub addon_installation_namespace : Text
addon_installation_namespace = text "kubeops"

abbrev pub agent_config_secret_name : Text
agent_config_secret_name = text "license-proxyserver-config"

unfoldable pub duration_10_yrs : Duration
duration_10_yrs = pos 315360000000000000

-- Namespace, for the variable NAMESPACE of the environment and the namespace of the pod
unfoldable pub namespace : Text → Text → Text
namespace ns pod_namespace = ite (str ns []) pod_namespace ns

-- certstore.New
pub record CertStore : Type 0 where
  pub fs : SecretFs
  pub dir : Text
  pub duration : Duration

-- agent.RegistrationOption, with the arguments of KubeClientSignerConfigurations and of ApprovalAllCSRs
pub record RegistrationOption (h : HubClient) : Type 0 where
  pub csr_configurations : Text × Text
  pub csr_approve_check : Bool
  pub permission_config : Text → Text → ManagedClusterAddOn → h.State → Run (h.State × Option Error)
  pub agent_install_namespace : ManagedClusterAddOn → Text

unfoldable pub new_registration_option : (h : HubClient) → Text → Text → RegistrationOption h
unfolding setup_permission
new_registration_option h addon agent = record {
  csr_configurations = (addon, agent);
  csr_approve_check = true;
  permission_config = setup_permission h;
  agent_install_namespace = λ addon. addon_installation_namespace;
}

-- agent.HealthProber: the deployment that is probed, and the check
pub record HealthProber : Type 0 where
  pub deployment : ObjectKey
  pub health_check : List FeedbackValue → Run (Option Error)

unfoldable pub agent_health_prober : HealthProber
unfolding health_check
agent_health_prober = record {
  deployment = record { namespace = addon_installation_namespace; name = agent_name };
  health_check = health_check;
}

-- what the factory of the addon is given
pub record AgentAddon (h : HubClient) (k : KubeClient) : Type 0 where
  pub name : Text
  pub manifests_dir : Text
  -- GetConfigValues, for what it reads when it is called
  pub values : Sources → k.State → ManagedCluster → Result Fields
  pub registration : RegistrationOption h
  pub prober : HealthProber
  pub install_namespace : ManagedClusterAddOn → Text

-- The calls of runManagerController outside the program.
pub record ManagerPlatform (k : KubeClient) : Type 0 where
  pub new_manager : Option Error
  pub env_namespace : Text
  pub pod_namespace : Text
  pub add_runnable : Option Error
  -- InitCA and GetServerCertPair of the certificate store
  pub init_ca : CertStore → k.State → k.State × Option Error
  pub server_cert_pair : CertStore → Text → List Text → k.State → k.State × Option Error
  -- SetupWithManager of the acquirer
  pub setup_acquirer : Option Error
  pub new_addon_manager : Option Error
  pub build_agent : Option Error
  pub add_agent : Option Error
  -- the hub manager, until it stops
  pub start : Option Error

-- what the manager runs
pub record Manager (h : HubClient) (k : KubeClient) : Type 0 where
  pub certs : CertStore
  -- the function that the hub manager runs at its start
  pub init_certs : k.State → k.State × Option Error
  pub acquirer : LicenseAcquirer
  pub agent : AgentAddon h k

-- the result of runManagerController: an error of the set-up, an exit of the process, or, from a
-- manager that was started, its own result
pub data ManagerEnd (h : HubClient) (k : KubeClient) : Type 0 where
  failed : Error → ManagerEnd h k
  exited : ManagerEnd h k
  ran : Manager h k → Option Error → ManagerEnd h k

module _ (h : HubClient) (k : KubeClient) (c : ChartLibrary) (p : ManagerPlatform k)
    (fs : FileSystem) where
  unfoldable pub cert_store : CertStore
  unfolding new namespace duration_10_yrs
  cert_store = record {
    fs = new (record {
      namespace = namespace p.env_namespace p.pod_namespace;
      name = agent_config_secret_name;
    });
    dir = [];
    duration = duration_10_yrs;
  }

  unfoldable pub dns_names : List Text
  dns_names =
      (agent_name ++ text "." ++ addon_installation_namespace)
      ∷ (agent_name ++ text "." ++ addon_installation_namespace ++ text ".svc")
      ∷ []

  unfoldable pub init_certs : CertStore → k.State → k.State × Option Error
  unfolding dns_names
  init_certs cs s =
      let (s', e) = p.init_ca cs s in
      elim e [
        | some failure ↦ (s', some failure)
        | none ↦ p.server_cert_pair cs server_cert_name dns_names s'
      ]

  -- opts.CAFile, if it is set
  unfoldable pub read_ca_cert : Text → Result Text
  read_ca_cert ca_file = ite (str ca_file []) (ok []) (elim (fs.read_file ca_file) [
    | err e ↦ err (wrapped (text "failed to read CA file") e)
    | ok ca_cert ↦ ok ca_cert
  ])

  unfoldable pub new_acquirer : ManagerOptions → Text → LicenseAcquirer
  new_acquirer opts ca_cert = record {
    base_url = opts.base_url;
    token = opts.token;
    ca_cert = ca_cert;
    insecure_skip_tls_verify = opts.insecure_skip_tls_verify;
    cache_dir = opts.cache_dir;
    license_cache = [];
  }

  unfoldable pub new_agent : ManagerOptions → AgentAddon h k
  unfolding new_registration_option agent_health_prober get_config_values
  new_agent opts = record {
    name = addon_name;
    manifests_dir = agent_manifests_dir;
    values = λ from s cluster. get_config_values c k from opts s cluster;
    registration = new_registration_option h addon_name agent_name;
    prober = agent_health_prober;
    install_namespace = λ addon. addon_installation_namespace;
  }

  -- from SetupWithManager of the acquirer on
  unfoldable pub run_agent : ManagerOptions → Text → ManagerEnd h k
  unfolding new_acquirer new_agent init_certs cert_store
  run_agent opts ca_cert = elim p.setup_acquirer [
    | some e ↦ exited
    | none ↦ elim p.new_addon_manager [
      | some e ↦ failed e
      | none ↦ elim p.build_agent [
        | some e ↦ failed e
        | none ↦ elim p.add_agent [
          | some e ↦ failed e
          | none ↦
              ran
                (record {
                  certs = cert_store;
                  init_certs = init_certs cert_store;
                  acquirer = new_acquirer opts ca_cert;
                  agent = new_agent opts;
                })
                p.start
        ]
      ]
    ]
  ]

  unfoldable pub run_manager_controller : ManagerOptions → ManagerEnd h k
  unfolding run_agent read_ca_cert
  run_manager_controller opts = elim p.new_manager [
    | some e ↦ failed e
    | none ↦ elim p.add_runnable [
      | some e ↦ exited
      | none ↦ elim (read_ca_cert opts.ca_file) [
        | err e ↦ failed e
        | ok ca_cert ↦ run_agent opts ca_cert
      ]
    ]
  ]
