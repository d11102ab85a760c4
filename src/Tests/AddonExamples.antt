-- ===== src/Tests/AddonExamples.antt =====
-- The values of the agent's chart, for an OpenShift cluster with a license.
use license_proxyserver.Base.{
  ◌≢◌, arith, message, Returns, none, List, str, Text, text, [], ◌∷◌, some, false, refl, ok, err,
  Result,
}
use license_proxyserver.Kube.{ManagedCluster}
use license_proxyserver.Addon.{ManagerOptions}
use license_proxyserver.Addon.Chart.{Fields, end}
use license_proxyserver.Addon.Config.{Sources, get_config_values}
use license_proxyserver.Addon.Settings.{Configured}
use license_proxyserver.Addon.Configured.{get_config_values-Configured}
use license_proxyserver.Permission.{HubClient}
use license_proxyserver.Acquirer.Series.{Request, reconcile_each, last_time}
use license_proxyserver.Acquirer.Cached.{CacheSound}
use license_proxyserver.Addon.Manager.{
  ManagerPlatform, Manager, cert_store, init_certs, new_acquirer, new_agent, run_manager_controller,
}
use license_proxyserver.Addon.Failing.{Unreadable, no_bundle, get_config_values-Unreadable}
use license_proxyserver.Addon.Running.{
  Agrees, run_manager_controller-Agrees, run_manager_controller-reconcile_each,
}
use license_proxyserver.Tests.Samples.{sooner, order, Issued, authority, later, verifier, signs}
use license_proxyserver.Tests.Registries.{midnight}
use license_proxyserver.Tests.ManagerExamples.{host}
use license_proxyserver.Tests.Charts.{merge, put, charts, charts-IsChartLibrary}
use license_proxyserver.Tests.Services.{kube-IsKubeClient, kube, Contents}
use license_proxyserver.Tests.StartExamples.{licenses}

abbrev sources : Sources
sources = record {
  read_bytes = λ name. ok (text "abc", text "de");
  embedded = λ path. ok (text "platform");
  files = licenses;
}

abbrev options : ManagerOptions
options = record {
  registry_fqdn = [];
  base_url = text "https://example.com";
  token = text "t";
  ca_file = text "/ca.crt";
  insecure_skip_tls_verify = false;
  cache_dir = [];
}

abbrev saved : Contents
saved = some ((text "plan", text "lic") ∷ [])

abbrev cluster : ManagedCluster
cluster = record {
  name = text "spoke";
  cluster_claims = record { name = text "cluster.ace.info"; value = text "data" } ∷ [];
}

abbrev vals_of : Result Fields → Fields
vals_of (ok m) = m
vals_of (err e) = end

abbrev values : Fields
values = vals_of (get_config_values charts kube sources options saved cluster)

get_config_values-Configured_example : Configured charts kube sources options saved cluster values
unfolding get_config_values str put merge
get_config_values-Configured_example =
    get_config_values-Configured charts charts-IsChartLibrary kube sources options saved cluster
      values refl

abbrev hub : HubClient
hub = record {
  State = Text;
  new_for_config = none;
  get_registrations = λ s key. ok [];
  get_role = λ s key. err (message s);
  create_role = λ s role. (s, none);
  get_role_binding = λ s key. err (message s);
  create_role_binding = λ s binding. (s, none);
}

abbrev platform : ManagerPlatform kube
platform = record {
  new_manager = none;
  env_namespace = [];
  pod_namespace = text "addons";
  add_runnable = none;
  init_ca = λ cs s. (s, none);
  server_cert_pair = λ cs name dns s. (s, none);
  setup_acquirer = none;
  new_addon_manager = none;
  build_agent = none;
  add_agent = none;
  start = none;
}

abbrev manager : Manager hub kube
manager = record {
  certs = cert_store hub kube charts platform licenses;
  init_certs =
      init_certs hub kube charts platform licenses (cert_store hub kube charts platform licenses);
  acquirer = new_acquirer hub kube charts platform licenses options (text "xyz");
  agent = new_agent hub kube charts platform licenses options;
}

run_manager_controller-Agrees_example : Agrees licenses options manager.acquirer values
unfolding run_manager_controller new_agent get_config_values str put merge
run_manager_controller-Agrees_example =
    run_manager_controller-Agrees hub kube charts charts-IsChartLibrary platform licenses options
      manager none sources saved cluster values refl refl refl

-- the same cluster at midnight, before and after it has its secret
abbrev requests : List (Request kube)
requests =
    record { time = midnight; key = record { namespace = []; name = text "cluster1" }; hub = none }
    ∷ record {
      time = midnight;
      key = record { namespace = []; name = text "cluster1" };
      hub = saved;
    }
    ∷ []

run_manager_controller-reconcile_each_example :
    Returns
      (λ r. CacheSound sooner Issued (last_time midnight requests) r)
      (reconcile_each sooner verifier host kube requests manager.acquirer)
unfolding run_manager_controller str
run_manager_controller-reconcile_each_example =
    run_manager_controller-reconcile_each hub kube charts charts-IsChartLibrary platform licenses
      sooner Issued order authority later verifier signs host kube-IsKubeClient options manager none
      midnight requests refl (omega arith, (omega arith, tt))

-- a host without the CA file
abbrev no_files : Sources
no_files = record sources {
  files = record licenses { read_file = λ path. err (message (text "no such file")) };
}

unreadable : Unreadable charts kube no_files options saved cluster (message (text "no such file"))
unfolding str
unreadable = no_bundle (λ h. absurd (cc)) refl

get_config_values-Unreadable_example :
    get_config_values charts kube no_files options saved cluster ≢ ok values
get_config_values-Unreadable_example =
    get_config_values-Unreadable charts charts-IsChartLibrary kube no_files options saved cluster
      (message (text "no such file")) values unreadable
