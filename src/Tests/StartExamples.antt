-- ===== src/Tests/StartExamples.antt =====
-- The start of the API server on a cluster that is no spoke.
use license_proxyserver.Base.{text, [], ◌∷◌, none, false, refl, done, Returns, ok}
use license_proxyserver.Storage.Loader.{FileSystem, FileType}
use license_proxyserver.Server.{ExtraConfig, Platform, start}
use license_proxyserver.Server.Started.{StartEnds, start-StartEnds}
use license_proxyserver.Tests.Samples.{sooner, order, Issued, authority, verifier, signs}
use license_proxyserver.Tests.Registries.{midnight}

abbrev pub licenses : FileSystem
licenses = record {
  read_dir = λ dir. ok (record { name = text "lic"; type_of = FileType.regular } ∷ []);
  read_file = λ path. ok (text "xyz");
  eval_symlinks = λ path. ok path;
  stat = λ path. ok false;
}

abbrev pub platform : Platform
platform = record {
  new_generic_server = none;
  new_spoke_manager = none;
  is_ace_managed_spoke = done false;
  cluster_uid = ok (text "uid");
  new_client = λ url token cid cert insecure agent. ok (λ features. ok (text "lic", none));
  user_agent = text "license-proxyserver/v0";
  build_config = λ path. none;
  new_hub_manager = none;
  setup_syncer = none;
  install_api_group = none;
}

abbrev config : ExtraConfig
config = record {
  base_url = text "https://example.com";
  token = text "t";
  ca_cert = [];
  insecure_skip_tls_verify = false;
  license_dir = text "/licenses";
  cache_dir = [];
  hub_kubeconfig = [];
  spoke_cluster_name = [];
}

start-StartEnds_example :
    Returns
      (StartEnds sooner Issued order authority verifier signs licenses midnight false config)
      (start sooner verifier licenses midnight platform config)
start-StartEnds_example =
    start-StartEnds sooner Issued order authority verifier signs licenses midnight platform config
      false refl
