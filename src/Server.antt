-- ===== src/Server.antt =====
-- pkg/apiserver/apiserver.go: the start of the API server, and the options of
-- pkg/cmds/server/options.go that it is given.
pub mod Loading
pub mod Started
use license_proxyserver.Base.{
  Text, str, text, List, [], Option, none, some, Bool, true, false, not, ◌&&◌, ite, if◌then◌else◌,
  Run, done, ◌>>=◌, Result, ok, err, Error, message, wrapped,
}
use license_proxyserver.Base.Int.{ℤ}
use license_proxyserver.Api.{License, Time}
use license_proxyserver.Clock.{min_remaining_life}
use license_proxyserver.Verifier.{Verifier, LicenseClient}
use license_proxyserver.Storage.RecordBook.{RecordBook, new_record_book}
use license_proxyserver.Storage.Registry.{LicenseRegistry, new_license_registry}
use license_proxyserver.Storage.Loader.{FileSystem, load_dir}
use license_proxyserver.Request.{Storage, new_storage}

-- ExtraOptions, without the rates of the client
pub record ExtraOptions : Type 0 where
  pub base_url : Text
  pub token : Text
  pub ca_file : Text
  pub insecure_skip_tls_verify : Bool
  pub license_dir : Text
  pub cache_dir : Text
  pub hub_kubeconfig : Text
  pub spoke_cluster_name : Text

-- ExtraConfig, without the client's configuration
pub record ExtraConfig : Type 0 where
  pub base_url : Text
  pub token : Text
  pub ca_cert : Text
  pub insecure_skip_tls_verify : Bool
  pub license_dir : Text
  pub cache_dir : Text
  pub hub_kubeconfig : Text
  pub spoke_cluster_name : Text

-- ApplyTo, on a configuration whose other fields are set to those of the options
abbrev pub configured : ExtraOptions → Text → ExtraConfig
configured s ca_cert = record {
  base_url = s.base_url;
  token = s.token;
  ca_cert = ca_cert;
  insecure_skip_tls_verify = s.insecure_skip_tls_verify;
  license_dir = s.license_dir;
  cache_dir = s.cache_dir;
  hub_kubeconfig = s.hub_kubeconfig;
  spoke_cluster_name = s.spoke_cluster_name;
}

unfoldable pub apply_to : FileSystem → ExtraOptions → ExtraConfig → Result ExtraConfig
apply_to fs s cfg =
    ite (str s.ca_file []) (ok (configured s cfg.ca_cert)) (elim (fs.read_file s.ca_file) [
      | err e ↦ err (wrapped (text "failed to read CA file") e)
      | ok ca_cert ↦ ok (configured s ca_cert)
    ])

-- What New calls outside the program. A call that only fails or succeeds is its error.
pub record Platform : Type 0 where
  pub new_generic_server : Option Error
  pub new_spoke_manager : Option Error
  -- clustermeta.IsACEManagedSpoke, which may panic
  pub is_ace_managed_spoke : Run Bool
  -- clustermeta.ClusterUID
  pub cluster_uid : Result Text
  -- NewClient of the license server: as for the acquirer
  pub new_client : Text → Text → Text → Text → Bool → Text → Result LicenseClient
  pub user_agent : Text
  -- clientcmd.BuildConfigFromFlags
  pub build_config : Text → Option Error
  pub new_hub_manager : Option Error
  -- SetupWithManager of the syncer
  pub setup_syncer : Option Error
  pub install_api_group : Option Error

-- the server: the storage of LicenseRequest, whose registry the other parts share, and whether there
-- is a syncer
pub record LicenseProxyServer (Certificate : Type 0) : Type 0 where
  pub storage : Storage Certificate
  pub syncs : Bool

-- the result of New, or the end of the process by os.Exit
pub data Outcome (Certificate : Type 0) : Type 0 where
  started : LicenseProxyServer Certificate → Outcome Certificate
  failed : Error → Outcome Certificate
  exited : Outcome Certificate

-- the end of the block for a spoke cluster
pub data Checked : Type 0 where
  passed exits : Checked
  stops : Error → Checked

unfoldable pub choose_client : Bool → Platform → ExtraConfig → Text → Result (Option LicenseClient)
choose_client is_spoke p c cid =
    if is_spoke
    then ok none
    else ite (str c.base_url []) (ok none) (
        ite (str c.token []) (err (message (text "missing --token")))
          (elim (p.new_client c.base_url c.token cid c.ca_cert c.insecure_skip_tls_verify
            p.user_agent) [ err e ↦ err e | ok lc ↦ ok (some lc) ]))

-- the calls of the hub cluster, each of which ends the process if it fails
unfoldable pub set_up_hub : Platform → ExtraConfig → Checked
set_up_hub p c = elim (p.build_config c.hub_kubeconfig) [
  | some e ↦ exits
  | none ↦ elim p.new_hub_manager [
    | some e ↦ exits
    | none ↦ elim p.setup_syncer [ some e ↦ exits | none ↦ passed ]
  ]
]

unfoldable pub check_spoke : Bool → Platform → ExtraConfig → Checked
unfolding set_up_hub
check_spoke is_spoke p c =
    let spoke =
      ite (str c.spoke_cluster_name []) (stops (message (text "missing --cluster-name"))) (
        ite (str c.hub_kubeconfig []) (stops (message (text "missing --hub-kubeconfig"))) (
          ite (str c.license_dir []) (stops (message (text "missing --license-dir")))
            (set_up_hub p c))) in
    if is_spoke then spoke else passed

module _ (less : License → License → Bool) {Certificate : Type 0} (v : Verifier Certificate)
    (fs : FileSystem) where
  -- LoadDir, if the directory is set
  unfoldable pub load_set :
      Text → Text → Time → LicenseRegistry → Run (LicenseRegistry × Option Error)
  unfolding load_dir
  load_set cid dir now reg =
      ite (str dir []) (done (reg, none)) (load_dir less v fs cid dir now reg)

  unfoldable pub load_dirs :
      ExtraConfig → Text → Time → LicenseRegistry → Run (LicenseRegistry × Option Error)
  unfolding load_set
  load_dirs c cid now reg = load_set cid c.license_dir now reg >>= λ (reg, e). elim e [
    | some e ↦ done (reg, some e)
    | none ↦ load_set cid c.cache_dir now reg
  ]

  -- from the block for a spoke cluster on
  unfoldable pub finish :
      Checked → Option Error → LicenseProxyServer Certificate → Outcome Certificate
  finish (stops e) installed s = failed e
  finish exits installed s = exited
  finish passed (some e) s = failed e
  finish passed none s = started s

  unfoldable pub serve_from :
      Bool
      → Platform
      → ExtraConfig
      → Text
      → Certificate
      → Option LicenseClient
      → LicenseRegistry × Option Error
      → Outcome Certificate
  unfolding finish check_spoke
  serve_from is_spoke p c cid ca_cert lc (reg, some e) = failed e
  serve_from is_spoke p c cid ca_cert lc (reg, none) =
      finish (check_spoke is_spoke p c) p.install_api_group
        (record { storage = new_storage cid ca_cert lc reg; syncs = is_spoke })

  unfoldable pub start_with :
      Time
      → Bool
      → Platform
      → ExtraConfig
      → Text
      → Certificate
      → Result (Option LicenseClient)
      → Run (Outcome Certificate)
  unfolding load_dirs serve_from new_license_registry new_record_book
  start_with now is_spoke p c cid ca_cert (err e) = done (failed e)
  start_with now is_spoke p c cid ca_cert (ok lc) =
      load_dirs c cid now
        (new_license_registry c.cache_dir min_remaining_life (some new_record_book))
      >>= λ loaded. done (serve_from is_spoke p c cid ca_cert lc loaded)

  -- New
  unfoldable pub start : Time → Platform → ExtraConfig → Run (Outcome Certificate)
  unfolding start_with choose_client
  start now p c = elim p.new_generic_server [
    | some e ↦ done (failed e)
    | none ↦ elim p.new_spoke_manager [
      | some e ↦ done exited
      | none ↦ p.is_ace_managed_spoke >>= λ is_spoke. elim p.cluster_uid [
        | err e ↦ done (failed e)
        | ok cid ↦ elim v.load_license_ca [
          | err e ↦ done (failed e)
          | ok ca_data ↦ elim (v.parse_certificate ca_data) [
            | err e ↦ done (failed e)
            | ok ca_cert ↦ start_with now is_spoke p c cid ca_cert (choose_client is_spoke p c cid)
          ]
        ]
      ]
    ]
  ]
