-- ===== src/Addon.antt =====
-- pkg/manager/config.go, manager.go and options.go: the values of the agent's chart, and the start
-- of the addon manager.
pub mod Chart
pub mod Config
pub mod Written
pub mod Settings
pub mod Named
pub mod Writing
pub mod Configured
pub mod Manager
pub mod Running
pub mod Failing
use license_proxyserver.Base.{Text, Bool, true, false, []}

pub record ManagerOptions : Type 0 where
  pub registry_fqdn : Text
  pub base_url : Text
  pub token : Text
  pub ca_file : Text
  pub insecure_skip_tls_verify : Bool
  pub cache_dir : Text

-- NewManagerOptions, and Validate, which finds no fault with any options
unfoldable pub new_manager_options : ManagerOptions
new_manager_options = record {
  registry_fqdn = [];
  base_url = [];
  token = [];
  ca_file = [];
  insecure_skip_tls_verify = false;
  cache_dir = [];
}
