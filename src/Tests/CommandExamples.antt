-- ===== src/Tests/CommandExamples.antt =====
-- The command on a cluster that is no spoke, with its licenses in a directory.
use license_proxyserver.Base.{text, [], none, false, refl, Returns}
use license_proxyserver.Command.{
  LicenseProxyServerOptions, CommandPlatform, new_ui_server_options, run_command,
}
use license_proxyserver.Command.Launched.{CommandEnds, run_command-CommandEnds}
use license_proxyserver.Tests.Samples.{sooner, order, Issued, authority, verifier, signs}
use license_proxyserver.Tests.Registries.{midnight}
use license_proxyserver.Tests.StartExamples.{licenses, platform}

abbrev command : CommandPlatform
command = record {
  validate = λ o. [];
  self_signed_certs = none;
  apply_recommended = λ o. none;
  version = text "v0.1.0";
  platform = platform;
  add_server = none;
  add_hub_manager = none;
  start = none;
}

abbrev options : LicenseProxyServerOptions
options = record new_ui_server_options {
  extra_options = record new_ui_server_options.extra_options { license_dir = text "/licenses" };
}

run_command-CommandEnds_example :
    Returns
      (CommandEnds sooner Issued order authority verifier signs licenses midnight command false
        options)
      (run_command sooner verifier licenses midnight command options)
run_command-CommandEnds_example =
    run_command-CommandEnds sooner Issued order authority verifier signs licenses midnight command
      false refl options
