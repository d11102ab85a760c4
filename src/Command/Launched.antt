-- ===== src/Command/Launched.antt =====
-- What the command runs.
use license_proxyserver.Base.{
  map, wrapped, Bool-cases, Text, str, text, List, [], ◌∷◌, ◌++◌, Option, none, some, Bool, true,
  ite, ◌≡◌, ◌≢◌, refl, subst, arith, done, Run, Returns, returns, Returns-bind, Result, ok, err,
  Result-cases, Option-cases, inl, inr,
}
use license_proxyserver.Base.Fallible.{Gives, gives, fails, guarded, branched}
use license_proxyserver.Api.{License, Time}
use license_proxyserver.Heap.Order.{IsStrictWeak}
use license_proxyserver.Verifier.{Verifier}
use license_proxyserver.Storage.Registry.Sound.{IsAuthority}
use license_proxyserver.Storage.Loader.{FileSystem}
use license_proxyserver.Request.Finding.{Signs}
use license_proxyserver.Server.{
  configured, ExtraOptions, ExtraConfig, LicenseProxyServer, Outcome, started, failed, exited,
  apply_to,
}
use license_proxyserver.Server.Started.{StartEnds, Ready, start-StartEnds}
use license_proxyserver.Command.{
  storages, ignore_prefixes, version, open_api_config, OpenApiConfig, group_name,
  LicenseProxyServerOptions, CommandPlatform, Config, config, complete, launch, launched,
  CommandEnd, invalid, failure, exit, ran, run, run_command, validate,
}

-- The configuration has the values of the options, and the contents of the CA file if one is named.
pub record Applied (fs : FileSystem) (o : ExtraOptions) (c : ExtraConfig) : Type 0 where
  pub base_url : c.base_url ≡ o.base_url
  pub token : c.token ≡ o.token
  pub ca_named : o.ca_file ≢ [] → fs.read_file o.ca_file ≡ ok c.ca_cert
  pub ca_unnamed : o.ca_file ≡ [] → c.ca_cert ≡ []
  pub insecure : c.insecure_skip_tls_verify ≡ o.insecure_skip_tls_verify
  pub license_dir : c.license_dir ≡ o.license_dir
  pub cache_dir : c.cache_dir ≡ o.cache_dir
  pub hub_kubeconfig : c.hub_kubeconfig ≡ o.hub_kubeconfig
  pub spoke_cluster_name : c.spoke_cluster_name ≡ o.spoke_cluster_name

applied :
    (fs : FileSystem) (o : ExtraOptions) (d : Dec (o.ca_file ≡ [])) (read : Result Text)
    → fs.read_file o.ca_file ≡ read
    → Gives (Applied fs o) (
        ite d (ok (configured o [])) (elim read [
          | err e ↦ err (wrapped (text "failed to read CA file") e)
          | ok ca_cert ↦ ok (configured o ca_cert)
        ]))
applied fs o (yes none_named) read e = gives (record {
  base_url = refl;
  token = refl;
  ca_named = λ named. absurd (named none_named);
  ca_unnamed = λ h. refl;
  insecure = refl;
  license_dir = refl;
  cache_dir = refl;
  hub_kubeconfig = refl;
  spoke_cluster_name = refl;
})
applied fs o (no named) (err x) e = fails
applied fs o (no named) (ok ca_cert) e = gives (record {
  base_url = refl;
  token = refl;
  ca_named = λ h. e;
  ca_unnamed = λ h. absurd (named h);
  insecure = refl;
  license_dir = refl;
  cache_dir = refl;
  hub_kubeconfig = refl;
  spoke_cluster_name = refl;
})

-- where the API server library installs a storage of the program's group
abbrev pub route : Text → Text
route resource = text "/apis/" ++ group_name ++ text "/" ++ version ++ text "/" ++ resource

-- The OpenAPI documents leave out the swagger API and the storages of the program.
abbrev pub LeavesOut : OpenApiConfig → Type 0
LeavesOut a = a.ignore_prefixes ≡ text "/swaggerapi" ∷ map route storages

pub record Configures (fs : FileSystem) (o : ExtraOptions) (c : Config) : Type 0 where
  pub applied : Applied fs o c.extra_config
  pub open_api : LeavesOut c.open_api
  pub open_api_v3 : LeavesOut c.open_api_v3

finished :
    (fs : FileSystem) (o : ExtraOptions) (release : Text) (r : Result ExtraConfig)
    → Gives (Applied fs o) r
    → Gives (Configures fs o) (elim r [
      | err e ↦ err e
      | ok extra_config ↦ ok (record {
        open_api = open_api_config release;
        open_api_v3 = open_api_config release;
        extra_config = extra_config;
      })
    ])
unfolding open_api_config ignore_prefixes storages
finished fs o release (err e) h = fails
finished fs o release (ok c) h =
    gives (record { applied = h.holds c refl; open_api = refl; open_api_v3 = refl })

config-Configures :
    (p : CommandPlatform) (fs : FileSystem) (o : LicenseProxyServerOptions)
    → Gives (Configures fs o.extra_options) (config p fs o)
unfolding config apply_to
config-Configures p fs o = elim (Option-cases p.self_signed_certs) [
  | inr (e, q) ↦ rw (q, config) fails
  | inl q ↦ elim (Option-cases (p.apply_recommended o.recommended_options)) [
    | inr (e, q') ↦ rw (q, q', config) fails
    | inl q' ↦
        rw (q, q', config)
          (finished fs o.extra_options p.version _ (
            applied fs o.extra_options (str o.extra_options.ca_file [])
              (fs.read_file o.extra_options.ca_file) refl))
  ]
]

module _ (less : License → License → Bool) (Issued : License → Type 0) (order : IsStrictWeak less)
    (authority : IsAuthority Issued) {Certificate : Type 0} (v : Verifier Certificate)
    (signs : Signs v Issued) (fs : FileSystem) (now : Time) (p : CommandPlatform)
    (is_spoke : Bool) where
  -- a server that the command runs
  pub record Launched (o : LicenseProxyServerOptions) (c : Config)
      (s : LicenseProxyServer Certificate) : Type 0 where
    pub valid : validate p o ≡ []
    pub configured : Configures fs o.extra_options c
    pub ready : Ready less Issued order authority v signs fs now is_spoke c.extra_config s

  abbrev pub CommandEnds : LicenseProxyServerOptions → CommandEnd Certificate → Type 0
  CommandEnds o (invalid es) = validate p o ≡ es
  CommandEnds o (failure e) = Unit
  CommandEnds o exit = Unit
  CommandEnds o (ran c s e) = Launched o c s

  launch-CommandEnds :
      (o : LicenseProxyServerOptions) (c : Config) (s : LicenseProxyServer Certificate)
      → Launched o c s
      → CommandEnds o (launch p c s)
  unfolding launch
  launch-CommandEnds o c s l =
      guarded (CommandEnds o) p.add_server _ _ (λ e. tt)
        (branched (CommandEnds o) s.syncs _ _
          (guarded (CommandEnds o) p.add_hub_manager _ _ (λ e. tt) l) l)

  launched-CommandEnds :
      (o : LicenseProxyServerOptions) (c : Config) (outcome : Outcome Certificate)
      → validate p o ≡ []
      → Configures fs o.extra_options c
      → StartEnds less Issued order authority v signs fs now is_spoke c.extra_config outcome
      → CommandEnds o (launched p c outcome)
  unfolding launched
  launched-CommandEnds o c (started s) valid h ready =
      launch-CommandEnds o c s (record { valid = valid; configured = h; ready = ready })
  launched-CommandEnds o c (failed e) valid h ready = tt
  launched-CommandEnds o c exited valid h ready = tt

  module _ (known : p.platform.is_ace_managed_spoke ≡ done is_spoke)
      (o : LicenseProxyServerOptions) where
    run-CommandEnds : validate p o ≡ [] → Returns (CommandEnds o) (run less v fs now p o)
    unfolding run complete
    run-CommandEnds valid = elim (Result-cases (config p fs o)) [
      | inr (e, q) ↦ rw (q, run) (returns tt)
      | inl (c, q) ↦
          rw (q, run)
            (Returns-bind
              (start-StartEnds less Issued order authority v signs fs now p.platform c.extra_config
                is_spoke known)
              (λ outcome ends. returns (
                launched-CommandEnds o c outcome valid ((config-Configures p fs o).holds c q)
                  ends)))
    ]

    run_valid :
        (es : List license_proxyserver.Base.Error)
        → validate p o ≡ es
        → Returns
            (CommandEnds o)
            (elim es [ e ∷ es ↦ done (invalid (e ∷ es)) | [] ↦ run less v fs now p o ])
    run_valid [] valid = run-CommandEnds valid
    run_valid (e ∷ es) valid = returns valid

    -- If `less` is a strict weak order, issued licenses have an expiry date that their ID
    -- determines, the parser accepts issued licenses only, and the test for a managed spoke
    -- cluster returns, then the command `run` ends without a panic. It ends with the errors of the
    -- validation, with an error of the start, at an exit of the process, or after a server was
    -- run. Then the validation had no errors; the configuration has the values of the options, and
    -- the contents of the CA file just if one is named; the OpenAPI documents leave out just the
    -- swagger API and the routes of the storages; and the server is ready as New makes it for this
    -- configuration.
    pub run_command-CommandEnds : Returns (CommandEnds o) (run_command less v fs now p o)
    unfolding run_command
    run_command-CommandEnds = run_valid (validate p o) refl
