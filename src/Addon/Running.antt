-- ===== src/Addon/Running.antt =====
-- The acquirer and the agent of a manager that has been started.
use license_proxyserver.Base.Fallible.{guarded}
use license_proxyserver.Base.{
  true, ap, Text, str, text, List, [], ◌∷◌, Option, some, Bool, ite, ◌≡◌, ◌≢◌, refl, sym, subst,
  arith, ok, err, Error, Result, Result-cases, inl, inr, Returns,
}
use license_proxyserver.Base.Dict
use license_proxyserver.Api.{License, Time}
use license_proxyserver.Heap.Order.{IsStrictWeak}
use license_proxyserver.Storage.Registry.Sound.{IsAuthority}
use license_proxyserver.Verifier.{Verifier}
use license_proxyserver.Request.Finding.{Signs}
use license_proxyserver.Kube.{ManagedCluster, KubeClient, IsKubeClient}
use license_proxyserver.Permission.{HubClient}
use license_proxyserver.Acquirer.{LicenseAcquirer, Host}
use license_proxyserver.Acquirer.Cached.{CacheSound}
use license_proxyserver.Acquirer.Refreshing.{EndsLater}
use license_proxyserver.Acquirer.Series.{
  Request, InOrder, last_time, reconcile_each, reconcile_each-CacheSound,
}
use license_proxyserver.Storage.Loader.{FileSystem}
use license_proxyserver.Addon.{ManagerOptions}
use license_proxyserver.Addon.Chart.{
  Value, boolean, string, Fields, lookup, ChartLibrary, IsChartLibrary,
}
use license_proxyserver.Addon.Config.{Sources, get_config_values}
use license_proxyserver.Addon.Settings.{flagged, option_map, read_ca_bundle}
use license_proxyserver.Addon.Configured.{set_as, get_config_values-Configured}
use license_proxyserver.Addon.Manager.{
  ManagerPlatform, Manager, ManagerEnd, failed, exited, ran, new_acquirer, new_agent, run_agent,
  read_ca_cert, run_manager_controller,
}

-- the value of a setting of the platform, as the acquirer has it
abbrev pub SetAs : Fields → Text → Text → Type 0
SetAs vals name t = t ≢ [] → lookup vals (text "platform" ∷ name ∷ []) ≡ some (string t)

-- The spoke clusters' agents and the acquirer talk to the same license server.
pub record Agrees (fs : FileSystem) (opts : ManagerOptions) (r : LicenseAcquirer) (vals : Fields)
    : Type 0 where
  -- what the acquirer has
  pub same_url : r.base_url ≡ opts.base_url
  pub same_token : r.token ≡ opts.token
  pub same_insecure : r.insecure_skip_tls_verify ≡ opts.insecure_skip_tls_verify
  pub same_ca : opts.ca_file ≢ [] → fs.read_file opts.ca_file ≡ ok r.ca_cert
  pub no_ca : opts.ca_file ≡ [] → r.ca_cert ≡ []
  -- and what the values have of it
  pub base_url : SetAs vals (text "baseURL") r.base_url
  pub token : SetAs vals (text "token") r.token
  pub ca_bundle : SetAs vals (text "caBundle") r.ca_cert
  pub insecure :
      r.insecure_skip_tls_verify ≡ true
      → lookup vals (text "platform" ∷ text "insecureSkipTLSVerify" ∷ []) ≡ some (boolean true)

-- `P` holds of the manager, if one was started.
abbrev IfRan : {h : HubClient} {k : KubeClient} → (Manager h k → Type 0) → ManagerEnd h k → Type 0
IfRan P (failed e) = Unit
IfRan P exited = Unit
IfRan P (ran m e) = P m

unless_empty : (t : Text) (a b : Option Value) → t ≢ [] → ite (str t []) a b ≡ b
unless_empty t a b n = ground (arith, n)

module _ (h : HubClient) (k : KubeClient) (c : ChartLibrary) (law : IsChartLibrary c)
    (p : ManagerPlatform k) (fs : FileSystem) where
  abbrev begin : ManagerOptions → ManagerEnd h k
  begin = run_manager_controller h k c p fs

  -- what a started manager has
  record Parts (opts : ManagerOptions) (m : Manager h k) : Type 0 where
    pub ca_cert : Text
    pub ca_read : read_ca_cert h k c p fs opts.ca_file ≡ ok ca_cert
    pub acquirer : m.acquirer ≡ new_acquirer h k c p fs opts ca_cert
    pub agent : m.agent ≡ new_agent h k c p fs opts

  run_agent-Parts :
      (opts : ManagerOptions) (ca_cert : Text)
      → read_ca_cert h k c p fs opts.ca_file ≡ ok ca_cert
      → IfRan (Parts opts) (run_agent h k c p fs opts ca_cert)
  unfolding run_agent
  run_agent-Parts opts ca_cert read =
      guarded (IfRan (Parts opts)) p.setup_acquirer _ _ (λ e. tt)
        (guarded (IfRan (Parts opts)) p.new_addon_manager _ _ (λ e. tt)
          (guarded (IfRan (Parts opts)) p.build_agent _ _ (λ e. tt)
            (guarded (IfRan (Parts opts)) p.add_agent _ _ (λ e. tt)
              (record { ca_cert = ca_cert; ca_read = read; acquirer = refl; agent = refl }))))

  read-Parts :
      (opts : ManagerOptions) (read : Result Text)
      → read_ca_cert h k c p fs opts.ca_file ≡ read
      → IfRan
          (Parts opts)
          (elim read [ err e ↦ failed e | ok ca_cert ↦ run_agent h k c p fs opts ca_cert ])
  read-Parts opts (err e) q = tt
  read-Parts opts (ok ca_cert) q = run_agent-Parts opts ca_cert q

  start-Parts : (opts : ManagerOptions) → IfRan (Parts opts) (begin opts)
  unfolding run_manager_controller
  start-Parts opts =
      guarded (IfRan (Parts opts)) p.new_manager _ _ (λ e. tt)
        (guarded (IfRan (Parts opts)) p.add_runnable _ _ (λ e. tt)
          (read-Parts opts (read_ca_cert h k c p fs opts.ca_file) refl))

  ran-Parts :
      (opts : ManagerOptions) (m : Manager h k) (e : Option Error)
      → begin opts ≡ ran m e
      → Parts opts m
  ran-Parts opts m e q = subst (IfRan (Parts opts)) q (start-Parts opts)

  -- the certificate of the acquirer is the one that the values are given
  bundle-read :
      (files : FileSystem) (ca_file ca_cert : Text) (b : Option Text)
      → read_ca_cert h k c p fs ca_file ≡ ok ca_cert
      → files.read_file ca_file ≡ fs.read_file ca_file
      → read_ca_bundle files ca_file ≡ ok b
      → ca_cert ≢ []
      → b ≡ some ca_cert
  unfolding read_ca_cert
  bundle-read files ca_file ca_cert b q same r n = elim (str ca_file []) [
    | yes e ↦ absurd (n (ground (arith, q, e)))
    | no e ↦ elim (Result-cases (fs.read_file ca_file)) [
      | inl (bytes, there) ↦ ground (arith, q, r, e, same, there)
      | inr (failure, gone) ↦ absurd (ground (arith, q, e, gone))
    ]
  ]

  ca_given :
      (ca_file ca_cert : Text)
      → read_ca_cert h k c p fs ca_file ≡ ok ca_cert
      → ca_file ≢ []
      → fs.read_file ca_file ≡ ok ca_cert
  unfolding read_ca_cert
  ca_given ca_file ca_cert q n = elim (Result-cases (fs.read_file ca_file)) [
    | inl (bytes, there) ↦ ground (arith, q, n, there)
    | inr (failure, gone) ↦ absurd (ground (arith, q, n, gone))
  ]

  ca_missing :
      (ca_file ca_cert : Text)
      → read_ca_cert h k c p fs ca_file ≡ ok ca_cert
      → ca_file ≡ []
      → ca_cert ≡ []
  unfolding read_ca_cert
  ca_missing ca_file ca_cert q e = ground (arith, q, e)

  agent-Agrees :
      (opts : ManagerOptions) (ca_cert : Text) (from : Sources) (s : k.State)
      (cluster : ManagedCluster) (vals : Fields)
      → read_ca_cert h k c p fs opts.ca_file ≡ ok ca_cert
      → from.files.read_file opts.ca_file ≡ fs.read_file opts.ca_file
      → get_config_values c k from opts s cluster ≡ ok vals
      → Agrees fs opts (new_acquirer h k c p fs opts ca_cert) vals
  unfolding new_acquirer
  agent-Agrees opts ca_cert from s cluster vals read same e =
      let g = get_config_values-Configured c law k from opts s cluster vals e in
      record {
        same_url = refl;
        same_token = refl;
        same_insecure = refl;
        same_ca = λ n. ca_given opts.ca_file ca_cert read n;
        no_ca = λ e. ca_missing opts.ca_file ca_cert read e;
        base_url = λ n. set_as _ _ _ _ (unless_empty opts.base_url _ _ n) g.set.1.0;
        token = λ n. set_as _ _ _ _ (unless_empty opts.token _ _ n) g.set.1.1.1.1.0;
        ca_bundle = λ n.
            set_as _ _ _ _
              (ap (option_map string) (
                bundle-read from.files opts.ca_file ca_cert g.inputs.ca_bundle read same
                  g.read.bundle_read n))
              g.set.1.1.0;
        insecure = λ on. set_as _ _ _ _ (ap (λ b. flagged b (boolean true)) on) g.set.1.1.1.0;
      }

  -- If SetNestedField and MergeValues do as they are documented, and a manager that
  -- runManagerController has started gives values for an agent when the CA file reads as it did at
  -- the start, then the acquirer has the URL, the token and the TLS setting of the options, and
  -- what the CA file read as at the start or no certificate without such a file; and the values
  -- have the acquirer's URL, token and CA certificate wherever these are not empty, and leave the
  -- verification of TLS out if the acquirer does.
  pub run_manager_controller-Agrees :
      (opts : ManagerOptions) (m : Manager h k) (e : Option Error) (from : Sources) (s : k.State)
      (cluster : ManagedCluster) (vals : Fields)
      → run_manager_controller h k c p fs opts ≡ ran m e
      → from.files.read_file opts.ca_file ≡ fs.read_file opts.ca_file
      → m.agent.values from s cluster ≡ ok vals
      → Agrees fs opts m.acquirer vals
  unfolding new_agent
  run_manager_controller-Agrees opts m e from s cluster vals q same given =
      let parts = ran-Parts opts m e q in
      subst (λ r. Agrees fs opts r vals) (sym parts.acquirer)
        (agent-Agrees opts parts.ca_cert from s cluster vals parts.ca_read same
          (subst (λ a. a.values from s cluster ≡ ok vals) parts.agent given))

  module _ (less : License → License → Bool) (Issued : License → Type 0) (order : IsStrictWeak less)
      (authority : IsAuthority Issued) (later : EndsLater Issued) {Certificate : Type 0}
      (v : Verifier Certificate) (signs : Signs v Issued) (host : Host)
      (faithful : IsKubeClient k) where
    new_acquirer-CacheSound :
        (opts : ManagerOptions) (ca_cert : Text) (now : Time)
        → CacheSound less Issued now (new_acquirer h k c p fs opts ca_cert)
    unfolding new_acquirer Dict.lookup
    new_acquirer-CacheSound opts ca_cert now cid reg e = absurd (cc)

    -- If `less` is a strict weak order, issued licenses have an expiry date that their ID
    -- determines and that is not Go's zero time, the parser accepts issued licenses only, and the
    -- client reads back the secrets that it has written, then for a manager that
    -- runManagerController has started, every sequence of Reconciles of its acquirer in the order
    -- of time, for any requests and any states of the hub cluster, ends without a panic, and every
    -- registry of the cache is sound at its end.
    pub run_manager_controller-reconcile_each :
        (opts : ManagerOptions) (m : Manager h k) (e : Option Error) (now : Time)
        (qs : List (Request k))
        → run_manager_controller h k c p fs opts ≡ ran m e
        → InOrder now qs
        → Returns
            (λ r. CacheSound less Issued (last_time now qs) r)
            (reconcile_each less v host k qs m.acquirer)
    run_manager_controller-reconcile_each opts m e now qs q o =
        let parts = ran-Parts opts m e q in
        reconcile_each-CacheSound less Issued order authority later v signs host k faithful qs now
          m.acquirer o
          (subst (CacheSound less Issued now) (sym parts.acquirer)
            (new_acquirer-CacheSound opts parts.ca_cert now))
