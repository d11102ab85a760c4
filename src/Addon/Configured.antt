-- ===== src/Addon/Configured.antt =====
-- GetConfigValues gives the values that it is to give.
use license_proxyserver.Base.{
  ap, ◌∙◌, sym, arith, ◌≢◌, All, ◌++◌, ℕ_discrete, Text, str, text, List, [], ◌∷◌, Option, none,
  some, Bool, true, false, ite, ok, ◌≡◌, refl,
}
use license_proxyserver.Base.Fallible.{Gives-map, Gives-self, Gives-bind, ◌>>=◌, Gives}
use license_proxyserver.Kube.{ManagedCluster, KubeClient}
use license_proxyserver.Storage.Loader.{FileSystem}
use license_proxyserver.Addon.{ManagerOptions}
use license_proxyserver.Addon.Chart.{
  is_object, at, find, lookup, apart, Value, nil, object, Fields, FieldPath, ChartLibrary,
  IsChartLibrary,
}
use license_proxyserver.Addon.Config.{
  Sources, ca_cert_name, server_cert_name, override_values, contains, license_values, set_options,
  set_names, set_security, set_licenses, get_config_values,
}
use license_proxyserver.Addon.Settings.{
  option_map, flagged, Inputs, option_settings, name_settings, security_settings, license_settings,
  settings, read_ca_bundle, read_managers, LicensesRead, IsRead, Configured,
}
use license_proxyserver.Addon.Writing.{
  set_options-Written, set_names-Written, set_security-Written, set_licenses-Written,
}
use license_proxyserver.Addon.Named.{contains-Mem, contains_not, lookup-license_values}
use license_proxyserver.Addon.Written.{Assigned, or_else}
use license_proxyserver.Addon.Written.{
  WrittenFor-bind, aside, separate, WrittenFor-map, Setting, Written, WrittenFor,
}

-- The first name of every path is another one.
avoids : Text → List Setting → Bool
unfolding str
avoids name [] = true
avoids name (([], _) ∷ l) = false
avoids name ((k ∷ p, _) ∷ l) = ite (str k name) false (avoids name l)

rebased :
    (l : List Setting) (name : Text) (base chart vals : Fields)
    → avoids name l ≡ true
    → ((k : Text) (p : FieldPath) → k ≢ name → lookup base (k ∷ p) ≡ lookup chart (k ∷ p))
    → All (Assigned base vals) l
    → All (Assigned chart vals) l
unfolding avoids
rebased [] name base chart vals away same h = tt
rebased (([], o) ∷ l) name base chart vals away same h = absurd (cc)
rebased ((k ∷ p, o) ∷ l) name base chart vals away same h = elim (str k name) [
  | yes e ↦ absurd (ground (arith, away, e))
  | no n ↦
      (rw (sym (same k p n)) h.0, rebased l name base chart vals (ground (arith, away, n)) same h.1)
]

override-find :
    (name ca_crt crt key : Text)
    → name ≢ text "apiserver"
    → find name (override_values ca_crt crt key) ≡ none
unfolding override_values find
override-find name ca_crt crt key n = elim (str (text "apiserver") name) [
  | yes p ↦ absurd (n (sym p))
  | no q ↦ ground (arith, q)
]

pub set_as :
    (found o old : Option Value) (v : Value) → o ≡ some v → found ≡ or_else o old → found ≡ some v
set_as found o old v e q = ground (arith, q, e)

left_as : (found o old : Option Value) → o ≡ none → found ≡ or_else o old → found ≡ old
left_as found o old e q = ground (arith, q, e)

module _ (c : ChartLibrary) (law : IsChartLibrary c) (k : KubeClient) where
  -- all writes of the function
  writes-Written :
      (fs : FileSystem) (opts : ManagerOptions) (s : k.State) (cluster : ManagedCluster)
      (a : Fields)
      → Gives
          (WrittenFor {I = Option Text × (List Text × Option (List (Text × Text)))}
            (λ i.
              (read_ca_bundle fs opts.ca_file ≡ ok i.0)
              × ((read_managers c cluster.cluster_claims ≡ ok i.1.0)
                  × LicensesRead k s cluster.name i.1.1))
            (λ i.
              option_settings opts i.0
              ++ name_settings cluster.name
              ++ security_settings (contains i.1.0 c.open_shift)
              ++ license_settings i.1.1)
            a)
          (set_options c fs opts a >>= λ vals. set_names c cluster.name vals >>= λ vals.
            set_security c cluster.cluster_claims vals >>= λ vals.
            set_licenses c k s cluster.name vals)
  unfolding separate aside apart str ℕ_discrete
  writes-Written fs opts s cluster a =
      WrittenFor-map (λ p. (p.0, p.1.1)) (λ p h. (h.0, h.1.1)) (λ p. refl)
        (WrittenFor-bind (option_settings opts)
          (λ (q : Unit × (List Text × Option (List (Text × Text)))).
            name_settings cluster.name
            ++ security_settings (contains q.1.0 c.open_shift)
            ++ license_settings q.1.1)
          (λ i j. (refl, refl)) (set_options-Written c law fs opts a)
          (λ b.
            WrittenFor-bind (λ (i : Unit). name_settings cluster.name)
              (λ (q : List Text × Option (List (Text × Text))).
                security_settings (contains q.0 c.open_shift) ++ license_settings q.1)
              (λ i j. (refl, refl)) (set_names-Written c law cluster.name b)
              (λ b.
                WrittenFor-bind (λ l. security_settings (contains l c.open_shift)) license_settings
                  (λ i j. (refl, refl)) (set_security-Written c law cluster.cluster_claims b)
                  (λ b. set_licenses-Written c law k s cluster.name b))))

  certified_by :
      (opts : ManagerOptions) (cluster_name : Text) (i : Inputs) (vals : Fields)
      → Written
          (settings c opts cluster_name i)
          (c.merge_values i.chart (override_values i.ca_crt i.crt i.key))
          vals
      → (name : Text) (v : Value)
      → lookup
          (override_values i.ca_crt i.crt i.key)
          (text "apiserver" ∷ text "servingCerts" ∷ name ∷ [])
        ≡ some v
      → is_object v ≡ false
      → lookup vals (text "apiserver" ∷ text "servingCerts" ∷ name ∷ []) ≡ some v
  unfolding aside apart str ℕ_discrete
  certified_by opts cluster_name i vals w name v there leaf =
      w.rest _ refl ∙ law.merged _ _ _ v there leaf

  configured :
      (from : Sources) (opts : ManagerOptions) (s : k.State) (cluster : ManagedCluster) (i : Inputs)
      (vals : Fields)
      → IsRead c k from opts s cluster i
      → Written
          (settings c opts cluster.name i)
          (c.merge_values i.chart (override_values i.ca_crt i.crt i.key))
          vals
      → Configured c k from opts s cluster vals
  unfolding avoids find at override_values str ℕ_discrete
  configured from opts s cluster i vals read w =
      let set : All (Assigned i.chart vals) (settings c opts cluster.name i) =
        rebased (settings c opts cluster.name i) (text "apiserver")
          (c.merge_values i.chart (override_values i.ca_crt i.crt i.key)) i.chart vals refl
          (λ name p n.
            law.kept i.chart (override_values i.ca_crt i.crt i.key) name p
              (override-find name i.ca_crt i.crt i.key n))
          w.set in
      record {
        inputs = i;
        read = read;
        set = set;
        certified =
            let by = certified_by opts cluster.name i vals w in
            (by _ _ refl refl, (by _ _ refl refl, (by _ _ refl refl, (by _ _ refl refl, tt))));
        ids_unset = λ m.
            let on : flagged (contains i.managers c.open_shift) nil ≡ some nil =
              rw (contains-Mem i.managers c.open_shift m) refl in
            let ids = set.1.1.1.1.1.1.1.1 in
            (set_as _ _ _ nil on ids.0, (set_as _ _ _ nil on ids.1.0, tt));
        ids_kept = λ n.
            let off : flagged (contains i.managers c.open_shift) nil ≡ none =
              rw (contains_not i.managers c.open_shift n) refl in
            let ids = set.1.1.1.1.1.1.1.1 in
            (left_as _ _ _ off ids.0, (left_as _ _ _ off ids.1.0, tt));
        licensed = λ m key e. lookup-license_values vals m (text "licenses") key (
            set_as _ _ _ _ (ap (option_map λ m. object (license_values m)) e)
              set.1.1.1.1.1.1.1.1.1.1.0);
        kept = λ name path n away.
            w.rest (name ∷ path) away
            ∙ law.kept _ _ name path (override-find name i.ca_crt i.crt i.key n);
      }

  Gives-Configured :
      (from : Sources) (opts : ManagerOptions) (s : k.State) (cluster : ManagedCluster)
      → Gives (Configured c k from opts s cluster) (get_config_values c k from opts s cluster)
  unfolding get_config_values
  Gives-Configured from opts s cluster =
      Gives-bind (Gives-self (from.read_bytes ca_cert_name)) (λ (ca_crt, ca_key) e1 _.
        Gives-bind (Gives-self (from.read_bytes server_cert_name)) (λ (crt, key) e2 _.
          Gives-bind (Gives-self (from.embedded _)) (λ bytes e3 _.
            Gives-bind (Gives-self (c.unmarshal bytes)) (λ chart e4 _.
              Gives-map
                (writes-Written from.files opts s cluster
                  (c.merge_values chart (override_values ca_crt crt key)))
                (λ vals w.
                  configured from opts s cluster
                    (record {
                      ca_crt = ca_crt;
                      ca_key = ca_key;
                      crt = crt;
                      key = key;
                      chart_bytes = bytes;
                      chart = chart;
                      ca_bundle = w.input.0;
                      managers = w.input.1.0;
                      licenses = w.input.1.1;
                    })
                    vals
                    (record {
                      ca_read = e1;
                      crt_read = e2;
                      file_read = e3;
                      chart_read = e4;
                      bundle_read = w.read.0;
                      managers_read = w.read.1.0;
                      licenses_read = w.read.1.1;
                    })
                    w.written)))))

  -- If a field that SetNestedField has set can be read and those apart from it are unchanged, and
  -- MergeValues takes a value that is no map from the second map and keeps what the second map
  -- does not have, then the values that GetConfigValues gives without an error come from the
  -- certificates, the chart, the CA file if one is named, the managers of the cluster and its
  -- licenses, all of which were read, with no licenses for a secret that is not found. The fields
  -- for the options that are set, the names, the user and the group on OpenShift, and the licenses
  -- have their values, and the ones for options that are not set those of the chart; the user and
  -- the group are those of the chart if OpenShift is not among the managers; under `licenses`
  -- there is every entry of the secret; the serving certificates are those of the store; and every
  -- field apart from these, outside of `apiserver`, is as in the chart.
  pub get_config_values-Configured :
      (from : Sources) (opts : ManagerOptions) (s : k.State) (cluster : ManagedCluster)
      (vals : Fields)
      → get_config_values c k from opts s cluster ≡ ok vals
      → Configured c k from opts s cluster vals
  get_config_values-Configured from opts s cluster vals e =
      (Gives-Configured from opts s cluster).holds vals e
