-- ===== src/Addon/Failing.antt =====
-- The errors of GetConfigValues, and of the start of the manager without its CA file.
use license_proxyserver.Base.{
  Text, text, List, [], Option, false, ◌≡◌, ◌≢◌, arith, ok, err, Error, is_not_found,
}
use license_proxyserver.Kube.{ManagedCluster, KubeClient}
use license_proxyserver.Syncer.{license_secret}
use license_proxyserver.Addon.{ManagerOptions}
use license_proxyserver.Addon.Chart.{Fields, ChartLibrary, IsChartLibrary}
use license_proxyserver.Addon.Config.{Sources, ca_cert_name, server_cert_name, get_config_values}
use license_proxyserver.Addon.Settings.{Inputs, read_managers, LicensesRead, missing, found, IsRead}
use license_proxyserver.Addon.Configured.{get_config_values-Configured}

-- something that the function reads and cannot do without
pub data Unreadable (c : ChartLibrary) (k : KubeClient) (from : Sources) (opts : ManagerOptions)
    (s : k.State) (cluster : ManagedCluster) (e : Error) : Type 0 where
  no_ca : from.read_bytes ca_cert_name ≡ err e → Unreadable c k from opts s cluster e
  no_cert : from.read_bytes server_cert_name ≡ err e → Unreadable c k from opts s cluster e
  no_file :
      from.embedded (text "agent-manifests/license-proxyserver/values.yaml") ≡ err e
      → Unreadable c k from opts s cluster e
  no_bundle :
      opts.ca_file ≢ []
      → from.files.read_file opts.ca_file ≡ err e
      → Unreadable c k from opts s cluster e
  no_managers :
      read_managers c cluster.cluster_claims ≡ err e → Unreadable c k from opts s cluster e
  no_licenses :
      k.get_secret s (record { namespace = cluster.name; name = license_secret }) ≡ err e
      → is_not_found e ≡ false
      → Unreadable c k from opts s cluster e

module _ (c : ChartLibrary) (law : IsChartLibrary c) (k : KubeClient) (from : Sources)
    (opts : ManagerOptions) (s : k.State) (cluster : ManagedCluster) where
  unread_licenses :
      (e : Error) (o : Option (List (Text × Text)))
      → k.get_secret s (record { namespace = cluster.name; name = license_secret }) ≡ err e
      → is_not_found e ≡ false
      → LicensesRead k s cluster.name o
      → ⊥
  unread_licenses e _ failed other (missing x q y) =
      let same : e ≡ x = ground (arith, failed, q) in absurd (ground (arith, same, other, y))
  unread_licenses e _ failed other (found sec q) = absurd (ground (arith, failed, q))

  not-IsRead :
      (e : Error) (i : Inputs)
      → Unreadable c k from opts s cluster e
      → IsRead c k from opts s cluster i
      → ⊥
  not-IsRead e i (no_ca q) r = absurd (ground (arith, q, r.ca_read))
  not-IsRead e i (no_cert q) r = absurd (ground (arith, q, r.crt_read))
  not-IsRead e i (no_file q) r = absurd (ground (arith, q, r.file_read))
  not-IsRead e i (no_bundle n q) r = absurd (ground (arith, n, q, r.bundle_read))
  not-IsRead e i (no_managers q) r = absurd (ground (arith, q, r.managers_read))
  not-IsRead e i (no_licenses q n) r = unread_licenses e i.licenses q n r.licenses_read

  -- If SetNestedField and MergeValues do as they are documented, and the CA certificate, the
  -- server certificate, the chart's file, a CA file that is named, the data of the cluster's
  -- managers or, for a reason other than that it is not found, the secret of the licenses cannot
  -- be read, then GetConfigValues gives no values.
  pub get_config_values-Unreadable :
      (e : Error) (vals : Fields)
      → Unreadable c k from opts s cluster e
      → get_config_values c k from opts s cluster ≢ ok vals
  get_config_values-Unreadable e vals u given =
      let g = get_config_values-Configured c law k from opts s cluster vals given in
      not-IsRead e g.inputs u g.read
