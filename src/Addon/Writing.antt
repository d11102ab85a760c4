-- ===== src/Addon/Writing.antt =====
-- The fields that each part of GetConfigValues writes.
use license_proxyserver.Base.{
  is_not_found, Bool-cases, inr, inl, Result-cases, wrapped, ℕ_discrete, if◌then◌else◌, Text, str,
  text, List, [], ◌∷◌, Option, none, some, Bool, true, false, ite, Result, ok, err, ◌≡◌, refl,
}
use license_proxyserver.Base.Fallible.{fails, gives, ◌>>=◌, Gives}
use license_proxyserver.Kube.{ManagedClusterClaim, KubeClient}
use license_proxyserver.Storage.Loader.{FileSystem}
use license_proxyserver.Syncer.{license_secret}
use license_proxyserver.Addon.{ManagerOptions}
use license_proxyserver.Addon.Chart.{
  apart, Value, string, object, Fields, FieldPath, ChartLibrary, IsChartLibrary,
}
use license_proxyserver.Addon.Config.{
  license_values, contains, set_option, set_ca_bundle, set_options, set_names, unset_ids,
  set_security, set_licenses,
}
use license_proxyserver.Addon.Written.{
  input_then, first_then, Written-refl, aside, set_nested_field-Written, separate, WrittenFor-map,
  plainly, WrittenFor, Plainly,
}
use license_proxyserver.Addon.Settings.{
  option_settings, bundle_settings, license_settings, read_managers, security_settings,
  name_settings, read_ca_bundle, bundle_of, flagged, given, LicensesRead, missing, found,
}

module _ (c : ChartLibrary) (law : IsChartLibrary c) where
  set_once :
      (v : Value) (k : Text) (path : FieldPath) (a : Fields)
      → Gives (Plainly ((k ∷ path, some v) ∷ []) a) (c.set_nested_field a v (k ∷ path))
  set_once v k path a = plainly _ _ _ (set_nested_field-Written c law a v k path)

  skip : (p : FieldPath) (a : Fields) → Gives (Plainly ((p, none) ∷ []) a) (ok a)
  skip p a = plainly _ _ _ (gives (Written-refl p a))

  unless-Written :
      {P : Type 0} (d : Dec P) (v : Value) (k : Text) (path : FieldPath) (a : Fields)
      → Gives
          (Plainly ((k ∷ path, ite d none (some v)) ∷ []) a)
          (ite d (ok a) (c.set_nested_field a v (k ∷ path)))
  unless-Written (yes p) v k path a = skip (k ∷ path) a
  unless-Written (no n) v k path a = set_once v k path a

  set_option-Written :
      (value k : Text) (path : FieldPath) (a : Fields)
      → Gives (Plainly ((k ∷ path, given value) ∷ []) a) (set_option c value (k ∷ path) a)
  unfolding set_option
  set_option-Written value k path a = unless-Written (str value []) (string value) k path a

  set_flag-Written :
      (flag : Bool) (v : Value) (k : Text) (path : FieldPath) (a : Fields)
      → Gives
          (Plainly ((k ∷ path, flagged flag v) ∷ []) a)
          (if flag then c.set_nested_field a v (k ∷ path) else ok a)
  set_flag-Written false v k path a = skip (k ∷ path) a
  set_flag-Written true v k path a = set_once v k path a

  bundle-Written :
      {P : Type 0} (d : Dec P) (read : Result Text) (a : Fields)
      → Gives (WrittenFor (λ b. ite d (ok none) (bundle_of read) ≡ ok b) bundle_settings a) (
          ite d (ok a) (elim read [
            | err e ↦ err (wrapped (text "failed to read CA file") e)
            | ok bytes ↦
                c.set_nested_field a (string bytes) (text "platform" ∷ text "caBundle" ∷ [])
          ]))
  bundle-Written (yes p) read a = WrittenFor-map (λ i. none) (λ i h. refl) (λ i. refl) (skip _ a)
  bundle-Written (no n) (err e) a = fails
  bundle-Written (no n) (ok bytes) a =
      WrittenFor-map (λ i. some bytes) (λ i h. refl) (λ i. refl) (set_once (string bytes) _ _ a)

  set_ca_bundle-Written :
      (fs : FileSystem) (ca_file : Text) (a : Fields)
      → Gives
          (WrittenFor (λ b. read_ca_bundle fs ca_file ≡ ok b) bundle_settings a)
          (set_ca_bundle c fs ca_file a)
  unfolding set_ca_bundle
  set_ca_bundle-Written fs ca_file a = bundle-Written (str ca_file []) (fs.read_file ca_file) a

  pub set_options-Written :
      (fs : FileSystem) (opts : ManagerOptions) (a : Fields)
      → Gives
          (WrittenFor (λ b. read_ca_bundle fs opts.ca_file ≡ ok b) (option_settings opts) a)
          (set_options c fs opts a)
  unfolding set_options separate aside apart str ℕ_discrete
  set_options-Written fs opts a =
      first_then (set_option-Written _ _ _ a)
        (λ b.
          first_then (set_option-Written _ _ _ b)
            (λ b.
              input_then (set_ca_bundle-Written fs opts.ca_file b)
                (λ b.
                  first_then (set_flag-Written _ _ _ _ b) (λ b. set_option-Written _ _ _ b)
                    (λ j. (refl, refl)))
                (λ j. (refl, refl)))
            (λ j. (refl, refl)))
        (λ j. (refl, refl))

  pub set_names-Written :
      (cluster_name : Text) (a : Fields)
      → Gives (Plainly (name_settings cluster_name) a) (set_names c cluster_name a)
  unfolding set_names separate aside apart str ℕ_discrete
  set_names-Written cluster_name a =
      first_then (set_once _ _ _ a)
        (λ b. first_then (set_once _ _ _ b) (λ b. set_once _ _ _ b) (λ j. (refl, refl)))
        (λ j. (refl, refl))

  unset_ids-Written : (a : Fields) → Gives (Plainly (security_settings true) a) (unset_ids c a)
  unfolding unset_ids separate aside apart str ℕ_discrete
  unset_ids-Written a = first_then (set_once _ _ _ a) (λ b. set_once _ _ _ b) (λ j. (refl, refl))

  no_ids-Written : (a : Fields) → Gives (Plainly (security_settings false) a) (ok a)
  unfolding separate aside apart str ℕ_discrete
  no_ids-Written a = first_then (skip _ a) (λ b. skip _ b) (λ j. (refl, refl))

  ids-Written :
      (on_open_shift : Bool) (a : Fields)
      → Gives
          (Plainly (security_settings on_open_shift) a)
          (if on_open_shift then unset_ids c a else ok a)
  ids-Written true a = unset_ids-Written a
  ids-Written false a = no_ids-Written a

  managers-Written :
      (read : Result (List Text)) (a : Fields)
      → Gives
          (WrittenFor (λ l. read ≡ ok l) (λ l. security_settings (contains l c.open_shift)) a)
          (read >>= λ l. if contains l c.open_shift then unset_ids c a else ok a)
  managers-Written (err e) a = fails
  managers-Written (ok l) a =
      WrittenFor-map (λ i. l) (λ i h. refl) (λ i. refl) (ids-Written (contains l c.open_shift) a)

  pub set_security-Written :
      (claims : List ManagedClusterClaim) (a : Fields)
      → Gives
          (WrittenFor
            (λ l. read_managers c claims ≡ ok l)
            (λ l. security_settings (contains l c.open_shift))
            a)
          (set_security c claims a)
  unfolding set_security contains
  set_security-Written [] a =
      WrittenFor-map (λ i. []) (λ i h. refl) (λ i. refl) (ids-Written false a)
  set_security-Written (claim ∷ claims) a =
      elim (str claim.name c.cluster_claim_key_info)
        as (λ d.
          Gives
            (WrittenFor (λ l. ite d (c.unmarshal_info claim.value) (read_managers c claims) ≡ ok l)
              (λ l. security_settings (contains l c.open_shift)) a)
            (ite d
              (c.unmarshal_info claim.value >>= λ l.
                if contains l c.open_shift then unset_ids c a else ok a)
              (set_security c claims a))) [
                | yes p ↦ managers-Written (c.unmarshal_info claim.value) a
                | no n ↦ set_security-Written claims a
              ]

  module _ (k : KubeClient) where
    licenses-Written :
        (data_map : Option (List (Text × Text))) (a : Fields)
        → Gives (Plainly (license_settings data_map) a) (elim data_map [
          | none ↦ ok a
          | some m ↦ c.set_nested_field a (object (license_values m)) (text "licenses" ∷ [])
        ])
    licenses-Written none a = skip _ a
    licenses-Written (some m) a = set_once _ _ _ a

    pub set_licenses-Written :
        (s : k.State) (cluster_name : Text) (a : Fields)
        → Gives
            (WrittenFor (LicensesRead k s cluster_name) license_settings a)
            (set_licenses c k s cluster_name a)
    unfolding set_licenses
    set_licenses-Written s cluster_name a =
        elim (Result-cases
          (k.get_secret s (record { namespace = cluster_name; name = license_secret }))) [
            | inl (sec, e) ↦
                rw (e, set_licenses)
                  (WrittenFor-map (λ i. sec.data_map) (λ i h. found sec e) (λ i. refl)
                    (licenses-Written sec.data_map a))
            | inr (e, gone) ↦ elim (Bool-cases (is_not_found e)) [
              | inl yes_e ↦
                  rw (gone, set_licenses, yes_e)
                    (WrittenFor-map (λ i. none) (λ i h. missing e gone yes_e) (λ i. refl)
                      (skip _ a))
              | inr no_e ↦ rw (gone, set_licenses, no_e) fails
            ]
          ]
