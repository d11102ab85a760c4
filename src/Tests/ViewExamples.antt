-- ===== src/Tests/ViewExamples.antt =====
-- The table of two objects, and the health check of a deployment.
use license_proxyserver.Base.{text, [], ◌∷◌, none, some, false, ◌≡◌, refl, arith, ok, message}
use license_proxyserver.Base.Int.{pos}
use license_proxyserver.Api.{LicenseStatus}
use license_proxyserver.Status.{empty_spec}
use license_proxyserver.Table.{Input, license_status, named, items, Table, convert_to_table}
use license_proxyserver.Table.Rows.{Tabled, convert_to_table-Tabled}
use license_proxyserver.Prober.{FeedbackValue, health_check}
use license_proxyserver.Prober.Probed.{Decides, health_check-Decides, ready_replicas}
use license_proxyserver.Tests.Samples.{short_lived}
use license_proxyserver.Tests.Registries.{midnight}

abbrev shown : LicenseStatus
shown = record {
  name = text "a";
  uid = text "a";
  creation_timestamp = midnight;
  spec = empty_spec;
  status = record { license = short_lived; contract = none };
}

abbrev listed : Input
listed =
    items (record { resource_version = []; continue_token = []; remaining_item_count = none })
      (license_status shown ∷ named (text "b") ∷ [])

convert_to_table-Tabled_example :
    (t : Table) × (convert_to_table
        (λ d. text "2h")
        (message (text "not acceptable"))
        midnight
        false
        listed
      ≡ ok t)
    × Tabled (λ d. text "2h") (message (text "not acceptable")) midnight false listed t
convert_to_table-Tabled_example =
    convert_to_table-Tabled (λ d. text "2h") (message (text "not acceptable")) midnight false listed
      (tt, (tt, tt))

abbrev replicas : FeedbackValue
replicas = record { name = text "Replicas"; integer = some (pos 2) }

abbrev ready : FeedbackValue
ready = record { name = ready_replicas; integer = some (pos 1) }

health_check-Decides_example : Decides (some (pos 1)) (health_check (replicas ∷ ready ∷ []))
health_check-Decides_example =
    health_check-Decides (replicas ∷ []) ready [] ((λ e. ground (arith, e)), tt) refl
