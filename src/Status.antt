-- ===== src/Status.antt =====
-- pkg/registry/proxyserver/licensestatus/storage.go: the stored licenses as API objects. The record
-- book of the storage is the one that the registry holds.
pub mod Shown
use license_proxyserver.Base.{
  Text, List, [], ◌∷◌, Option, none, some, Bool, Run, done, deref, ◌>>=◌, Result, ok, err,
  not_found,
}
use license_proxyserver.Api.{License, Contract, Time, LicenseStatus, LicenseStatusSpec}
use license_proxyserver.Storage.RecordBook
use license_proxyserver.Storage.RecordBook.{RecordBook}
use license_proxyserver.Storage.Registry
use license_proxyserver.Storage.Registry.{Record, LicenseRegistry}

unfoldable pub empty_spec : LicenseStatusSpec
empty_spec = record { feature = []; user = none }

unfoldable pub to_license_status : Option RecordBook → Record → Run LicenseStatus
unfolding empty_spec RecordBook.used_by
to_license_status rb rec = do
  not_before ← deref rec.license.not_before
  book ← deref rb
  done (record {
    name = rec.license.id;
    uid = rec.license.id;
    creation_timestamp = not_before;
    spec = elim (RecordBook.used_by book rec.license.id) [ some spec ↦ spec | none ↦ empty_spec ];
    status = record { license = rec.license; contract = rec.contract };
  })

-- the loop of List
unfoldable pub to_items : Option RecordBook → List Record → Run (List LicenseStatus)
unfolding to_license_status
to_items rb [] = done []
to_items rb (rec ∷ records) = do
  item ← to_license_status rb rec
  items ← to_items rb records
  done (item ∷ items)

unfoldable pub list : (License → License → Bool) → Time → LicenseRegistry → Run (List LicenseStatus)
unfolding to_items
list less now r = do records ← Registry.list less now r; to_items r.rb records

unfoldable pub get : LicenseRegistry → Text → Run (Result LicenseStatus)
unfolding to_license_status
get r name = elim (Registry.get r name) [
  | none ↦ done (err (not_found name))
  | some rec ↦ do out ← to_license_status r.rb rec; done (ok out)
]
