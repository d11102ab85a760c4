-- ===== src/Tests/ServerExamples.antt =====
-- The theorems of the API server's storages at the sample registries.
use license_proxyserver.Base.{
  Text, text, str, List, [], ◌∷◌, All, none, some, true, ◌≡◌, ◌≢◌, refl, arith, Returns, Result, ok,
  err, message,
}
use license_proxyserver.Base.Dict
use license_proxyserver.Base.Split.{split}
use license_proxyserver.Clock.{until}
use license_proxyserver.Heap
use license_proxyserver.Api.{LicenseRequest}
use license_proxyserver.Storage.RecordBook
use license_proxyserver.Storage.RecordBook.{RecordBook, new_record_book}
use license_proxyserver.Storage.Registry
use license_proxyserver.Storage.Registry.{
  LicenseRegistry, Record, new_license_registry, add, license_for_feature,
}
use license_proxyserver.Storage.Registry.Sound.{IsSound}
use license_proxyserver.Request.{
  Storage, find_license, get_license, create, claim_features, Created, comma,
}
use license_proxyserver.Request.Finding.{Found, find_license-Found, Got, get_license-Got}
use license_proxyserver.Request.Granting.{Granted, CreateEnds, create-CreateEnds}
use license_proxyserver.Request.Claiming.{Claimed, claim_features-Claimed}
use license_proxyserver.Status
use license_proxyserver.Status.Shown.{
  IsBegun, IsFetched, GrantShown, get-GrantShown, list-IsFetched,
}
use license_proxyserver.Tests.Samples.{
  sooner, order, Issued, authority, verifier, signs, user, short_lived, kubedb, stash,
}
use license_proxyserver.Tests.Services.{
  spoke, spoke-IsSpokeClient, string_sets, string_sets-IsStringSets,
}
use license_proxyserver.Tests.Registries.{value_of, holds_at, midnight, two, two-IsSound}

abbrev pub storage : Storage Text
storage = record { cid = text "uid"; ca_cert = text "CA"; lc = none; reg = two }

find_license-Found_example :
    Returns
      (Found sooner Issued order authority midnight (stash ∷ kubedb ∷ []) two)
      (find_license sooner midnight (stash ∷ kubedb ∷ []) two)
find_license-Found_example =
    find_license-Found sooner Issued order authority midnight (stash ∷ kubedb ∷ []) two two-IsSound

get_license-Got_example :
    Returns
      (Got sooner Issued order authority midnight verifier signs storage)
      (get_license sooner verifier midnight (kubedb ∷ []) storage)
get_license-Got_example =
    get_license-Got sooner Issued order authority midnight verifier signs (kubedb ∷ []) storage
      two-IsSound

abbrev pub asked : LicenseRequest
asked = record { request = some (record { features = kubedb ∷ [] }); response = none }

present {ℓ} : {A : Type ℓ} (a : A) → some a ≢ none
present a e = cc

-- a record that is found in a store is one of its records
found_begun :
    (store : List (Text × Record))
    → All (λ (p : Text × Record). p.1.license.not_before ≢ none) store
    → (id : Text) (rec : Record) → Dict.lookup str id store ≡ some rec
    → rec.license.not_before ≢ none
unfolding Dict.lookup
found_begun [] h id rec e = absurd (cc)
found_begun ((k, x) ∷ store) h id rec e = ground (arith, h.0, found_begun store h.1 id rec)

pub book-present : two.rb ≢ none
unfolding add new_license_registry Dict.lookup Dict.insert str Heap.push
book-present e = present new_record_book e

create-CreateEnds_example :
    Returns
      (CreateEnds sooner Issued order authority verifier signs spoke string_sets midnight user
        (kubedb ∷ []))
      (create sooner verifier spoke string_sets midnight (some user) asked storage none)
create-CreateEnds_example =
    create-CreateEnds sooner Issued order authority verifier signs spoke string_sets midnight user
      asked (record { features = kubedb ∷ [] }) storage none true refl refl book-present two-IsSound

plain : All (λ f. All (λ c. c ≢ comma) f) (kubedb ∷ stash ∷ [])
plain = ground arith

claim_features-Claimed_example :
    Claimed spoke spoke-IsSpokeClient string_sets string_sets-IsStringSets
      (some (text "stash"))
      (claim_features spoke string_sets (some (text "stash")) (kubedb ∷ stash ∷ [])).0
      (kubedb ∷ stash ∷ [])
unfolding claim_features str split
claim_features-Claimed_example =
    claim_features-Claimed spoke spoke-IsSpokeClient string_sets string_sets-IsStringSets
      (some (text "stash")) (kubedb ∷ stash ∷ []) plain refl

-- the registry after Create
abbrev failed : Created sooner verifier spoke string_sets
failed = (storage, none, err (message (text "failed")))

abbrev created : Created sooner verifier spoke string_sets
created =
    value_of failed
      (create sooner verifier spoke string_sets midnight (some user) asked storage none)

abbrev after : LicenseRegistry
after = created.0.reg

after-IsSound : IsSound sooner Issued midnight after
after-IsSound =
    (holds_at failed (
      create-CreateEnds sooner Issued order authority verifier signs spoke string_sets midnight user
        asked (record { features = kubedb ∷ [] }) storage none true refl refl book-present
        two-IsSound)).0

answer_of : Result LicenseRequest → LicenseRequest
answer_of (ok out) = out
answer_of (err e) = asked

after-IsBegun : IsBegun after
unfolding create add Heap.push new_license_registry Dict.lookup Dict.insert str until
    license_for_feature
after-IsBegun id rec e = found_begun after.store (present midnight, (present midnight, tt)) id rec e

abbrev recorded : RecordBook
recorded = RecordBook.record_usage new_record_book (text "a") (kubedb ∷ []) user

recorded-same : after.rb ≡ some recorded
unfolding create license_for_feature Dict.lookup add new_license_registry Dict.insert str Heap.push
    until
recorded-same = refl

after-Granted : Granted Issued after user (kubedb ∷ []) (answer_of created.2)
unfolding create add Heap.push new_license_registry Dict.lookup Dict.insert str until
    license_for_feature Registry.get RecordBook.used_by RecordBook.record_usage new_record_book
    RecordBook.usage answer_of
after-Granted = record {
  license = short_lived;
  issued = refl;
  book = recorded;
  stored = λ e. present (record { license = short_lived; contract = none }) e;
  same_book = refl;
  used = refl;
  answered = refl;
}

get-GrantShown_example :
    Returns
      (GrantShown after-Granted.license.id (RecordBook.usage (kubedb ∷ []) user))
      (Status.get after after-Granted.license.id)
get-GrantShown_example =
    get-GrantShown sooner after after-IsSound.wf after-IsBegun recorded recorded-same Issued user
      (kubedb ∷ []) (answer_of created.2) after-Granted

list-IsFetched_example : Returns (All (IsFetched after)) (Status.list sooner midnight after)
list-IsFetched_example =
    list-IsFetched sooner after after-IsSound.wf after-IsBegun recorded recorded-same order midnight
