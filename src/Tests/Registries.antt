-- ===== src/Tests/Registries.antt =====
-- A registry with two licenses, built by Add and by the calls of a day.
use license_proxyserver.Base.{
  subst, ◌*◌, text, str, List, [], ◌∷◌, Option, none, some, ◌≡◌, refl, sym, Run, done, panic,
  out_of_fuel, Returns,
}
use license_proxyserver.Base.Dict
use license_proxyserver.Base.Int.{pos}
use license_proxyserver.Api.{License, Time}
use license_proxyserver.Clock.{second, min_remaining_life, until}
use license_proxyserver.Heap
use license_proxyserver.Storage.RecordBook.{new_record_book}
use license_proxyserver.Storage.Registry.{
  LicenseRegistry, new_license_registry, add, license_for_feature, get,
}
use license_proxyserver.Storage.Registry.Sound.{
  IsSound, Call, adds, serves, waits, new-IsSound, add-IsSound,
}
use license_proxyserver.Tests.Samples.{
  sooner, order, Issued, authority, short_lived, long_lived, kubedb,
}

abbrev pub value_of {ℓ} : {A : Type ℓ} → A → Run A → A
value_of a (done b) = b
value_of a panic = a
value_of a out_of_fuel = a

pub holds_at {ℓ κ} :
    {A : Type ℓ} {P : A → Type κ} {r : Run A} → (a : A) → (m : Returns P r) → P (value_of a r)
holds_at {P = P} a m = subst (λ x. P (value_of a x)) (sym m.ends) m.holds

abbrev pub midnight : Time
midnight = pos 0

abbrev pub start : LicenseRegistry
start = new_license_registry (text "/cache") min_remaining_life (some new_record_book)

start-IsSound : IsSound sooner Issued midnight start
unfolding new_record_book Dict.lookup
start-IsSound =
    new-IsSound sooner Issued midnight (text "/cache") min_remaining_life (some new_record_book)
      (λ id h. absurd (h refl))

abbrev pub one : LicenseRegistry
one = value_of start (add sooner start short_lived none)

pub one-IsSound : IsSound sooner Issued midnight one
one-IsSound =
    (holds_at start (
      add-IsSound sooner Issued order authority midnight start start-IsSound short_lived none
        refl)).0

abbrev pub two : LicenseRegistry
two = value_of one (add sooner one long_lived none)

pub two-IsSound : IsSound sooner Issued midnight two
two-IsSound =
    (holds_at one
      (add-IsSound sooner Issued order authority midnight one one-IsSound long_lived none refl)).0

-- Both licenses are stored, and the one that ends first is the first choice.
served : license_for_feature sooner midnight two kubedb ≡ done (two, some short_lived)
unfolding license_for_feature add Heap.push new_license_registry Dict.lookup Dict.insert str until
served = refl

-- Close to its end it is dropped, and the other one is served.
abbrev pub evening : Time
evening = pos (7000 * second)

abbrev choice : Run (LicenseRegistry × Option License) → Option License
choice (done (r, l)) = l
choice panic = none
choice out_of_fuel = none

served_later : choice (license_for_feature sooner evening two kubedb) ≡ some long_lived
unfolding license_for_feature add Heap.push Heap.pop new_license_registry Dict.lookup Dict.insert
    str until
served_later = refl

dropped_later :
    get (value_of (two, none) (license_for_feature sooner evening two kubedb)).0 (text "a") ≡ none
unfolding license_for_feature add Heap.push Heap.pop new_license_registry get Dict.lookup
    Dict.insert str until Dict.delete
dropped_later = refl

abbrev pub a_day : List Call
a_day =
    adds short_lived none
    ∷ adds long_lived none
    ∷ serves kubedb
    ∷ waits evening
    ∷ serves kubedb
    ∷ []
