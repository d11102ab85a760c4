-- ===== src/Addon/Named.antt =====
-- The names and entries that GetConfigValues looks for: slices.Contains, and the map of the licenses.
use mathlib.Core.Bool.{Bool-set}
use mathlib.Core.Logic.Or
use mathlib.Core.List.{mem-cons, mem-cons_self, mem-cons_of_mem, not-mem-nil}
use license_proxyserver.Base.{
  ◌∙◌, Text, str, List, [], ◌∷◌, Mem, Option, none, some, true, false, ◌≡◌, refl, sym, subst, inl,
  inr, arith, Option-cases, Bool-cases,
}
use license_proxyserver.Base.Dict
use license_proxyserver.Addon.Chart.{Value, string, object, Fields, find, at, lookup}
use license_proxyserver.Addon.Config.{contains, license_values}
use license_proxyserver.Addon.Settings.{option_map}

contains-has : (l : List Text) (x : Text) → contains l x ≡ true → Mem x l
unfolding contains
contains-has [] x h = absurd (cc)
contains-has (y ∷ l) x h = elim (str y x) [
  | yes p ↦ subst (λ z. Mem x (z ∷ l)) (sym p) mem-cons_self
  | no n ↦ mem-cons_of_mem y (contains-has l x (ground (arith, h, n)))
]

pub contains-Mem : (l : List Text) (x : Text) → Mem x l → contains l x ≡ true
unfolding contains
contains-Mem [] x i = absurd (not-mem-nil i)
contains-Mem (y ∷ l) x i =
    Or.elim (Bool-set _ _) (mem-cons.0 i) (λ e. ground (arith, e))
      (λ j. let rest = contains-Mem l x j in ground (arith, rest))

pub contains_not : (l : List Text) (x : Text) → ¬ (Mem x l) → contains l x ≡ false
contains_not l x n = elim (Bool-cases (contains l x)) [
  | inl h ↦ absurd (n (contains-has l x h))
  | inr h ↦ h
]

find-license_values :
    (m : List (Text × Text)) (key : Text)
    → find key (license_values m) ≡ option_map string (Dict.lookup str key m)
unfolding find license_values Dict.lookup
find-license_values [] key = refl
find-license_values ((k, v) ∷ m) key = elim (str k key) [
  | yes p ↦ ground (arith, p)
  | no n ↦ let rest = find-license_values m key in ground (arith, n, rest)
]

at_one : (o : Option Value) → (elim o [ none ↦ none | some w ↦ some w ]) ≡ o
at_one none = refl
at_one (some w) = refl

under :
    (m f : Fields) (k j : Text)
    → lookup m (k ∷ []) ≡ some (object f)
    → lookup m (k ∷ j ∷ []) ≡ find j f
unfolding at
under m f k j e = elim (Option-cases (find k m)) [
  | inl gone ↦ absurd (ground (arith, e, gone))
  | inr (v, there) ↦
      let same : v ≡ object f = ground (arith, e, there) in
      ground (arith, there, same, at_one (find j f))
]

-- what the values have of a license
pub lookup-license_values :
    (vals : Fields) (m : List (Text × Text)) (k key : Text)
    → lookup vals (k ∷ []) ≡ some (object (license_values m))
    → lookup vals (k ∷ key ∷ []) ≡ option_map string (Dict.lookup str key m)
lookup-license_values vals m k key e =
    under vals (license_values m) k key e ∙ find-license_values m key
