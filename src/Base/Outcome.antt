-- ===== src/Base/Outcome.antt =====
-- How a Go call ends: with a value, by a run-time panic, or, in the model alone, out of fuel.
use mathlib.Core.Path.{◌≡◌, refl, subst}
use mathlib.Core.Logic.{◌≢◌}
use mathlib.Core.Bool.{Bool, true, false}
use mathlib.Core.Option.{Option, none, some}
use license_proxyserver.Base.Tests.{if◌then◌else◌}

pub data Run {ℓ} (A : Type ℓ) : Type ℓ where
  done : A → Run A
  panic out_of_fuel : Run A

infixl 5 ◌>>=◌
abbrev pub ◌>>=◌ {ℓ κ} : {A : Type ℓ} {B : Type κ} → Run A → (A → Run B) → Run B
done a >>= f = f a
panic >>= f = panic
out_of_fuel >>= f = out_of_fuel

-- A read through a pointer, or at an index of a slice.
abbrev pub deref {ℓ} : {A : Type ℓ} → Option A → Run A
deref (some a) = done a
deref none = panic

-- The call ends normally, with a value that satisfies `P`.
pub record Returns {ℓ κ} {A : Type ℓ} (P : A → Type κ) (r : Run A) : Type (ℓ ⊔ κ) where
  pub value : A
  pub ends : r ≡ done value
  pub holds : P value

module _ {ℓ κ} {A : Type ℓ} {P : A → Type κ} where
  pub returns : {a : A} → P a → Returns P (done a)
  returns {a} p = record { value = a; ends = refl; holds = p }

  pub Returns-map {κ'} :
      {S : A → Type κ'} {m : Run A} → Returns P m → ((a : A) → P a → S a) → Returns S m
  Returns-map h weaken = record { value = h.value; ends = h.ends; holds = weaken h.value h.holds }

  pub Returns-at : {m : Run A} {a : A} → Returns P m → m ≡ done a → P a
  Returns-at {m} {a} h e = let t = h.ends in let same : h.value ≡ a = cc in subst P same h.holds

  -- the rule for `>>=`: the second call is run on what the first one gives
  pub Returns-bind {ℓ' κ'} :
      {C : Type ℓ'} {m : Run A} {k : A → Run C} {S : C → Type κ'}
      → Returns P m
      → ((a : A) → P a → Returns S (k a))
      → Returns S (m >>= k)
  Returns-bind {k = k} h next = rw h.ends (next h.value h.holds)

  pub Returns-if :
      {m n : Run A} (test : Bool)
      → (test ≡ true → Returns P m)
      → (test ≡ false → Returns P n)
      → Returns P (if test then m else n)
  Returns-if false yes_case no_case = no_case refl
  Returns-if true yes_case no_case = yes_case refl

pub deref-Returns {ℓ} : {A : Type ℓ} (o : Option A) → o ≢ none → Returns (λ a. o ≡ some a) (deref o)
deref-Returns none h = absurd (h refl)
deref-Returns (some a) h = returns refl
