-- ===== src/Base/Fallible.antt =====
-- Calls that fail with an error in sequence: `if err != nil { return err }` after each of them.
use mathlib.Core.Path.{subst, ◌≡◌, refl}
use mathlib.Core.Bool.{Bool, true, false}
use mathlib.Core.Option.{Option, none, some}
use license_proxyserver.Base.Tests.{if◌then◌else◌}
use license_proxyserver.Base.Errors.{Error, Result, ok, err}

infixl 5 ◌>>=◌
abbrev pub ◌>>=◌ {ℓ κ} : {A : Type ℓ} {B : Type κ} → Result A → (A → Result B) → Result B
ok a >>= f = f a
err e >>= f = err e

-- What the call gives if it does not fail satisfies `P`.
pub record Gives {ℓ κ} {A : Type ℓ} (P : A → Type κ) (r : Result A) : Type (ℓ ⊔ κ) where
  pub holds : (a : A) → r ≡ ok a → P a

ok_inj {ℓ} : {A : Type ℓ} {a b : A} → ok a ≡ ok b → a ≡ b
ok_inj e = cc

module _ {ℓ κ} {A : Type ℓ} {P : A → Type κ} where
  pub gives : {a : A} → P a → Gives P (ok a)
  gives {a} p = record { holds = λ b e. subst P (ok_inj e) p }

  pub fails : {e : Error} → Gives P (err e)
  fails = record { holds = λ b e. absurd (cc) }

  pub Gives-map {κ'} :
      {Q : A → Type κ'} {r : Result A} → Gives P r → ((a : A) → P a → Q a) → Gives Q r
  Gives-map h weaken = record { holds = λ a e. weaken a (h.holds a e) }

  -- the rule for `>>=`
  pub Gives-bind {ℓ' κ'} :
      {B : Type ℓ'} {Q : B → Type κ'} {r : Result A} {k : A → Result B}
      → Gives P r
      → ((a : A) → r ≡ ok a → P a → Gives Q (k a))
      → Gives Q (r >>= k)
  Gives-bind {r = ok a} h next = next a refl (h.holds a refl)
  Gives-bind {r = err e} h next = record { holds = λ b e. absurd (cc) }

-- the call itself, if nothing more is known of it
pub Gives-self {ℓ} : {A : Type ℓ} (r : Result A) → Gives (λ a. r ≡ ok a) r
Gives-self r = record { holds = λ a e. e }

-- `P` of what a call that only fails or succeeds is followed by
module _ {ℓ κ} {A : Type ℓ} (P : A → Type κ) where
  pub guarded :
      (o : Option Error) (stop : Error → A) (next : A)
      → ((e : Error) → P (stop e))
      → P next
      → P (elim o [ some e ↦ stop e | none ↦ next ])
  guarded none stop next s n = n
  guarded (some e) stop next s n = s e

  pub branched : (b : Bool) (x y : A) → P x → P y → P (if b then x else y)
  branched true x y p q = p
  branched false x y p q = q
