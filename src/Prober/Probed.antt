-- ===== src/Prober/Probed.antt =====
-- The health check by the first value of `ReadyReplicas`.
use license_proxyserver.Base.{
  Text, text, List, [], ◌∷◌, ◌++◌, Option, none, some, All, ◌≡◌, ◌≢◌, ◌↔◌, refl, sym, subst, ◌∙◌,
  arith, Run, done, panic, Error,
}
use license_proxyserver.Base.Int.{ℤ, pos, ◌≤ℤ◌}
use license_proxyserver.Prober.{FeedbackValue, check_ready, probe, health_check}

abbrev pub ready_replicas : Text
ready_replicas = text "ReadyReplicas"

-- The value has another name.
abbrev pub IsOther : FeedbackValue → Type 0
IsOther value = value.name ≢ ready_replicas

probe-first :
    (before : List FeedbackValue) (value : FeedbackValue) (rest : List FeedbackValue)
    → All IsOther before
    → value.name ≡ ready_replicas
    → probe (before ++ value ∷ rest) ≡ check_ready value.integer
unfolding probe
probe-first [] value rest h e = ground (arith, e)
probe-first (other ∷ before) value rest h e =
    ground (arith, h.0, probe-first before value rest h.1 e)

check_ready-healthy : (n : ℤ) → (check_ready (some n) ≡ done none) ↔ (pos 1 ≤ℤ n)
unfolding check_ready
check_ready-healthy n = ((λ h. ground (arith, h)), (λ h. ground (arith, h)))

health_check-probe :
    (before : List FeedbackValue) (value : FeedbackValue) (rest : List FeedbackValue)
    → health_check (before ++ value ∷ rest) ≡ probe (before ++ value ∷ rest)
unfolding health_check
health_check-probe [] value rest = refl
health_check-probe (other ∷ before) value rest = refl

-- What the check gives for the value: health just if at least one replica is ready, and a panic for
-- a value that is no integer.
abbrev pub Decides : Option ℤ → Run (Option Error) → Type 0
Decides none res = res ≡ panic
Decides (some n) res = (res ≡ done none) ↔ (pos 1 ≤ℤ n)

check_ready-Decides : (integer : Option ℤ) → Decides integer (check_ready integer)
unfolding check_ready
check_ready-Decides none = refl
check_ready-Decides (some n) = check_ready-healthy n

-- Whatever values of other names come before the first value of the name `ReadyReplicas`, and
-- whatever comes after it, HealthCheck reports health just if that value is an integer that is at
-- least one, and panics if it is not an integer.
pub health_check-Decides :
    (before : List FeedbackValue) (value : FeedbackValue) (rest : List FeedbackValue)
    → All IsOther before
    → value.name ≡ ready_replicas
    → Decides value.integer (health_check (before ++ value ∷ rest))
health_check-Decides before value rest h e =
    subst (Decides value.integer)
      (sym (health_check-probe before value rest ∙ probe-first before value rest h e))
      (check_ready-Decides value.integer)
