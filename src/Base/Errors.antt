-- ===== src/Base/Errors.antt =====
-- Go errors as values, and the pairs `(value, error)` that fallible calls return.
use mathlib.Core.Path.{◌≡◌, refl}
use mathlib.Core.Logic.{◌⊎◌, inl, inr}
use mathlib.Core.Bool.{Bool, true, false}
use license_proxyserver.Base.Strings.{Text}

-- An error by what the program can tell of it. `crypto/x509` returns its `CertificateInvalidError`
-- as a value; an error of the pointer type is another one.
pub data Error : Type 0 where
  message : Text → Error
  bad_request : Text → Error
  not_found : Text → Error
  certificate_invalid certificate_invalid_pointer : Error
  wrapped : Text → Error → Error

pub data Result {ℓ} (A : Type ℓ) : Type ℓ where
  ok : A → Result A
  err : Error → Result A

-- apierrors.IsNotFound, which looks through wrapped errors
abbrev pub is_not_found : Error → Bool
is_not_found (message _) = false
is_not_found (bad_request _) = false
is_not_found (not_found _) = true
is_not_found certificate_invalid = false
is_not_found certificate_invalid_pointer = false
is_not_found (wrapped _ e) = is_not_found e

pub Result-cases {ℓ} :
    {A : Type ℓ} (r : Result A) → ((a : A) × (r ≡ ok a)) ⊎ ((e : Error) × (r ≡ err e))
Result-cases (ok a) = inl (a, refl)
Result-cases (err e) = inr (e, refl)
