-- ===== src/DeepCopy/Memory.antt =====
-- The objects that the API objects are made of, and a store of them.
use license_proxyserver.Base.{
  set, refl, ◌≢◌, ◌∙◌, ◌≤◌, ◌∙◌, set, ◌≢◌, ◌≤◌, zero, suc, inr, get_elem?-last, inl, arith, suc,
  Option-cases, ℕ, ◌<◌, Text, List, [], ◌∷◌, ◌++◌, Option, none, some, ◌≡◌, Run, done, deref, ◌>>=◌,
  length, get_elem?,
}

-- LicenseRequestRequest: the slice of features
pub record RequestObject : Type 0 where
  pub features : Option ℕ

-- UserInfo: the slice of groups, and the map of the extra values
pub record UserObject : Type 0 where
  pub username : Text
  pub uid : Text
  pub groups : Option ℕ
  pub extra : Option ℕ

-- LicenseStatusSpec: the slice of features, and the user
pub record SpecObject : Type 0 where
  pub feature : Option ℕ
  pub user : Option ℕ

-- LicenseRequest: the request and the response
pub record LicenseRequestObject : Type 0 where
  pub request : Option ℕ
  pub response : Option ℕ

pub data Object : Type 0 where
  string_slice : List Text → Object
  -- a map to slices
  extra_map : List (Text × Option ℕ) → Object
  request_object : RequestObject → Object
  response_object : Text → Object
  user_object : UserObject → Object
  spec_object : SpecObject → Object
  license_request_object : LicenseRequestObject → Object

abbrev pub strings_of : Object → Option (List Text)
strings_of (string_slice l) = some l
strings_of _ = none

abbrev pub extra_of : Object → Option (List (Text × Option ℕ))
extra_of (extra_map m) = some m
extra_of _ = none

abbrev pub request_of : Object → Option RequestObject
request_of (request_object x) = some x
request_of _ = none

abbrev pub response_of : Object → Option Text
response_of (response_object x) = some x
response_of _ = none

abbrev pub user_of : Object → Option UserObject
user_of (user_object x) = some x
user_of _ = none

abbrev pub spec_of : Object → Option SpecObject
spec_of (spec_object x) = some x
spec_of _ = none

abbrev pub license_request_of : Object → Option LicenseRequestObject
license_request_of (license_request_object x) = some x
license_request_of _ = none

-- An address is the place of an object in the store.
abbrev pub Store : Type 0
Store = List Object

-- a read through a pointer to an object of one type
unfoldable pub load : {A : Type 0} → (Object → Option A) → Store → ℕ → Run A
load of s a = deref (get_elem? s a) >>= λ o. deref (of o)

-- a new object, and the pointer to it
unfoldable pub new : Store → Object → Store × Option ℕ
new s o = (s ++ o ∷ [], some (length s))

-- Every object of the first store is in the second, at its address.
abbrev pub Grows : Store → Store → Type 0
Grows s s' = (a : ℕ) (o : Object) → get_elem? s a ≡ some o → get_elem? s' a ≡ some o

-- Every object from the address `n` on is in the second store too.
abbrev pub KeepsFrom : ℕ → Store → Store → Type 0
KeepsFrom n s s' = (a : ℕ) (o : Object) → n ≤ a → get_elem? s a ≡ some o → get_elem? s' a ≡ some o

pub load_kept :
    {A : Type 0} (of : Object → Option A) (s s' : Store) (a : ℕ) (x : A)
    → ((o : Object) → get_elem? s a ≡ some o → get_elem? s' a ≡ some o)
    → load of s a ≡ done x
    → load of s' a ≡ done x
unfolding load
load_kept of s s' a x g e = elim (Option-cases (get_elem? s a)) [
  | inl gone ↦ absurd (ground (arith, e, gone))
  | inr (o, there) ↦ ground (arith, e, there, g o there)
]

get_elem?-append_some :
    (s t : Store) (a : ℕ) (o : Object) → get_elem? s a ≡ some o → get_elem? (s ++ t) a ≡ some o
get_elem?-append_some [] t a o e = absurd (cc)
get_elem?-append_some (x ∷ s) t zero o e = e
get_elem?-append_some (x ∷ s) t (suc a) o e = get_elem?-append_some s t a o e

pub new-Grows : (s : Store) (o : Object) → Grows s (new s o).0
unfolding new
new-Grows s o a x e = get_elem?-append_some s (o ∷ []) a x e

pub load-new :
    {A : Type 0} (of : Object → Option A) (s : Store) (o : Object) (x : A)
    → of o ≡ some x
    → load of (new s o).0 (length s) ≡ done x
unfolding new load
load-new of s o x e = ground (arith, get_elem?-last s o, e)

-- a write to one object

pub set_other : (s : Store) (a b : ℕ) (o : Object) → a ≢ b → get_elem? (set s a o) b ≡ get_elem? s b
set_other [] a b o n = refl
set_other (x ∷ s) zero zero o n = absurd (n refl)
set_other (x ∷ s) zero (suc b) o n = refl
set_other (x ∷ s) (suc a) zero o n = refl
set_other (x ∷ s) (suc a) (suc b) o n = set_other s a b o (λ e. n (ground (arith, e)))

in_bounds : (s : Store) (a : ℕ) (o : Object) → get_elem? s a ≡ some o → a < length s
in_bounds [] a o e = absurd (cc)
in_bounds (x ∷ s) zero o e = omega arith
in_bounds (x ∷ s) (suc a) o e = omega (arith, in_bounds s a o e)

-- to an object that the first store does not have
pub set-Grows :
    (s s' : Store) (a : ℕ) (o : Object) → Grows s s' → length s ≤ a → Grows s (set s' a o)
set-Grows s s' a o g late b x e =
    set_other s' a b o (λ p. absurd (ground (arith, p, late, in_bounds s b x e))) ∙ g b x e

-- to an object before `n`
pub set-KeepsFrom : (n : ℕ) (s : Store) (a : ℕ) (o : Object) → a < n → KeepsFrom n s (set s a o)
set-KeepsFrom n s a o early b x late e =
    set_other s a b o (λ p. absurd (ground (arith, p, early, late))) ∙ e
