-- ===== src/DeepCopy.antt =====
-- apis/proxyserver/v1alpha1/zz_generated.deepcopy.go: the deep copies of the API objects, on a store of
-- objects that refer to each other by address. A slice and a map are references too: none is nil. The
-- metadata of an object, which apimachinery copies, is left out.
pub mod Memory
pub mod Reading
pub mod Entries
pub mod Copied
pub mod Apart
use license_proxyserver.Base.{ℕ, Text, List, [], ◌∷◌, Option, none, some, Run, done, deref, ◌>>=◌}
use license_proxyserver.DeepCopy.Memory.{
  Store, Object, string_slice, extra_map, request_object, response_object, user_object, spec_object,
  license_request_object, UserObject, SpecObject, RequestObject, LicenseRequestObject, strings_of,
  extra_of, request_of, response_of, user_of, spec_of, license_request_of, load, new,
}

-- `if in.F != nil`, a new object, and the copy of the old one into it. The program makes the new object
-- first and fills it then; here it is made with its contents.
unfoldable pub copy_pointer :
    {A : Type 0}
    → (Object → Option A)
    → (A → Object)
    → (Store → A → Run (Store × A))
    → Store
    → Option ℕ
    → Run (Store × Option ℕ)
unfolding load new
copy_pointer of object into s none = done (s, none)
copy_pointer of object into s (some a) = do
  x ← load of s a
  (s', y) ← into s x
  done (new s' (object y))

-- `copy(*out, *in)` of a slice of strings, and the assignment of a struct of strings
abbrev pub flat : {A : Type 0} → Store → A → Run (Store × A)
flat s x = done (s, x)

-- a field of type []string
unfoldable pub copy_strings : Store → Option ℕ → Run (Store × Option ℕ)
unfolding copy_pointer
copy_strings = copy_pointer strings_of string_slice flat

-- LicenseRequestRequest.DeepCopyInto
unfoldable pub request_into : Store → RequestObject → Run (Store × RequestObject)
unfolding copy_strings
request_into s x = do
  (s, features) ← copy_strings s x.features
  done (s, record { features = features })

-- LicenseRequestRequest.DeepCopy; a new pointer for one that is not nil
unfoldable pub copy_request : Store → Option ℕ → Run (Store × Option ℕ)
unfolding copy_pointer request_into
copy_request = copy_pointer request_of request_object request_into

-- LicenseRequestResponse.DeepCopy
unfoldable pub copy_response : Store → Option ℕ → Run (Store × Option ℕ)
unfolding copy_pointer
copy_response = copy_pointer response_of response_object flat

-- LicenseRequest.DeepCopyInto
unfoldable pub license_request_into :
    Store → LicenseRequestObject → Run (Store × LicenseRequestObject)
unfolding copy_request copy_response
license_request_into s x = do
  (s, request) ← copy_request s x.request
  (s, response) ← copy_response s x.response
  done (s, record { request = request; response = response })

-- LicenseRequest.DeepCopy, and DeepCopyObject
unfoldable pub copy_license_request : Store → Option ℕ → Run (Store × Option ℕ)
unfolding copy_pointer license_request_into
copy_license_request = copy_pointer license_request_of license_request_object license_request_into

-- the loop over the map of the extra values
unfoldable pub extra_into : Store → List (Text × Option ℕ) → Run (Store × List (Text × Option ℕ))
unfolding copy_strings
extra_into s [] = done (s, [])
extra_into s ((key, val) ∷ m) = do
  (s, val) ← copy_strings s val
  (s, m) ← extra_into s m
  done (s, (key, val) ∷ m)

unfoldable pub copy_extra : Store → Option ℕ → Run (Store × Option ℕ)
unfolding copy_pointer extra_into
copy_extra = copy_pointer extra_of extra_map extra_into

-- UserInfo.DeepCopyInto
unfoldable pub user_into : Store → UserObject → Run (Store × UserObject)
unfolding copy_strings copy_extra
user_into s x = do
  (s, groups) ← copy_strings s x.groups
  (s, extra) ← copy_extra s x.extra
  done (s, record x { groups = groups; extra = extra })

-- UserInfo.DeepCopy
unfoldable pub copy_user : Store → Option ℕ → Run (Store × Option ℕ)
unfolding copy_pointer user_into
copy_user = copy_pointer user_of user_object user_into

-- LicenseStatusSpec.DeepCopyInto
unfoldable pub spec_into : Store → SpecObject → Run (Store × SpecObject)
unfolding copy_strings copy_user
spec_into s x = do
  (s, feature) ← copy_strings s x.feature
  (s, user) ← copy_user s x.user
  done (s, record { feature = feature; user = user })

-- LicenseStatusSpec.DeepCopy
unfoldable pub copy_spec : Store → Option ℕ → Run (Store × Option ℕ)
unfolding copy_pointer spec_into
copy_spec = copy_pointer spec_of spec_object spec_into
