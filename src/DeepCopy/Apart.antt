-- ===== src/DeepCopy/Apart.antt =====
-- The deep copies of the API objects, each with what it copies, and the writes after one.
use license_proxyserver.Base.{
  Run, ℕ, ◌≤◌, ◌<◌, Text, Option, ◌≡◌, refl, done, length, set, Returns, Returns-map,
}
use license_proxyserver.DeepCopy.{
  copy_strings, request_into, copy_request, copy_response, license_request_into,
  copy_license_request, extra_into, copy_extra, user_into, copy_user, spec_into, copy_spec, flat,
}
use license_proxyserver.DeepCopy.Memory.{
  set-KeepsFrom, set-Grows, Store, Object, RequestObject, UserObject, SpecObject,
  LicenseRequestObject, string_slice, extra_map, request_object, response_object, user_object,
  spec_object, license_request_object, strings_of, extra_of, request_of, response_of, user_of,
  spec_of, license_request_of,
}
use license_proxyserver.DeepCopy.Entries.{entries}
use license_proxyserver.DeepCopy.Reading.{Readable, plain, pointer, struct}
use license_proxyserver.DeepCopy.Copied.{
  Copied, Copies, plain-Copies, copy_pointer-Copies, struct-Copies, entries-Copies,
}

abbrev pub string_slices : Readable (Option ℕ)
string_slices = pointer strings_of plain

abbrev pub requests : Readable RequestObject
requests =
    struct (λ (x : RequestObject). tt) (λ (x : RequestObject). x.features)
      (λ (x : RequestObject). tt) string_slices (plain {A = Unit})

abbrev pub license_requests : Readable LicenseRequestObject
license_requests =
    struct (λ (x : LicenseRequestObject). tt) (λ (x : LicenseRequestObject). x.request)
      (λ (x : LicenseRequestObject). x.response) (pointer request_of requests)
      (pointer response_of plain)

abbrev pub extras : Readable (Option ℕ)
extras = pointer extra_of (entries string_slices)

abbrev pub users : Readable UserObject
users =
    struct {H = Text × Text} (λ (x : UserObject). (x.username, x.uid))
      (λ (x : UserObject). x.groups) (λ (x : UserObject). x.extra) string_slices extras

abbrev pub specs : Readable SpecObject
specs =
    struct (λ (x : SpecObject). tt) (λ (x : SpecObject). x.feature) (λ (x : SpecObject). x.user)
      string_slices (pointer user_of users)

copy_strings-Copies : Copies string_slices copy_strings
unfolding copy_strings
copy_strings-Copies =
    copy_pointer-Copies strings_of string_slice plain flat (λ y. refl) plain-Copies

request_into-Copies : Copies requests request_into
unfolding request_into
request_into-Copies =
    struct-Copies _ _ _ string_slices plain copy_strings flat (λ x b c. record { features = b })
      (λ x b c. (refl, refl, refl)) copy_strings-Copies plain-Copies

copy_request-Copies : Copies (pointer request_of requests) copy_request
unfolding copy_request
copy_request-Copies =
    copy_pointer-Copies request_of request_object requests request_into (λ y. refl)
      request_into-Copies

copy_response-Copies : Copies (pointer response_of plain) copy_response
unfolding copy_response
copy_response-Copies =
    copy_pointer-Copies response_of response_object plain flat (λ y. refl) plain-Copies

license_request_into-Copies : Copies license_requests license_request_into
unfolding license_request_into
license_request_into-Copies =
    struct-Copies _ _ _ _ _ copy_request copy_response
      (λ x b c. record { request = b; response = c }) (λ x b c. (refl, refl, refl))
      copy_request-Copies copy_response-Copies

extra_into-Copies : Copies (entries string_slices) extra_into
unfolding extra_into
extra_into-Copies =
    entries-Copies string_slices copy_strings extra_into (λ s. refl) (λ s k x m. refl)
      copy_strings-Copies

copy_extra-Copies : Copies extras copy_extra
unfolding copy_extra
copy_extra-Copies =
    copy_pointer-Copies extra_of extra_map (entries string_slices) extra_into (λ y. refl)
      extra_into-Copies

user_into-Copies : Copies users user_into
unfolding user_into
user_into-Copies =
    struct-Copies _ _ _ _ _ copy_strings copy_extra (λ x b c. record x { groups = b; extra = c })
      (λ x b c. (refl, refl, refl)) copy_strings-Copies copy_extra-Copies

copy_user-Copies : Copies (pointer user_of users) copy_user
unfolding copy_user
copy_user-Copies =
    copy_pointer-Copies user_of user_object users user_into (λ y. refl) user_into-Copies

spec_into-Copies : Copies specs spec_into
unfolding spec_into
spec_into-Copies =
    struct-Copies _ _ _ _ _ copy_strings copy_user (λ x b c. record { feature = b; user = c })
      (λ x b c. (refl, refl, refl)) copy_strings-Copies copy_user-Copies

-- A copy of what `p` reads as. Whatever is written to an object that is new, `p` still reads as it did,
-- and whatever is written to one that is not, the copy does.
pub record IsDeepCopy {A : Type 0} (r : Readable A) (s : Store) (p : A) (v : r.Value)
    (res : Store × A) : Type 0 where
  pub copied : Copied r s v res
  pub untouched : (a : ℕ) (o : Object) → length s ≤ a → r.view (set res.0 a o) p ≡ done v
  pub unaffected : (a : ℕ) (o : Object) → a < length s → r.view (set res.0 a o) res.1 ≡ done v

deep :
    {A : Type 0} (r : Readable A) (into : Store → A → Run (Store × A)) (s : Store) (p : A)
    (v : r.Value)
    → Copies r into
    → r.view s p ≡ done v
    → Returns (IsDeepCopy r s p v) (into s p)
deep r into s p v copies e = Returns-map (copies s p v e) (λ res c. record {
  copied = c;
  untouched = λ a o late. r.view_grows s _ p v (set-Grows s res.0 a o c.grows late) e;
  unaffected = λ a o early.
      r.view_late (length s) res.0 _ res.1 v (set-KeepsFrom (length s) res.0 a o early) c.fresh
        c.same;
})

-- If all that a pointer to a LicenseRequest leads to is in the store, its DeepCopy ends without a
-- panic; the copy reads as the original; every object that was in the store is still there, and
-- the copy leads to none of them; whatever is then written to one object that is new, the original
-- reads as before, and whatever is written to one that is not, the copy does.
pub copy_license_request-IsDeepCopy :
    (s : Store) (p : Option ℕ) (v : (pointer license_request_of license_requests).Value)
    → (pointer license_request_of license_requests).view s p ≡ done v
    → Returns
        (IsDeepCopy (pointer license_request_of license_requests) s p v)
        (copy_license_request s p)
unfolding copy_license_request
copy_license_request-IsDeepCopy s p v e =
    deep (pointer license_request_of license_requests) copy_license_request s p v
      (copy_pointer-Copies license_request_of license_request_object license_requests
        license_request_into (λ y. refl) license_request_into-Copies)
      e

-- If all that a pointer to a LicenseStatusSpec leads to is in the store, its DeepCopy ends without
-- a panic; the copy reads as the original; every object that was in the store is still there, and
-- the copy leads to none of them; whatever is then written to one object that is new, the original
-- reads as before, and whatever is written to one that is not, the copy does.
pub copy_spec-IsDeepCopy :
    (s : Store) (p : Option ℕ) (v : (pointer spec_of specs).Value)
    → (pointer spec_of specs).view s p ≡ done v
    → Returns (IsDeepCopy (pointer spec_of specs) s p v) (copy_spec s p)
unfolding copy_spec
copy_spec-IsDeepCopy s p v e =
    deep (pointer spec_of specs) copy_spec s p v
      (copy_pointer-Copies spec_of spec_object specs spec_into (λ y. refl) spec_into-Copies) e
