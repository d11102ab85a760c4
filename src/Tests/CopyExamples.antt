-- ===== src/Tests/CopyExamples.antt =====
-- Deep copies of a request, and of the spec of a status, in small stores.
use license_proxyserver.Base.{text, [], ◌∷◌, ◌≡◌, none, some, refl, Returns, done}
use license_proxyserver.DeepCopy.{copy_license_request, copy_spec}
use license_proxyserver.DeepCopy.Memory.{
  Store, string_slice, extra_map, request_object, response_object, user_object, spec_object,
  license_request_object, license_request_of, spec_of, load,
}
use license_proxyserver.DeepCopy.Reading.{pointer}
use license_proxyserver.DeepCopy.Apart.{
  license_requests, specs, IsDeepCopy, copy_license_request-IsDeepCopy, copy_spec-IsDeepCopy,
}

-- a request for a feature, answered, at the address 3
abbrev answered_request : Store
answered_request =
    string_slice (text "kubedb" ∷ [])
    ∷ request_object (record { features = some 0 })
    ∷ response_object (text "license")
    ∷ license_request_object (record { request = some 1; response = some 2 })
    ∷ []

abbrev answered : (pointer license_request_of license_requests).Value
answered = some (tt, some (tt, some (text "kubedb" ∷ []), tt), some (text "license"))

-- a spec without a slice of features, for a user with two extra values, the first nil; at the address 4
abbrev user_spec : Store
user_spec =
    string_slice (text "operators" ∷ [])
    ∷ string_slice (text "read" ∷ text "write" ∷ [])
    ∷ extra_map ((text "zone", none) ∷ (text "scopes", some 1) ∷ [])
    ∷ user_object
        (record { username = text "ann"; uid = text "7"; groups = some 0; extra = some 2 })
    ∷ spec_object (record { feature = none; user = some 3 })
    ∷ []

abbrev seen_spec : (pointer spec_of specs).Value
seen_spec = some (
  tt,
  none,
  some (
    (text "ann", text "7"),
    some (text "operators" ∷ []),
    some ((text "zone", none) ∷ (text "scopes", some (text "read" ∷ text "write" ∷ [])) ∷ []),
  ),
)

copy_license_request-IsDeepCopy_example :
    Returns
      (IsDeepCopy (pointer license_request_of license_requests) answered_request (some 3) answered)
      (copy_license_request answered_request (some 3))
unfolding load
copy_license_request-IsDeepCopy_example =
    copy_license_request-IsDeepCopy answered_request (some 3) answered refl

copy_spec-IsDeepCopy_example :
    Returns
      (IsDeepCopy (pointer spec_of specs) user_spec (some 4) seen_spec)
      (copy_spec user_spec (some 4))
unfolding load
copy_spec-IsDeepCopy_example = copy_spec-IsDeepCopy user_spec (some 4) seen_spec refl

-- The copy of the request is made of four new objects.
copy_request_run :
    copy_license_request answered_request (some 3)
    ≡ done (
      string_slice (text "kubedb" ∷ [])
          ∷ request_object (record { features = some 0 })
          ∷ response_object (text "license")
          ∷ license_request_object (record { request = some 1; response = some 2 })
          ∷ string_slice (text "kubedb" ∷ [])
          ∷ request_object (record { features = some 4 })
          ∷ response_object (text "license")
          ∷ license_request_object (record { request = some 5; response = some 6 })
          ∷ [],
      some 7,
    )
unfolding copy_license_request load
copy_request_run = refl
