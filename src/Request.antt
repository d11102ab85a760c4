-- ===== src/Request.antt =====
-- pkg/registry/proxyserver/licenserequest/storage.go: a LicenseRequest is answered with a license
-- from the registry, or a new one of the license server; on a spoke cluster without a license the
-- features are put on the cluster claim. The record book of the storage is the one that the
-- registry holds.
pub mod Finding
pub mod Granting
pub mod Merging
pub mod Claiming
pub mod Settled
use license_proxyserver.Base.{
  ℕ, ◌<◌, Text, text, List, [], ◌∷◌, Option, none, some, Bool, true, false, ltb, if◌then◌else◌, Run,
  done, deref, ◌>>=◌, Result, ok, err, Error, bad_request, is_not_found,
}
use license_proxyserver.Base.Split.{split, join_with}
use license_proxyserver.Base.Sort.{sort_strings}
use license_proxyserver.Api.{License, Contract, Time, User, LicenseRequest, LicenseRequestRequest}
use license_proxyserver.Storage.RecordBook
use license_proxyserver.Storage.Registry.{LicenseRegistry, add, license_for_feature}
use license_proxyserver.Verifier.{Verifier, LicenseClient}

-- the name and the value of a ClusterClaim
pub record ClusterClaim : Type 0 where
  pub name : Text
  pub value : Text

-- The client of the spoke cluster: the calls that the storage makes, over an unknown state.
pub record SpokeClient : Type 1 where
  pub State : Type 0
  -- clustermeta.IsOpenClusterSpoke, which may panic
  pub is_open_cluster_spoke : State → Run Bool
  pub get_claim : State → Text → Result ClusterClaim
  pub update_claim : State → ClusterClaim → State × Option Error
  pub create_claim : State → ClusterClaim → State × Option Error

-- The string sets of k8s.io/apimachinery/pkg/util/sets.
pub record StringSets : Type 1 where
  pub Set : Type 0
  pub new : List Text → Set
  pub difference : Set → Set → Set
  pub len : Set → ℕ
  pub insert : Set → List Text → Set
  pub unsorted_list : Set → List Text
  pub list : Set → List Text

abbrev pub comma : ℕ
comma = b','

-- common.ClusterClaimLicense
abbrev pub cluster_claim_license : Text
cluster_claim_license = text "licenses.appscode.com"

pub record Storage (Certificate : Type 0) : Type 0 where
  pub cid : Text
  pub ca_cert : Certificate
  pub lc : Option LicenseClient
  pub reg : LicenseRegistry

-- NewStorage
abbrev pub new_storage :
    {Certificate : Type 0}
    → Text
    → Certificate
    → Option LicenseClient
    → LicenseRegistry
    → Storage Certificate
new_storage cid ca_cert lc reg = record { cid = cid; ca_cert = ca_cert; lc = lc; reg = reg }

module _ (less : License → License → Bool) where
  -- the loop of getLicense over the registry
  unfoldable pub find_license :
      Time → List Text → LicenseRegistry → Run (LicenseRegistry × Option License)
  find_license now [] reg = done (reg, none)
  find_license now (feature ∷ features) reg =
      license_for_feature less now reg feature >>= λ (reg', l). elim l [
        | some found ↦ done (reg', some found)
        | none ↦ find_license now features reg'
      ]

  module _ {Certificate : Type 0} (v : Verifier Certificate) where
    -- the call of the license server, and of Add for what it gives
    unfoldable pub acquire :
        LicenseClient
        → List Text
        → Storage Certificate
        → Run (Storage Certificate × Result (Option License))
    acquire lc features r = elim (lc features) [
      | err e ↦ done (r, err e)
      | ok (lbytes, c) ↦ elim (v.parse_license r.cid r.ca_cert lbytes) [
        | err e ↦ done (r, err e)
        | ok l ↦ do
          expiry ← deref l.not_after
          reg ← add less r.reg l c
          done (record r { reg = reg }, ok (some l))
      ]
    ]

    unfoldable pub get_license :
        Time → List Text → Storage Certificate → Run (Storage Certificate × Result (Option License))
    unfolding find_license acquire
    get_license now features r = find_license now features r.reg >>= λ (reg, found). elim found [
      | some l ↦ done (record r { reg = reg }, ok (some l))
      | none ↦ elim r.lc [
        | none ↦ done (record r { reg = reg }, ok none)
        | some lc ↦ acquire lc features (record r { reg = reg })
      ]
    ]

-- The branch of Create for a spoke cluster without a license: the client's state, the error if
-- there is one, and the requested features, which one branch sorts in place.
module _ (k : SpokeClient) (sets : StringSets) where
  unfoldable pub extend_claim : k.State → ClusterClaim → List Text → k.State × Option Error
  extend_claim s ca features =
      let cur = sets.new (split comma ca.value) in
      let extra = sets.difference (sets.new features) cur in
      if ltb 0 (sets.len extra)
      then k.update_claim s (record ca {
        value = join_with comma (sets.list (sets.insert cur (sets.unsorted_list extra)));
      })
      else (s, none)

  unfoldable pub claim_features : k.State → List Text → k.State × Option Error × List Text
  unfolding extend_claim
  claim_features s features = elim (k.get_claim s cluster_claim_license) [
    | ok ca ↦ let (s', e) = extend_claim s ca features in (s', e, features)
    | err e ↦
        let sorted = sort_strings features in
        let (s', e') =
          k.create_claim s
            (record { name = cluster_claim_license; value = join_with comma sorted }) in
        if is_not_found e then (s', e', sorted) else (s, some e, features)
  ]

-- `in.Response = &LicenseRequestResponse{License: license}`
unfoldable pub respond : List Text → Text → LicenseRequest → LicenseRequest
respond features license req = record req {
  request = some (record { features = features });
  response = some (record { license = license });
}

module _ (less : License → License → Bool) {Certificate : Type 0} (v : Verifier Certificate)
    (k : SpokeClient) (sets : StringSets) where
  abbrev pub Created : Type 0
  Created = Storage Certificate × k.State × Result LicenseRequest

  -- Create after getLicense has given `l`
  unfoldable pub answer :
      Bool
      → User
      → LicenseRequest
      → List Text
      → Storage Certificate
      → k.State
      → Option License
      → Run Created
  unfolding respond
  answer is_spoke user req features r s (some l) = do
    rb ← deref r.reg.rb
    let reg = record r.reg { rb = some (RecordBook.record_usage rb l.id features user) }
    done (record r { reg = reg }, s, ok (respond features l.contents req))
  answer false user req features r s none = done (r, s, ok (respond features [] req))
  answer true user req features r s none =
      let (s', e, features') = claim_features k sets s features in
      elim e [
        | some failed ↦ done (r, s', err failed)
        | none ↦ done (r, s', ok (respond features' [] req))
      ]

  -- Create, with the user of the request's context
  unfoldable pub create :
      Time → Option User → LicenseRequest → Storage Certificate → k.State → Run Created
  unfolding answer get_license
  create now none req r s = done (r, s, err (bad_request (text "missing user info")))
  create now (some user) req r s = do
    is_spoke ← k.is_open_cluster_spoke s
    request ← deref req.request
    (r', result) ← get_license less v now request.features r
    elim result [
      | err e ↦ done (r', s, err e)
      | ok l ↦ answer is_spoke user req request.features r' s l
    ]
