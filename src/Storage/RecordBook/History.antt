-- ===== src/Storage/RecordBook/History.antt =====
-- A book after a sequence of Record and Delete calls, one after the other under the mutex.
use license_proxyserver.Base.{
  Text, str, List, [], ◌∷◌, All, Option, none, some, ◌≡◌, ◌≢◌, ◌∙◌, refl, sym, subst, arith,
}
use license_proxyserver.Base.Dict
use license_proxyserver.Api.{User, UserInfo, LicenseStatusSpec}
use license_proxyserver.Storage.RecordBook.{
  RecordBook, copy_extra, record_usage, used_by, delete, usage, used_by-record_usage,
  used_by-delete,
}

pub data Call : Type 0 where
  records : Text → List Text → User → Call
  deletes : Text → Call

abbrev pub subject : Call → Text
subject (records id features user) = id
subject (deletes id) = id

abbrev pub apply : Call → RecordBook → RecordBook
apply (records id features user) r = record_usage r id features user
apply (deletes id) r = delete r id

abbrev pub apply_all : List Call → RecordBook → RecordBook
apply_all [] r = r
apply_all (c ∷ calls) r = apply_all calls (apply c r)

-- The entry has the features and the user, and every key of the user's extra values as the user has it.
pub record Recorded (features : List Text) (user : User) (spec : LicenseStatusSpec) : Type 0 where
  pub info : UserInfo
  pub same_features : spec.feature ≡ features
  pub same_user : spec.user ≡ some info
  pub username : info.username ≡ user.name
  pub uid : info.uid ≡ user.uid
  pub groups : info.groups ≡ user.groups
  pub extra : (key : Text) → Dict.lookup str key info.extra ≡ Dict.lookup str key user.extra

-- What UsedBy gives for the call's ID if no later call is about it.
abbrev pub Decides : Call → Option LicenseStatusSpec → Type 0
Decides (records id features user) found =
    (spec : LicenseStatusSpec) × (found ≡ some spec) × Recorded features user spec
Decides (deletes id) found = found ≡ none

-- The extra values of the call's user are a map.
abbrev pub IsMapped : Call → Type 0
IsMapped (records id features user) = Dict.IsDistinct str user.extra
IsMapped (deletes id) = Unit

abbrev before : {A : Type 0} → Option A → Option A → Option A
before none o = o
before (some a) o = some a

copy_extra-lookup :
    (l extra : List (Text × List Text)) (key : Text)
    → Dict.IsDistinct str l
    → Dict.lookup str key (copy_extra l extra)
      ≡ before (Dict.lookup str key l) (Dict.lookup str key extra)
unfolding copy_extra Dict.lookup
copy_extra-lookup [] extra key d = refl
copy_extra-lookup ((k, v) ∷ l) extra key d =
    let rest = copy_extra-lookup l (Dict.insert str k v extra) key d.1 in
    let head = Dict.lookup-insert str k key v extra in
    elim (str k key) [
      | yes p ↦
          let gone = subst (λ x. Dict.lookup str x l ≡ none) p d.0 in
          rest ∙ rw gone (ground (arith, head, p))
      | no n ↦ ground (arith, rest, head, n)
    ]

usage-Recorded :
    (features : List Text) (user : User)
    → Dict.IsDistinct str user.extra
    → Recorded features user (usage features user)
unfolding usage Dict.lookup
usage-Recorded features user d = record {
  info = _;
  same_features = refl;
  same_user = refl;
  username = refl;
  uid = refl;
  groups = refl;
  extra = λ key. let copied = copy_extra-lookup user.extra [] key d in ground (arith, copied);
}

apply-other :
    (c : Call) (r : RecordBook) (id : Text) → subject c ≢ id → used_by (apply c r) id ≡ used_by r id
apply-other (records j features user) r id n =
    let e = used_by-record_usage r j id features user in ground (arith, e, n)
apply-other (deletes j) r id n = let e = used_by-delete r j id in ground (arith, e, n)

apply_all-others :
    (calls : List Call) (r : RecordBook) (id : Text)
    → All (λ c. subject c ≢ id) calls
    → used_by (apply_all calls r) id ≡ used_by r id
apply_all-others [] r id a = refl
apply_all-others (c ∷ calls) r id a =
    apply_all-others calls (apply c r) id a.1 ∙ apply-other c r id a.0

apply-Decides :
    (c : Call) (r : RecordBook) → IsMapped c → Decides c (used_by (apply c r) (subject c))
apply-Decides (records id features user) r d = (
  usage features user,
  (let e = used_by-record_usage r id id features user in ground (arith, e)),
  usage-Recorded features user d,
)
apply-Decides (deletes id) r d = let e = used_by-delete r id id in ground (arith, e)

-- For a call of Record or Delete on any book, where the user's extra values are a map, and any
-- later calls about other licenses, UsedBy of the call's ID then gives nothing after a Delete, and
-- after a Record the features, the user's name, UID and groups, and for every key the extra value
-- that the user has under it.
pub apply_all-Decides :
    (r : RecordBook) (c : Call) (later : List Call)
    → IsMapped c
    → All (λ call. subject call ≢ subject c) later
    → Decides c (used_by (apply_all (c ∷ later) r) (subject c))
apply_all-Decides r c later d others =
    subst (Decides c) (sym (apply_all-others later (apply c r) (subject c) others))
      (apply-Decides c r d)
