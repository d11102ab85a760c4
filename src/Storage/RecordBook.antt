-- ===== src/Storage/RecordBook.antt =====
-- pkg/storage/recordbook.go: who was given which license. A method that writes returns the new
-- book; the mutex makes each one a single step.
pub mod History
use license_proxyserver.Base.{none, ite, ◌≡◌, Text, List, Option, some, [], ◌∷◌, str}
use license_proxyserver.Base.Dict
use license_proxyserver.Api.{User, LicenseStatusSpec}

pub record RecordBook : Type 0 where
  pub reg : List (Text × LicenseStatusSpec)

unfoldable pub new_record_book : RecordBook
new_record_book = record { reg = [] }

-- the loop that copies `user.GetExtra()` into a new map
unfoldable pub copy_extra :
    List (Text × List Text) → List (Text × List Text) → List (Text × List Text)
copy_extra [] extra = extra
copy_extra ((k, v) ∷ rest) extra = copy_extra rest (Dict.insert str k v extra)

-- RecordBook.Record
unfoldable pub record_usage : RecordBook → Text → List Text → User → RecordBook
record_usage r id features user = record {
  reg =
      Dict.insert str id
        (record {
          feature = features;
          user = some (record {
            username = user.name;
            uid = user.uid;
            groups = user.groups;
            extra = copy_extra user.extra [];
          });
        })
        r.reg;
}

-- RecordBook.UsedBy
unfoldable pub used_by : RecordBook → Text → Option LicenseStatusSpec
used_by r id = Dict.lookup str id r.reg

-- RecordBook.Delete
unfoldable pub delete : RecordBook → Text → RecordBook
delete r id = record { reg = Dict.delete str id r.reg }

-- what Record writes down
unfoldable pub usage : List Text → User → LicenseStatusSpec
usage features user = record {
  feature = features;
  user = some (record {
    username = user.name;
    uid = user.uid;
    groups = user.groups;
    extra = copy_extra user.extra [];
  });
}

-- After Record, UsedBy of the license's ID gives the features and the user's name, UID, groups and
-- extra that were recorded, and UsedBy of every other ID what it gave before.
pub used_by-record_usage :
    (r : RecordBook) (id j : Text) (features : List Text) (user : User)
    → used_by (record_usage r id features user) j
      ≡ ite (str id j) (some (usage features user)) (used_by r j)
unfolding used_by record_usage usage
used_by-record_usage r id j features user = Dict.lookup-insert str id j (usage features user) r.reg

-- After Delete, UsedBy of the ID finds nothing, and UsedBy of every other ID gives what it gave
-- before.
pub used_by-delete :
    (r : RecordBook) (id j : Text) → used_by (delete r id) j ≡ ite (str id j) none (used_by r j)
unfolding used_by delete
used_by-delete r id j = Dict.lookup-delete str id j r.reg
