-- ===== src/Storage/Registry.antt =====
-- pkg/storage/store.go: the license registry. A method returns the new registry beside its result,
-- with the reading of the clock at which it runs as an argument; the mutex makes each method a
-- single step. `less` is `License.Less` of the license-verifier.
pub mod Queues
pub mod Invariant
pub mod Adding
pub mod Lapsing
pub mod Listing
pub mod Sound
pub mod Serving
pub mod Ending
pub mod Offered
use license_proxyserver.Base.{
  ℕ, zero, suc, ◌+◌, Text, str, text, List, [], ◌∷◌, ◌++◌, Option, none, some, Bool, ite, length,
  if◌then◌else◌, Run, done, out_of_fuel, ◌>>=◌, deref,
}
use license_proxyserver.Base.Dict
use license_proxyserver.Base.Int.{ltb_ℤ, ◌+ℤ◌}
use license_proxyserver.Api.{License, Contract, Time}
use license_proxyserver.Clock.{Duration, until}
use license_proxyserver.Heap
use license_proxyserver.Storage.RecordBook
use license_proxyserver.Storage.RecordBook.{RecordBook}

pub record Record : Type 0 where
  pub license : License
  pub contract : Option Contract

-- The calls of os.WriteFile and os.Remove on a file of the cache directory. Their errors are
-- dropped.
pub data FileCall : Type 0 where
  write_file : Text → Text → FileCall
  remove : Text → FileCall

pub record LicenseRegistry : Type 0 where
  pub reg : List (Text × List License)
  pub store : List (Text × Record)
  pub rb : Option RecordBook
  pub cache_dir : Text
  pub ttl : Duration
  -- the file calls so far, oldest first
  pub file_calls : List FileCall

unfoldable pub new_license_registry : Text → Duration → Option RecordBook → LicenseRegistry
new_license_registry cache_dir ttl rb = record {
  reg = [];
  store = [];
  rb = rb;
  cache_dir = cache_dir;
  ttl = ttl;
  file_calls = [];
}

-- filepath.Join of a directory and a plain file name
unfoldable pub join : Text → Text → Text
join dir name = dir ++ (text "/" ++ name)

-- the file calls of a method, which makes them only if there is a cache directory
unfoldable pub call : FileCall → LicenseRegistry → LicenseRegistry
call c r = record r { file_calls = ite (str r.cache_dir []) r.file_calls (r.file_calls ++ c ∷ []) }

unfoldable pub add_to_store : License → Option Contract → LicenseRegistry → LicenseRegistry
unfolding call join
add_to_store l c r =
    call (write_file (join r.cache_dir l.id) l.contents)
      (record r { store = Dict.insert str l.id (record { license = l; contract = c }) r.store })

unfoldable pub remove_from_store : License → LicenseRegistry → LicenseRegistry
unfolding call join
remove_from_store l r = call (remove (join r.cache_dir l.id)) (record r {
  store = Dict.delete str l.id r.store;
  rb = elim r.rb [ none ↦ none | some b ↦ some (RecordBook.delete b l.id) ];
})

unfoldable pub get : LicenseRegistry → Text → Option Record
get r id = Dict.lookup str id r.store

-- the records of `store`, in the order of the map's iteration, that outlive `limit`
unfoldable pub unexpired : Time → List (Text × Record) → Run (List Record)
unexpired limit [] = done []
unexpired limit ((_, rec) ∷ store) = do
  not_after ← deref rec.license.not_after
  out ← unexpired limit store
  done (if ltb_ℤ limit not_after then rec ∷ out else out)

module _ (less : License → License → Bool) where
  -- the loop of Add over the features of the license
  unfoldable pub add_features :
      License → List Text → List (Text × List License) → Run (List (Text × List License))
  add_features l [] reg = done reg
  add_features l (feature ∷ rest) reg = elim (Dict.lookup str feature reg) [
    | none ↦ add_features l rest (Dict.insert str feature (l ∷ []) reg)
    | some q ↦ Heap.push less q l >>= λ q'. add_features l rest (Dict.insert str feature q' reg)
  ]

  unfoldable pub add : LicenseRegistry → License → Option Contract → Run LicenseRegistry
  unfolding add_to_store add_features
  add r l c = elim (Dict.lookup str l.id r.store) [
    | some _ ↦ done r
    | none ↦
        add_features l l.features r.reg >>= λ reg. done (record (add_to_store l c r) { reg = reg })
  ]

  -- the loop of LicenseForFeature: `q` is the local slice, which the map holds too
  unfoldable pub serve :
      ℕ → Time → Text → List License → LicenseRegistry → Run (LicenseRegistry × Option License)
  unfolding remove_from_store
  serve zero now feature q r = out_of_fuel
  serve (suc fuel) now feature [] r = done (r, none)
  serve (suc fuel) now feature (item ∷ rest) r =
      let drop : Run (LicenseRegistry × Option License) = do
        (_, q) ← Heap.pop less (item ∷ rest)
        serve fuel now feature q
            (remove_from_store item (record r { reg = Dict.insert str feature q r.reg }))
      in do
        not_after ← deref item.not_after
        if ltb_ℤ (until now not_after) r.ttl then drop else done (r, some item)

  unfoldable pub license_for_feature :
      Time → LicenseRegistry → Text → Run (LicenseRegistry × Option License)
  unfolding serve
  license_for_feature now r feature = elim (Dict.lookup str feature r.reg) [
    | none ↦ done (r, none)
    | some q ↦ serve (length q + 1) now feature q r
  ]

  -- sort.Slice by `less` on the licenses; it fixes no order between equal items
  unfoldable pub insert_record : Record → List Record → List Record
  insert_record rec [] = rec ∷ []
  insert_record rec (next ∷ out) =
      if less next.license rec.license then next ∷ insert_record rec out else rec ∷ next ∷ out

  unfoldable pub sort_records : List Record → List Record
  unfolding insert_record
  sort_records [] = []
  sort_records (rec ∷ out) = insert_record rec (sort_records out)

  unfoldable pub list : Time → LicenseRegistry → Run (List Record)
  unfolding unexpired sort_records ◌+ℤ◌
  list now r = unexpired (now +ℤ r.ttl) r.store >>= λ out. done (sort_records out)
