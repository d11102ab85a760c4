-- ===== src/Tests/StorageExamples.antt =====
-- The storage's theorems at the sample registries.
use mathlib.Core.List.{mem-cons_self}
use license_proxyserver.Base.{
  done, ◌*◌, text, str, [], ◌∷◌, Mem, Perm, none, some, true, false, ◌≡◌, ◌↔◌, refl, arith, Returns,
  ok,
}
use license_proxyserver.Base.Dict
use license_proxyserver.Base.Int.{◌+ℤ◌}
use license_proxyserver.Clock.{second}
use license_proxyserver.Heap
use license_proxyserver.Heap.Order.{IsHeap}
use license_proxyserver.Heap.Correct.{Popped, push_correct, pop_correct}
use license_proxyserver.Storage.RecordBook.History.{
  records, deletes, apply_all, Decides, apply_all-Decides,
}
use license_proxyserver.Storage.RecordBook.{RecordBook, new_record_book, used_by}
use license_proxyserver.Storage.Registry.Ending.{serve-ends}
use license_proxyserver.Storage.Registry.{serve}
use license_proxyserver.Storage.Registry.{
  Record, new_license_registry, add, license_for_feature, get, list,
}
use license_proxyserver.Storage.Registry.Queues.{queue}
use license_proxyserver.Storage.Registry.Invariant.{is_live}
use license_proxyserver.Storage.Registry.Adding.{Added, Fits, add-Added}
use license_proxyserver.Storage.Registry.Lapsing.{Lapsed}
use license_proxyserver.Storage.Registry.Listing.{IsSorted, outlives, list_exact}
use license_proxyserver.Storage.Registry.Serving.{Best, license_for_feature-Best}
use license_proxyserver.Storage.Registry.Offered.{Offers, license_for_feature-Offers}
use license_proxyserver.Storage.Registry.Sound.{IsSound, run, run-IsSound}
use license_proxyserver.Storage.Loader.{FileSystem, FileType, load_dir}
use license_proxyserver.Storage.Loader.Lasting.{Grown}
use license_proxyserver.Storage.Loader.Loaded.{Listed, load_dir-Grown}
use license_proxyserver.Tests.Samples.{
  stash, sooner, order, Issued, authority, verifier, signs, user, short_lived, long_lived, kubedb,
}
use license_proxyserver.Tests.Registries.{midnight, one, two, one-IsSound, two-IsSound, a_day}

push_correct_example :
    Returns
      (λ h. IsHeap sooner h × Perm h (short_lived ∷ long_lived ∷ []))
      (Heap.push sooner (long_lived ∷ []) short_lived)
push_correct_example =
    push_correct sooner order (long_lived ∷ []) short_lived (λ c p q. absurd (omega arith))

pop_correct_example :
    Returns (Popped sooner order (long_lived ∷ [])) (Heap.pop sooner (long_lived ∷ []))
pop_correct_example =
    pop_correct sooner order (long_lived ∷ []) (λ c p q. absurd (omega arith)) (omega arith)

abbrev book : RecordBook
book = new_record_book

-- a license that was recorded, and then calls about others
apply_all-Decides_example : Decides (records (text "a") (kubedb ∷ []) user) (
    used_by
      (apply_all
        (records (text "a") (kubedb ∷ []) user
          ∷ deletes (text "b")
          ∷ records (text "c") [] user
          ∷ [])
        book)
      (text "a"))
unfolding Dict.lookup
apply_all-Decides_example =
    apply_all-Decides book (records (text "a") (kubedb ∷ []) user)
      (deletes (text "b") ∷ records (text "c") [] user ∷ []) (refl, tt)
      ((λ e. ground (arith, e)), ((λ e. ground (arith, e)), tt))

long-Fits : Fits one long_lived
long-Fits = record {
  dated = λ e. cc;
  agrees = λ g m i e. authority.identified m long_lived (one-IsSound.trusted g m i) refl e;
}

add-Added_example : Returns (Added sooner one long_lived none) (add sooner one long_lived none)
add-Added_example = add-Added sooner order one long_lived none one-IsSound.wf long-Fits

license_for_feature-Best_example :
    Returns
      (λ res.
        Lapsed sooner midnight two res.0
        × Best sooner (is_live midnight two.ttl) (queue kubedb two.reg) res.1)
      (license_for_feature sooner midnight two kubedb)
license_for_feature-Best_example =
    license_for_feature-Best sooner order midnight kubedb two two-IsSound.wf two-IsSound.current

list_exact_example :
    Returns
      (λ out.
        IsSorted sooner out
        × ((rec : Record)
            → Mem rec out ↔ (
                (get two rec.license.id ≡ some rec) × (outlives (midnight +ℤ two.ttl) rec ≡ true))))
      (list sooner midnight two)
list_exact_example = list_exact sooner order midnight two two-IsSound.wf

run-IsSound_example :
    Returns (λ s. IsSound sooner Issued s.0 s.1) (run sooner a_day (midnight, two))
run-IsSound_example =
    run-IsSound sooner Issued order authority a_day midnight two
      (refl, (refl, (tt, (omega arith, (tt, tt))))) two-IsSound

abbrev short_record : Record
short_record = record { license = short_lived; contract = none }

license_for_feature-Offers_example :
    Returns (Offers sooner kubedb short_lived) (license_for_feature sooner midnight two kubedb)
unfolding add Heap.push new_license_registry Dict.lookup Dict.insert str get ◌+ℤ◌
license_for_feature-Offers_example =
    license_for_feature-Offers sooner order midnight two two-IsSound.wf two-IsSound.current
      (5 * 60 * second) short_record kubedb refl (omega arith) refl refl mem-cons_self

abbrev files : FileSystem
files = record {
  read_dir = λ dir. ok (
      record { name = text "lic"; type_of = FileType.regular }
      ∷ record { name = text "old"; type_of = FileType.directory }
      ∷ []);
  read_file = λ path. ok (text "xyz");
  eval_symlinks = λ path. ok path;
  stat = λ path. ok false;
}

load_dir-Grown_example :
    Returns
      (λ res.
        Grown sooner Issued midnight one res.0
        × (res.1 ≡ none
            → Listed sooner Issued order authority verifier signs files
                (text "uid")
                (text "/licenses")
                midnight
                res.0))
      (load_dir sooner verifier files (text "uid") (text "/licenses") midnight one)
load_dir-Grown_example =
    load_dir-Grown sooner Issued order authority verifier signs files (text "uid")
      (text "/licenses") midnight one one-IsSound

serve-ends_example :
    Returns
      (λ res. serve sooner 9 midnight stash (long_lived ∷ []) two ≡ done res)
      (license_for_feature sooner midnight two stash)
unfolding add new_license_registry Dict.lookup Dict.insert str Heap.push
serve-ends_example =
    serve-ends sooner midnight stash order two (long_lived ∷ []) 9 two-IsSound.wf
      two-IsSound.current refl (omega arith)
