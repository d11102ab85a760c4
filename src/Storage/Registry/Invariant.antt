-- ===== src/Storage/Registry/Invariant.antt =====
-- What holds of a license registry between two calls.
use mathlib.Core.List.{not-mem-nil}
use license_proxyserver.Base.{
  ap, inr, inl, Bool-cases, Text, str, List, [], none, some, Mem, Option, Bool, true, false, not,
  ◌≡◌, ◌≢◌, refl, arith,
}
use license_proxyserver.Base.Dict
use license_proxyserver.Base.Int.{ltb_ℤ, ◌≤ℤ◌}
use license_proxyserver.Api.{License, Time}
use license_proxyserver.Clock.{Duration, until, until_mono}
use license_proxyserver.Heap.Order.{IsHeap}
use license_proxyserver.Storage.RecordBook.{RecordBook}
use license_proxyserver.Storage.Registry.{Record, LicenseRegistry, new_license_registry}
use license_proxyserver.Storage.Registry.Queues.{queue}

abbrev has_time_left : Time → Duration → Option Time → Bool
has_time_left now ttl none = false
has_time_left now ttl (some t) = not (ltb_ℤ (until now t) ttl)

-- The license has `ttl` or more left at `now`. One without an expiry date has nothing left.
unfoldable pub is_live : Time → Duration → License → Bool
is_live now ttl l = has_time_left now ttl l.not_after

pub is_live-expiry :
    (now : Time) (ttl : Duration) (l m : License)
    → l.not_after ≡ m.not_after
    → is_live now ttl l ≡ is_live now ttl m
unfolding is_live
is_live-expiry now ttl l m e = ap (has_time_left now ttl) e

has_time_left_mono :
    (now later : Time) (ttl : Duration) (t : Option Time)
    → now ≤ℤ later
    → has_time_left now ttl t ≡ false
    → has_time_left later ttl t ≡ false
has_time_left_mono now later ttl none h e = refl
has_time_left_mono now later ttl (some t) h e = ground (arith, until_mono now later t ttl h)

pub is_live_mono :
    (now later : Time) (ttl : Duration) (l : License)
    → now ≤ℤ later
    → is_live now ttl l ≡ false
    → is_live later ttl l ≡ false
unfolding is_live
is_live_mono now later ttl l = has_time_left_mono now later ttl l.not_after

-- The book has an entry only for licenses that are in the store.
abbrev pub IsCovered : Option RecordBook → List (Text × Record) → Type 0
IsCovered none store = Unit
IsCovered (some b) store =
    (id : Text) → Dict.lookup str id b.reg ≢ none → Dict.lookup str id store ≢ none

pub record IsWf (less : License → License → Bool) (r : LicenseRegistry) : Type 0 where
  -- every queue is a heap
  pub heaps : (f : Text) → IsHeap less (queue f r.reg)
  -- a license is queued only under its own features
  pub tagged : (f : Text) (m : License) → Mem m (queue f r.reg) → Mem f m.features
  -- queued and stored licenses have an expiry date
  pub dated : (f : Text) (m : License) → Mem m (queue f r.reg) → m.not_after ≢ none
  pub stored_dated :
      (id : Text) (rec : Record)
      → Dict.lookup str id r.store ≡ some rec
      → rec.license.not_after ≢ none
  -- an ID determines the expiry date of a queued license
  pub consistent :
      (f g : Text) (m n : License)
      → Mem m (queue f r.reg)
      → Mem n (queue g r.reg)
      → m.id ≡ n.id
      → m.not_after ≡ n.not_after
  -- a record is stored under the ID of its license, once
  pub keyed :
      (id : Text) (rec : Record) → Dict.lookup str id r.store ≡ some rec → rec.license.id ≡ id
  pub distinct : Dict.IsDistinct str r.store
  -- a stored license is queued under each of its features
  pub indexed :
      (id : Text) (rec : Record) (f : Text)
      → Dict.lookup str id r.store ≡ some rec
      → Mem f rec.license.features
      → Mem rec.license (queue f r.reg)
  pub covered : IsCovered r.rb r.store

-- A queued license that is still live is in the store.
abbrev pub IsCurrent : Time → LicenseRegistry → Type 0
IsCurrent now r =
    (f : Text) (m : License)
    → Mem m (queue f r.reg)
    → is_live now r.ttl m ≡ true
    → Dict.lookup str m.id r.store ≢ none

-- It stays so while time passes.
pub IsCurrent-later :
    (now later : Time) (r : LicenseRegistry) → now ≤ℤ later → IsCurrent now r → IsCurrent later r
IsCurrent-later now later r h c f m i live = elim (Bool-cases (is_live now r.ttl m)) [
  | inl e ↦ c f m i e
  | inr e ↦ cc (is_live_mono now later r.ttl m h e)
]

pub new-IsWf :
    (less : License → License → Bool) (cache_dir : Text) (ttl : Duration) (rb : Option RecordBook)
    → IsCovered rb []
    → IsWf less (new_license_registry cache_dir ttl rb)
unfolding new_license_registry queue Dict.lookup
new-IsWf less cache_dir ttl rb c = record {
  heaps = λ f c p q. absurd (omega arith);
  tagged = λ f m i. absurd (not-mem-nil i);
  dated = λ f m i. absurd (not-mem-nil i);
  stored_dated = λ id rec e. absurd (cc);
  consistent = λ f g m n i. absurd (not-mem-nil i);
  keyed = λ id rec e. absurd (cc);
  distinct = tt;
  indexed = λ id rec f e. absurd (cc);
  covered = c;
}
