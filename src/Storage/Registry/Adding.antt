-- ===== src/Storage/Registry/Adding.antt =====
-- LicenseRegistry.Add.
use mathlib.Core.HLevel.{¬_prop, ⊥_prop}
use mathlib.Core.List.{Mem-prop}
use mathlib.Core.Logic.{◌∨₁◌}
use mathlib.Core.Logic.Or
use license_proxyserver.Base.{
  Returns-bind, Text, str, List, Mem, none, some, Option, Bool, ite, ◌≡◌, ◌≢◌, refl, sym, arith,
  Returns, returns, ap, inl, inr, Option-cases, ◌∙◌,
}
use license_proxyserver.Base.Dict
use license_proxyserver.Api.{License, Contract, Time}
use license_proxyserver.Heap.Order.{IsStrictWeak}
use license_proxyserver.Storage.RecordBook.{RecordBook}
use license_proxyserver.Storage.Registry.{Record, LicenseRegistry, call, add_to_store, add, get}
use license_proxyserver.Storage.Registry.Queues.{Queues, queue, Queued, add_features-Queued}
use license_proxyserver.Storage.Registry.Invariant.{IsWf, IsCurrent, IsCovered}

expiry_set : IsSet (Option Time)
expiry_set = hlevel

-- The license has an expiry date, which agrees with that of any queued license of the same ID.
pub record Fits (r : LicenseRegistry) (l : License) : Type 0 where
  pub dated : l.not_after ≢ none
  pub agrees :
      (g : Text) (m : License) → Mem m (queue g r.reg) → m.id ≡ l.id → m.not_after ≡ l.not_after

-- The registry after a license was stored, with the queues `reg`.
abbrev stored : LicenseRegistry → License → Option Contract → Queues → LicenseRegistry
stored r l c reg = record (add_to_store l c r) { reg = reg }

lookup-stored :
    (r : LicenseRegistry) (l : License) (c : Option Contract) (reg : Queues) (id : Text)
    → Dict.lookup str id (stored r l c reg).store
      ≡ ite (str l.id id) (some (record { license = l; contract = c })) (Dict.lookup str id r.store)
unfolding add_to_store
lookup-stored r l c reg id =
    ground (arith, Dict.lookup-insert str l.id id (record { license = l; contract = c }) r.store)

stored-rb :
    (r : LicenseRegistry) (l : License) (c : Option Contract) (reg : Queues)
    → (stored r l c reg).rb ≡ r.rb
unfolding add_to_store
stored-rb r l c reg = refl

stored-ttl :
    (r : LicenseRegistry) (l : License) (c : Option Contract) (reg : Queues)
    → (stored r l c reg).ttl ≡ r.ttl
unfolding add_to_store
stored-ttl r l c reg = refl

IsCovered-insert :
    (rb : Option RecordBook) (store : List (Text × Record)) (id : Text) (rec : Record)
    → IsCovered rb store
    → IsCovered rb (Dict.insert str id rec store)
IsCovered-insert none store id rec c = tt
IsCovered-insert (some b) store id rec c =
    λ k h. ground (arith, Dict.lookup-insert str id k rec store, c k h)

stored-IsCovered :
    (r : LicenseRegistry) (l : License) (c : Option Contract) (reg : Queues)
    → IsCovered r.rb r.store
    → IsCovered (stored r l c reg).rb (stored r l c reg).store
unfolding add_to_store call
stored-IsCovered r l c reg h = IsCovered-insert r.rb r.store l.id _ h

stored-IsDistinct :
    (r : LicenseRegistry) (l : License) (c : Option Contract) (reg : Queues)
    → Dict.IsDistinct str r.store
    → Dict.IsDistinct str (stored r l c reg).store
unfolding add_to_store call
stored-IsDistinct r l c reg h = Dict.insert-IsDistinct str l.id _ r.store h

-- What Add leaves. A record that is there already stays as it is.
pub record Added (less : License → License → Bool) (r : LicenseRegistry) (l : License)
    (c : Option Contract) (r' : LicenseRegistry) : Type 0 where
  pub wf : IsWf less r'
  pub current : (now : Time) → IsCurrent now r → IsCurrent now r'
  pub found :
      (id : Text)
      → get r' id ≡ (elim (get r id) [
        | some rec ↦ some rec
        | none ↦ ite (str l.id id) (some (record { license = l; contract = c })) none
      ])
  pub kept : (f : Text) (m : License) → Mem m (queue f r.reg) → Mem m (queue f r'.reg)
  pub only :
      (f : Text) (m : License)
      → Mem m (queue f r'.reg)
      → Mem m (queue f r.reg) ∨₁ ((m ≡ l) × Mem f l.features)
  pub settings : (r'.ttl ≡ r.ttl) × (r'.rb ≡ r.rb) × (r'.cache_dir ≡ r.cache_dir)

module _ (less : License → License → Bool) (order : IsStrictWeak less) (r : LicenseRegistry)
    (l : License) (c : Option Contract) (wf : IsWf less r) (fits : Fits r l) where
  module _ (reg : Queues) (q : Queued less l l.features r.reg reg) where
    stored-consistent :
        (f g : Text) (m n : License)
        → Mem m (queue f reg)
        → Mem n (queue g reg)
        → m.id ≡ n.id
        → m.not_after ≡ n.not_after
    stored-consistent f g m n i k e =
        let id_of = λ (x : License). x.id in
        let expiry = λ (x : License). x.not_after in
        Or.elim (expiry_set _ _) (q.only f m i)
          (λ old.
            Or.elim (expiry_set _ _) (q.only g n k) (λ old'. wf.consistent f g m n old old' e)
              (λ new'. fits.agrees f m old (e ∙ ap id_of new'.0) ∙ sym (ap expiry new'.0)))
          (λ new.
            Or.elim (expiry_set _ _) (q.only g n k)
              (λ old'. ap expiry new.0 ∙ sym (fits.agrees g n old' (sym e ∙ ap id_of new.0)))
              (λ new'. ap expiry (new.0 ∙ sym new'.0)))

    stored-indexed :
        (id : Text) (x : Record) (f : Text)
        → Dict.lookup str id (stored r l c reg).store ≡ some x
        → Mem f x.license.features
        → Mem x.license (queue f reg)
    stored-indexed id x f e i = elim (str l.id id) [
      | yes p ↦
          let x_new : x ≡ record { license = l; contract = c } =
            ground (arith, lookup-stored r l c reg id) in
          rw x_new (q.added f (rw x_new at i))
      | no p ↦ q.kept f x.license (wf.indexed id x f (ground (arith, lookup-stored r l c reg id)) i)
    ]

    stored-IsWf : IsWf less (stored r l c reg)
    stored-IsWf = record {
      heaps = q.heaps;
      tagged = λ f m i. Or.elim Mem-prop (q.only f m i) (wf.tagged f m) (λ n. rw n.0 n.1);
      dated = λ f m i. Or.elim ¬_prop (q.only f m i) (wf.dated f m) (λ n. rw n.0 fits.dated);
      stored_dated =
          λ id x e. ground (arith, lookup-stored r l c reg id, wf.stored_dated id x, fits.dated);
      consistent = stored-consistent;
      keyed = λ id x e. ground (arith, lookup-stored r l c reg id, wf.keyed id x);
      distinct = stored-IsDistinct r l c reg wf.distinct;
      indexed = stored-indexed;
      covered = stored-IsCovered r l c reg wf.covered;
    }

    stored-IsCurrent : (now : Time) → IsCurrent now r → IsCurrent now (stored r l c reg)
    stored-IsCurrent now h f m i live gone =
        Or.elim ⊥_prop (q.only f m i)
          (λ old. h f m old (rw stored-ttl at live) (ground (arith, lookup-stored r l c reg m.id)))
          (λ n. ground (arith, lookup-stored r l c reg m.id, n.0))

  -- If `less` is a strict weak order, the registry is well formed, and the license has an expiry
  -- date that agrees with that of every queued license of the same ID, then Add ends without a
  -- panic in a well-formed registry. The records that were stored are stored, and beside them just
  -- the new license with its contract, if its ID was not stored; no queue has lost a license or
  -- gained any but the new one, under its own features; and live queued licenses are stored if
  -- they were before.
  pub add-Added : Returns (Added less r l c) (add less r l c)
  unfolding add get add_to_store
  add-Added = elim (Option-cases (Dict.lookup str l.id r.store)) [
    | inr (x, e) ↦
        rw (e, add)
          (returns (record {
            wf = wf;
            current = λ now h. h;
            found = λ id. ground arith;
            kept = λ f m i. i;
            only = λ f m i. Or.inl i;
            settings = (refl, refl, refl);
          }))
    | inl e ↦
        rw (e, add)
          (Returns-bind (add_features-Queued less order l l.features r.reg wf.heaps) λ reg q.
            returns (record {
              wf = stored-IsWf reg q;
              current = stored-IsCurrent reg q;
              found = λ id. ground (arith, lookup-stored r l c reg id);
              kept = q.kept;
              only = q.only;
              settings = (stored-ttl r l c reg, stored-rb r l c reg, refl);
            }))
  ]
