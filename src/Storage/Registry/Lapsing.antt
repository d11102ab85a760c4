-- ===== src/Storage/Registry/Lapsing.antt =====
-- One round of the loop of LicenseRegistry.LicenseForFeature drops the root of a queue.
use mathlib.Core.List.{Mem-prop, mem-cons, mem-cons_self, mem-cons_of_mem}
use mathlib.Core.List.Perm
use mathlib.Core.Logic.{◌∨₁◌, ∨₁_prop}
use mathlib.Core.Logic.Or
use license_proxyserver.Base.{
  Text, str, List, ◌∷◌, Mem, none, some, Option, Bool, true, false, ite, ◌≡◌, ◌≢◌, refl, sym, subst,
  arith, ap, ◌∙◌,
}
use license_proxyserver.Base.Dict
use license_proxyserver.Api.{License, Time}
use license_proxyserver.Heap.Order.{IsStrictWeak, IsHeap}
use license_proxyserver.Heap.Correct.{Popped}
use license_proxyserver.Storage.RecordBook
use license_proxyserver.Storage.RecordBook.{RecordBook}
use license_proxyserver.Storage.Registry.{Record, LicenseRegistry, remove_from_store, get}
use license_proxyserver.Storage.Registry.Queues.{queue, queue-insert_all}
use license_proxyserver.Storage.Registry.Invariant.{
  IsWf, IsCurrent, IsCovered, is_live, is_live-expiry,
}

-- From `r` to `r'` the registry lost nothing but licenses that are no longer live.
pub record Lapsed (less : License → License → Bool) (now : Time) (r r' : LicenseRegistry)
    : Type 0 where
  pub wf : IsWf less r'
  pub current : IsCurrent now r'
  pub ttl : r'.ttl ≡ r.ttl
  pub keeps_book : r.rb ≢ none → r'.rb ≢ none
  pub shrinks : (f : Text) (m : License) → Mem m (queue f r'.reg) → Mem m (queue f r.reg)
  pub loses :
      (f : Text) (m : License)
      → Mem m (queue f r.reg)
      → Mem m (queue f r'.reg) ∨₁ (is_live now r.ttl m ≡ false)
  pub drops : (id : Text) (rec : Record) → get r' id ≡ some rec → get r id ≡ some rec
  -- a live license that is stored, and has a feature, stays stored
  pub retains :
      (id : Text) (rec : Record) (f : Text)
      → get r id ≡ some rec
      → Mem f rec.license.features
      → is_live now r.ttl rec.license ≡ true
      → get r' id ≡ some rec

module _ (less : License → License → Bool) (now : Time) where
  pub Lapsed-refl : (r : LicenseRegistry) → IsWf less r → IsCurrent now r → Lapsed less now r r
  Lapsed-refl r wf current = record {
    wf = wf;
    current = current;
    ttl = refl;
    keeps_book = λ h. h;
    shrinks = λ f m i. i;
    loses = λ f m i. Or.inl i;
    drops = λ id rec e. e;
    retains = λ id rec f e i h. e;
  }

  pub Lapsed-trans :
      {r r' r'' : LicenseRegistry}
      → Lapsed less now r r'
      → Lapsed less now r' r''
      → Lapsed less now r r''
  Lapsed-trans {r} {r'} {r''} a b = record {
    wf = b.wf;
    current = b.current;
    ttl = b.ttl ∙ a.ttl;
    keeps_book = λ h. b.keeps_book (a.keeps_book h);
    shrinks = λ f m i. a.shrinks f m (b.shrinks f m i);
    loses = λ f m i.
        Or.elim ∨₁_prop (a.loses f m i)
          (λ k.
            subst (λ d. Mem m (queue f r''.reg) ∨₁ (is_live now d m ≡ false)) a.ttl (b.loses f m k))
          (λ e. Or.inr e);
    drops = λ id rec e. a.drops id rec (b.drops id rec e);
    retains = λ id rec f e i h.
        b.retains id rec f (a.retains id rec f e i h) i
          (subst (λ d. is_live now d rec.license ≡ true) (sym a.ttl) h);
  }

IsCovered-delete :
    (rb : Option RecordBook) (store : List (Text × Record)) (id : Text)
    → IsCovered rb store
    → IsCovered
        (elim rb [ none ↦ none | some b ↦ some (RecordBook.delete b id) ])
        (Dict.delete str id store)
unfolding RecordBook.delete
IsCovered-delete none store id c = tt
IsCovered-delete (some b) store id c =
    λ k h. ground (arith, Dict.lookup-delete str id k b.reg, Dict.lookup-delete str id k store, c k)

module _ (less : License → License → Bool) (order : IsStrictWeak less) (now : Time) where
  -- One round of the loop: the root `item` of a queue has too little time left.
  module _ (r : LicenseRegistry) (feature : Text) (item : License) (rest q : List License)
      (wf : IsWf less r) (current : IsCurrent now r) (at : queue feature r.reg ≡ item ∷ rest)
      (popped : Popped less order (item ∷ rest) (item, q))
      (expired : is_live now r.ttl item ≡ false) where
    abbrev pub dropped : LicenseRegistry
    dropped = remove_from_store item (record r { reg = Dict.insert str feature q r.reg })

    queued_item : Mem item (queue feature r.reg)
    queued_item = rw at mem-cons_self

    lookup-dropped :
        (id : Text)
        → Dict.lookup str id dropped.store ≡ ite (str item.id id) none (Dict.lookup str id r.store)
    unfolding remove_from_store
    lookup-dropped id = Dict.lookup-delete str item.id id r.store

    dropped-shrinks : (f : Text) (m : License) → Mem m (queue f dropped.reg) → Mem m (queue f r.reg)
    unfolding remove_from_store
    dropped-shrinks f m =
        queue-insert_all (λ f q. Mem m q → Mem m (queue f r.reg)) feature q r.reg
          (λ i. rw at ((Perm.mem_iff popped.2).0 (mem-cons_of_mem item i))) (λ f i. i) f

    dropped-loses :
        (f : Text) (m : License) → Mem m (queue f r.reg) → Mem m (queue f dropped.reg) ∨₁ (m ≡ item)
    unfolding remove_from_store
    dropped-loses f m =
        queue-insert_all (λ f q. Mem m (queue f r.reg) → Mem m q ∨₁ (m ≡ item)) feature q r.reg
          (λ i.
            Or.elim ∨₁_prop (mem-cons.0 ((Perm.mem_iff popped.2).1 (rw at at i))) (λ e. Or.inr e)
              (λ k. Or.inl k))
          (λ f i. Or.inl i) f

    dropped-heaps : (f : Text) → IsHeap less (queue f dropped.reg)
    unfolding remove_from_store
    dropped-heaps = queue-insert_all (λ f q. IsHeap less q) feature q r.reg popped.1 wf.heaps

    dropped-indexed :
        (id : Text) (x : Record) (f : Text)
        → Dict.lookup str id dropped.store ≡ some x
        → Mem f x.license.features
        → Mem x.license (queue f dropped.reg)
    dropped-indexed id x f e i =
        let old : Dict.lookup str id r.store ≡ some x = ground (arith, lookup-dropped id) in
        Or.elim Mem-prop (dropped-loses f x.license (wf.indexed id x f old i)) (λ k. k)
          (λ same.
            let here : item.id ≡ id = ap (λ (l : License). l.id) (sym same) ∙ wf.keyed id x old in
            ground (arith, lookup-dropped id))

    dropped-IsDistinct : Dict.IsDistinct str dropped.store
    unfolding remove_from_store
    dropped-IsDistinct = Dict.delete-IsDistinct str item.id r.store wf.distinct

    dropped-IsCovered : IsCovered dropped.rb dropped.store
    unfolding remove_from_store
    dropped-IsCovered = IsCovered-delete r.rb r.store item.id wf.covered

    dropped-IsWf : IsWf less dropped
    dropped-IsWf = record {
      heaps = dropped-heaps;
      tagged = λ f m i. wf.tagged f m (dropped-shrinks f m i);
      dated = λ f m i. wf.dated f m (dropped-shrinks f m i);
      stored_dated = λ id x e. ground (arith, lookup-dropped id, wf.stored_dated id x);
      consistent =
          λ f g m n i k e. wf.consistent f g m n (dropped-shrinks f m i) (dropped-shrinks g n k) e;
      keyed = λ id x e. ground (arith, lookup-dropped id, wf.keyed id x);
      distinct = dropped-IsDistinct;
      indexed = dropped-indexed;
      covered = dropped-IsCovered;
    }

    -- a live license shares no ID with the one that was dropped
    live-id-ne :
        (f : Text) (m : License)
        → Mem m (queue f r.reg)
        → is_live now r.ttl m ≡ true
        → item.id ≢ m.id
    live-id-ne f m i live e =
        let same =
          is_live-expiry now r.ttl item m (wf.consistent feature f item m queued_item i e) in
        cc

    pub dropped-Lapsed : Lapsed less now r dropped
    unfolding remove_from_store get
    dropped-Lapsed = record {
      wf = dropped-IsWf;
      current = λ f m i live gone.
          let old = dropped-shrinks f m i in
          ground (arith, lookup-dropped m.id, live-id-ne f m old live, current f m old live);
      ttl = refl;
      keeps_book = λ h. ground arith;
      shrinks = dropped-shrinks;
      loses = λ f m i.
          Or.elim ∨₁_prop (dropped-loses f m i) (λ k. Or.inl k) (λ e. Or.inr (rw e expired));
      drops = λ id x e. ground (arith, lookup-dropped id);
      retains = λ id x f e i live. ground (
        arith,
        lookup-dropped id,
        wf.keyed id x e,
        live-id-ne f x.license (wf.indexed id x f e i) live,
      );
    }
