-- ===== src/Storage/Registry/Queues.antt =====
-- The queues of the license registry, where a missing key is an empty queue, and the loop of Add.
use mathlib.Core.List.Perm
use mathlib.Core.List.{mem-cons, mem-cons_self, mem-cons_of_mem, not-mem-nil, Mem-prop}
use mathlib.Core.Logic.{◌∨₁◌, ∨₁_prop, if_neg}
use mathlib.Core.Logic.Or
use license_proxyserver.Base.{
  sym, Text, str, List, [], ◌∷◌, Mem, Perm, none, some, Bool, ite, ◌≡◌, refl, subst, arith, Returns,
  returns, Returns-bind, Returns-map, Option-cases, inl, inr,
}
use license_proxyserver.Base.Dict
use license_proxyserver.Api.{License}
use license_proxyserver.Heap.Order.{IsStrictWeak, IsHeap}
use license_proxyserver.Heap.Correct.{push_correct}
use license_proxyserver.Storage.Registry.{add_features}

abbrev pub Queues : Type 0
Queues = List (Text × List License)

-- the licenses kept for a feature
unfoldable pub queue : Text → Queues → List License
queue f reg = elim (Dict.lookup str f reg) [ none ↦ [] | some q ↦ q ]

pub queue-insert :
    (g f : Text) (q : List License) (reg : Queues)
    → queue f (Dict.insert str g q reg) ≡ ite (str g f) q (queue f reg)
unfolding queue
queue-insert g f q reg = ground (arith, Dict.lookup-insert str g f q reg)

pub queue-insert_self :
    (g : Text) (q : List License) (reg : Queues) → queue g (Dict.insert str g q reg) ≡ q
queue-insert_self g q reg = ground (arith, queue-insert g g q reg)

-- What holds of the new queue and of all the old ones holds of all queues after an insertion.
pub queue-insert_all {κ} :
    (P : Text → List License → Type κ) (g : Text) (q : List License) (reg : Queues)
    → P g q
    → ((f : Text) → P f (queue f reg))
    → (f : Text) → P f (queue f (Dict.insert str g q reg))
queue-insert_all P g q reg new old f = elim (str g f) [
  | yes e ↦
      subst (λ k. P k (queue k (Dict.insert str g q reg))) e (rw (queue-insert_self g q reg) new)
  | no e ↦ rw (queue-insert g f q reg, if_neg (str g f) e) (old f)
]

-- A queue that gains one license.
pub forall_mem-perm {κ} :
    {l : License} {q h : List License} (P : License → Type κ)
    → ((m : License) → IsProp (P m))
    → Perm h (l ∷ q)
    → P l
    → ((m : License) → Mem m q → P m)
    → (m : License) → Mem m h
    → P m
forall_mem-perm P prop perm new all m i =
    Or.elim (prop m) (mem-cons.0 ((Perm.mem_iff perm).0 i)) (λ e. subst P (sym e) new) (all m)

-- What the loop of Add leaves: the queues are heaps, they keep their licenses, the new license is
-- in those of the features `fs`, and it is in no other.
pub record Queued (less : License → License → Bool) (l : License) (fs : List Text)
    (reg reg' : Queues) : Type 0 where
  pub heaps : (f : Text) → IsHeap less (queue f reg')
  pub kept : (f : Text) (m : License) → Mem m (queue f reg) → Mem m (queue f reg')
  pub added : (f : Text) → Mem f fs → Mem l (queue f reg')
  pub only :
      (f : Text) (m : License) → Mem m (queue f reg') → Mem m (queue f reg) ∨₁ ((m ≡ l) × Mem f fs)

module _ (less : License → License → Bool) (order : IsStrictWeak less) where
  -- One round: `l` joins the queue of the feature `g`.
  record Joined (l : License) (g : Text) (reg : Queues) (reg' : Queues) : Type 0 where
    heaps : (f : Text) → IsHeap less (queue f reg')
    kept : (f : Text) (m : License) → Mem m (queue f reg) → Mem m (queue f reg')
    added : Mem l (queue g reg')
    only :
        (f : Text) (m : License) → Mem m (queue f reg') → Mem m (queue f reg) ∨₁ ((m ≡ l) × (f ≡ g))

  insert-Joined :
      (l : License) (g : Text) (reg : Queues) (h : List License)
      → ((f : Text) → IsHeap less (queue f reg))
      → IsHeap less h
      → Perm h (l ∷ queue g reg)
      → Joined l g reg (Dict.insert str g h reg)
  insert-Joined l g reg h v hv perm = record {
    heaps = queue-insert_all (λ f q. IsHeap less q) g h reg hv v;
    kept = λ f m.
        queue-insert_all (λ f q. Mem m (queue f reg) → Mem m q) g h reg
          (λ i. (Perm.mem_iff perm).1 (mem-cons_of_mem l i)) (λ f i. i) f;
    added = rw (queue-insert_self g h reg) ((Perm.mem_iff perm).1 mem-cons_self);
    only = λ f m.
        queue-insert_all (λ f q. Mem m q → Mem m (queue f reg) ∨₁ ((m ≡ l) × (f ≡ g))) g h reg
          (λ i.
            Or.elim ∨₁_prop (mem-cons.0 ((Perm.mem_iff perm).0 i)) (λ e. Or.inr (e, refl))
              (λ k. Or.inl k))
          (λ f i. Or.inl i) f;
  }

  Joined-Queued :
      (l : License) (g : Text) (fs : List Text) (reg reg' reg'' : Queues)
      → Joined l g reg reg'
      → Queued less l fs reg' reg''
      → Queued less l (g ∷ fs) reg reg''
  Joined-Queued l g fs reg reg' reg'' j q = record {
    heaps = q.heaps;
    kept = λ f m i. q.kept f m (j.kept f m i);
    added = λ f i.
        Or.elim Mem-prop (mem-cons.0 i)
          (λ e. subst (λ k. Mem l (queue k reg'')) (sym e) (q.kept g l j.added)) (q.added f);
    only = λ f m i.
        Or.elim ∨₁_prop (q.only f m i)
          (λ k.
            Or.elim ∨₁_prop (j.only f m k) (λ o. Or.inl o)
              (λ n. Or.inr (n.0, rw n.1 mem-cons_self)))
          (λ n. Or.inr (n.0, mem-cons_of_mem g n.1));
  }

  pub add_features-Queued :
      (l : License) (fs : List Text) (reg : Queues)
      → ((f : Text) → IsHeap less (queue f reg))
      → Returns (Queued less l fs reg) (add_features less l fs reg)
  unfolding add_features queue
  add_features-Queued l [] reg v = returns (record {
    heaps = v;
    kept = λ f m i. i;
    added = λ f i. absurd (not-mem-nil i);
    only = λ f m i. Or.inl i;
  })
  add_features-Queued l (g ∷ fs) reg v = elim (Option-cases (Dict.lookup str g reg)) [
    | inl e ↦
        let empty : queue g reg ≡ [] = rw (e, queue) in
        let j =
          insert-Joined l g reg (l ∷ []) v (λ c p h. absurd (omega arith)) (rw empty Perm.rfl) in
        rw (e, add_features)
          (Returns-map (add_features-Queued l fs (Dict.insert str g (l ∷ []) reg) j.heaps)
            λ reg'' k. Joined-Queued l g fs reg _ reg'' j k)
    | inr (q, e) ↦
        let found : queue g reg ≡ q = rw (e, queue) in
        rw (e, add_features)
          (Returns-bind (push_correct less order q l (rw found at (v g))) λ h (hv, perm).
            let j = insert-Joined l g reg h v hv (rw found perm) in
            Returns-map (add_features-Queued l fs (Dict.insert str g h reg) j.heaps)
              λ reg'' k. Joined-Queued l g fs reg _ reg'' j k)
  ]
