-- ===== src/Heap/Correct.antt =====
-- heap.Push and heap.Pop of `LicenseQueue`.
use mathlib.Core.List.Perm
use license_proxyserver.Base.{
  ℕ, suc, ◌+◌, ◌-◌, ◌<◌, ◌≡◌, ◌∙◌, List, [], ◌∷◌, ◌++◌, Perm, Bool, some, arith, length, get_elem?,
  take, length-append, get_elem?-append_left, get_elem?-take, take_last, length-take, concat-perm,
  get_elem?_inside, done, Returns, returns, Returns-bind,
}
use license_proxyserver.Heap.{push, pop, pop_last}
use license_proxyserver.Heap.Order.{IsStrictWeak, parent, IsHeap, Exchanged, swap-Exchanged}
use license_proxyserver.Heap.Up.{IsRising, up_restores}
use license_proxyserver.Heap.Down.{IsSinking, IsSunk, down_restores}

module _ {ℓ} {A : Type ℓ} (less : A → A → Bool) (order : IsStrictWeak less) where
  appended-IsRising :
      (pq : List A) (x : A)
      → IsHeap less pq
      → IsRising less order (pq ++ x ∷ []) (length (pq ++ x ∷ []) - 1)
  appended-IsRising pq x v =
      let size = length-append pq (x ∷ []) in
      record {
        inside = omega (arith, size);
        edges = λ c p q r. ground (
          arith,
          size,
          v c,
          get_elem?-append_left pq (x ∷ []) c,
          get_elem?-append_left pq (x ∷ []) (parent c),
        );
        spanned = λ c p q r. absurd (omega (arith, size));
      }

  -- If `less` is a strict weak order and the queue is a heap, heap.Push ends without a panic and
  -- within the fuel in a heap with exactly the new item and those that it had.
  pub push_correct :
      (pq : List A) (x : A)
      → IsHeap less pq
      → Returns (λ h. IsHeap less h × Perm h (x ∷ pq)) (push less pq x)
  unfolding push
  push_correct pq x v =
      let size = length-append pq (x ∷ []) in
      let run =
        up_restores less order (length (pq ++ x ∷ [])) (pq ++ x ∷ []) (length (pq ++ x ∷ []) - 1)
          (omega (arith, size)) (appended-IsRising pq x v) in
      record {
        value = run.value;
        ends = run.ends;
        holds = (run.holds.0, Perm.trans run.holds.1 (concat-perm pq x));
      }

  -- what Pop leaves: the root, and a heap of the other items
  abbrev pub Popped : List A → A × List A → Type ℓ
  Popped pq r = (get_elem? pq 0 ≡ some r.0) × IsHeap less r.1 × Perm (r.0 ∷ r.1) pq

  Exchanged-IsSinking :
      (pq h : List A) (n : ℕ)
      → length pq ≡ suc n
      → IsHeap less pq
      → Exchanged pq 0 n h
      → IsSinking less order n h 0
  Exchanged-IsSinking pq h n size v x = record {
    inside = omega (arith, x.size);
    room = omega (arith, x.size);
    edges = λ c p q r. ground (arith, v c, x.entries c, x.entries (parent c));
    spanned = λ c p q r s. absurd (omega arith);
  }

  pop_last_lem :
      (h : List A) (n : ℕ) (a : A)
      → length h ≡ suc n
      → get_elem? h n ≡ some a
      → pop_last h ≡ done (a, take n h)
  unfolding pop_last
  pop_last_lem h n a size last =
      let at_end : length h - 1 ≡ n = omega arith in rw (at_end, last) (ground arith)

  pop_last-Popped :
      (pq h h' : List A) (n : ℕ)
      → length pq ≡ suc n
      → Exchanged pq 0 n h
      → IsSunk less order n h h'
      → Returns (Popped pq) (pop_last h')
  pop_last-Popped pq h h' n size x s =
      let (a, root) = get_elem?_inside pq 0 (omega arith) in
      let whole : length h' ≡ suc n = s.size ∙ x.size ∙ size in
      let last : get_elem? h' n ≡ some a = ground (arith, s.beyond n, x.entries n) in
      let short = length-take n h' (omega arith) in
      let rest = take n h' in
      rw (pop_last_lem h' n a whole last) (
        returns (
          root,
          (λ c p q.
              ground
                (arith, s.ordered c, get_elem?-take n h' c, get_elem?-take n h' (parent c), short)),
          Perm.trans (Perm.symm (concat-perm rest a))
              (rw (take_last n h' a whole last) (Perm.trans s.same x.same)),
        ))

  -- If `less` is a strict weak order and the queue is a heap and not empty, heap.Pop ends without
  -- a panic and within the fuel, takes off the root of the heap, and leaves a heap with exactly
  -- the other items.
  pub pop_correct :
      (pq : List A) → IsHeap less pq → 0 < length pq → Returns (Popped pq) (pop less pq)
  unfolding pop
  pop_correct pq v pos =
      let n = length pq - 1 in
      let size : length pq ≡ suc n = omega arith in
      Returns-bind (swap-Exchanged pq 0 n pos (omega arith)) λ h x.
        Returns-bind
          (down_restores less order n (n + 1) h 0 (omega arith)
            (Exchanged-IsSinking pq h n size v x))
          λ h' s. pop_last-Popped pq h h' n size x s
