-- ===== src/Heap/Up.antt =====
-- heap.up restores the heap order after an item was appended.
use mathlib.Core.Logic.{◌≢◌}
use mathlib.Core.List.Perm
use license_proxyserver.Base.{
  ℕ, zero, suc, ◌<◌, ◌≡◌, List, Perm, Bool, true, arith, ◌==◌, length, Returns, returns,
  Returns-bind, Returns-map, Returns-if, get_elem?,
}
use license_proxyserver.Heap.{up}
use license_proxyserver.Heap.Order.{
  IsStrictWeak, parent, before, Above, IsHeap, Exchanged, swap-Exchanged, less_at-before,
  before_asym, before_weak,
}

module _ {ℓ} {A : Type ℓ} (less : A → A → Bool) (order : IsStrictWeak less) where
  -- Only the item at `j` may come before its parent, and its parent stands above its children.
  pub record IsRising (h : List A) (j : ℕ) : Type 0 where
    pub inside : j < length h
    pub edges : (c : ℕ) → 0 < c → c < length h → c ≢ j → Above less h (parent c) c
    pub spanned : (c : ℕ) → 0 < c → c < length h → parent c ≡ j → 0 < j → Above less h (parent j) c

  exchange-IsRising :
      (h h' : List A) (j : ℕ)
      → IsRising h j
      → 0 < j
      → before less (get_elem? h j) (get_elem? h (parent j)) ≡ true
      → Exchanged h (parent j) j h'
      → IsRising h' (parent j)
  exchange-IsRising h h' j v pos below x =
      let up_edge = before_asym less order _ _ below in
      record {
        inside = omega (arith, x.size);
        edges = λ c p q r. ground (
          arith,
          x.size,
          x.entries c,
          x.entries (parent c),
          v.edges c,
          v.spanned c,
          up_edge,
          before_weak less order (get_elem? h j) (get_elem? h (parent j)) (get_elem? h c),
        );
        spanned = λ c p q r s. ground (
          arith,
          x.size,
          x.entries c,
          x.entries (parent (parent j)),
          v.edges c,
          v.edges (parent j),
          before_weak less order (get_elem? h (parent (parent j))) (get_elem? h (parent j))
              (get_elem? h c),
        );
      }

  -- the order is restored, and no item is lost or made up
  abbrev pub Restored : List A → List A → Type ℓ
  Restored h h' = IsHeap less h' × Perm h' h

  pub up_restores :
      (fuel : ℕ) (h : List A) (j : ℕ)
      → j < fuel
      → IsRising h j
      → Returns (Restored h) (up less fuel h j)
  unfolding up
  up_restores zero h j f v = absurd (omega arith)
  up_restores (suc fuel) h j f v =
      let above : parent j < length h = omega (arith, v.inside) in
      Returns-if (parent j == j) (λ top. returns (λ c p q. ground (arith, v.edges c), Perm.rfl))
        λ lower. rw (less_at-before less h j (parent j) v.inside above) (
          Returns-if (before less (get_elem? h j) (get_elem? h (parent j)))
            (λ below. Returns-bind (swap-Exchanged h (parent j) j above v.inside) λ h' x.
              Returns-map
                (up_restores fuel h' (parent j) (ground arith)
                  (exchange-IsRising h h' j v (ground arith) below x))
                λ h'' r. (r.0, Perm.trans r.1 x.same))
            (λ settled. returns (λ c p q. ground (arith, v.edges c), Perm.rfl)))
