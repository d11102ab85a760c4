-- ===== src/Heap/Down.antt =====
-- heap.down restores the heap order of the first `n` items after the root was replaced.
use mathlib.Core.Logic.{◌≢◌, ◌⊎◌}
use mathlib.Core.List.Perm
use license_proxyserver.Base.{
  ℕ, zero, suc, ◌+◌, ◌-◌, ◌*◌, ◌≤◌, ◌<◌, ◌≡◌, refl, ◌∙◌, List, Perm, Bool, true, arith, ltb, length,
  get_elem?, Returns, returns, Returns-bind, Returns-map, Returns-if, Bool-cases, inl, inr,
}
use license_proxyserver.Heap.{least_child, down}
use license_proxyserver.Heap.Order.{
  IsStrictWeak, parent, before, Above, IsHeapUpTo, Exchanged, swap-Exchanged, less_at-before,
  before_asym, before_weak, before_irrefl,
}

module _ {ℓ} {A : Type ℓ} (less : A → A → Bool) (order : IsStrictWeak less) (n : ℕ) where
  -- Among the first `n`, only the item at `i` may come after its children.
  pub record IsSinking (h : List A) (i : ℕ) : Type 0 where
    pub inside : i < length h
    pub room : n ≤ length h
    pub edges : (c : ℕ) → 0 < c → c < n → parent c ≢ i → Above less h (parent c) c
    pub spanned : (c : ℕ) → 0 < c → c < n → parent c ≡ i → 0 < i → Above less h (parent i) c

  record IsLeastChild (h : List A) (i m : ℕ) : Type 0 where
    within : m < n
    child : (m ≡ 2 * i + 1) ⊎ (m ≡ 2 * i + 2)
    least : (c : ℕ) → 0 < c → c < n → parent c ≡ i → Above less h m c

  least_child-IsLeastChild :
      (h : List A) (i : ℕ)
      → n ≤ length h
      → 2 * i + 1 < n
      → Returns (IsLeastChild h i) (least_child less h i n)
  unfolding least_child
  least_child-IsLeastChild h i room inside =
      let left = get_elem? h (2 * i + 1) in
      let right = get_elem? h (2 * i + 1 + 1) in
      Returns-if (ltb (2 * i + 1 + 1) n)
        (λ two.
          rw (less_at-before less h (2 * i + 1 + 1) (2 * i + 1) (ground arith) (omega arith)) (
            returns (elim (Bool-cases (before less right left)) [
              | inl e ↦ rw e (record {
                within = ground arith;
                child = omega arith;
                least = λ c p q r.
                    ground
                      (arith, before_asym less order right left e, before_irrefl less order right);
              })
              | inr e ↦ rw e (record {
                within = inside;
                child = omega arith;
                least = λ c p q r. ground (arith, before_irrefl less order left);
              })
            ])))
        (λ one. returns (record {
          within = inside;
          child = omega arith;
          least = λ c p q r.
              let e : c ≡ 2 * i + 1 = ground arith in rw e (before_irrefl less order left);
        }))

  -- the order is restored, no item is lost or made up, and those past `n` stay where they are
  pub record IsSunk (h h' : List A) : Type ℓ where
    pub ordered : IsHeapUpTo less n h'
    pub same : Perm h' h
    pub size : length h' ≡ length h
    pub beyond : (c : ℕ) → n ≤ c → get_elem? h' c ≡ get_elem? h c

  exchange-IsSinking :
      (h h' : List A) (i m : ℕ)
      → IsSinking h i
      → IsLeastChild h i m
      → before less (get_elem? h m) (get_elem? h i) ≡ true
      → Exchanged h i m h'
      → IsSinking h' m
  exchange-IsSinking h h' i m v s below x =
      let up_edge = before_asym less order _ _ below in
      record {
        inside = omega (arith, x.size, s.within, v.room);
        room = omega (arith, x.size, v.room);
        edges = λ c p q r. ground (
          arith,
          x.entries c,
          x.entries (parent c),
          v.edges c,
          v.spanned m,
          s.least c,
          s.within,
          s.child,
          up_edge,
        );
        spanned = λ c p q r t.
            ground (arith, x.entries c, x.entries (parent m), v.edges c, s.within, s.child);
      }

  exchange-IsSunk :
      (h h' h'' : List A) (i m : ℕ)
      → i < n
      → m < n
      → Exchanged h i m h'
      → IsSunk h' h''
      → IsSunk h h''
  exchange-IsSunk h h' h'' i m hi hm x s = record {
    ordered = s.ordered;
    same = Perm.trans s.same x.same;
    size = s.size ∙ x.size;
    beyond = λ c p. ground (arith, s.beyond c, x.entries c);
  }

  pub down_restores :
      (fuel : ℕ) (h : List A) (i : ℕ)
      → n - i < fuel
      → IsSinking h i
      → Returns (IsSunk h) (down less fuel h i n)
  unfolding down
  down_restores zero h i f v = absurd (omega arith)
  down_restores (suc fuel) h i f v =
      Returns-if (ltb (2 * i + 1) n)
        (λ e. Returns-bind (least_child-IsLeastChild h i v.room (ground arith)) λ m s.
          let hi : i < n = ground arith in
          rw (less_at-before less h m i (omega (arith, s.within, v.room)) v.inside) (
            Returns-if (before less (get_elem? h m) (get_elem? h i))
              (λ below.
                Returns-bind (swap-Exchanged h i m v.inside (omega (arith, s.within, v.room)))
                  λ h' x.
                    Returns-map
                      (down_restores fuel h' m (omega (arith, s.child, s.within))
                        (exchange-IsSinking h h' i m v s below x))
                      λ h'' r. exchange-IsSunk h h' h'' i m hi s.within x r)
              (λ settled. returns (record {
                ordered = λ c p q. ground (
                  arith,
                  v.edges c,
                  s.least c,
                  before_weak less order (get_elem? h i) (get_elem? h m) (get_elem? h c),
                );
                same = Perm.rfl;
                size = refl;
                beyond = λ c p. refl;
              }))))
        (λ e. returns (record {
          ordered = λ c p q. ground (arith, v.edges c);
          same = Perm.rfl;
          size = refl;
          beyond = λ c p. refl;
        }))
