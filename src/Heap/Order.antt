-- ===== src/Heap/Order.antt =====
-- The heap order, through the entries as options: a missing entry comes after every item.
use mathlib.Core.List.{Mem}
use mathlib.Core.Logic.{∥∥₁_elim}
use mathlib.Core.Bool.{Bool-set}
use license_proxyserver.Base.{place}
use mathlib.Core.List.Perm
use license_proxyserver.Base.{
  ℕ, zero, suc, ◌-◌, ◌/◌, ◌<◌, ◌≡◌, refl, ◌∙◌, Bool, true, false, Option, none, some, List, Perm,
  arith, ◌==◌, Bool-cases, inl, inr, if◌then◌else◌, length, get_elem?, set, length-set,
  get_elem?_inside, get_elem?-set, set-perm, done, Returns, returns,
}
use license_proxyserver.Heap.{swap, less_at}

-- What Go asks of a `Less`: a strict weak ordering.
pub record IsStrictWeak {ℓ} {A : Type ℓ} (less : A → A → Bool) : Type ℓ where
  pub asym : (a b : A) → less a b ≡ true → less b a ≡ false
  pub weak : (a b c : A) → less b a ≡ false → less c b ≡ false → less c a ≡ false

abbrev pub parent : ℕ → ℕ
parent c = (c - 1) / 2

module _ {ℓ} {A : Type ℓ} (less : A → A → Bool) where
  abbrev pub before : Option A → Option A → Bool
  before (some x) (some y) = less x y
  before (some x) none = true
  before none _ = false

  -- the entry at `i` may stand above the entry at `j`
  abbrev pub Above : List A → ℕ → ℕ → Type 0
  Above h i j = before (get_elem? h j) (get_elem? h i) ≡ false

  -- the first `n` items are in heap order
  abbrev pub IsHeapUpTo : ℕ → List A → Type 0
  IsHeapUpTo n h = (c : ℕ) → 0 < c → c < n → Above h (parent c) c

  abbrev pub IsHeap : List A → Type 0
  IsHeap h = IsHeapUpTo (length h) h

-- `h'` is `h` with two entries exchanged.
pub record Exchanged {ℓ} {A : Type ℓ} (h : List A) (i j : ℕ) (h' : List A) : Type ℓ where
  pub size : length h' ≡ length h
  pub entries :
      (c : ℕ)
      → get_elem? h' c
        ≡ (if j == c then get_elem? h i else if i == c then get_elem? h j else get_elem? h c)
  pub same : Perm h' h

module _ {ℓ} {A : Type ℓ} where
  pub swap-Exchanged :
      (h : List A) (i j : ℕ) → i < length h → j < length h → Returns (Exchanged h i j) (swap h i j)
  unfolding swap
  swap-Exchanged h i j hi hj =
      let (x, ex) = get_elem?_inside h i hi in
      let (y, ey) = get_elem?_inside h j hj in
      let g = set h i y in
      let old : get_elem? g j ≡ some y = ground (arith, get_elem?-set h i j y hi) in
      let hj' : j < length g = rw (length-set h i y) hj in
      rw (ey, ex)
        (returns (record {
          size = length-set g j x ∙ length-set h i y;
          entries = λ c. ground (arith, get_elem?-set g j c x hj', get_elem?-set h i c y hi);
          same = Perm.cons_inv (Perm.trans (set-perm g j y x old) (set-perm h i x y ex));
        }))

module _ {ℓ} {A : Type ℓ} (less : A → A → Bool) where
  pub less_at-before :
      (h : List A) (i j : ℕ)
      → i < length h
      → j < length h
      → less_at less h i j ≡ done (before less (get_elem? h i) (get_elem? h j))
  unfolding less_at
  less_at-before h i j hi hj =
      let (x, ex) = get_elem?_inside h i hi in let (y, ey) = get_elem?_inside h j hj in rw (ex, ey)

  module _ (order : IsStrictWeak less) where
    pub before_asym : (a b : Option A) → before less a b ≡ true → before less b a ≡ false
    before_asym none b h = cc
    before_asym (some x) none h = refl
    before_asym (some x) (some y) h = order.asym x y h

    pub before_weak :
        (a b c : Option A)
        → before less b a ≡ false
        → before less c b ≡ false
        → before less c a ≡ false
    before_weak a b none p q = refl
    before_weak none none (some z) p q = q
    before_weak none (some y) (some z) p q = cc
    before_weak (some x) none (some z) p q = cc
    before_weak (some x) (some y) (some z) p q = order.weak x y z p q

    pub before_irrefl : (a : Option A) → before less a a ≡ false
    before_irrefl a = elim (Bool-cases (before less a a)) [ inl e ↦ before_asym a a e | inr e ↦ e ]

    pub root-Above :
        (h : List A) → IsHeap less h → (k i : ℕ) → i < k → i < length h → Above less h 0 i
    root-Above h v zero i f p = absurd (omega arith)
    root-Above h v (suc k) zero f p = before_irrefl _
    root-Above h v (suc k) (suc i) f p =
        before_weak _ _ _ (root-Above h v k (parent (suc i)) (omega arith) (omega arith))
          (v (suc i) (omega arith) p)

    -- No item of a heap comes before its root.
    pub root_least :
        (h : List A) (x m : A) → IsHeap less h → get_elem? h 0 ≡ some x → Mem m h → less m x ≡ false
    root_least h x m v e mem = ∥∥₁_elim mem (Bool-set _ _) λ p.
        let (i, inside, at) = place p in
        let above = root-Above h v (suc i) i (omega arith) inside in rw (at, e) at above
