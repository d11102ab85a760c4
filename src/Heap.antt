-- ===== src/Heap.antt =====
-- container/heap of Go's standard library over a slice, as pkg/storage/store.go uses it through
-- `LicenseQueue`. A function that writes returns the new slice; an index out of range panics.
-- Indices stay below twice the length plus two, so `int` does not overflow.
pub mod Order
pub mod Up
pub mod Down
pub mod Correct
use license_proxyserver.Base.{
  ℕ, zero, suc, ◌+◌, ◌-◌, ◌*◌, ◌/◌, Bool, List, [], ◌∷◌, ◌++◌, ◌&&◌, ltb, ◌==◌, if◌then◌else◌,
  length, get_elem?, set, take, Run, done, panic, out_of_fuel, ◌>>=◌, deref,
}

module _ {ℓ} {A : Type ℓ} where
  -- LicenseQueue.Swap
  unfoldable pub swap : List A → ℕ → ℕ → Run (List A)
  swap pq i j = do
    y ← deref (get_elem? pq j)
    x ← deref (get_elem? pq i)
    done (set (set pq i y) j x)

  -- LicenseQueue.Pop: the last item, and the slice without it
  unfoldable pub pop_last : List A → Run (A × List A)
  pop_last old = do
    let n = length old
    item ← if n == 0 then panic else deref (get_elem? old (n - 1))
    done (item, take (n - 1) old)

module _ {ℓ} {A : Type ℓ} (less : A → A → Bool) where
  -- LicenseQueue.Less
  unfoldable pub less_at : List A → ℕ → ℕ → Run Bool
  less_at pq i j = do x ← deref (get_elem? pq i); y ← deref (get_elem? pq j); done (less x y)

  -- heap.up
  unfoldable pub up : ℕ → List A → ℕ → Run (List A)
  unfolding less_at swap
  up zero h j = out_of_fuel
  up (suc fuel) h j =
      let i = (j - 1) / 2 in
      let rise = swap h i j >>= λ h'. up fuel h' i in
      let step = less_at h j i >>= λ below. if below then rise else done h in
      if i == j then done h else step

  -- the child of `i` that heap.down compares with, among the first `n` items
  unfoldable pub least_child : List A → ℕ → ℕ → Run ℕ
  unfolding less_at
  least_child h i n =
      let j1 = 2 * i + 1 in
      let j2 = j1 + 1 in
      if ltb j2 n then (less_at h j2 j1 >>= λ right. done (if right then j2 else j1)) else done j1

  -- heap.down
  unfoldable pub down : ℕ → List A → ℕ → ℕ → Run (List A)
  unfolding least_child less_at swap
  down zero h i n = out_of_fuel
  down (suc fuel) h i n =
      let step : Run (List A) = do
        j ← least_child h i n
        below ← less_at h j i
        let sink = swap h i j >>= λ h'. down fuel h' j n
        if below then sink else done h
      in if ltb (2 * i + 1) n then step else done h

  -- heap.Push
  unfoldable pub push : List A → A → Run (List A)
  unfolding up
  push pq x = let h = pq ++ x ∷ [] in up (length h) h (length h - 1)

  -- heap.Pop
  unfoldable pub pop : List A → Run (A × List A)
  unfolding down swap pop_last
  pop pq = do let n = length pq - 1; h ← swap pq 0 n; h' ← down (n + 1) h 0 n; pop_last h'
