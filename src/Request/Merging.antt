-- ===== src/Request/Merging.antt =====
-- The features of a cluster claim and those of a request, merged as string sets.
use mathlib.Core.HLevel.{¬_prop}
use mathlib.Core.Logic.{∨₁_prop, ◌∨₁◌}
use mathlib.Core.Logic.Or
use mathlib.Core.List.{not-mem-nil}
use license_proxyserver.Base.{
  member_of_ne-nil, Text, List, [], Mem, Bool, true, false, not, ◌&&◌, ltb, ◌≡◌, ◌≢◌, ◌↔◌, ◌⊎◌, inl,
  inr, arith, All, All_of_mem, mem_of_All, All-prop,
}
use license_proxyserver.Base.Split.{
  split, join_with, IsPlain, split-join_with, split-IsPlain, split-ne-nil,
}
use license_proxyserver.Request.{StringSets, comma}

-- What the documentation of the string sets says of their members.
pub record IsStringSets (sets : StringSets) : Type 0 where
  pub has : sets.Set → Text → Bool
  pub has-new : (l : List Text) (x : Text) → (has (sets.new l) x ≡ true) ↔ Mem x l
  pub has-difference :
      (a b : sets.Set) (x : Text) → has (sets.difference a b) x ≡ (has a x && not (has b x))
  pub len-zero : (a : sets.Set) → sets.len a ≡ 0 → (x : Text) → has a x ≡ false
  pub has-insert :
      (a : sets.Set) (l : List Text) (x : Text)
      → (has (sets.insert a l) x ≡ true) ↔ ((has a x ≡ true) ∨₁ Mem x l)
  pub mem-unsorted_list :
      (a : sets.Set) (x : Text) → Mem x (sets.unsorted_list a) ↔ (has a x ≡ true)
  pub mem-list : (a : sets.Set) (x : Text) → Mem x (sets.list a) ↔ (has a x ≡ true)

pub IsPlain-prop : (s : Text) → IsProp (IsPlain comma s)
IsPlain-prop s = All-prop (λ c. c ≢ comma) (λ c. ¬_prop) s

module _ (sets : StringSets) (lawful : IsStringSets sets) (value : Text) (features : List Text)
    (plain : All (IsPlain comma) features) where
  unfoldable pub cur : sets.Set
  cur = sets.new (split comma value)

  unfoldable pub extra : sets.Set
  unfolding cur
  extra = sets.difference (sets.new features) cur

  -- a requested feature is claimed already, or is an extra one
  pub old-or-extra :
      (f : Text) → Mem f features → (lawful.has cur f ≡ true) ⊎ (lawful.has extra f ≡ true)
  unfolding extra
  old-or-extra f i =
      let asked = (lawful.has-new features f).1 i in
      ground (arith, asked, lawful.has-difference (sets.new features) cur f)

  pub extra-empty : ltb 0 (sets.len extra) ≡ false → (f : Text) → lawful.has extra f ≢ true
  extra-empty nothing f = ground (arith, lawful.len-zero extra (ground arith) f)

  unfoldable pub merged : List Text
  unfolding extra
  merged = sets.list (sets.insert cur (sets.unsorted_list extra))

  mem-merged :
      (f : Text) → Mem f merged ↔ ((lawful.has cur f ≡ true) ∨₁ (lawful.has extra f ≡ true))
  unfolding merged
  mem-merged f = (
    (λ i.
        Or.elim ∨₁_prop ((lawful.has-insert _ _ f).0 ((lawful.mem-list _ f).0 i)) (λ e. Or.inl e)
          (λ j. Or.inr ((lawful.mem-unsorted_list extra f).0 j))),
    (λ h. (lawful.mem-list _ f).1 (
        (lawful.has-insert _ _ f).1 (
          Or.elim ∨₁_prop h (λ e. Or.inl e)
            (λ e. Or.inr ((lawful.mem-unsorted_list extra f).1 e))))),
  )

  pub merged-old : (f : Text) → Mem f (split comma value) → Mem f merged
  unfolding cur
  merged-old f i = (mem-merged f).1 (Or.inl ((lawful.has-new _ f).1 i))

  pub merged-new : (f : Text) → Mem f features → Mem f merged
  merged-new f i = elim (old-or-extra f i) [
    | inl e ↦ (mem-merged f).1 (Or.inl e)
    | inr e ↦ (mem-merged f).1 (Or.inr e)
  ]

  extra-asked : (f : Text) → lawful.has extra f ≡ true → Mem f features
  unfolding extra
  extra-asked f e =
      (lawful.has-new features f).0
        (ground (arith, e, lawful.has-difference (sets.new features) cur f))

  merged-IsPlain : All (IsPlain comma) merged
  unfolding cur
  merged-IsPlain = All_of_mem (IsPlain comma) merged λ f i.
      Or.elim (IsPlain-prop f) ((mem-merged f).0 i)
        (λ e.
          mem_of_All (IsPlain comma) IsPlain-prop _ (split-IsPlain comma value) f
            ((lawful.has-new _ f).0 e))
        (λ e. mem_of_All (IsPlain comma) IsPlain-prop _ plain f (extra-asked f e))

  merged-ne-nil : merged ≢ []
  merged-ne-nil e =
      let (f, i) = member_of_ne-nil _ (split-ne-nil comma value) in
      absurd (not-mem-nil (rw e at (merged-old f i)))

  -- The claim lists just the merged features.
  pub split-merged : split comma (join_with comma merged) ≡ merged
  split-merged = split-join_with comma merged merged-ne-nil merged-IsPlain
