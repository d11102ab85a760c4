-- ===== src/Storage/Registry/Listing.antt =====
-- LicenseRegistry.List, in the order of `less`.
use mathlib.Core.List.Perm
use mathlib.Core.Logic.Or
use mathlib.Core.List.{mem-cons, mem-cons_self, mem-cons_of_mem, not-mem-nil}
use mathlib.Core.HLevel.{×_prop}
use mathlib.Core.Bool.{Bool-set}
use license_proxyserver.Base.{
  subst, ◌⊎◌, Text, str, List, [], ◌∷◌, Mem, Perm, Option, none, some, Bool, true, false, ◌≡◌, ◌≢◌,
  ◌↔◌, sym, ap, arith, if◌then◌else◌, Bool-cases, inl, inr, Returns, returns, Returns-bind,
  deref-Returns,
}
use license_proxyserver.Base.Dict
use license_proxyserver.Base.Int.{ltb_ℤ, ◌+ℤ◌}
use license_proxyserver.Api.{License, Time}
use license_proxyserver.Heap.Order.{IsStrictWeak}
use license_proxyserver.Storage.Registry.{
  Record, LicenseRegistry, unexpired, insert_record, sort_records, list, get,
}
use license_proxyserver.Storage.Registry.Invariant.{IsWf}

-- the license ends after `limit`
abbrev ends_after : Time → Option Time → Bool
ends_after limit none = false
ends_after limit (some t) = ltb_ℤ limit t

abbrev pub outlives : Time → Record → Bool
outlives limit rec = ends_after limit rec.license.not_after

record_set : IsSet (Option Record)
record_set = hlevel

-- `rec` stands in the map, under the ID of its license, and outlives `limit`.
abbrev Shown : Time → List (Text × Record) → Record → Type 0
Shown limit store rec =
    (Dict.lookup str rec.license.id store ≡ some rec) × (outlives limit rec ≡ true)

Shown-prop :
    (limit : Time) (store : List (Text × Record)) (rec : Record) → IsProp (Shown limit store rec)
Shown-prop limit store rec = ×_prop (record_set _ _) (Bool-set _ _)

abbrev Entries : List (Text × Record) → Type 0
Entries store =
    (id : Text) (rec : Record)
    → Dict.lookup str id store ≡ some rec
    → (rec.license.id ≡ id) × (rec.license.not_after ≢ none)

Entries-tail :
    (k : Text) (v : Record) (store : List (Text × Record))
    → Dict.IsDistinct str ((k, v) ∷ store)
    → Entries ((k, v) ∷ store)
    → Entries store
unfolding Dict.lookup
Entries-tail k v store d h id rec e = ground (arith, h id rec)

module _ (limit : Time) (k : Text) (v : Record) (store : List (Text × Record))
    (d : Dict.IsDistinct str ((k, v) ∷ store)) (h : Entries ((k, v) ∷ store)) where
  Shown-head : outlives limit v ≡ true → Shown limit ((k, v) ∷ store) v
  unfolding Dict.lookup
  Shown-head e = ground (arith, h k v)

  Shown-tail : (rec : Record) → Shown limit store rec → Shown limit ((k, v) ∷ store) rec
  unfolding Dict.lookup
  Shown-tail rec s = ground (arith, h k v)

  -- an entry of the longer map is its head, or one of the rest
  Shown-inv : (rec : Record) → Shown limit ((k, v) ∷ store) rec → (rec ≡ v) ⊎ Shown limit store rec
  unfolding Dict.lookup
  Shown-inv rec s = elim (str k rec.license.id) [
    | yes p ↦ inl (ground arith)
    | no p ↦ inr (ground arith)
  ]

  Shown-step :
      (b : Bool) (out : List Record)
      → outlives limit v ≡ b
      → ((rec : Record) → Mem rec out ↔ Shown limit store rec)
      → (rec : Record) → Mem rec (if b then v ∷ out else out) ↔ Shown limit ((k, v) ∷ store) rec
  Shown-step true out e ih rec = (
    (λ i.
        Or.elim (Shown-prop limit ((k, v) ∷ store) rec) (mem-cons.0 i)
          (λ p. subst (Shown limit ((k, v) ∷ store)) (sym p) (Shown-head e))
          (λ m. Shown-tail rec ((ih rec).0 m))),
    (λ s. elim (Shown-inv rec s) [
      | inl p ↦ rw p mem-cons_self
      | inr s' ↦ mem-cons_of_mem v ((ih rec).1 s')
    ]),
  )
  Shown-step false out e ih rec = (
    (λ i. Shown-tail rec ((ih rec).0 i)),
    (λ s. elim (Shown-inv rec s) [ inl p ↦ absurd (not-shown p s) | inr s' ↦ (ih rec).1 s' ]),
  )
    where
      not-shown : rec ≡ v → Shown limit ((k, v) ∷ store) rec → ⊥
      not-shown p s = let q = ap (outlives limit) p in cc (s.1)

not-Shown-nil : (limit : Time) (rec : Record) → Shown limit [] rec → ⊥
unfolding Dict.lookup
not-Shown-nil limit rec s = cc (s.0)

Entries-dated :
    (k : Text) (v : Record) (store : List (Text × Record))
    → Entries ((k, v) ∷ store)
    → v.license.not_after ≢ none
unfolding Dict.lookup
Entries-dated k v store h = ground (arith, h k v)

unexpired_exact :
    (limit : Time) (store : List (Text × Record))
    → Dict.IsDistinct str store
    → Entries store
    → Returns (λ out. (rec : Record) → Mem rec out ↔ Shown limit store rec) (unexpired limit store)
unfolding unexpired
unexpired_exact limit [] d h =
    returns (λ rec. (λ i. absurd (not-mem-nil i), λ s. absurd (not-Shown-nil limit rec s)))
unexpired_exact limit ((k, v) ∷ store) d h =
    Returns-bind (deref-Returns v.license.not_after (Entries-dated k v store h)) λ t e.
      Returns-bind (unexpired_exact limit store d.1 (Entries-tail k v store d h)) λ out ih.
        returns (Shown-step limit k v store d h (ltb_ℤ limit t) out (ap (ends_after limit) e) ih)

module _ (less : License → License → Bool) where
  -- no record comes before an earlier one
  abbrev pub IsSorted : List Record → Type 0
  IsSorted [] = Unit
  IsSorted (rec ∷ out) =
      ((next : Record) → Mem next out → less next.license rec.license ≡ false) × IsSorted out

  insert_record-perm :
      (rec : Record) (out : List Record) → Perm (insert_record less rec out) (rec ∷ out)
  unfolding insert_record
  insert_record-perm rec [] = Perm.rfl
  insert_record-perm rec (next ∷ out) = elim (Bool-cases (less next.license rec.license)) [
    | inl e ↦
        rw e (Perm.trans (Perm.cons next (insert_record-perm rec out)) (Perm.swap rec next out))
    | inr e ↦ rw e Perm.rfl
  ]

  sort_records-perm : (out : List Record) → Perm (sort_records less out) out
  unfolding sort_records
  sort_records-perm [] = Perm.rfl
  sort_records-perm (rec ∷ out) =
      Perm.trans (insert_record-perm rec _) (Perm.cons rec (sort_records-perm out))

  module _ (order : IsStrictWeak less) where
    insert_record-IsSorted :
        (rec : Record) (out : List Record) → IsSorted out → IsSorted (insert_record less rec out)
    unfolding insert_record
    insert_record-IsSorted rec [] s = (λ next i. absurd (not-mem-nil i), tt)
    insert_record-IsSorted rec (next ∷ out) s = elim (Bool-cases (less next.license rec.license)) [
      | inl e ↦ rw e (
        (λ x i.
            Or.elim (Bool-set _ _) (mem-cons.0 ((Perm.mem_iff (insert_record-perm rec out)).0 i))
              (λ p. rw p (order.asym _ _ e)) (s.0 x)),
        insert_record-IsSorted rec out s.1,
      )
      | inr e ↦ rw e (
        (λ x i.
            Or.elim (Bool-set _ _) (mem-cons.0 i) (λ p. rw p e)
              (λ k. order.weak _ _ _ e (s.0 x k))),
        s,
      )
    ]

    sort_records-IsSorted : (out : List Record) → IsSorted (sort_records less out)
    unfolding sort_records
    sort_records-IsSorted [] = tt
    sort_records-IsSorted (rec ∷ out) = insert_record-IsSorted rec _ (sort_records-IsSorted out)

    -- If `less` is a strict weak order and the registry is well formed, List ends without a panic,
    -- and its result is in the order of `less` and has exactly the records that are stored under
    -- the ID of their license and whose license ends after `ttl` from now.
    pub list_exact :
        (now : Time) (r : LicenseRegistry)
        → IsWf less r
        → Returns
            (λ out.
              IsSorted out
              × ((rec : Record)
                  → Mem rec out
                    ↔ ((get r rec.license.id ≡ some rec) × (outlives (now +ℤ r.ttl) rec ≡ true))))
            (list less now r)
    unfolding list get
    list_exact now r wf =
        Returns-bind
          (unexpired_exact (now +ℤ r.ttl) r.store wf.distinct
            λ id rec e. (wf.keyed id rec e, wf.stored_dated id rec e))
          λ out exact. returns (
            sort_records-IsSorted out,
            λ rec.
                let same = Perm.mem_iff (sort_records-perm out) in
                ((λ i. (exact rec).0 (same.0 i)), (λ s. same.1 ((exact rec).1 s))),
          )
