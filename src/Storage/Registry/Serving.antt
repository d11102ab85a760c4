-- ===== src/Storage/Registry/Serving.antt =====
-- LicenseRegistry.LicenseForFeature serves the best license that is live.
use license_proxyserver.Storage.Registry.Lapsing.{Lapsed, Lapsed-refl, Lapsed-trans, dropped-Lapsed}
use mathlib.Core.Bool.{Bool-set}
use mathlib.Core.List.{mem-cons_self, not-mem-nil}
use mathlib.Core.Logic.Or
use license_proxyserver.Base.{
  get_elem?_zero, mem_front, deref-Returns, Returns-if, length-perm, Returns-if, ℕ, zero, suc, ◌+◌,
  ◌<◌, Text, str, List, [], ◌∷◌, Mem, none, some, Option, Bool, true, false, ◌≡◌, refl, subst,
  arith, Returns, returns, Returns-map, Returns-bind, inl, inr, Option-cases, length, get_elem?,
}
use license_proxyserver.Base.Dict
use license_proxyserver.Base.Int.{ltb_ℤ}
use license_proxyserver.Api.{License, Time}
use license_proxyserver.Clock.{Duration, until}
use license_proxyserver.Heap.Order.{root_least, IsStrictWeak}
use license_proxyserver.Heap.Correct.{Popped, pop_correct}
use license_proxyserver.Storage.Registry.{
  LicenseRegistry, remove_from_store, serve, license_for_feature,
}
use license_proxyserver.Storage.Registry.Queues.{queue, queue-insert_self}
use license_proxyserver.Storage.Registry.Invariant.{IsWf, IsCurrent, is_live}

-- The registry and the result of a call for `feature`: the front of the queue that is left.
record Served (less : License → License → Bool) (now : Time) (feature : Text) (r : LicenseRegistry)
    (res : LicenseRegistry × Option License) : Type 0 where
  lapsed : Lapsed less now r res.0
  front : get_elem? (queue feature res.0.reg) 0 ≡ res.1
  live : (l : License) → res.1 ≡ some l → is_live now r.ttl l ≡ true

is_live-short :
    (now : Time) (ttl : Duration) (l : License) (t : Time)
    → l.not_after ≡ some t
    → ltb_ℤ (until now t) ttl ≡ true
    → is_live now ttl l ≡ false
unfolding is_live
is_live-short now ttl l t e h = ground arith

is_live-enough :
    (now : Time) (ttl : Duration) (l : License) (t : Time)
    → l.not_after ≡ some t
    → ltb_ℤ (until now t) ttl ≡ false
    → is_live now ttl l ≡ true
unfolding is_live
is_live-enough now ttl l t e h = ground arith

-- The best choice from a queue: no license if none is live, and otherwise a live one that no live
-- one comes before.
abbrev pub Best :
    (License → License → Bool) → (License → Bool) → List License → Option License → Type 0
Best less live q none = (m : License) → Mem m q → live m ≡ false
Best less live q (some l) =
    Mem l q × (live l ≡ true) × ((m : License) → Mem m q → live m ≡ true → less m l ≡ false)

module _ (less : License → License → Bool) (order : IsStrictWeak less) (now : Time)
    (feature : Text) where
  Served-later :
      {r r' : LicenseRegistry} {res : LicenseRegistry × Option License}
      → Lapsed less now r r'
      → Served less now feature r' res
      → Served less now feature r res
  Served-later {res = res} a s = record {
    lapsed = Lapsed-trans less now a s.lapsed;
    front = s.front;
    live = λ l e. subst (λ d. is_live now d l ≡ true) a.ttl (s.live l e);
  }

  queue-dropped :
      (r : LicenseRegistry) (item : License) (q : List License)
      → queue feature
          (remove_from_store item (record r { reg = Dict.insert str feature q r.reg })).reg
        ≡ q
  unfolding remove_from_store
  queue-dropped r item q = queue-insert_self feature q r.reg

  serve-Served :
      (fuel : ℕ) (r : LicenseRegistry) (q : List License)
      → length q < fuel
      → queue feature r.reg ≡ q
      → IsWf less r
      → IsCurrent now r
      → Returns (Served less now feature r) (serve less fuel now feature q r)
  unfolding serve
  serve-Served zero r q f at wf current = absurd (omega arith)
  serve-Served (suc fuel) r [] f at wf current =
      returns (record {
        lapsed = Lapsed-refl less now r wf current;
        front = rw at refl;
        live = λ l e. cc;
      })
  serve-Served (suc fuel) r (item ∷ rest) f at wf current =
      let here : Mem item (queue feature r.reg) = rw at mem-cons_self in
      Returns-bind (deref-Returns item.not_after (wf.dated feature item here)) λ t e.
        Returns-if (ltb_ℤ (until now t) r.ttl)
          (λ short.
            Returns-bind
              (pop_correct less order (item ∷ rest) (rw at at (wf.heaps feature)) (omega arith))
              λ (x, q) popped.
                let same : x ≡ item = ground (arith, popped.0) in
                let popped' : Popped less order (item ∷ rest) (item, q) = rw same at popped in
                let smaller = length-perm popped'.2 in
                let lapsed =
                  dropped-Lapsed less order now r feature item rest q wf current at popped'
                    (is_live-short now r.ttl item t e short) in
                Returns-map
                  (serve-Served fuel _ q (omega arith) (queue-dropped r item q) lapsed.wf
                    lapsed.current)
                  λ res s. Served-later lapsed s)
          (λ enough. returns (record {
            lapsed = Lapsed-refl less now r wf current;
            front = rw at refl;
            live = λ l s.
                let same : item ≡ l = ground arith in
                rw (← same) (is_live-enough now r.ttl item t e enough);
          }))

  -- the front of the queue that is left is the best choice from the queue as it was
  Served-Best :
      (r : LicenseRegistry) (res : LicenseRegistry × Option License)
      → Served less now feature r res
      → Best less (is_live now r.ttl) (queue feature r.reg) res.1
  Served-Best r (r', none) s = λ m i.
      Or.elim (Bool-set _ _) (s.lapsed.loses feature m i)
        (λ k. absurd (not-mem-nil (rw (get_elem?_zero _ s.front) at k))) (λ e. e)
  Served-Best r (r', some l) s = (
    s.lapsed.shrinks feature l (mem_front _ l s.front),
    s.live l refl,
    λ m i live.
        Or.elim (Bool-set _ _) (s.lapsed.loses feature m i)
          (λ k. root_least less order _ l m (s.lapsed.wf.heaps feature) s.front k) (λ e. cc),
  )

  -- If `less` is a strict weak order and the registry is well formed, with every queued license
  -- that is live stored, then LicenseForFeature ends without a panic. It returns no license if no
  -- license of the feature's queue is live (has `ttl` or more left), and otherwise a live license
  -- of that queue that no other live one of it comes before. The registry that it leaves is again
  -- well formed, with every live queued license stored; no queue has gained a license or lost a
  -- live one, and the record of a live license that has a feature is still stored.
  pub license_for_feature-Best :
      (r : LicenseRegistry)
      → IsWf less r
      → IsCurrent now r
      → Returns
          (λ res.
            Lapsed less now r res.0 × Best less (is_live now r.ttl) (queue feature r.reg) res.1)
          (license_for_feature less now r feature)
  unfolding license_for_feature queue
  license_for_feature-Best r wf current = elim (Option-cases (Dict.lookup str feature r.reg)) [
    | inl e ↦
        rw (e, license_for_feature)
          (returns
            (Lapsed-refl less now r wf current, λ m i. absurd (not-mem-nil (rw (e, queue) at i))))
    | inr (q, e) ↦
        rw (e, license_for_feature)
          (Returns-map
            (serve-Served (length q + 1) r q (omega arith) (rw (e, queue) refl) wf current)
            λ res s. (s.lapsed, Served-Best r res s))
  ]
