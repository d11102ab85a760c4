-- ===== src/Storage/Registry/Ending.antt =====
-- The loop of LicenseRegistry.LicenseForFeature comes to its end, whatever fuel beyond the length of
-- the queue it is given.
use license_proxyserver.Base.{
  ℕ, zero, suc, ◌+◌, ◌<◌, ◌≤◌, Text, str, List, [], ◌∷◌, Option, none, some, Bool, true, false,
  if◌then◌else◌, ◌≡◌, refl, sym, ◌∙◌, arith, Run, done, panic, out_of_fuel, ◌>>=◌, deref, Returns,
  length,
}
use license_proxyserver.Base.Dict
use license_proxyserver.Base.Int.{ltb_ℤ}
use license_proxyserver.Api.{License, Time}
use license_proxyserver.Clock.{until}
use license_proxyserver.Heap
use license_proxyserver.Heap.Order.{IsStrictWeak}
use license_proxyserver.Storage.Registry.{
  LicenseRegistry, remove_from_store, serve, license_for_feature,
}
use license_proxyserver.Storage.Registry.Invariant.{IsWf, IsCurrent}
use license_proxyserver.Storage.Registry.Serving.{license_for_feature-Best}

module _ (less : License → License → Bool) (now : Time) (feature : Text) where
  -- a call with some fuel, and with more of it
  module _ (fuel more : ℕ) (res : LicenseRegistry × Option License)
      (agree : (q : List License) (r : LicenseRegistry)
        → serve less fuel now feature q r ≡ done res
        → serve less more now feature q r ≡ done res)
      (item : License) (r : LicenseRegistry) where
    abbrev rest_of : ℕ → Run (License × List License) → Run (LicenseRegistry × Option License)
    rest_of fuel popped = popped >>= λ (_, q).
        serve less fuel now feature q
          (remove_from_store item (record r { reg = Dict.insert str feature q r.reg }))

    drop-more :
        (short : Bool) (popped : Run (License × List License))
        → (if short then rest_of fuel popped else done (r, some item)) ≡ done res
        → (if short then rest_of more popped else done (r, some item)) ≡ done res
    drop-more false popped e = e
    drop-more true (done (x, q)) e = agree q _ e
    drop-more true panic e = absurd (cc)
    drop-more true out_of_fuel e = absurd (cc)

    round-more :
        (o : Option Time) (popped : Run (License × List License))
        → (deref o >>= λ t.
            if ltb_ℤ (until now t) r.ttl then rest_of fuel popped else done (r, some item))
          ≡ done res
        → (deref o >>= λ t.
            if ltb_ℤ (until now t) r.ttl then rest_of more popped else done (r, some item))
          ≡ done res
    round-more none popped e = absurd (cc)
    round-more (some t) popped e = drop-more (ltb_ℤ (until now t) r.ttl) popped e

  serve-more :
      (fuel more : ℕ) (res : LicenseRegistry × Option License)
      → fuel ≤ more
      → (q : List License) (r : LicenseRegistry) → serve less fuel now feature q r ≡ done res
      → serve less more now feature q r ≡ done res
  unfolding serve
  serve-more zero more res le q r e = absurd (cc)
  serve-more (suc fuel) zero res le q r e = absurd (omega (arith, le))
  serve-more (suc fuel) (suc more) res le [] r e = e
  serve-more (suc fuel) (suc more) res le (item ∷ rest) r e =
      round-more fuel more res (serve-more fuel more res (omega (arith, le))) item r item.not_after
        (Heap.pop less (item ∷ rest)) e

  module _ (order : IsStrictWeak less) where
    served :
        (r : LicenseRegistry) (q : List License)
        → Dict.lookup str feature r.reg ≡ some q
        → license_for_feature less now r feature ≡ serve less (length q + 1) now feature q r
    unfolding license_for_feature
    served r q there = rw (there, license_for_feature) refl

    -- If `less` is a strict weak order, the registry is well formed with every live queued license
    -- stored, and the feature has a queue, then LicenseForFeature ends without a panic, and its
    -- loop gives the same result with any fuel beyond the length of the queue.
    pub serve-ends :
        (r : LicenseRegistry) (q : List License) (fuel : ℕ)
        → IsWf less r
        → IsCurrent now r
        → Dict.lookup str feature r.reg ≡ some q
        → length q < fuel
        → Returns
            (λ res. serve less fuel now feature q r ≡ done res)
            (license_for_feature less now r feature)
    serve-ends r q fuel wf current there enough =
        let run = license_for_feature-Best less order now feature r wf current in
        record {
          value = run.value;
          ends = run.ends;
          holds =
              serve-more (length q + 1) fuel run.value (omega (arith, enough)) q r
                (sym (served r q there) ∙ run.ends);
        }
