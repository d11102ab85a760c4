-- ===== src/Storage/Registry/Offered.antt =====
-- List and LicenseForFeature read two maps of the registry, and agree.

use license_proxyserver.Base.{
  ℕ, ◌≤◌, Text, Mem, Option, none, some, Bool, true, false, ◌≡◌, refl, sym, subst, arith, Returns,
  Returns-map, Option-cases, inl, inr,
}
use license_proxyserver.Base.Int.{pos, ◌+ℤ◌}
use license_proxyserver.Api.{License, Time}
use license_proxyserver.Clock.{max_duration, until_lt}
use license_proxyserver.Heap.Order.{IsStrictWeak}
use license_proxyserver.Storage.Registry.{Record, LicenseRegistry, get, license_for_feature}
use license_proxyserver.Storage.Registry.Queues.{queue}
use license_proxyserver.Storage.Registry.Invariant.{IsWf, IsCurrent, is_live}
use license_proxyserver.Storage.Registry.Listing.{outlives}
use license_proxyserver.Storage.Registry.Serving.{Best, license_for_feature-Best}

-- a license that List shows is live
pub outlives-is_live :
    (now : Time) (n : ℕ) (rec : Record)
    → n ≤ max_duration
    → outlives (now +ℤ pos n) rec ≡ true
    → is_live now (pos n) rec.license ≡ true
unfolding is_live
outlives-is_live now n rec h e = elim (Option-cases rec.license.not_after) [
  | inl gone ↦ ground (arith, gone)
  | inr (t, at) ↦ ground (arith, until_lt now t n h, at)
]

-- The license is no worse than `l`.
pub record Offers (less : License → License → Bool) (feature : Text) (m : License)
    (res : LicenseRegistry × Option License) : Type 0 where
  pub license : License
  pub given : res.1 ≡ some license
  pub tagged : Mem feature license.features
  pub no_worse : less m license ≡ false

module _ (less : License → License → Bool) (order : IsStrictWeak less) (now : Time)
    (r : LicenseRegistry) (wf : IsWf less r) (current : IsCurrent now r) where
  Best-Offers :
      (feature : Text) (m : License) (res : LicenseRegistry × Option License)
      → Mem m (queue feature r.reg)
      → is_live now r.ttl m ≡ true
      → Best less (is_live now r.ttl) (queue feature r.reg) res.1
      → Offers less feature m res
  Best-Offers feature m (r', none) i live best = absurd (cc (best m i))
  Best-Offers feature m (r', some l) i live best = record {
    license = l;
    given = refl;
    tagged = wf.tagged feature l best.0;
    no_worse = best.2 m i live;
  }

  -- If `less` is a strict weak order, the registry is well formed with every live queued license
  -- stored, and its `ttl` is a duration that is not negative, then for each feature of a stored
  -- license that ends after `ttl` from now, as List demands, LicenseForFeature ends without a
  -- panic and returns a license that has the feature and that the stored one does not come before.
  pub license_for_feature-Offers :
      (n : ℕ) (rec : Record) (feature : Text)
      → r.ttl ≡ pos n
      → n ≤ max_duration
      → get r rec.license.id ≡ some rec
      → outlives (now +ℤ r.ttl) rec ≡ true
      → Mem feature rec.license.features
      → Returns (Offers less feature rec.license) (license_for_feature less now r feature)
  unfolding get
  license_for_feature-Offers n rec feature ttl h there out i =
      let live : is_live now r.ttl rec.license ≡ true =
        subst (λ d. outlives (now +ℤ d) rec ≡ true → is_live now d rec.license ≡ true) (sym ttl)
          (outlives-is_live now n rec h) out in
      Returns-map (license_for_feature-Best less order now feature r wf current) λ res k.
        Best-Offers feature rec.license res (wf.indexed rec.license.id rec feature there i) live k.1
