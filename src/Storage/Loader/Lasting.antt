-- ===== src/Storage/Loader/Lasting.antt =====
-- A license that outlives MinRemainingLife is stored.
use license_proxyserver.Base.{
  Text, Option, none, some, Bool, true, ◌≡◌, ◌≢◌, refl, arith, Returns, returns, Returns-bind,
  Returns-map, Returns-if, deref-Returns,
}
use license_proxyserver.Base.Int.{ltb_ℤ}
use license_proxyserver.Api.{License, Contract, Time}
use license_proxyserver.Clock.{until, min_remaining_life}
use license_proxyserver.Heap.Order.{IsStrictWeak}
use license_proxyserver.Storage.Registry.{LicenseRegistry, Record, get}
use license_proxyserver.Storage.Registry.Invariant.{is_live}
use license_proxyserver.Storage.Registry.Adding.{Added}
use license_proxyserver.Storage.Registry.Sound.{IsAuthority, IsSound, add-IsSound}
use license_proxyserver.Storage.Loader.{add_lasting}

module _ (less : License → License → Bool) (Issued : License → Type 0) (now : Time) where
  -- The registry is sound, and stores all that it stored.
  pub record Grown (r r' : LicenseRegistry) : Type 0 where
    pub sound : IsSound less Issued now r'
    pub keeps : (id : Text) (rec : Record) → get r id ≡ some rec → get r' id ≡ some rec
    pub ttl : r'.ttl ≡ r.ttl
    pub rb : r'.rb ≡ r.rb

  pub Grown-refl : (r : LicenseRegistry) → IsSound less Issued now r → Grown r r
  Grown-refl r s = record { sound = s; keeps = λ id rec e. e; ttl = refl; rb = refl }

  pub Grown-trans : {r r' r'' : LicenseRegistry} → Grown r r' → Grown r' r'' → Grown r r''
  Grown-trans a b = record {
    sound = b.sound;
    keeps = λ id rec e. b.keeps id rec (a.keeps id rec e);
    ttl = ground (arith, a.ttl, b.ttl);
    rb = ground (arith, a.rb, b.rb);
  }

  Added-Grown :
      (r r' : LicenseRegistry) (l : License) (c : Option Contract)
      → IsSound less Issued now r'
      → Added less r l c r'
      → Grown r r'
  Added-Grown r r' l c s a = record {
    sound = s;
    keeps = λ id rec e. ground (arith, a.found id);
    ttl = a.settings.0;
    rb = a.settings.1;
  }

  -- the license has MinRemainingLife or more left
  abbrev pub lasts : License → Bool
  lasts = is_live now min_remaining_life

  pub add_lasting-Grown :
      (order : IsStrictWeak less) (authority : IsAuthority Issued) (r : LicenseRegistry)
      (l : License)
      → IsSound less Issued now r
      → Issued l
      → Returns
          (λ r'. Grown r r' × (lasts l ≡ true → get r' l.id ≢ none))
          (add_lasting less now r l)
  unfolding add_lasting is_live
  add_lasting-Grown order authority r l s issued =
      Returns-bind (deref-Returns l.not_after (authority.dated l issued)) λ t e.
        Returns-if (ltb_ℤ (until now t) min_remaining_life)
          (λ short. returns (Grown-refl r s, λ h. absurd (ground (arith, e, short))))
          (λ enough.
            Returns-map (add-IsSound less Issued order authority now r s l none issued)
              λ r' (s', a). (Added-Grown r r' l none s' a, λ h. ground (arith, a.found l.id)))
