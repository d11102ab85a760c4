-- ===== src/Storage/Registry/Sound.antt =====
-- The registry over time: every sequence of calls keeps it sound.
use mathlib.Core.Logic.Or
use mathlib.Core.List.{not-mem-nil}
use license_proxyserver.Base.Dict
use license_proxyserver.Base.{
  str, inl, inr, arith, some, Option-cases, ◌>>=◌, Text, List, [], ◌∷◌, Mem, Option, none, Bool,
  ◌≡◌, ◌≢◌, refl, sym, subst, Run, done, Returns, returns, Returns-bind, Returns-map,
}
use license_proxyserver.Base.Int.{◌≤ℤ◌}
use license_proxyserver.Api.{License, Contract, Time}
use license_proxyserver.Clock.{Duration}
use license_proxyserver.Heap.Order.{IsStrictWeak}
use license_proxyserver.Storage.RecordBook.{RecordBook}
use license_proxyserver.Storage.Registry.{
  get, Record, LicenseRegistry, new_license_registry, add, license_for_feature,
}
use license_proxyserver.Storage.Registry.Queues.{queue}
use license_proxyserver.Storage.Registry.Invariant.{
  IsWf, IsCurrent, IsCurrent-later, IsCovered, is_live, new-IsWf,
}
use license_proxyserver.Storage.Registry.Adding.{Fits, Added, add-Added}
use license_proxyserver.Storage.Registry.Lapsing.{Lapsed}
use license_proxyserver.Storage.Registry.Serving.{Best, license_for_feature-Best}

-- What the program relies on of the licenses that the issuer signs: each has an expiry date, and
-- its ID, the serial number of the certificate, determines it.
pub record IsAuthority (Issued : License → Type 0) : Type 0 where
  pub prop : (l : License) → IsProp (Issued l)
  pub dated : (l : License) → Issued l → l.not_after ≢ none
  pub identified : (l m : License) → Issued l → Issued m → l.id ≡ m.id → l.not_after ≡ m.not_after

-- Every queued license was issued.
abbrev pub IsTrusted : (License → Type 0) → LicenseRegistry → Type 0
IsTrusted Issued r = (f : Text) (m : License) → Mem m (queue f r.reg) → Issued m

-- Every stored license is issued.
abbrev pub IsVouched : (License → Type 0) → LicenseRegistry → Type 0
IsVouched Issued r = (id : Text) (rec : Record) → get r id ≡ some rec → Issued rec.license

pub record IsSound (less : License → License → Bool) (Issued : License → Type 0) (now : Time)
    (r : LicenseRegistry) : Type 0 where
  pub wf : IsWf less r
  pub current : IsCurrent now r
  pub trusted : IsTrusted Issued r
  pub vouched : IsVouched Issued r

module _ (less : License → License → Bool) (Issued : License → Type 0) where
  pub new-IsSound :
      (now : Time) (cache_dir : Text) (ttl : Duration) (rb : Option RecordBook)
      → IsCovered rb []
      → IsSound less Issued now (new_license_registry cache_dir ttl rb)
  unfolding new_license_registry queue get Dict.lookup
  new-IsSound now cache_dir ttl rb c = record {
    wf = new-IsWf less cache_dir ttl rb c;
    current = λ f m i. absurd (not-mem-nil i);
    trusted = λ f m i. absurd (not-mem-nil i);
    vouched = λ id rec e. absurd (ground (arith, e));
  }

  pub IsSound-later :
      (now later : Time) (r : LicenseRegistry)
      → now ≤ℤ later
      → IsSound less Issued now r
      → IsSound less Issued later r
  IsSound-later now later r h s = record {
    wf = s.wf;
    current = IsCurrent-later now later r h s.current;
    trusted = s.trusted;
    vouched = s.vouched;
  }

  Added-IsVouched :
      (r r' : LicenseRegistry) (l : License) (c : Option Contract)
      → IsVouched Issued r
      → Issued l
      → Added less r l c r'
      → IsVouched Issued r'
  Added-IsVouched r r' l c vouched issued a id rec e = elim (Option-cases (get r id)) [
    | inr (old, there) ↦
        let same : old ≡ rec = ground (arith, a.found id, e, there) in
        subst (λ x. Issued x.license) same (vouched id old there)
    | inl missing ↦ elim (str l.id id) [
      | yes p ↦
          let same : l ≡ rec.license = ground (arith, a.found id, e, missing, p) in
          subst Issued same issued
      | no n ↦ absurd (ground (arith, a.found id, e, missing, n))
    ]
  ]

  module _ (order : IsStrictWeak less) (authority : IsAuthority Issued) (now : Time)
      (r : LicenseRegistry) (s : IsSound less Issued now r) where
    -- Add of an issued license succeeds.
    pub add-IsSound :
        (l : License) (c : Option Contract)
        → Issued l
        → Returns (λ r'. IsSound less Issued now r' × Added less r l c r') (add less r l c)
    add-IsSound l c issued =
        let fits : Fits r l = record {
          dated = authority.dated l issued;
          agrees = λ g m i e. authority.identified m l (s.trusted g m i) issued e;
        } in
        Returns-map (add-Added less order r l c s.wf fits) λ r' a. (
          record {
            wf = a.wf;
            current = a.current now s.current;
            trusted = λ f m i.
                Or.elim (authority.prop m) (a.only f m i) (s.trusted f m)
                  (λ n. subst Issued (sym n.0) issued);
            vouched = λ id rec e. Added-IsVouched r r' l c s.vouched issued a id rec e;
          },
          a,
        )

    pub license_for_feature-IsSound :
        (feature : Text)
        → Returns
            (λ res.
              IsSound less Issued now res.0
              × Lapsed less now r res.0
              × Best less (is_live now r.ttl) (queue feature r.reg) res.1)
            (license_for_feature less now r feature)
    license_for_feature-IsSound feature =
        Returns-map (license_for_feature-Best less order now feature r s.wf s.current)
          λ res (a, best). (
            record {
              wf = a.wf;
              current = a.current;
              trusted = λ f m i. s.trusted f m (a.shrinks f m i);
              vouched = λ id rec e. s.vouched id rec (a.drops id rec e);
            },
            a,
            best,
          )

-- A call of the registry, or the passing of time. Get and List change nothing.
pub data Call : Type 0 where
  adds : License → Option Contract → Call
  serves : Text → Call
  waits : Time → Call

unfoldable pub step :
    (License → License → Bool) → Call → Time × LicenseRegistry → Run (Time × LicenseRegistry)
step less (adds l c) (now, r) = add less r l c >>= λ r'. done (now, r')
step less (serves feature) (now, r) =
    license_for_feature less now r feature >>= λ (r', _). done (now, r')
step less (waits later) (now, r) = done (later, r)

unfoldable pub run :
    (License → License → Bool) → List Call → Time × LicenseRegistry → Run (Time × LicenseRegistry)
unfolding step
run less [] s = done s
run less (c ∷ cs) s = step less c s >>= run less cs

abbrev pub after : Call → Time → Time
after (adds l c) now = now
after (serves feature) now = now
after (waits later) now = later

-- A call adds an issued license only, and the clock does not run backwards.
abbrev pub Allowed : (License → Type 0) → Call → Time → Type 0
Allowed Issued (adds l c) now = Issued l
Allowed Issued (serves feature) now = Unit
Allowed Issued (waits later) now = now ≤ℤ later

abbrev pub Admissible : (License → Type 0) → List Call → Time → Type 0
Admissible Issued [] now = Unit
Admissible Issued (c ∷ cs) now = Allowed Issued c now × Admissible Issued cs (after c now)

module _ (less : License → License → Bool) (Issued : License → Type 0) (order : IsStrictWeak less)
    (authority : IsAuthority Issued) where
  step-IsSound :
      (c : Call) (now : Time) (r : LicenseRegistry)
      → Allowed Issued c now
      → IsSound less Issued now r
      → Returns (λ s. (s.0 ≡ after c now) × IsSound less Issued s.0 s.1) (step less c (now, r))
  unfolding step
  step-IsSound (adds l c) now r a s =
      Returns-bind (add-IsSound less Issued order authority now r s l c a)
        λ r' k. returns (refl, k.0)
  step-IsSound (serves feature) now r a s =
      Returns-bind (license_for_feature-IsSound less Issued order authority now r s feature)
        λ res k. returns (refl, k.0)
  step-IsSound (waits later) now r a s = returns (refl, IsSound-later less Issued now later r a s)

  -- If `less` is a strict weak order, and issued licenses have an expiry date that their ID
  -- determines, then every sequence of calls of Add with issued licenses, calls of
  -- LicenseForFeature, and moves of the clock forward, from a sound registry, ends without a panic
  -- in a sound registry: well formed, with every live queued license stored and every queued
  -- license issued.
  pub run-IsSound :
      (cs : List Call) (now : Time) (r : LicenseRegistry)
      → Admissible Issued cs now
      → IsSound less Issued now r
      → Returns (λ s. IsSound less Issued s.0 s.1) (run less cs (now, r))
  unfolding run
  run-IsSound [] now r a s = returns s
  run-IsSound (c ∷ cs) now r a s =
      Returns-bind (step-IsSound c now r a.0 s)
        λ (later, r') (e, s'). run-IsSound cs later r' (subst (Admissible Issued cs) (sym e) a.1) s'
