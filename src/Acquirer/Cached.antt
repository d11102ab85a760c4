-- ===== src/Acquirer/Cached.antt =====
-- The cache of registries, and the errors of an aggregate.
use mathlib.Core.Logic.Or
use mathlib.Core.List.{mem-cons, mem-cons_self, mem-cons_of_mem, not-mem-nil, Mem-prop}
use license_proxyserver.Base.{
  Text, str, List, [], ◌∷◌, Mem, Option, none, some, Bool, ◌≡◌, inl, inr, subst, arith,
  Option-cases, Result, ok, err, Error,
}
use license_proxyserver.Base.Dict
use license_proxyserver.Api.{License, Time}
use license_proxyserver.Storage.Registry.{LicenseRegistry, join}
use license_proxyserver.Storage.Registry.Sound.{IsSound, new-IsSound}
use license_proxyserver.Acquirer.{ttl, Host, LicenseAcquirer, get_license_registry}
use license_proxyserver.Acquirer.Loop.{new_aggregate}

new_aggregate-mem :
    (errs : List (Option Error)) (e : Error) → Mem (some e) errs → Mem e (new_aggregate errs)
unfolding new_aggregate
new_aggregate-mem [] e i = absurd (not-mem-nil i)
new_aggregate-mem (none ∷ errs) e i =
    Or.elim Mem-prop (mem-cons.0 i) (λ q. absurd (cc)) (new_aggregate-mem errs e)
new_aggregate-mem (some x ∷ errs) e i =
    Or.elim Mem-prop (mem-cons.0 i) (λ q. let same : e ≡ x = ground arith in rw same mem-cons_self)
      (λ j. mem-cons_of_mem x (new_aggregate-mem errs e j))

pub no_error :
    (errs : List (Option Error)) (e : Error) → new_aggregate errs ≡ [] → Mem (some e) errs → ⊥
no_error errs e h i = not-mem-nil (subst (Mem e) h (new_aggregate-mem errs e i))

-- Every registry of the cache is sound.
abbrev pub CacheSound :
    (License → License → Bool) → (License → Type 0) → Time → LicenseAcquirer → Type 0
CacheSound less Issued now r =
    (cid : Text) (reg : LicenseRegistry)
    → Dict.lookup str cid r.license_cache ≡ some reg
    → IsSound less Issued now reg

module _ (less : License → License → Bool) (Issued : License → Type 0) (now : Time) (host : Host)
    (cid : Text) where
  pub insert-CacheSound :
      (r : LicenseAcquirer) (reg : LicenseRegistry)
      → CacheSound less Issued now r
      → IsSound less Issued now reg
      → CacheSound less Issued now
          (record r { license_cache = Dict.insert str cid reg r.license_cache })
  insert-CacheSound r reg c s id x e = elim (str cid id) [
    | yes p ↦
        let same : reg ≡ x = ground (arith, Dict.lookup-insert str cid id reg r.license_cache) in
        subst (IsSound less Issued now) same s
    | no n ↦ c id x (ground (arith, Dict.lookup-insert str cid id reg r.license_cache))
  ]

  abbrev pub IsReady : LicenseAcquirer × Result LicenseRegistry → Type 0
  IsReady (r, ok reg) = CacheSound less Issued now r × IsSound less Issued now reg
  IsReady (r, err e) = CacheSound less Issued now r

  pub get_license_registry-IsReady :
      (r : LicenseAcquirer)
      → CacheSound less Issued now r
      → IsReady (get_license_registry host cid r)
  unfolding get_license_registry
  get_license_registry-IsReady r c = elim (Option-cases (Dict.lookup str cid r.license_cache)) [
    | inr (reg, e) ↦ rw (e, get_license_registry) (c, c cid reg e)
    | inl e ↦ elim (Option-cases (host.mkdir_all (join r.cache_dir cid))) [
      | inr (failed, q) ↦ rw (e, get_license_registry, q) c
      | inl q ↦
          let s = new-IsSound less Issued now (join r.cache_dir cid) ttl none tt in
          rw (e, get_license_registry, q) (insert-CacheSound r _ c s, s)
    ]
  ]
