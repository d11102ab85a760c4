-- ===== src/Request/Finding.antt =====
-- getLicense: the search of the registry, and the license server behind it.
use mathlib.Core.Bool.{Bool-set}
use mathlib.Core.HLevel.{¬_prop}
use mathlib.Core.Logic.Or
use mathlib.Core.List.{not-mem-nil, mem-cons, mem-cons_self, mem-cons_of_mem}
use license_proxyserver.Base.{
  inl, inr, Option-cases, Result-cases, Text, List, [], ◌∷◌, Mem, Option, none, some, Bool, true,
  false, ◌≡◌, ◌≢◌, sym, subst, done, Returns, returns, Returns-bind, deref-Returns, Returns-map,
  Result, ok, err, arith,
}
use license_proxyserver.Api.{License, Contract, Time}
use license_proxyserver.Heap.Order.{IsStrictWeak}
use license_proxyserver.Storage.Registry.{LicenseRegistry, get}
use license_proxyserver.Storage.Registry.Queues.{queue}
use license_proxyserver.Storage.Registry.Invariant.{is_live}
use license_proxyserver.Storage.Registry.Adding.{Added}
use license_proxyserver.Storage.Registry.Lapsing.{Lapsed, Lapsed-refl, Lapsed-trans}
use license_proxyserver.Storage.Registry.Serving.{Best}
use license_proxyserver.Storage.Registry.Sound.{
  IsAuthority, IsSound, add-IsSound, license_for_feature-IsSound,
}
use license_proxyserver.Verifier.{Verifier, LicenseClient}
use license_proxyserver.Request.{Storage, find_license, acquire, get_license}

-- The parser accepts issued licenses only.
abbrev pub Signs : {Certificate : Type 0} → Verifier Certificate → (License → Type 0) → Type 0
Signs {Certificate} v Issued =
    (cid : Text) (cert : Certificate) (lbytes : Text) (l : License)
    → v.parse_license cid cert lbytes ≡ ok l
    → Issued l

-- A license that getLicense returns is stored.
abbrev pub IsStored : LicenseRegistry → Result (Option License) → Type 0
IsStored reg (ok (some l)) = get reg l.id ≢ none
IsStored reg (ok none) = Unit
IsStored reg (err e) = Unit

module _ (less : License → License → Bool) (Issued : License → Type 0) (order : IsStrictWeak less)
    (authority : IsAuthority Issued) (now : Time) where
  -- The search through the queues of `features`: a live license, which is stored, or none if there
  -- is no live one in any of them.
  pub record Found (features : List Text) (r : LicenseRegistry)
      (res : LicenseRegistry × Option License) : Type 0 where
    pub sound : IsSound less Issued now res.0
    pub lapsed : Lapsed less now r res.0
    pub chosen :
        (l : License) → res.1 ≡ some l → (is_live now r.ttl l ≡ true) × (get res.0 l.id ≢ none)
    -- for one of the features
    pub useful : (l : License) → res.1 ≡ some l → (f : Text) × Mem f features × Mem f l.features
    pub issued : (l : License) → res.1 ≡ some l → Issued l
    pub missed :
        res.1 ≡ none
        → (f : Text) (m : License) → Mem f features
        → Mem m (queue f r.reg)
        → is_live now r.ttl m ≡ false

  Best-chosen :
      (feature : Text) (r r' : LicenseRegistry) (l : License)
      → IsSound less Issued now r'
      → Lapsed less now r r'
      → Best less (is_live now r.ttl) (queue feature r.reg) (some l)
      → (is_live now r.ttl l ≡ true) × (get r' l.id ≢ none)
  unfolding get
  Best-chosen feature r r' l s a best = (
    best.1,
    Or.elim ¬_prop (a.loses feature l best.0)
        (λ i. s.current feature l i (subst (λ d. is_live now d l ≡ true) (sym a.ttl) best.1))
        (λ dead. cc),
  )

  Found-later :
      (feature : Text) (features : List Text) (r r' : LicenseRegistry)
      (res : LicenseRegistry × Option License)
      → Lapsed less now r r'
      → Best less (is_live now r.ttl) (queue feature r.reg) none
      → Found features r' res
      → Found (feature ∷ features) r res
  Found-later feature features r r' res a best f = record {
    sound = f.sound;
    lapsed = Lapsed-trans less now a f.lapsed;
    chosen =
        λ l e. subst (λ d. (is_live now d l ≡ true) × (get res.0 l.id ≢ none)) a.ttl (f.chosen l e);
    useful = λ l e. let (g, i, j) = f.useful l e in (g, mem-cons_of_mem feature i, j);
    issued = f.issued;
    missed = λ e g m i k.
        Or.elim (Bool-set _ _) (mem-cons.0 i) (λ p. best m (subst (λ g. Mem m (queue g r.reg)) p k))
          (λ j.
            Or.elim (Bool-set _ _) (a.loses g m k)
              (λ k'. subst (λ d. is_live now d m ≡ false) a.ttl (f.missed e g m j k'))
              (λ dead. dead));
  }

  find_step :
      (feature : Text) (features : List Text) (r : LicenseRegistry)
      (res : LicenseRegistry × Option License)
      → ((r' : LicenseRegistry)
          → IsSound less Issued now r'
          → Returns (Found features r') (find_license less now features r'))
      → IsSound less Issued now r
      → IsSound less Issued now res.0
      → Lapsed less now r res.0
      → Best less (is_live now r.ttl) (queue feature r.reg) res.1
      → Returns (Found (feature ∷ features) r) (elim res.1 [
        | some found ↦ done (res.0, some found)
        | none ↦ find_license less now features res.0
      ])
  find_step feature features r (r', some l) ih s s' a best = returns (record {
    sound = s';
    lapsed = a;
    chosen = λ m e.
        let same : l ≡ m = ground arith in
        subst (λ m. (is_live now r.ttl m ≡ true) × (get r' m.id ≢ none)) same
          (Best-chosen feature r r' l s' a best);
    useful = λ m e.
        let same : l ≡ m = ground arith in
        subst (λ m. (f : Text) × Mem f (feature ∷ features) × Mem f m.features) same
          (feature, mem-cons_self, s.wf.tagged feature l best.0);
    issued =
        λ m e. let same : l ≡ m = ground arith in subst Issued same (s.trusted feature l best.0);
    missed = λ e. absurd (cc);
  })
  find_step feature features r (r', none) ih s s' a best =
      Returns-map (ih r' s') λ res f. Found-later feature features r r' res a best f

  -- If `less` is a strict weak order, issued licenses have an expiry date that their ID
  -- determines, and the registry is sound, then the search of getLicense ends without a panic in a
  -- sound registry that lost only licenses that are not live. A license that it finds is issued,
  -- live and stored; if it finds none, no queue of a requested feature had a live license.
  pub find_license-Found :
      (features : List Text) (r : LicenseRegistry)
      → IsSound less Issued now r
      → Returns (Found features r) (find_license less now features r)
  unfolding find_license
  find_license-Found [] r s = returns (record {
    sound = s;
    lapsed = Lapsed-refl less now r s.wf s.current;
    chosen = λ l e. absurd (cc);
    useful = λ l e. absurd (cc);
    issued = λ l e. absurd (cc);
    missed = λ e f m i. absurd (not-mem-nil i);
  })
  find_license-Found (feature ∷ features) r s =
      Returns-bind (license_for_feature-IsSound less Issued order authority now r s feature)
        λ res (s', a, best).
          find_step feature features r res (find_license-Found features) s s' a best

  module _ {Certificate : Type 0} (v : Verifier Certificate) (signs : Signs v Issued) where
    pub record Got (r : Storage Certificate) (res : Storage Certificate × Result (Option License))
        : Type 0 where
      pub sound : IsSound less Issued now res.0.reg
      pub keeps_book : r.reg.rb ≢ none → res.0.reg.rb ≢ none
      pub stored : IsStored res.0.reg res.1
      pub issued : (l : License) → res.1 ≡ ok (some l) → Issued l

    Added-stored :
        (reg reg' : LicenseRegistry) (l : License) (c : Option Contract)
        → Added less reg l c reg'
        → get reg' l.id ≢ none
    Added-stored reg reg' l c a = ground (arith, a.found l.id)

    acquire-Got :
        (lc : LicenseClient) (features : List Text) (r : Storage Certificate)
        → IsSound less Issued now r.reg
        → Returns (Got r) (acquire less v lc features r)
    unfolding acquire
    acquire-Got lc features r s = elim (Result-cases (lc features)) [
      | inr (e, failed) ↦
          rw (failed, acquire)
            (returns
              (record { sound = s; keeps_book = λ h. h; stored = tt; issued = λ l q. absurd (cc) }))
      | inl ((lbytes, c), given) ↦ elim (Result-cases (v.parse_license r.cid r.ca_cert lbytes)) [
        | inr (e, refused) ↦
            rw (given, acquire, refused)
              (returns (record {
                sound = s;
                keeps_book = λ h. h;
                stored = tt;
                issued = λ l q. absurd (cc);
              }))
        | inl (l, parsed) ↦
            rw (given, acquire, parsed)
              (Returns-bind (deref-Returns l.not_after (authority.dated l (signs _ _ _ l parsed)))
                λ t e.
                  Returns-bind
                    (add-IsSound less Issued order authority now r.reg s l c (signs _ _ _ l parsed))
                    λ reg (s', a). returns (record {
                      sound = s';
                      keeps_book = λ h. rw a.settings.1 h;
                      stored = Added-stored r.reg reg l c a;
                      issued =
                          λ m q. let same : l ≡ m = cc in subst Issued same (signs _ _ _ l parsed);
                    }))
      ]
    ]

    -- If `less` is a strict weak order, issued licenses have an expiry date that their ID
    -- determines, the parser accepts issued licenses only, and the registry is sound, then
    -- getLicense ends without a panic in a sound registry that has a book if it had one, and a
    -- license that it returns is issued and stored.
    pub get_license-Got :
        (features : List Text) (r : Storage Certificate)
        → IsSound less Issued now r.reg
        → Returns (Got r) (get_license less v now features r)
    unfolding get_license
    get_license-Got features r s = Returns-bind (find_license-Found features r.reg s) λ res f.
        elim (Option-cases res.1) [
          | inr (l, e) ↦ rw e (
              returns (record {
                sound = f.sound;
                keeps_book = f.lapsed.keeps_book;
                stored = (f.chosen l e).1;
                issued = λ m q. let same : l ≡ m = cc in subst Issued same (f.issued l e);
              }))
          | inl e ↦ elim (Option-cases r.lc) [
            | inl missing ↦
                rw (e, missing)
                  (returns (record {
                    sound = f.sound;
                    keeps_book = f.lapsed.keeps_book;
                    stored = tt;
                    issued = λ l q. absurd (cc);
                  }))
            | inr (lc, there) ↦
                rw (e, there)
                  (Returns-map (acquire-Got lc features (record r { reg = res.0 }) f.sound) λ out g.
                    record {
                      sound = g.sound;
                      keeps_book = λ h. g.keeps_book (f.lapsed.keeps_book h);
                      stored = g.stored;
                      issued = g.issued;
                    })
          ]
        ]
