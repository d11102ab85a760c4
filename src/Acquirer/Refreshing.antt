-- ===== src/Acquirer/Refreshing.antt =====
-- The loop of reconcile over the features of a cluster.
use license_proxyserver.Base.{
  ◌∙◌, ap, ◌⊎◌, Text, str, List, [], ◌∷◌, Mem, Option, none, some, Bool, true, false, Bool-cases,
  ◌≡◌, inl, inr, refl, sym, subst, arith, Returns, returns, Returns-bind, Returns-map,
  deref-Returns, All,
}
use license_proxyserver.Base.Dict
use license_proxyserver.Api.{License, Time}
use license_proxyserver.Heap.Order.{IsStrictWeak}
use license_proxyserver.Storage.Registry.Sound.{IsAuthority, IsSound}
use license_proxyserver.Verifier.{Verifier}
use license_proxyserver.Request.Finding.{Signs}
use license_proxyserver.Kube.{KubeClient}
use license_proxyserver.Acquirer.{Error, Host, LicenseAcquirer}
use license_proxyserver.Acquirer.Loop.{Refresh, is_active, use_license, refresh}
use license_proxyserver.Clock.{is_zero}
use license_proxyserver.Acquirer.Requeue.{earlier, IsBefore, earlier-IsBefore, earlier-keeps}
use license_proxyserver.Acquirer.Obtaining.{IsFor, Refused, Given, Obtained, obtain-Obtained}

-- No issued license ends at Go's zero time.
abbrev pub EndsLater : (License → Type 0) → Type 0
EndsLater Issued = (l : License) → Issued l → (t : Time) → l.not_after ≡ some t → is_zero t ≡ false

-- The entry of the secret is an issued, active license of the plan of that name, and the earliest
-- expiry is not after its own.
pub record Held (Issued : License → Type 0) (files : List (Text × Text)) (earliest : Time)
    (path : Text) : Type 0 where
  pub license : License
  pub issued : Issued license
  pub active : is_active license.status ≡ true
  pub plan : license.plan_name ≡ path
  pub stored : Dict.lookup str path files ≡ some license.contents
  pub expiry : Time
  pub expires : license.not_after ≡ some expiry
  pub before : IsBefore earliest expiry

module _ (less : License → License → Bool) (Issued : License → Type 0) (order : IsStrictWeak less)
    (authority : IsAuthority Issued) (later : EndsLater Issued) {Certificate : Type 0}
    (v : Verifier Certificate) (signs : Signs v Issued) (host : Host) (k : KubeClient) (now : Time)
    (r : LicenseAcquirer) (cid : Text) where
  abbrev HeldIn : Refresh → Text → Type 0
  HeldIn st path = Held Issued st.files st.earliest_expired path

  -- one or more rounds of the loop
  pub record Step (st st' : Refresh) : Type 0 where
    pub sound : IsSound less Issued now st'.reg
    pub advance :
        (path : Text)
        → Held Issued st.files st.earliest_expired path
        → Held Issued st'.files st'.earliest_expired path
    pub source :
        (path : Text)
        → (Dict.lookup str path st'.files ≡ Dict.lookup str path st.files)
          ⊎ Held Issued st'.files st'.earliest_expired path
    pub keeps_errors : (e : Option Error) → Mem e st.err_list → Mem e st'.err_list

  Step-refl : (st : Refresh) → IsSound less Issued now st.reg → Step st st
  Step-refl st s = record {
    sound = s;
    advance = λ path h. h;
    source = λ path. inl refl;
    keeps_errors = λ e i. i;
  }

  Step-trans : {a b c : Refresh} → Step a b → Step b c → Step a c
  Step-trans p q = record {
    sound = q.sound;
    advance = λ path h. q.advance path (p.advance path h);
    source = λ path. elim (q.source path) [
      | inr h ↦ inr h
      | inl e ↦ elim (p.source path) [ inr h ↦ inr (q.advance path h) | inl e' ↦ inl (e ∙ e') ]
    ];
    keeps_errors = λ e i. q.keeps_errors e (p.keeps_errors e i);
  }

  -- the secret has a license of its plan, if it is active
  abbrev HasPlan : Refresh → License → Type 0
  HasPlan st l = is_active l.status ≡ true → HeldIn st l.plan_name

  abbrev Planned : Refresh → Option License → Type 0
  Planned st none = Unit
  Planned st (some l) = HasPlan st l

  abbrev used : Refresh → License → Time → Refresh
  used st l t = record st {
    files = Dict.insert str l.plan_name l.contents st.files;
    earliest_expired = earlier st.earliest_expired t;
  }

  used-own :
      (st : Refresh) (l : License) (t : Time) (path : Text)
      → Issued l
      → is_active l.status ≡ true
      → l.not_after ≡ some t
      → l.plan_name ≡ path
      → HeldIn (used st l t) path
  used-own st l t path issued active e plan = record {
    license = l;
    issued = issued;
    active = active;
    plan = plan;
    stored = ground (arith, Dict.lookup-insert str l.plan_name path l.contents st.files);
    expiry = t;
    expires = e;
    before = earlier-IsBefore st.earliest_expired t (later l issued t e);
  }

  used-Step :
      (st : Refresh) (l : License) (t : Time)
      → IsSound less Issued now st.reg
      → Issued l
      → is_active l.status ≡ true
      → l.not_after ≡ some t
      → Step st (used st l t)
  used-Step st l t s issued active e = record {
    sound = s;
    advance = λ path h. elim (str l.plan_name path) [
      | yes p ↦ used-own st l t path issued active e p
      | no n ↦ record {
        license = h.license;
        issued = h.issued;
        active = h.active;
        plan = h.plan;
        stored =
            ground (arith, h.stored, Dict.lookup-insert str l.plan_name path l.contents st.files);
        expiry = h.expiry;
        expires = h.expires;
        before = earlier-keeps st.earliest_expired t h.expiry (later l issued t e) h.before;
      }
    ];
    source = λ path. elim (str l.plan_name path) [
      | yes p ↦ inr (used-own st l t path issued active e p)
      | no n ↦ inl (ground (arith, Dict.lookup-insert str l.plan_name path l.contents st.files))
    ];
    keeps_errors = λ x i. i;
  }

  use_license-Step :
      (feature : Text) (l : Option License) (st : Refresh)
      → IsSound less Issued now st.reg
      → Given less Issued order authority v signs host k now r cid feature st l
      → Returns (λ st'. Step st st' × Planned st' l) (use_license l st)
  unfolding use_license earlier
  use_license-Step feature none st s g = returns (Step-refl st s, tt)
  use_license-Step feature (some l) st s (issued, _) = elim (Bool-cases (is_active l.status)) [
    | inr a ↦ rw a (returns (Step-refl st s, λ h. absurd (cc)))
    | inl a ↦ rw a (
        Returns-bind (deref-Returns l.not_after (authority.dated l issued)) λ t e.
          returns (used-Step st l t s issued a e, λ h. used-own st l t l.plan_name issued a e refl))
  ]

  -- The feature has an issued license, of whose plan there is one in the secret if it is active, or
  -- the license server refused it.
  abbrev pub Answered : Refresh → Text → Type 0
  Answered st feature =
      ((l : License) × Issued l × IsFor v host r cid feature l × HasPlan st l)
      ⊎ Refused v host r cid feature st.err_list

  Answered-Step :
      (st st' : Refresh) (feature : Text) → Step st st' → Answered st feature → Answered st' feature
  Answered-Step st st' feature p (inl (l, issued, for, has)) =
      inl (l, issued, for, λ a. p.advance l.plan_name (has a))
  Answered-Step st st' feature p (inr refused) = inr (record {
    error = refused.error;
    failed = refused.failed;
    reported = λ h. p.keeps_errors _ (refused.reported h);
  })

  Obtained-Step :
      (feature : Text) (st st' : Refresh) (l : Option License)
      → Obtained less Issued order authority v signs host k now r cid feature st (st', l)
      → Step st st'
  Obtained-Step feature st st' l o = record {
    sound = o.sound;
    advance = λ path h.
        subst (λ x. Held Issued st'.files x path) (sym o.earliest)
          (subst (λ x. Held Issued x st.earliest_expired path) (sym o.files) h);
    source = λ path. inl (ap (Dict.lookup str path) o.files);
    keeps_errors = o.keeps_errors;
  }

  answered :
      (feature : Text) (st st' : Refresh) (l : Option License)
      → Given less Issued order authority v signs host k now r cid feature st l
      → Step st st'
      → Planned st' l
      → Answered st' feature
  answered feature st st' none refused p has = Answered-Step st st' feature p (inr refused)
  answered feature st st' (some l) (issued, for) p has = inl (l, issued, for, has)

  pub refresh-Step :
      (features : List Text) (st : Refresh)
      → IsSound less Issued now st.reg
      → Returns
          (λ st'. Step st st' × All (Answered st') features)
          (refresh less v host k now r cid features st)
  unfolding refresh
  refresh-Step [] st s = returns (Step-refl st s, tt)
  refresh-Step (feature ∷ features) st s =
      Returns-bind
        (obtain-Obtained less Issued order authority v signs host k now r cid feature st s)
        λ (st1, l) o. Returns-bind (use_license-Step feature l st1 o.sound o.given) λ st2 (p, has).
          Returns-map (refresh-Step features st2 p.sound) λ st3 (q, rest). (
            Step-trans (Step-trans (Obtained-Step feature st st1 l o) p) q,
            (Answered-Step st2 st3 feature q (answered feature st1 st2 l o.given p has), rest),
          )
