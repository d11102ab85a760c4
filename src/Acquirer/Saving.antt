-- ===== src/Acquirer/Saving.antt =====
-- The entries of the secret that reconcile writes for a managed cluster.
use mathlib.Core.Logic.Or
use mathlib.Core.List.{mem-append, mem-cons_self}
use license_proxyserver.Base.{
  ◌∙◌, ◌⊎◌, Text, str, List, [], ◌∷◌, ◌++◌, Option, none, some, Bool, true, false, Bool-cases, ◌≡◌,
  inl, inr, refl, if◌then◌else◌, All, ok, err, Error,
}
use license_proxyserver.Base.Dict
use license_proxyserver.Base.Int.{pos, ◌-ℤ◌, ◌≤ℤ◌}
use license_proxyserver.Api.{License, Time}
use license_proxyserver.Clock.{Duration, until}
use license_proxyserver.Heap.Order.{IsStrictWeak}
use license_proxyserver.Storage.Registry.{LicenseRegistry}
use license_proxyserver.Storage.Registry.Sound.{IsAuthority}
use license_proxyserver.Verifier.{Verifier}
use license_proxyserver.Request.Finding.{Signs}
use license_proxyserver.Kube.{Secret, entries, entry, KubeClient, IsKubeClient, Holds}
use license_proxyserver.Acquirer.{
  ttl, Host, LicenseAcquirer, as_certificate_invalid, get_new_license,
}
use license_proxyserver.Acquirer.Obtaining.{IsFor}
use license_proxyserver.Acquirer.Loop.{Refresh, is_active, new_aggregate, requeue_after}
use license_proxyserver.Acquirer.Requeue.{requeue_after-le}
use license_proxyserver.Acquirer.Refreshing.{EndsLater, Held, Step, Answered}
use license_proxyserver.Acquirer.Cached.{no_error}

module _ (less : License → License → Bool) (Issued : License → Type 0) (order : IsStrictWeak less)
    (authority : IsAuthority Issued) (later : EndsLater Issued) {Certificate : Type 0}
    (v : Verifier Certificate) (signs : Signs v Issued) (host : Host) (k : KubeClient)
    (faithful : IsKubeClient k) (now : Time) (cid : Text) where
  -- An entry of the secret: that of an issued, active license of the plan, which the next Reconcile
  -- finds with `ttl` left.
  pub record Fresh (secret : Secret) (due : Duration) (path : Text) : Type 0 where
    pub license : License
    pub issued : Issued license
    pub active : is_active license.status ≡ true
    pub plan : license.plan_name ≡ path
    pub stored : entry secret path ≡ some license.contents
    pub expiry : Time
    pub expires : license.not_after ≡ some expiry
    pub in_time : due ≤ℤ until now (expiry -ℤ ttl)

  -- A feature has an issued license, of whose plan there is a fresh one in the secret if it is active;
  -- or the license server refused it with the error that the acquirer drops.
  abbrev pub Covered : LicenseAcquirer → Secret → Duration → Text → Type 0
  Covered r secret due feature =
      ((l : License) × Issued l
        × IsFor v host r cid feature l
        × (is_active l.status ≡ true → Fresh secret due l.plan_name))
      ⊎ ((e : Error) × (get_new_license v host r cid (feature ∷ []) ≡ err e)
          × (as_certificate_invalid e ≡ true))

  -- The secret in `s'`; `old` is the one before.
  pub record Saved (r : LicenseAcquirer) (features : List Text) (old : Secret) (s' : k.State)
      (due : Duration) : Type 0 where
    pub secret : Secret
    pub there : k.get_secret s' old.key ≡ ok secret
    pub source : (path : Text) → (entry secret path ≡ entry old path) ⊎ Fresh secret due path
    pub covered : All (Covered r secret due) features

  Held-Fresh :
      (files : List (Text × Text)) (earliest : Time) (path : Text) (secret : Secret)
      → ((p : Text) → entry secret p ≡ Dict.lookup str p files)
      → Held Issued files earliest path
      → Fresh secret (requeue_after now earliest) path
  Held-Fresh files earliest path secret same h = record {
    license = h.license;
    issued = h.issued;
    active = h.active;
    plan = h.plan;
    stored = same path ∙ h.stored;
    expiry = h.expiry;
    expires = h.expires;
    in_time = requeue_after-le now earliest h.expiry h.before;
  }

  Answered-Covered :
      (r : LicenseAcquirer) (st : Refresh) (secret : Secret) (e : Option Error) (feature : Text)
      → ((p : Text) → entry secret p ≡ Dict.lookup str p st.files)
      → new_aggregate (st.err_list ++ e ∷ []) ≡ []
      → Answered less Issued order authority later v signs host k now r cid st feature
      → Covered r secret (requeue_after now st.earliest_expired) feature
  Answered-Covered r st secret e feature same h (inl (l, issued, for, has)) =
      inl (
        l,
        issued,
        for,
        λ a. Held-Fresh st.files st.earliest_expired l.plan_name secret same (has a),
      )
  Answered-Covered r st secret e feature same h (inr refused) =
      elim (Bool-cases (as_certificate_invalid refused.error)) [
        | inl dropped ↦ inr (refused.error, refused.failed, dropped)
        | inr kept ↦
            absurd (no_error _ refused.error h (mem-append.1 (Or.inl (refused.reported kept))))
      ]

  All-Covered :
      (r : LicenseAcquirer) (st : Refresh) (secret : Secret) (e : Option Error)
      (features : List Text)
      → ((p : Text) → entry secret p ≡ Dict.lookup str p st.files)
      → new_aggregate (st.err_list ++ e ∷ []) ≡ []
      → All (Answered less Issued order authority later v signs host k now r cid st) features
      → All (Covered r secret (requeue_after now st.earliest_expired)) features
  All-Covered r st secret e [] same h a = tt
  All-Covered r st secret e (feature ∷ features) same h a = (
    Answered-Covered r st secret e feature same h a.0,
    All-Covered r st secret e features same h a.1,
  )

  -- the write of the secret
  abbrev pub write : k.State → Bool → Secret → k.State × Option Error
  write s exists new = if exists then k.update_secret s new else k.create_secret s new

  written :
      (s : k.State) (exists : Bool) (new : Secret)
      → (write s exists new).1 ≡ none
      → Holds k (write s exists new).0 new
  written s true new h = faithful.after_update s _ new (λ i. ((k.update_secret s new).0, h i))
  written s false new h = faithful.after_create s _ new (λ i. ((k.create_secret s new).0, h i))

  write-none :
      (errs : List (Option Error)) (e : Option Error)
      → new_aggregate (errs ++ e ∷ []) ≡ []
      → e ≡ none
  write-none errs none h = refl
  write-none errs (some e) h = absurd (no_error _ e h (mem-append.1 (Or.inr mem-cons_self)))

  pub finish :
      (r : LicenseAcquirer) (cache : List (Text × LicenseRegistry)) (features : List Text)
      (s : k.State) (exists : Bool) (sec : Secret) (st : Refresh) (reg : LicenseRegistry)
      → Step less Issued order authority later v signs host k now r cid
          (record {
            reg = reg;
            files = entries sec.data_map;
            earliest_expired = pos 0;
            err_list = [];
          })
          st
      → All (Answered less Issued order authority later v signs host k now r cid st) features
      → new_aggregate
          (st.err_list ++ (write s exists (record sec { data_map = some st.files })).1 ∷ [])
        ≡ []
      → Saved
          (record r { license_cache = cache })
          features
          sec
          (write s exists (record sec { data_map = some st.files })).0
          (requeue_after now st.earliest_expired)
  unfolding get_new_license
  finish r cache features s exists sec st reg p all h =
      let new : Secret = record sec { data_map = some st.files } in
      let holds = written s exists new (write-none st.err_list (write s exists new).1 h) in
      record {
        secret = holds.object;
        there = holds.there;
        source = λ path. elim (p.source path) [
          | inl e ↦ inl (holds.same_entries path ∙ e)
          | inr held ↦
              inr
                (Held-Fresh st.files st.earliest_expired path holds.object holds.same_entries held)
        ];
        covered = All-Covered r st holds.object _ features holds.same_entries h all;
      }
