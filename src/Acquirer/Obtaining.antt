-- ===== src/Acquirer/Obtaining.antt =====
-- One feature's license, from the registry or the license server.
use mathlib.Core.Logic.Or
use mathlib.Core.List.{mem-append, mem-cons_self}
use license_proxyserver.Base.{
  ◌⊎◌, Text, List, [], ◌∷◌, ◌++◌, Mem, Option, none, some, Bool, false, Bool-cases, ◌≡◌, inl, inr,
  refl, subst, arith, if◌then◌else◌, Returns, returns, Returns-bind, deref-Returns, ok, err, Error,
  Result-cases, Option-cases,
}
use license_proxyserver.Api.{License, Contract, Time}
use license_proxyserver.Heap.Order.{IsStrictWeak}
use license_proxyserver.Storage.Registry.{LicenseRegistry}
use license_proxyserver.Storage.Registry.Queues.{queue}
use license_proxyserver.Storage.Registry.Invariant.{is_live}
use license_proxyserver.Storage.Registry.Serving.{Best}
use license_proxyserver.Storage.Registry.Sound.{
  IsAuthority, IsSound, add-IsSound, license_for_feature-IsSound,
}
use license_proxyserver.Verifier.{Verifier}
use license_proxyserver.Request.Finding.{Signs}
use license_proxyserver.Kube.{KubeClient}
use license_proxyserver.Acquirer.{
  Host, LicenseAcquirer, parse_new, get_new_license, as_certificate_invalid,
}
use license_proxyserver.Acquirer.Loop.{Refresh, obtain}

module _ (Issued : License → Type 0) {Certificate : Type 0} (v : Verifier Certificate)
    (signs : Signs v Issued) (host : Host) where
  parse_new-Issued :
      (cid lbytes : Text) (con : Option Contract) (l : License) (c : Option Contract)
      → parse_new v host cid lbytes con ≡ ok (l, c)
      → Issued l
  unfolding parse_new
  parse_new-Issued cid lbytes con l c = elim (Result-cases v.load_license_ca) [
    | inr (e, q) ↦ λ h. absurd (ground (arith, q, h))
    | inl (ca_data, q) ↦ elim (Result-cases (v.parse_certificate ca_data)) [
      | inr (e, p) ↦ λ h. absurd (ground (arith, q, p, h))
      | inl (ca_cert, p) ↦ elim (Result-cases (v.parse_license cid ca_cert lbytes)) [
        | inr (e, n) ↦ λ h. absurd (ground (arith, q, p, n, h))
        | inl (m, n) ↦ λ h.
            let same : m ≡ l = ground (arith, q, p, n, h) in
            subst Issued same (signs cid ca_cert lbytes m n)
      ]
    ]
  ]

  pub get_new_license-Issued :
      (r : LicenseAcquirer) (cid : Text) (features : List Text) (l : License) (c : Option Contract)
      → get_new_license v host r cid features ≡ ok (l, c)
      → Issued l
  unfolding get_new_license
  get_new_license-Issued r cid features l c =
      elim (Result-cases (
        host.new_client r.base_url r.token cid r.ca_cert r.insecure_skip_tls_verify
          host.user_agent)) [
            | inr (e, q) ↦ λ h. absurd (ground (arith, q, h))
            | inl (lc, q) ↦ elim (Result-cases (lc features)) [
              | inr (e, p) ↦ λ h. absurd (ground (arith, q, p, h))
              | inl ((lbytes, con), p) ↦
                  λ h. parse_new-Issued cid lbytes con l c (ground (arith, q, p, h))
            ]
          ]

module _ {Certificate : Type 0} (v : Verifier Certificate) (host : Host) where
  -- The license server gave no license, and its error is among `errs`, unless it is the one that the
  -- acquirer drops.
  pub record Refused (r : LicenseAcquirer) (cid feature : Text) (errs : List (Option Error))
      : Type 0 where
    pub error : Error
    pub failed : get_new_license v host r cid (feature ∷ []) ≡ err error
    pub reported : as_certificate_invalid error ≡ false → Mem (some error) errs

module _ {Certificate : Type 0} (v : Verifier Certificate) (host : Host) where
  -- The license has the feature, or is what the license server gave for it.
  abbrev pub IsFor : LicenseAcquirer → Text → Text → License → Type 0
  IsFor r cid feature l =
      Mem feature l.features
      ⊎ ((c : Option Contract) × (get_new_license v host r cid (feature ∷ []) ≡ ok (l, c)))

module _ (less : License → License → Bool) (Issued : License → Type 0) (order : IsStrictWeak less)
    (authority : IsAuthority Issued) {Certificate : Type 0} (v : Verifier Certificate)
    (signs : Signs v Issued) (host : Host) (k : KubeClient) (now : Time) (r : LicenseAcquirer)
    (cid : Text) where
  -- an issued license for the feature, or the error
  abbrev pub Given : Text → Refresh → Option License → Type 0
  Given feature st (some l) = Issued l × IsFor v host r cid feature l
  Given feature st none = Refused v host r cid feature st.err_list

  pub record Obtained (feature : Text) (st : Refresh) (res : Refresh × Option License)
      : Type 0 where
    pub sound : IsSound less Issued now res.0.reg
    pub files : res.0.files ≡ st.files
    pub earliest : res.0.earliest_expired ≡ st.earliest_expired
    pub keeps_errors : (e : Option Error) → Mem e st.err_list → Mem e res.0.err_list
    pub given : Given feature res.0 res.1

  missed-Obtained :
      (feature : Text) (st : Refresh) (reg : LicenseRegistry) (e : Error)
      → IsSound less Issued now reg
      → get_new_license v host r cid (feature ∷ []) ≡ err e
      → Obtained feature st (
        record st {
          reg = reg;
          err_list = if as_certificate_invalid e then st.err_list else st.err_list ++ some e ∷ [];
        },
        none,
      )
  missed-Obtained feature st reg e s failed = elim (Bool-cases (as_certificate_invalid e)) [
    | inl dropped ↦ rw dropped (record {
      sound = s;
      files = refl;
      earliest = refl;
      keeps_errors = λ x i. i;
      given = record { error = e; failed = failed; reported = λ h. absurd (ground arith) };
    })
    | inr kept ↦ rw kept (record {
      sound = s;
      files = refl;
      earliest = refl;
      keeps_errors = λ x i. mem-append.1 (Or.inl i);
      given = record {
        error = e;
        failed = failed;
        reported = λ h. mem-append.1 (Or.inr mem-cons_self);
      };
    })
  ]

  pub obtain-Obtained :
      (feature : Text) (st : Refresh)
      → IsSound less Issued now st.reg
      → Returns (Obtained feature st) (obtain less v host k now r cid feature st)
  unfolding obtain
  obtain-Obtained feature st s =
      Returns-bind (license_for_feature-IsSound less Issued order authority now st.reg s feature)
        λ (reg, found) (s', a, best). elim (Option-cases found) [
          | inr (l, q) ↦ rw q (
              returns (record {
                sound = s';
                files = refl;
                earliest = refl;
                keeps_errors = λ x i. i;
                given =
                    let queued =
                      (subst (Best less (is_live now st.reg.ttl) (queue feature st.reg.reg)) q
                        best).0 in
                    (s.trusted feature l queued, inl (s.wf.tagged feature l queued));
              }))
          | inl q ↦ elim (Result-cases (get_new_license v host r cid (feature ∷ []))) [
            | inr (e, failed) ↦
                rw (q, failed) (returns (missed-Obtained feature st reg e s' failed))
            | inl ((l, c), acquired) ↦
                let issued =
                  get_new_license-Issued Issued v signs host r cid (feature ∷ []) l c acquired in
                rw (q, acquired)
                  (Returns-bind (deref-Returns l.not_after (authority.dated l issued)) λ t e.
                    Returns-bind (add-IsSound less Issued order authority now reg s' l c issued)
                      λ reg' (s'', added). returns (record {
                        sound = s'';
                        files = refl;
                        earliest = refl;
                        keeps_errors = λ x i. i;
                        given = (issued, inr (c, acquired));
                      }))
          ]
        ]
