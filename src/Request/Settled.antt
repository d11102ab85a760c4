-- ===== src/Request/Settled.antt =====
-- Create on a spoke cluster: a license at once, or a claim for the features.
use license_proxyserver.Base.{
  subst, Text, List, Option, none, some, Bool, true, ◌≡◌, ◌≢◌, ◌⊎◌, inl, inr, refl, done, Returns,
  returns, Returns-bind, deref-Returns, Result, ok, All, ap, ◌∙◌, Result-cases, Option-cases,
}
use license_proxyserver.Api.{License, Time, User, LicenseRequest, LicenseRequestRequest}
use license_proxyserver.Base.Split.{IsPlain}
use license_proxyserver.Heap.Order.{IsStrictWeak}
use license_proxyserver.Storage.Registry.{get}
use license_proxyserver.Storage.Registry.Sound.{IsAuthority, IsSound}
use license_proxyserver.Verifier.{Verifier}
use license_proxyserver.Request.{
  claim_features, Storage, SpokeClient, StringSets, answer, create, comma, respond,
}
use license_proxyserver.Request.Finding.{IsStored, Signs, get_license-Got}
use license_proxyserver.Request.Granting.{Granted, granted, recorded}
use license_proxyserver.Request.Merging.{IsStringSets}
use license_proxyserver.Request.Claiming.{IsSpokeClient, Claimed, claim_features-Claimed}

module _ (less : License → License → Bool) (Issued : License → Type 0) (order : IsStrictWeak less)
    (authority : IsAuthority Issued) {Certificate : Type 0} (v : Verifier Certificate)
    (signs : Signs v Issued) (k : SpokeClient) (faithful : IsSpokeClient k) (sets : StringSets)
    (lawful : IsStringSets sets) (now : Time) (c : k.State) (user : User) where
  -- An answer is a granted license, or a claim that lists the features.
  abbrev pub Settled : List Text → Storage Certificate × k.State × Result LicenseRequest → Type 0
  Settled features (r, c', result) =
      (out : LicenseRequest)
      → result ≡ ok out
      → Granted Issued r.reg user features out ⊎ Claimed k faithful sets lawful c c' features

  answer-Settled :
      (req : LicenseRequest) (features : List Text) (r : Storage Certificate) (l : Option License)
      → All (IsPlain comma) features
      → r.reg.rb ≢ none
      → ((found : License) → l ≡ some found → get r.reg found.id ≢ none)
      → ((found : License) → l ≡ some found → Issued found)
      → Returns (Settled features) (answer less v k sets true user req features r c l)
  unfolding answer
  answer-Settled req features r (some l) plain book there issued =
      Returns-bind (deref-Returns r.reg.rb book) λ rb e. returns (λ out same.
        let given : respond features l.contents req ≡ out = cc in
        inl (
          subst (Granted Issued (recorded r.reg rb l.id features user) user features) given (
            granted less Issued order authority v signs k sets now user req features r rb l
              (issued l refl) (there l refl))))
  answer-Settled req features r none plain book there issued =
      elim (Option-cases (claim_features k sets c features).1) [
        | inl e ↦
            rw (e, answer)
              (returns (λ out same.
                inr (claim_features-Claimed k faithful sets lawful c features plain e)))
        | inr (failed, e) ↦ rw (e, answer) (returns (λ out same. absurd (cc)))
      ]

  pub create-Settled :
      (req : LicenseRequest) (request : LicenseRequestRequest) (r : Storage Certificate)
      → req.request ≡ some request
      → k.is_open_cluster_spoke c ≡ done true
      → All (IsPlain comma) request.features
      → r.reg.rb ≢ none
      → IsSound less Issued now r.reg
      → Returns (Settled request.features) (create less v k sets now (some user) req r c)
  unfolding create
  create-Settled req request r asked spoke plain book sound =
      rw (spoke, asked)
        (Returns-bind
          (get_license-Got less Issued order authority now v signs request.features r sound)
          λ (r', result) g. elim (Result-cases result) [
            | inr (e, failed) ↦ rw failed (returns (λ out same. absurd (cc)))
            | inl (l, given) ↦ rw given (
                answer-Settled req request.features r' l plain (g.keeps_book book)
                  (λ found e. subst (IsStored r'.reg) (given ∙ ap ok e) g.stored)
                  (λ found e. g.issued found (given ∙ ap ok e)))
          ])
