-- ===== src/Acquirer/Claims.antt =====
-- The claims of a managed cluster, as Reconcile of the acquirer reads them.
use mathlib.Core.Logic.Or
use mathlib.Core.List.{mem-cons, not-mem-nil}
use license_proxyserver.Base.{
  refl, inl, sym, ◌∙◌, inr, arith, Option-cases, Text, str, List, [], ◌∷◌, Mem, All, ite, ◌≡◌, ◌≢◌,
  subst, ap,
}
use license_proxyserver.Base.Split.{split}
use license_proxyserver.Kube.{ManagedClusterClaim}
use license_proxyserver.Request.{comma, cluster_claim_license}
use license_proxyserver.Acquirer.{some, none, Option, cluster_claim_cluster_id, read_claims}

text_set : IsSet Text
text_set = hlevel

texts_set : IsSet (List Text)
texts_set = hlevel

-- what is found after one claim
abbrev chosen : ManagedClusterClaim → Text × List Text → Text × List Text
chosen claim (cid, features) =
    ite (str claim.name cluster_claim_cluster_id) (claim.value, features)
      (ite (str claim.name cluster_claim_license) (cid, split comma claim.value) (cid, features))

-- Every claim of the name has the value.
abbrev pub Named : Text → Text → List ManagedClusterClaim → Type 0
Named name value = All (λ claim. claim.name ≡ name → claim.value ≡ value)

chosen-uid :
    (claim : ManagedClusterClaim) (found : Text × List Text) (uid : Text)
    → (claim.name ≡ cluster_claim_cluster_id → claim.value ≡ uid)
    → (claim.name ≢ cluster_claim_cluster_id → found.0 ≡ uid)
    → (chosen claim found).0 ≡ uid
chosen-uid claim found uid taken left =
    elim (str claim.name cluster_claim_cluster_id)
      as (λ x.
        (ite {C = Text × List Text} x (claim.value, found.1)
          (ite (str claim.name cluster_claim_license) (found.0, split comma claim.value)
            (found.0, found.1))).0
        ≡ uid) [
          | yes p ↦ taken p
          | no n ↦
              elim (str claim.name cluster_claim_license)
                as (λ x.
                  (ite {C = Text × List Text} x (found.0, split comma claim.value)
                    (found.0, found.1)).0
                  ≡ uid) [ yes q ↦ left n | no m ↦ left n ]
        ]

chosen-features :
    (claim : ManagedClusterClaim) (found : Text × List Text) (features : List Text)
    → (claim.name ≡ cluster_claim_license → split comma claim.value ≡ features)
    → (claim.name ≢ cluster_claim_license → found.1 ≡ features)
    → (chosen claim found).1 ≡ features
chosen-features claim found features taken left =
    elim (str claim.name cluster_claim_cluster_id)
      as (λ x.
        (ite {C = Text × List Text} x (claim.value, found.1)
          (ite (str claim.name cluster_claim_license) (found.0, split comma claim.value)
            (found.0, found.1))).1
        ≡ features) [
          | yes p ↦ left (λ q. cc)
          | no n ↦
              elim (str claim.name cluster_claim_license)
                as (λ x.
                  (ite {C = Text × List Text} x (found.0, split comma claim.value)
                    (found.0, found.1)).1
                  ≡ features) [ yes q ↦ taken q | no m ↦ left m ]
        ]

uid-stays :
    (claims : List ManagedClusterClaim) (found : Text × List Text) (uid : Text)
    → Named cluster_claim_cluster_id uid claims
    → found.0 ≡ uid
    → (read_claims claims found).0 ≡ uid
unfolding read_claims
uid-stays [] found uid named e = e
uid-stays (claim ∷ claims) found uid named e =
    uid-stays claims (chosen claim found) uid named.1 (chosen-uid claim found uid named.0 (λ n. e))

features-stay :
    (claims : List ManagedClusterClaim) (found : Text × List Text) (value : Text)
    → Named cluster_claim_license value claims
    → found.1 ≡ split comma value
    → (read_claims claims found).1 ≡ split comma value
unfolding read_claims
features-stay [] found value named e = e
features-stay (claim ∷ claims) found value named e =
    features-stay claims (chosen claim found) value named.1
      (chosen-features claim found (split comma value) (λ p. ap (split comma) (named.0 p)) (λ n. e))

-- A claim that is there, and whose name no other value has, is what is read.
pub read_claims-uid :
    (claims : List ManagedClusterClaim) (found : Text × List Text) (claim : ManagedClusterClaim)
    → Named cluster_claim_cluster_id claim.value claims
    → claim.name ≡ cluster_claim_cluster_id
    → Mem claim claims
    → (read_claims claims found).0 ≡ claim.value
unfolding read_claims
read_claims-uid [] found claim named n i = absurd (not-mem-nil i)
read_claims-uid (other ∷ claims) found claim named n i =
    Or.elim (text_set _ _) (mem-cons.0 i)
      (λ e. uid-stays claims (chosen other found) claim.value named.1 (
        chosen-uid other found claim.value named.0
          (λ m. absurd (m (subst (λ c. c.name ≡ cluster_claim_cluster_id) e n)))))
      (λ j. read_claims-uid claims (chosen other found) claim named.1 n j)

pub read_claims-features :
    (claims : List ManagedClusterClaim) (found : Text × List Text) (claim : ManagedClusterClaim)
    → Named cluster_claim_license claim.value claims
    → claim.name ≡ cluster_claim_license
    → Mem claim claims
    → (read_claims claims found).1 ≡ split comma claim.value
unfolding read_claims
read_claims-features [] found claim named n i = absurd (not-mem-nil i)
read_claims-features (other ∷ claims) found claim named n i =
    Or.elim (texts_set _ _) (mem-cons.0 i)
      (λ e. features-stay claims (chosen other found) claim.value named.1 (
        chosen-features other found (split comma claim.value) (λ p. ap (split comma) (named.0 p))
          (λ m. absurd (m (subst (λ c. c.name ≡ cluster_claim_license) e n)))))
      (λ j. read_claims-features claims (chosen other found) claim named.1 n j)

-- the value of the last claim of the name
abbrev pub last_value : Text → List ManagedClusterClaim → Option Text
last_value name [] = none
last_value name (claim ∷ claims) = elim (last_value name claims) [
  | some v ↦ some v
  | none ↦ ite (str claim.name name) (some claim.value) none
]

-- what the last claim says, or what was found before
abbrev pub latest : {A : Type 0} → (Text → A) → Option Text → A → A
latest f none before = before
latest f (some v) before = f v

latest-none :
    {A : Type 0} (f : Text → A) (name : Text) (claim : ManagedClusterClaim)
    (claims : List ManagedClusterClaim) (before : A)
    → last_value name claims ≡ none
    → claim.name ≢ name
    → latest f (last_value name (claim ∷ claims)) before ≡ before
latest-none f name claim claims before e n = ground (arith, e, n)

latest-one :
    {A : Type 0} (f : Text → A) (name : Text) (claim : ManagedClusterClaim)
    (claims : List ManagedClusterClaim) (before : A)
    → last_value name claims ≡ none
    → claim.name ≡ name
    → latest f (last_value name (claim ∷ claims)) before ≡ f claim.value
latest-one f name claim claims before e p = ground (arith, e, p)

latest-later :
    {A : Type 0} (f : Text → A) (name v : Text) (claim : ManagedClusterClaim)
    (claims : List ManagedClusterClaim) (before : A)
    → last_value name claims ≡ some v
    → latest f (last_value name (claim ∷ claims)) before ≡ f v
latest-later f name v claim claims before e = ground (arith, e)

pub read_claims-last_uid :
    (claims : List ManagedClusterClaim) (found : Text × List Text)
    → (read_claims claims found).0
      ≡ latest (λ v. v) (last_value cluster_claim_cluster_id claims) found.0
unfolding read_claims
read_claims-last_uid [] found = refl
read_claims-last_uid (claim ∷ claims) found =
    let rest = read_claims-last_uid claims (chosen claim found) in
    elim (Option-cases (last_value cluster_claim_cluster_id claims)) [
      | inr (v, e) ↦
          rest
          ∙ ap (λ o. latest (λ v. v) o (chosen claim found).0) e
          ∙ sym (latest-later (λ v. v) cluster_claim_cluster_id v claim claims found.0 e)
      | inl e ↦
          rest
          ∙ ap (λ o. latest (λ v. v) o (chosen claim found).0) e
          ∙ chosen-uid claim found _
              (λ p. sym (latest-one (λ v. v) cluster_claim_cluster_id claim claims found.0 e p))
              (λ n. sym (latest-none (λ v. v) cluster_claim_cluster_id claim claims found.0 e n))
    ]

pub read_claims-last_features :
    (claims : List ManagedClusterClaim) (found : Text × List Text)
    → (read_claims claims found).1
      ≡ latest (split comma) (last_value cluster_claim_license claims) found.1
unfolding read_claims
read_claims-last_features [] found = refl
read_claims-last_features (claim ∷ claims) found =
    let rest = read_claims-last_features claims (chosen claim found) in
    elim (Option-cases (last_value cluster_claim_license claims)) [
      | inr (v, e) ↦
          rest
          ∙ ap (λ o. latest (split comma) o (chosen claim found).1) e
          ∙ sym (latest-later (split comma) cluster_claim_license v claim claims found.1 e)
      | inl e ↦
          rest
          ∙ ap (λ o. latest (split comma) o (chosen claim found).1) e
          ∙ chosen-features claim found _
              (λ p. sym (latest-one (split comma) cluster_claim_license claim claims found.1 e p))
              (λ n. sym (latest-none (split comma) cluster_claim_license claim claims found.1 e n))
    ]
