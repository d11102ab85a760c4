-- ===== src/Request/Claiming.antt =====
-- The cluster claim after a request that no license answers.

use mathlib.Core.List.{not-mem-nil}
use mathlib.Core.List.Perm
use license_proxyserver.Base.{
  Text, List, Mem, none, ltb, Bool-cases, ◌≡◌, inl, inr, sym, subst, arith, ok, err, Error,
  is_not_found, Result-cases, All, All_of_mem, mem_of_All,
}
use license_proxyserver.Base.Split.{split, join_with, IsPlain, split-join_with}
use license_proxyserver.Base.Sort.{sort_strings, sort_strings-perm}
use license_proxyserver.Request.{
  ClusterClaim, SpokeClient, StringSets, comma, cluster_claim_license, extend_claim, claim_features,
}
use license_proxyserver.Request.Merging.{
  IsStringSets, IsPlain-prop, cur, extra, merged, extra-empty, old-or-extra, merged-old, merged-new,
  split-merged,
}

-- The client reads the claim that it has written, under its name.
pub record IsSpokeClient (k : SpokeClient) : Type 0 where
  pub get-update :
      (s s' : k.State) (ca : ClusterClaim)
      → k.update_claim s ca ≡ (s', none)
      → k.get_claim s' ca.name ≡ ok ca
  pub get-create :
      (s s' : k.State) (ca : ClusterClaim)
      → k.create_claim s ca ≡ (s', none)
      → k.get_claim s' ca.name ≡ ok ca
  pub named :
      (s : k.State) (name : Text) (ca : ClusterClaim) → k.get_claim s name ≡ ok ca → ca.name ≡ name

-- The features that a claim's value lists.
abbrev pub claimed : ClusterClaim → List Text
claimed ca = split comma ca.value

module _ (k : SpokeClient) (faithful : IsSpokeClient k) (sets : StringSets)
    (lawful : IsStringSets sets) where
  -- In `s'` the claim lists the features, and all that it listed in `s`.
  pub record Claimed (s s' : k.State) (features : List Text) : Type 0 where
    pub claim : ClusterClaim
    pub there : k.get_claim s' cluster_claim_license ≡ ok claim
    pub requested : (f : Text) → Mem f features → Mem f (claimed claim)
    pub kept :
        (old : ClusterClaim)
        → k.get_claim s cluster_claim_license ≡ ok old
        → (f : Text) → Mem f (claimed old)
        → Mem f (claimed claim)

  updated :
      (s : k.State) (ca : ClusterClaim)
      → (k.update_claim s ca).1 ≡ none
      → ca.name ≡ cluster_claim_license
      → k.get_claim (k.update_claim s ca).0 cluster_claim_license ≡ ok ca
  updated s ca h n =
      subst (λ name. k.get_claim (k.update_claim s ca).0 name ≡ ok ca) n
        (faithful.get-update s (k.update_claim s ca).0 ca (λ i. ((k.update_claim s ca).0, h i)))

  extend_claim-Claimed :
      (s : k.State) (ca : ClusterClaim) (features : List Text)
      → All (IsPlain comma) features
      → k.get_claim s cluster_claim_license ≡ ok ca
      → (extend_claim k sets s ca features).1 ≡ none
      → Claimed s (extend_claim k sets s ca features).0 features
  unfolding extend_claim merged extra cur
  extend_claim-Claimed s ca features plain e =
      elim (Bool-cases (ltb 0 (sets.len (extra sets lawful ca.value features plain)))) [
        | inl more ↦
            rw (more, extend_claim)
              λ h.
                let new : ClusterClaim = record ca {
                  value = join_with comma (merged sets lawful ca.value features plain);
                } in
                let listed = split-merged sets lawful ca.value features plain in
                record {
                  claim = new;
                  there = updated s new h (faithful.named s _ ca e);
                  requested = λ f i. rw listed (merged-new sets lawful ca.value features plain f i);
                  kept = λ old q f i.
                      let same : ca ≡ old = ground arith in
                      rw listed (
                        merged-old sets lawful ca.value features plain f
                          (subst (λ c. Mem f (claimed c)) (sym same) i));
                }
        | inr nothing ↦
            rw (nothing, extend_claim)
              λ h. record {
                claim = ca;
                there = e;
                requested = λ f i.
                    (lawful.has-new (split comma ca.value) f).0
                      (elim (old-or-extra sets lawful ca.value features plain f i) [
                        | inl old ↦ old
                        | inr new ↦
                            absurd (extra-empty sets lawful ca.value features plain nothing f new)
                      ]);
                kept = λ old q f i.
                    let same : ca ≡ old = ground arith in
                    subst (λ c. Mem f (claimed c)) (sym same) i;
              }
      ]

  created :
      (s : k.State) (features : List Text)
      → All (IsPlain comma) features
      → (e : Error) → k.get_claim s cluster_claim_license ≡ err e
      → (k.create_claim s (record {
        name = cluster_claim_license;
        value = join_with comma (sort_strings features);
      })).1
        ≡ none
      → Claimed s
          (k.create_claim s (record {
            name = cluster_claim_license;
            value = join_with comma (sort_strings features);
          })).0
          features
  created s features plain e missing h =
      let new : ClusterClaim = record {
        name = cluster_claim_license;
        value = join_with comma (sort_strings features);
      } in
      record {
        claim = new;
        there =
            faithful.get-create s (k.create_claim s new).0 new
              (λ i. ((k.create_claim s new).0, h i));
        requested = λ f i.
            let j = (Perm.mem_iff (sort_strings-perm features)).1 i in
            rw
              (split-join_with comma (sort_strings features) (λ n. not-mem-nil (subst (Mem f) n j))
                (All_of_mem (IsPlain comma) _ λ g m.
                  mem_of_All (IsPlain comma) IsPlain-prop _ plain g
                    ((Perm.mem_iff (sort_strings-perm features)).0 m)))
              j;
        kept = λ old q f i. absurd (ground (arith, missing, q));
      }

  -- If the client of the spoke cluster reads back the claims that it has written, the string sets
  -- have the members that their documentation says, and no requested feature has a comma, then
  -- after the branch of Create for a request without a license, if it gives no error, the license
  -- claim is there and lists every requested feature and every feature that it listed before.
  pub claim_features-Claimed :
      (s : k.State) (features : List Text)
      → All (IsPlain comma) features
      → (claim_features k sets s features).1 ≡ none
      → Claimed s (claim_features k sets s features).0 features
  unfolding claim_features
  claim_features-Claimed s features plain =
      elim (Result-cases (k.get_claim s cluster_claim_license)) [
        | inl (ca, e) ↦ rw (e, claim_features) (extend_claim-Claimed s ca features plain e)
        | inr (e, missing) ↦ elim (Bool-cases (is_not_found e)) [
          | inl is ↦ rw (missing, is, claim_features) (λ h. created s features plain e missing h)
          | inr other ↦ rw (missing, other, claim_features) (λ h. absurd (ground (arith, h)))
        ]
      ]
