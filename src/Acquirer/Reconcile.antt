-- ===== src/Acquirer/Reconcile.antt =====
-- Reconcile of the acquirer, for a request of the controller.
use license_proxyserver.Base.{
  ap, ◌∙◌, sym, subst, none, some, ◌≢◌, Text, str, List, [], ◌∷◌, Bool, ite, ◌≡◌, refl, arith, done,
  Returns, returns, ok,
}
use license_proxyserver.Base.Int.{pos}
use license_proxyserver.Api.{License, Time}
use license_proxyserver.Heap.Order.{IsStrictWeak}
use license_proxyserver.Storage.Registry.Sound.{IsAuthority}
use license_proxyserver.Verifier.{Verifier}
use license_proxyserver.Request.Finding.{Signs}
use license_proxyserver.Kube.{ObjectKey, ManagedCluster, KubeClient, IsKubeClient}
use license_proxyserver.Acquirer.{Host, LicenseAcquirer, cluster_claim_cluster_id, read_claims}
use license_proxyserver.Request.{comma, cluster_claim_license}
use license_proxyserver.Base.Split.{split, split-nonempty}
use license_proxyserver.Acquirer.Claims.{
  last_value, latest, read_claims-last_uid, read_claims-last_features,
}
use license_proxyserver.Acquirer.Loop.{reconcile, reconcile_claims, reconcile_secret, Reconciled}
use license_proxyserver.Acquirer.Cached.{CacheSound}
use license_proxyserver.Acquirer.Refreshing.{EndsLater}
use license_proxyserver.Acquirer.Saving.{Saved}
use license_proxyserver.Acquirer.Reconciled.{before, secret_key, reconcile_secret-Ends}

module _ (less : License → License → Bool) (Issued : License → Type 0) (order : IsStrictWeak less)
    (authority : IsAuthority Issued) (later : EndsLater Issued) {Certificate : Type 0}
    (v : Verifier Certificate) (signs : Signs v Issued) (host : Host) (k : KubeClient)
    (faithful : IsKubeClient k) (now : Time) where
  abbrev SavedFor : Text → Text → List Text → k.State → Reconciled less v host k → Type 0
  SavedFor cluster_name cid features s (r', s', due, errs) =
      errs ≡ []
      → Saved less Issued order authority later v signs host k faithful now cid r' features
          (before less Issued order authority later v signs host k faithful now cid s (
            secret_key less Issued order authority later v signs host k faithful now cid
              cluster_name))
          s' due

  -- The secret was saved for the features, if the claims have a UID and features; or else nothing was
  -- written.
  abbrev HandledAs : Text → Text × List Text → k.State → Reconciled less v host k → Type 0
  HandledAs cluster_name (cid, []) s res = res.1 ≡ s
  HandledAs cluster_name (cid, feature ∷ features) s res =
      ite (str cid []) (res.1 ≡ s) (SavedFor cluster_name cid (feature ∷ features) s res)

  reconcile_claims-HandledAs :
      (cluster_name : Text) (r : LicenseAcquirer) (s : k.State) (claims : Text × List Text)
      → CacheSound less Issued now r
      → Returns
          (λ res. CacheSound less Issued now res.0 × HandledAs cluster_name claims s res)
          (reconcile_claims less v host k now r cluster_name s claims)
  unfolding reconcile_claims
  reconcile_claims-HandledAs cluster_name r s (cid, []) c = returns (c, refl)
  reconcile_claims-HandledAs cluster_name r s (cid, feature ∷ features) c =
      elim (str cid [])
        as (λ x.
          Returns
            (λ res.
              CacheSound less Issued now res.0
              × ite x (res.1 ≡ s) (SavedFor cluster_name cid (feature ∷ features) s res))
            (ite x (done (r, s, pos 0, []))
              (reconcile_secret less v host k now r cluster_name cid (feature ∷ features) s))) [
                | yes p ↦ returns (c, refl)
                | no n ↦
                    reconcile_secret-Ends less Issued order authority later v signs host k faithful
                      now cid r cluster_name (feature ∷ features) s c
              ]

  HandledAs-idle_uid :
      (cluster_name : Text) (found : Text × List Text) (s : k.State)
      (res : Reconciled less v host k)
      → HandledAs cluster_name found s res
      → found.0 ≡ []
      → res.1 ≡ s
  HandledAs-idle_uid cluster_name (cid, []) s res h e = h
  HandledAs-idle_uid cluster_name (cid, feature ∷ features) s res h e =
      (elim (str cid [])
          as (λ x.
            ite x (res.1 ≡ s) (SavedFor cluster_name cid (feature ∷ features) s res)
            → cid ≡ []
            → res.1 ≡ s) [ yes p ↦ λ h e. h | no n ↦ λ h e. absurd (n e) ])
        h e

  HandledAs-idle :
      (cluster_name : Text) (found : Text × List Text) (s : k.State)
      (res : Reconciled less v host k)
      → HandledAs cluster_name found s res
      → found.1 ≡ []
      → res.1 ≡ s
  HandledAs-idle cluster_name (cid, []) s res h e = h
  HandledAs-idle cluster_name (cid, feature ∷ features) s res h e = absurd (cc)

  HandledAs-SavedFor :
      (cluster_name : Text) (found : Text × List Text) (s : k.State)
      (res : Reconciled less v host k)
      → HandledAs cluster_name found s res
      → found.0 ≢ []
      → found.1 ≢ []
      → SavedFor cluster_name found.0 found.1 s res
  HandledAs-SavedFor cluster_name (cid, []) s res h n m = absurd (m refl)
  HandledAs-SavedFor cluster_name (cid, feature ∷ features) s res h n m =
      (elim (str cid [])
          as (λ x.
            ite x (res.1 ≡ s) (SavedFor cluster_name cid (feature ∷ features) s res)
            → cid ≢ []
            → feature ∷ features ≢ []
            → SavedFor cluster_name cid (feature ∷ features) s res) [
              | yes p ↦ λ h n m. absurd (n p)
              | no q ↦ λ h n m. h
            ])
        h n m

  -- What becomes of the last UID and the last license claim of a cluster.
  pub record Handled (cluster : ManagedCluster) (s : k.State) (res : Reconciled less v host k)
      : Type 0 where
    pub sound : CacheSound less Issued now res.0
    pub no_uid : last_value cluster_claim_cluster_id cluster.cluster_claims ≡ none → res.1 ≡ s
    pub blank_uid : last_value cluster_claim_cluster_id cluster.cluster_claims ≡ some [] → res.1 ≡ s
    pub unclaimed : last_value cluster_claim_license cluster.cluster_claims ≡ none → res.1 ≡ s
    pub saved :
        (cid value : Text)
        → last_value cluster_claim_cluster_id cluster.cluster_claims ≡ some cid
        → cid ≢ []
        → last_value cluster_claim_license cluster.cluster_claims ≡ some value
        → SavedFor cluster.name cid (split comma value) s res

  HandledAs-Handled :
      (cluster : ManagedCluster) (s : k.State) (res : Reconciled less v host k)
      → CacheSound less Issued now res.0
      → HandledAs cluster.name (read_claims cluster.cluster_claims ([], [])) s res
      → Handled cluster s res
  HandledAs-Handled cluster s res sound h =
      let found = read_claims cluster.cluster_claims ([], []) in
      let uid = read_claims-last_uid cluster.cluster_claims ([], []) in
      let features = read_claims-last_features cluster.cluster_claims ([], []) in
      record {
        sound = sound;
        no_uid = λ e.
            HandledAs-idle_uid cluster.name found s res h (uid ∙ ap (λ o. latest (λ v. v) o []) e);
        blank_uid = λ e.
            HandledAs-idle_uid cluster.name found s res h (uid ∙ ap (λ o. latest (λ v. v) o []) e);
        unclaimed = λ e.
            HandledAs-idle cluster.name found s res h
              (features ∙ ap (λ o. latest (split comma) o []) e);
        saved = λ cid value e n q.
            let is_uid = uid ∙ ap (λ o. latest (λ v. v) o []) e in
            let are = features ∙ ap (λ o. latest (split comma) o []) q in
            subst (λ x. SavedFor cluster.name x (split comma value) s res) is_uid
              (subst (λ x. SavedFor cluster.name found.0 x s res) are
                (HandledAs-SavedFor cluster.name found s res h (λ e. n (sym is_uid ∙ e))
                  (λ e. split-nonempty comma value (sym are ∙ e))));
      }

  -- If `less` is a strict weak order, issued licenses have an expiry date that their ID determines
  -- and that is not Go's zero time, the parser accepts issued licenses only, the client reads back
  -- the secrets that it has written, the managed cluster of the request can be read and every
  -- registry of the cache is sound, then Reconcile of the acquirer ends without a panic and every
  -- registry of the cache is again sound. If the cluster has no UID claim, if the last one is
  -- empty, or if it has no license claim, the hub cluster is unchanged. Otherwise, if it reports
  -- no error, the secret in the cluster's namespace is saved for the features between the commas
  -- of the last license claim, with the UID of the last UID claim.
  pub reconcile-Handled :
      (request : ObjectKey) (r : LicenseAcquirer) (s : k.State) (cluster : ManagedCluster)
      → k.get_managed_cluster s request ≡ ok cluster
      → CacheSound less Issued now r
      → Returns (Handled cluster s) (reconcile less v host k now request r s)
  unfolding reconcile
  reconcile-Handled request r s cluster e c =
      let run =
        reconcile_claims-HandledAs cluster.name r s (read_claims cluster.cluster_claims ([], []))
          c in
      record {
        value = run.value;
        ends = ground (arith, e, run.ends);
        holds = HandledAs-Handled cluster s run.value run.holds.0 run.holds.1;
      }
