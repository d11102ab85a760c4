-- ===== src/Tests/PromiseExamples.antt =====
-- A request on a spoke cluster without licenses, and the claims that the hub cluster shows after it.
use mathlib.Core.List.{mem-cons_of_mem, mem-cons_self}
use license_proxyserver.Base.{
  done, str, Text, text, [], ◌∷◌, All, none, some, ◌≡◌, ◌⊎◌, sym, refl, arith, ok, Returns,
}
use license_proxyserver.Base.Dict
use license_proxyserver.Base.Split.{IsPlain, split, join_with}
use license_proxyserver.Storage.Registry.{new_license_registry}
use license_proxyserver.Request.{
  respond, get_license, find_license, answer, claim_features, extend_claim, comma, Storage,
  ClusterClaim, create,
}
use license_proxyserver.Request.Granting.{Granted}
use license_proxyserver.Delivery.Issuing.{key_of}
use license_proxyserver.Delivery.Claimed.{Shows, create-Promised}
use license_proxyserver.Delivery.Acquiring.{Delivered}
use license_proxyserver.Kube.{ObjectKey}
use license_proxyserver.Acquirer.Loop.{reconcile}
use license_proxyserver.Tests.DeliveryExamples.{start-rb}
use license_proxyserver.Storage.Registry.{license_for_feature}
use license_proxyserver.Tests.Samples.{sooner, order, verifier, user, kubedb, stash}
use license_proxyserver.Tests.Services.{
  spoke, spoke-IsSpokeClient, string_sets, string_sets-IsStringSets, kube, kube-IsKubeClient,
  claims, read_claim,
}
use license_proxyserver.Tests.Registries.{midnight, start}
use license_proxyserver.Tests.ManagerExamples.{host}
use license_proxyserver.Tests.ClaimExamples.{
  wanted, whole_start, an_hour_on, acquirer, nothing_cached, Whole, whole, whole-EndsLater,
  whole_signs, whole-IsIssuer, host-Grants,
}

abbrev cluster1 : ObjectKey
cluster1 = record { namespace = []; name = text "cluster1" }

abbrev empty : Storage Text
empty = record { cid = text "uid"; ca_cert = text "CA"; lc = none; reg = start }

stash-IsPlain : All (IsPlain comma) (stash ∷ [])
stash-IsPlain = ground arith

claimed_value :
    (ca : ClusterClaim)
    → read_claim (some (text "kubedb,stash")) (text "licenses.appscode.com") ≡ ok ca
    → ca.value ≡ text "kubedb,stash"
claimed_value ca e = cc

-- The claims of the managed cluster are those that Create leaves on the spoke cluster.
shown : Shows spoke (some (text "kubedb,stash")) (text "uid") claims
shown = record {
  uid_there = mem-cons_self;
  uid_only = ((λ e. refl), ((λ e. absurd (cc)), tt));
  license_there = λ claim e. rw (claimed_value claim e) (mem-cons_of_mem _ mem-cons_self);
  license_only = λ claim e. ((λ q. absurd (cc)), ((λ q. sym (claimed_value claim e)), tt));
}

create_run :
    create sooner verifier spoke string_sets midnight (some user) wanted empty (some kubedb)
    ≡ done (empty, some (text "kubedb,stash"), ok (respond (stash ∷ []) [] wanted))
unfolding create get_license find_license license_for_feature answer claim_features extend_claim str
    split Dict.lookup new_license_registry join_with
create_run = refl

create-Promised_example :
    Granted Whole start user (stash ∷ []) (respond (stash ∷ []) [] wanted)
    ⊎ Returns
        (λ (r', s', due, errs).
          errs ≡ []
          → Delivered sooner Whole order whole whole-EndsLater verifier whole_signs host kube kube
              kube-IsKubeClient kube-IsKubeClient
              (text "kubeops")
              (text "uid")
              (text "CA")
              whole-IsIssuer
              stash
              host-Grants
              midnight
              spoke
              string_sets
              none
              an_hour_on
              (key_of (text "cluster1"))
              s')
        (reconcile sooner verifier host kube midnight cluster1 acquirer none)
create-Promised_example =
    create-Promised sooner Whole order whole whole-EndsLater verifier whole_signs host kube kube
      kube-IsKubeClient kube-IsKubeClient (text "kubeops") (text "uid") (text "CA") whole-IsIssuer
      stash host-Grants midnight spoke string_sets none an_hour_on spoke-IsSpokeClient
      string_sets-IsStringSets midnight user (some kubedb) wanted (record { features = stash ∷ [] })
      empty empty (some (text "kubedb,stash")) (respond (stash ∷ []) [] wanted) cluster1 acquirer
      none (record { name = text "cluster1"; cluster_claims = claims }) (λ e. cc) refl mem-cons_self
      stash-IsPlain refl start-rb whole_start create_run nothing_cached refl shown
