-- ===== src/Delivery/Issuing.antt =====
-- What is assumed of the license server and of the licenses that it issues (pkg/manager and its
-- client of the license server).

use mathlib.Core.List.{mem-cons_self, mem-cons_of_mem}
use license_proxyserver.Base.Dict
use license_proxyserver.Syncer.{license_secret}
use license_proxyserver.Base.{
  str, Text, List, [], ◌∷◌, Mem, Option, some, true, ◌≡◌, refl, subst, arith, ok,
}
use license_proxyserver.Api.{License, Contract}
use license_proxyserver.Kube.{ObjectKey}
use license_proxyserver.Verifier.{Verifier}
use license_proxyserver.Acquirer.{Host, LicenseAcquirer, get_new_license}
use license_proxyserver.Acquirer.Loop.{is_active}
use license_proxyserver.Delivery.Syncing.{SameFeatures}

-- What is assumed of issued licenses, for the cluster `cid` and the certificate of its license server:
-- an ID and a plan have one set of features, they are active, and their contents are read back.
pub record IsIssuer {Certificate : Type 0} (Issued : License → Type 0) (v : Verifier Certificate)
    (cid : Text) (ca_cert : Certificate) : Type 0 where
  pub by_id : SameFeatures Issued
  pub by_plan :
      (l m : License) → Issued l → Issued m → l.plan_name ≡ m.plan_name → l.features ≡ m.features
  pub active : (l : License) → Issued l → is_active l.status ≡ true
  pub reads : (l : License) → Issued l → v.parse_license cid ca_cert l.contents ≡ ok l

-- The license server gives every acquirer a license that has the feature.
abbrev pub Grants : {Certificate : Type 0} → Verifier Certificate → Host → Text → Text → Type 0
Grants v host cid feature =
    (r : LicenseAcquirer)
    → (l : License) × (c : Option Contract) × (get_new_license v host r cid (feature ∷ [])
        ≡ ok (l, c))
      × Mem feature l.features

-- the key of the secret for a cluster
abbrev pub key_of : Text → ObjectKey
key_of cluster_name = record { namespace = cluster_name; name = license_secret }

-- an entry that a lookup finds is one of the map's
pub lookup-Mem :
    (path bytes : Text) (m : List (Text × Text))
    → Dict.lookup str path m ≡ some bytes
    → Mem (path, bytes) m
unfolding Dict.lookup
lookup-Mem path bytes [] e = absurd (cc)
lookup-Mem path bytes ((k, b) ∷ m) e = elim (str k path) [
  | yes p ↦
      let same : b ≡ bytes = ground (arith, e, p) in
      subst (λ x. Mem (path, bytes) (x ∷ m)) (rw (p, same) refl) mem-cons_self
  | no n ↦ mem-cons_of_mem (k, b) (lookup-Mem path bytes m (ground (arith, e, n)))
]
