-- ===== src/Tests/ManagerExamples.antt =====
-- The theorems of the secrets' file system, the syncer and the acquirer at the sample services.
use license_proxyserver.Base.{
  ◌*◌, Text, text, str, [], ◌∷◌, none, some, false, ite, ◌≡◌, refl, subst, arith, Returns, ok,
}
use license_proxyserver.Base.Dict
use license_proxyserver.Base.Int.{pos, ◌-ℤ◌, ◌≤ℤ◌}
use license_proxyserver.Clock.{second, until}
use license_proxyserver.Kube.{ObjectKey}
use license_proxyserver.SecretFs.{SecretFs, write_file, delete_file}
use license_proxyserver.SecretFs.Files.{Files, files, write_file-Files, delete_file-Files}
use license_proxyserver.Syncer
use license_proxyserver.Syncer.Synced.{Ends, reconcile-Ends}
use license_proxyserver.Acquirer.{Host, LicenseAcquirer, ttl}
use license_proxyserver.Acquirer.Loop.{requeue_after, reconcile_secret}
use license_proxyserver.Acquirer.Loop
use license_proxyserver.Acquirer.Reconcile.{Handled, reconcile-Handled}
use license_proxyserver.Acquirer.Requeue.{requeue_after-le}
use license_proxyserver.Acquirer.Cached.{CacheSound}
use license_proxyserver.Acquirer.Reconciled
use license_proxyserver.Acquirer.Reconciled.{reconcile_secret-Ends, before, secret_key}
use license_proxyserver.Storage.Registry.{LicenseRegistry}
use license_proxyserver.Storage.Registry.Sound.{IsSound}
use license_proxyserver.Tests.Samples.{
  sooner, order, Issued, authority, later, verifier, signs, kubedb, stash,
}
use license_proxyserver.Tests.Services.{claims, kube, kube-IsKubeClient, Contents}
use license_proxyserver.Tests.Registries.{midnight, one, one-IsSound}

abbrev secret_fs : SecretFs
secret_fs = record { key = record { namespace = text "kubeops"; name = text "licenses" } }

abbrev pub stocked : Contents
stocked = some ((text "a", text "abc") ∷ [])

write_file-Files_example :
    Files kube secret_fs (write_file kube secret_fs stocked (text "b") (text "xy")).0 (λ p.
      ite (str (text "b") p) (some (text "xy")) (files kube kube-IsKubeClient secret_fs stocked p))
unfolding write_file
write_file-Files_example =
    write_file-Files kube kube-IsKubeClient secret_fs stocked (text "b") (text "xy") refl

delete_file-Files_example :
    Files kube secret_fs
      (delete_file kube secret_fs stocked (text "a")).0
      (λ p. ite (str (text "a") p) none (files kube kube-IsKubeClient secret_fs stocked p))
unfolding delete_file Dict.lookup str
delete_file-Files_example =
    delete_file-Files kube kube-IsKubeClient secret_fs stocked (text "a") refl

abbrev pub request : ObjectKey
request = record { namespace = text "cluster1"; name = text "license-proxyserver-licenses" }

reconcile-Ends_example :
    Returns
      (Ends sooner Issued order authority verifier signs kube kube kube-IsKubeClient
        (text "kubeops")
        (text "uid")
        (text "CA")
        midnight
        request
        stocked
        one
        none)
      (Syncer.reconcile sooner verifier kube kube
        (text "kubeops")
        (text "uid")
        (text "CA")
        midnight
        request
        stocked
        one
        none)
reconcile-Ends_example =
    reconcile-Ends sooner Issued order authority verifier signs kube kube kube-IsKubeClient
      (text "kubeops") (text "uid") (text "CA") midnight request stocked one none one-IsSound

requeue_after-le_example :
    requeue_after midnight (pos (7200 * second)) ≤ℤ until midnight (pos (10800 * second) -ℤ ttl)
requeue_after-le_example =
    requeue_after-le midnight (pos (7200 * second)) (pos (10800 * second)) (refl, omega arith)

-- a server that gives every cluster a license
abbrev pub host : Host
host = record {
  mkdir_all = λ dir. none;
  new_client = λ url token cid cert insecure agent. ok (λ features. ok (text "lic", none));
  user_agent = text "license-proxyserver-manager/v0";
}

abbrev acquirer : LicenseAcquirer
acquirer = record {
  base_url = text "https://example.com";
  token = text "t";
  ca_cert = [];
  insecure_skip_tls_verify = false;
  cache_dir = text "/cache";
  license_cache = (text "uid", one) ∷ [];
}

found_single :
    (x reg : LicenseRegistry) (k cid : Text)
    → Dict.lookup str cid ((k, x) ∷ []) ≡ some reg
    → x ≡ reg
unfolding Dict.lookup
found_single x reg k cid e = ground (arith, e)

acquirer-CacheSound : CacheSound sooner Issued midnight acquirer
acquirer-CacheSound cid reg e =
    subst (IsSound sooner Issued midnight) (found_single one reg (text "uid") cid e) one-IsSound

reconcile_secret-Ends_example :
    Returns
      (λ res.
        Reconciled.Ends sooner Issued order authority later verifier signs host kube
          kube-IsKubeClient midnight
          (text "uid")
          res.0
          (kubedb ∷ stash ∷ [])
          (before sooner Issued order authority later verifier signs host kube kube-IsKubeClient
            midnight
            (text "uid")
            none
            (secret_key sooner Issued order authority later verifier signs host kube
              kube-IsKubeClient midnight
              (text "uid")
              (text "cluster1")))
          res)
      (reconcile_secret sooner verifier host kube midnight acquirer
        (text "cluster1")
        (text "uid")
        (kubedb ∷ stash ∷ [])
        none)
reconcile_secret-Ends_example =
    reconcile_secret-Ends sooner Issued order authority later verifier signs host kube
      kube-IsKubeClient midnight (text "uid") acquirer (text "cluster1") (kubedb ∷ stash ∷ []) none
      acquirer-CacheSound

reconcile-Handled_example :
    Returns
      (Handled sooner Issued order authority later verifier signs host kube kube-IsKubeClient
        midnight
        (record { name = text "cluster1"; cluster_claims = claims })
        none)
      (Loop.reconcile sooner verifier host kube midnight
        (record { namespace = []; name = text "cluster1" })
        acquirer
        none)
reconcile-Handled_example =
    reconcile-Handled sooner Issued order authority later verifier signs host kube kube-IsKubeClient
      midnight (record { namespace = []; name = text "cluster1" }) acquirer none
      (record { name = text "cluster1"; cluster_claims = claims }) refl acquirer-CacheSound
