-- ===== src/Tests/ClaimExamples.antt =====
-- A feature that is claimed on a spoke cluster: the acquirer, the syncer and Create.
use mathlib.Core.HLevel.{×_prop, ¬_prop}
use mathlib.Core.List.{mem-cons_of_mem, mem-cons_self}
use license_proxyserver.Base.{
  false, true, some, arith, ◌∙◌, Text, text, [], ◌∷◌, none, refl, sym, subst, ap, ok, Returns, ◌≡◌,
  ◌≢◌,
}
use license_proxyserver.Base.Dict
use license_proxyserver.Api.{License, LicenseRequest}
use license_proxyserver.Clock.{min_remaining_life}
use license_proxyserver.Storage.RecordBook.{new_record_book}
use license_proxyserver.Storage.Registry.{new_license_registry}
use license_proxyserver.Storage.Registry.Sound.{IsAuthority, IsSound, new-IsSound}
use license_proxyserver.Request.Finding.{Signs}
use license_proxyserver.Acquirer.{LicenseAcquirer, get_new_license}
use license_proxyserver.Acquirer.Loop.{is_active, reconcile_secret}
use license_proxyserver.Acquirer.Cached.{CacheSound}
use license_proxyserver.Acquirer.Refreshing.{EndsLater}
use license_proxyserver.Delivery.Issuing.{IsIssuer, Grants, key_of}
use license_proxyserver.Delivery.Acquiring.{Later, Delivered, reconcile_secret-Delivered}
use license_proxyserver.Tests.Samples.{
  Issued, sooner, order, authority, later, verifier, parse, kubedb, stash, license, user,
}
use license_proxyserver.Tests.Services.{spoke, string_sets, kube, kube-IsKubeClient}
use license_proxyserver.Tests.Registries.{midnight, start}
use license_proxyserver.Tests.DeliveryExamples.{start-rb, one_o_clock}
use license_proxyserver.Tests.ManagerExamples.{host}

-- licenses as the parser reads them
abbrev pub Whole : License → Type 0
Whole l = (l ≡ license l.id (kubedb ∷ stash ∷ [])) × (l.id ≢ [])

license_set : IsSet License
license_set = hlevel

whole_dated : (l : License) → Whole l → Issued l
whole_dated l h = ap (λ (l : License). l.not_after) h.0

pub whole : IsAuthority Whole
whole = record {
  prop = λ l. ×_prop (license_set _ _) ¬_prop;
  dated = λ l h. authority.dated l (whole_dated l h);
  identified = λ l m h k e. authority.identified l m (whole_dated l h) (whole_dated m k) e;
}

pub whole-EndsLater : EndsLater Whole
whole-EndsLater l h t e = later l (whole_dated l h) t e

parse-Whole : (bytes : Text) (l : License) → parse bytes ≡ ok l → Whole l
parse-Whole [] l e = absurd (cc)
parse-Whole (c ∷ bytes) l e =
    let same : license (c ∷ bytes) (kubedb ∷ stash ∷ []) ≡ l = cc in
    subst Whole same (refl, λ q. cc)

pub whole_signs : Signs verifier Whole
whole_signs cid cert bytes l e = parse-Whole bytes l e

read_back : (id : Text) → id ≢ [] → parse id ≡ ok (license id (kubedb ∷ stash ∷ []))
read_back [] n = absurd (n refl)
read_back (c ∷ id) n = refl

features_of : (l : License) → Whole l → l.features ≡ kubedb ∷ stash ∷ []
features_of l h = ap (λ (l : License). l.features) h.0

pub whole-IsIssuer : IsIssuer Whole verifier (text "uid") (text "CA")
whole-IsIssuer = record {
  by_id = λ l m h k e. features_of l h ∙ sym (features_of m k);
  by_plan = λ l m h k e. features_of l h ∙ sym (features_of m k);
  active = λ l h. ap (λ (l : License). is_active l.status) h.0;
  reads = λ l h. subst (λ m. parse m.contents ≡ ok m) (sym h.0) (read_back l.id h.1);
}

pub host-Grants : Grants verifier host (text "uid") stash
unfolding get_new_license
host-Grants r =
    (license (text "lic") (kubedb ∷ stash ∷ []), none, refl, mem-cons_of_mem kubedb mem-cons_self)

abbrev pub acquirer : LicenseAcquirer
acquirer = record {
  base_url = text "https://example.com";
  token = text "t";
  ca_cert = [];
  insecure_skip_tls_verify = false;
  cache_dir = text "/cache";
  license_cache = [];
}

pub nothing_cached : CacheSound sooner Whole midnight acquirer
unfolding Dict.lookup
nothing_cached cid reg e = absurd (cc)

pub whole_start : IsSound sooner Whole midnight start
unfolding new_record_book Dict.lookup
whole_start =
    new-IsSound sooner Whole midnight (text "/cache") min_remaining_life (some new_record_book)
      (λ id h. absurd (h refl))

pub start-ttl : start.ttl ≡ min_remaining_life
unfolding new_license_registry
start-ttl = refl

abbrev pub wanted : LicenseRequest
wanted = record { request = some (record { features = stash ∷ [] }); response = none }

-- a spoke cluster without licenses, that asks an hour after the syncer has run
abbrev pub an_hour_on : Later sooner Whole kube spoke stash
an_hour_on = record {
  synced = midnight;
  asked = one_o_clock;
  reg = start;
  state = none;
  user = user;
  req = wanted;
  request = record { features = stash ∷ [] };
  c = none;
  is_spoke = true;
  sound = whole_start;
  ttl = start-ttl;
  book = start-rb;
  after = omega arith;
  requested = refl;
  wanted = mem-cons_self;
  test = refl;
}

reconcile_secret-Delivered_example :
    Returns
      (λ (r', s', due, errs).
        errs ≡ []
        → Delivered sooner Whole order whole whole-EndsLater verifier whole_signs host kube kube
            kube-IsKubeClient kube-IsKubeClient
            (text "kubeops")
            (text "uid")
            (text "CA")
            whole-IsIssuer
            stash
            host-Grants
            midnight
            spoke
            string_sets
            none
            an_hour_on
            (key_of (text "cluster1"))
            s')
      (reconcile_secret sooner verifier host kube midnight acquirer
        (text "cluster1")
        (text "uid")
        (kubedb ∷ stash ∷ [])
        none)
reconcile_secret-Delivered_example =
    reconcile_secret-Delivered sooner Whole order whole whole-EndsLater verifier whole_signs host
      kube kube kube-IsKubeClient kube-IsKubeClient (text "kubeops") (text "uid") (text "CA")
      whole-IsIssuer stash host-Grants midnight spoke string_sets none an_hour_on acquirer
      (text "cluster1") (kubedb ∷ stash ∷ []) none nothing_cached
      (mem-cons_of_mem kubedb mem-cons_self)
