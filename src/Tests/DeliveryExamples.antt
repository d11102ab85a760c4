-- ===== src/Tests/DeliveryExamples.antt =====
-- A license that the hub cluster's secret brings, and a user who asks for its feature.
use license_proxyserver.Base.{
  subst, arith, ok, ◌*◌, ◌≡◌, sym, ◌≢◌, Text, ◌∙◌, List, str, Returns, text, [], ◌∷◌, none, some,
  true, refl,
}
use license_proxyserver.Storage.Registry.{new_license_registry, add, get, Record}
use mathlib.Core.List.{mem-cons_self}
use mathlib.Core.HLevel.{×_prop}
use license_proxyserver.Api.{License, Time}
use license_proxyserver.Clock.{min_remaining_life}
use license_proxyserver.Heap
use license_proxyserver.Kube.{Secret}
use license_proxyserver.Request.{create}
use license_proxyserver.Request.Finding.{Signs}
use license_proxyserver.Syncer
use license_proxyserver.Storage.RecordBook.{new_record_book}
use license_proxyserver.Storage.Registry.Invariant.{is_live}
use license_proxyserver.Storage.Registry.Sound.{IsAuthority, IsSound, new-IsSound}
use license_proxyserver.Base.Dict
use license_proxyserver.Base.Int.{pos}
use license_proxyserver.Clock.{second, until}
use license_proxyserver.Tests.Samples.{
  sooner, order, Issued, authority, verifier, parse, signs, long_lived, kubedb, stash, user,
  license,
}
use license_proxyserver.Tests.Services.{spoke, string_sets, kube, kube-IsKubeClient}
use license_proxyserver.Tests.Registries.{midnight, two, two-IsSound, start}
use license_proxyserver.Tests.ServerExamples.{asked, storage, book-present}
use license_proxyserver.Tests.ManagerExamples.{request, stocked}
use license_proxyserver.Delivery.Answering.{Offered, Serves, create-Serves}
use license_proxyserver.Delivery.Syncing.{SameFeatures, Carries, Delivers, reconcile-Delivers}

abbrev record_of : Record
record_of = record { license = long_lived; contract = none }

offered : Offered midnight (kubedb ∷ []) two
unfolding get add new_license_registry Dict.lookup Dict.insert str is_live until Heap.push
offered = record {
  record_of = record_of;
  stored = refl;
  live = refl;
  feature = kubedb;
  asked = mem-cons_self;
  tagged = mem-cons_self;
}

create-Serves_example :
    Returns
      (Serves sooner Issued order authority midnight verifier signs spoke string_sets user
        (kubedb ∷ [])
        storage)
      (create sooner verifier spoke string_sets midnight (some user) asked storage none)
create-Serves_example =
    create-Serves sooner Issued order authority midnight verifier signs spoke string_sets user asked
      (record { features = kubedb ∷ [] }) storage none true refl refl book-present two-IsSound
      offered

-- issued licenses that have both features
abbrev Sealed : License → Type 0
Sealed l = Issued l × (l.features ≡ kubedb ∷ stash ∷ [])

texts_set : IsSet (List Text)
texts_set = hlevel

sealed : IsAuthority Sealed
sealed = record {
  prop = λ l. ×_prop (authority.prop l) (texts_set _ _);
  dated = λ l h. authority.dated l h.0;
  identified = λ l m h k e. authority.identified l m h.0 k.0 e;
}

sealed-SameFeatures : SameFeatures Sealed
sealed-SameFeatures l m h k e = h.1 ∙ sym k.1

parse-sealed : (bytes : Text) (l : License) → parse bytes ≡ ok l → l.features ≡ kubedb ∷ stash ∷ []
parse-sealed [] l e = absurd (cc)
parse-sealed (c ∷ bytes) l e =
    let same : license (c ∷ bytes) (kubedb ∷ stash ∷ []) ≡ l = cc in
    subst (λ l. l.features ≡ kubedb ∷ stash ∷ []) same refl

sealed_signs : Signs verifier Sealed
sealed_signs cid cert bytes l e = (signs cid cert bytes l e, parse-sealed bytes l e)

sealed_start : IsSound sooner Sealed midnight start
unfolding new_record_book Dict.lookup
sealed_start =
    new-IsSound sooner Sealed midnight (text "/cache") min_remaining_life (some new_record_book)
      (λ id h. absurd (h refl))

abbrev src : Secret
src = record { key = request; data_map = stocked }

abbrev carried : Carries verifier (text "uid") (text "CA") src (kubedb ∷ [])
carried = record {
  file = (text "a", text "abc");
  there = mem-cons_self;
  license = license (text "abc") (kubedb ∷ stash ∷ []);
  parses = refl;
  feature = kubedb;
  asked = mem-cons_self;
  tagged = mem-cons_self;
}

pub start-rb : start.rb ≢ none
unfolding new_license_registry
start-rb e = cc

-- an hour later
abbrev pub one_o_clock : Time
one_o_clock = pos (3600 * second)

reconcile-Delivers_example :
    Returns
      (λ res.
        res.2 ≡ none
        → Delivers sooner Sealed order sealed sealed-SameFeatures verifier sealed_signs kube kube
            kube-IsKubeClient
            (text "kubeops")
            (text "uid")
            (text "CA")
            midnight
            spoke
            string_sets
            request
            stocked
            start
            none
            none
            one_o_clock
            user
            asked
            (record { features = kubedb ∷ [] })
            none
            true
            res.0)
      (Syncer.reconcile sooner verifier kube kube
        (text "kubeops")
        (text "uid")
        (text "CA")
        midnight
        request
        stocked
        start
        none)
unfolding is_live until new_license_registry
reconcile-Delivers_example =
    reconcile-Delivers sooner Sealed order sealed sealed-SameFeatures verifier sealed_signs kube
      kube kube-IsKubeClient (text "kubeops") (text "uid") (text "CA") midnight spoke string_sets
      request stocked start none none one_o_clock user asked (record { features = kubedb ∷ [] })
      none true src refl carried sealed_start refl start-rb (omega arith) refl refl refl
