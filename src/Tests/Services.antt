-- ===== src/Tests/Services.antt =====
-- A cluster with a single secret, which every key reads, a cluster with a single claim, and string
-- sets as lists.
use mathlib.Core.Bool.{Bool-set}
use mathlib.Core.Logic.Or
use mathlib.Core.Logic.{∨₁_prop}
use mathlib.Core.List.{mem-append, mem-cons, mem-cons_self, mem-cons_of_mem, not-mem-nil}
use license_proxyserver.Base.{
  Text, str, text, List, [], ◌∷◌, ◌++◌, Mem, Option, none, some, Bool, true, false, not, ◌&&◌, ◌≡◌,
  ◌↔◌, inl, inr, refl, sym, subst, ap, arith, ite, if◌then◌else◌, Bool-cases, Result, ok, err,
  not_found, message, done, length,
}
use license_proxyserver.Kube.{
  ManagedClusterClaim, ObjectKey, Secret, entries, empty_secret, VerbType, KubeClient, IsKubeClient,
  Holds,
}
use license_proxyserver.Request.{ClusterClaim, SpokeClient, StringSets}
use license_proxyserver.Request.Claiming.{IsSpokeClient}
use license_proxyserver.Request.Merging.{IsStringSets}

abbrev pub Contents : Type 0
Contents = Option (List (Text × Text))

abbrev pub read : Contents → ObjectKey → Result Secret
read none key = err (not_found key.name)
read (some m) key = ok (record { key = key; data_map = some m })

abbrev pub base : Contents → ObjectKey → Secret
base c key = record { key = key; data_map = c }

-- the claims of every cluster
abbrev pub claims : List ManagedClusterClaim
claims =
    record { name = text "id.k8s.io"; value = text "uid" }
    ∷ record { name = text "licenses.appscode.com"; value = text "kubedb,stash" }
    ∷ []

abbrev pub kube : KubeClient
kube = record {
  State = Contents;
  get_managed_cluster = λ c key. ok (record { name = key.name; cluster_claims = claims });
  get_secret = read;
  create_secret = λ c secret. (some (entries secret.data_map), none);
  update_secret = λ c secret. (some (entries secret.data_map), none);
  patch_secret = λ c old secret. (some (entries secret.data_map), none);
  create_or_patch = λ c key f. (some (entries (f (base c key)).data_map), ok VerbType.patched);
}

held : (c : Contents) (secret : Secret) → c ≡ some (entries secret.data_map) → Holds kube c secret
held c secret e =
    subst (λ x. Holds kube x secret) (sym e)
      (record {
        object = record { key = secret.key; data_map = some (entries secret.data_map) };
        there = refl;
        same_entries = λ path. refl;
      })

changed :
    (c c' : Contents) (key : ObjectKey) (f : Secret → Secret) (old : Secret)
    → base c key ≡ old
    → some (entries (f (base c key)).data_map) ≡ c'
    → Holds kube c' (f old)
changed c c' key f old e p =
    held c' (f old) (sym (subst (λ x. some (entries (f x).data_map) ≡ c') e p))

base-read : (c : Contents) (key : ObjectKey) (old : Secret) → read c key ≡ ok old → base c key ≡ old
base-read none key old e = absurd (cc)
base-read (some m) key old e = cc

base-missing :
    (c : Contents) (key : ObjectKey) (e : license_proxyserver.Base.Error)
    → read c key ≡ err e
    → base c key ≡ empty_secret key
base-missing none key e q = refl
base-missing (some m) key e q = absurd (cc)

read-key :
    (c : Contents) (key : ObjectKey) (secret : Secret) → read c key ≡ ok secret → secret.key ≡ key
read-key none key secret e = absurd (cc)
read-key (some m) key secret e = sym (ap (λ s. s.key) (base-read (some m) key secret e))

pub kube-IsKubeClient : IsKubeClient kube
kube-IsKubeClient = record {
  after_create = λ s s' secret e. held s' secret (sym (ap (λ p. p.0) e));
  after_update = λ s s' secret e. held s' secret (sym (ap (λ p. p.0) e));
  after_patch = λ s s' old secret there same e. held s' secret (sym (ap (λ p. p.0) e));
  after_patched = λ s s' key f v old there keeps e.
      changed s s' key f old (base-read s key old there) (ap (λ p. p.0) e);
  after_created = λ s s' key f v e gone keeps q.
      changed s s' key f (empty_secret key) (base-missing s key e gone) (ap (λ p. p.0) q);
  keyed = read-key;
}

abbrev pub read_claim : Option Text → Text → Result ClusterClaim
read_claim none name = err (not_found name)
read_claim (some value) name = ok (record { name = name; value = value })

abbrev pub spoke : SpokeClient
spoke = record {
  State = Option Text;
  is_open_cluster_spoke = λ s. done true;
  get_claim = read_claim;
  update_claim = λ s ca. (some ca.value, none);
  create_claim = λ s ca. (some ca.value, none);
}

written : (s : Option Text) (ca : ClusterClaim) → some ca.value ≡ s → read_claim s ca.name ≡ ok ca
written s ca e = subst (λ x. read_claim x ca.name ≡ ok ca) e refl

claim-name :
    (s : Option Text) (name : Text) (ca : ClusterClaim) → read_claim s name ≡ ok ca → ca.name ≡ name
claim-name none name ca e = absurd (cc)
claim-name (some value) name ca e = cc

pub spoke-IsSpokeClient : IsSpokeClient spoke
spoke-IsSpokeClient = record {
  get-update = λ s s' ca e. written s' ca (ap (λ p. p.0) e);
  get-create = λ s s' ca e. written s' ca (ap (λ p. p.0) e);
  named = claim-name;
}

abbrev pub has : List Text → Text → Bool
has [] x = false
has (y ∷ l) x = ite (str y x) true (has l x)

abbrev pub without : List Text → List Text → List Text
without [] b = []
without (x ∷ a) b = if has b x then without a b else x ∷ without a b

abbrev pub string_sets : StringSets
string_sets = record {
  Set = List Text;
  new = λ l. l;
  difference = without;
  len = length;
  insert = λ a l. a ++ l;
  unsorted_list = λ a. a;
  list = λ a. a;
}

has-mem : (l : List Text) (x : Text) → has l x ≡ true → Mem x l
has-mem [] x h = absurd (cc)
has-mem (y ∷ l) x h = elim (str y x) [
  | yes p ↦ rw p mem-cons_self
  | no n ↦ mem-cons_of_mem y (has-mem l x (ground (arith, h)))
]

mem-has : (l : List Text) (x : Text) → Mem x l → has l x ≡ true
mem-has [] x i = absurd (not-mem-nil i)
mem-has (y ∷ l) x i =
    Or.elim (Bool-set _ _) (mem-cons.0 i) (λ p. ground (arith, p))
      (λ j. ground (arith, mem-has l x j))

has-without : (a b : List Text) (x : Text) → has (without a b) x ≡ (has a x && not (has b x))
has-without [] b x = refl
has-without (y ∷ a) b x = elim (Bool-cases (has b y)) [
  | inl h ↦ rw h (ground (arith, h, has-without a b x))
  | inr h ↦ rw h (ground (arith, h, has-without a b x))
]

len_zero : (a : List Text) → length a ≡ 0 → (x : Text) → has a x ≡ false
len_zero [] h x = refl
len_zero (y ∷ a) h x = absurd (omega arith)

pub string_sets-IsStringSets : IsStringSets string_sets
string_sets-IsStringSets = record {
  has = has;
  has-new = λ l x. (has-mem l x, mem-has l x);
  has-difference = has-without;
  len-zero = len_zero;
  has-insert = λ a l x. (
    (λ h.
        Or.elim ∨₁_prop (mem-append.0 (has-mem (a ++ l) x h)) (λ i. Or.inl (mem-has a x i))
          (λ i. Or.inr i)),
    (λ h.
        mem-has (a ++ l) x
          (mem-append.1 (Or.elim ∨₁_prop h (λ e. Or.inl (has-mem a x e)) (λ i. Or.inr i)))),
  );
  mem-unsorted_list = λ a x. (mem-has a x, has-mem a x);
  mem-list = λ a x. (mem-has a x, has-mem a x);
}
