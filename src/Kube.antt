-- ===== src/Kube.antt =====
-- The Secrets and ManagedClusters of a Kubernetes cluster, and the calls of the client that the
-- program makes on them. The client is a parameter, with what its documentation promises.
use license_proxyserver.Base.{Text, str, List, [], Option, none, some, ◌≡◌, Result, ok, err, Error}
use license_proxyserver.Base.Dict

pub record ObjectKey : Type 0 where
  pub namespace : Text
  pub name : Text

-- `data_map` is none for a nil map.
pub record Secret : Type 0 where
  pub key : ObjectKey
  pub data_map : Option (List (Text × Text))

-- The entries of a map that may be nil.
abbrev pub entries : Option (List (Text × Text)) → List (Text × Text)
entries none = []
entries (some m) = m

-- what CreateOrPatch did
pub data VerbType : Type 0 where
  created patched unchanged : VerbType

-- an entry of the status of a ManagedCluster
pub record ManagedClusterClaim : Type 0 where
  pub name : Text
  pub value : Text

pub record ManagedCluster : Type 0 where
  pub name : Text
  pub cluster_claims : List ManagedClusterClaim

pub record KubeClient : Type 1 where
  pub State : Type 0
  pub get_managed_cluster : State → ObjectKey → Result ManagedCluster
  pub get_secret : State → ObjectKey → Result Secret
  pub create_secret : State → Secret → State × Option Error
  pub update_secret : State → Secret → State × Option Error
  -- client.Patch with a merge patch of the first secret and the second
  pub patch_secret : State → Secret → Secret → State × Option Error
  -- CreateOrPatch of kmodules.xyz/client-go, with the function that changes the secret
  pub create_or_patch : State → ObjectKey → (Secret → Secret) → State × Result VerbType

-- the entry of a secret, if there is one
abbrev pub entry : Secret → Text → Option Text
entry secret path = Dict.lookup str path (entries secret.data_map)

abbrev pub empty_secret : ObjectKey → Secret
empty_secret key = record { key = key; data_map = none }

module _ (k : KubeClient) where
  -- In `s` the secret is there, with the entries of `secret`.
  pub record Holds (s : k.State) (secret : Secret) : Type 0 where
    pub object : Secret
    pub there : k.get_secret s secret.key ≡ ok object
    pub same_entries : (path : Text) → entry object path ≡ entry secret path

  -- A write that succeeds can be read back. Only the entries are: a nil map and an empty one may be
  -- stored as the same.
  pub record IsKubeClient : Type 0 where
    pub after_create :
        (s s' : k.State) (secret : Secret) → k.create_secret s secret ≡ (s', none) → Holds s' secret
    pub after_update :
        (s s' : k.State) (secret : Secret) → k.update_secret s secret ≡ (s', none) → Holds s' secret
    pub after_patch :
        (s s' : k.State) (old secret : Secret)
        → k.get_secret s old.key ≡ ok old
        → secret.key ≡ old.key
        → k.patch_secret s old secret ≡ (s', none)
        → Holds s' secret
    -- CreateOrPatch changes the secret that is there, or an empty one.
    pub after_patched :
        (s s' : k.State) (key : ObjectKey) (f : Secret → Secret) (v : VerbType) (old : Secret)
        → k.get_secret s key ≡ ok old
        → ((secret : Secret) → (f secret).key ≡ secret.key)
        → k.create_or_patch s key f ≡ (s', ok v)
        → Holds s' (f old)
    pub after_created :
        (s s' : k.State) (key : ObjectKey) (f : Secret → Secret) (v : VerbType) (e : Error)
        → k.get_secret s key ≡ err e
        → ((secret : Secret) → (f secret).key ≡ secret.key)
        → k.create_or_patch s key f ≡ (s', ok v)
        → Holds s' (f (empty_secret key))
    pub keyed :
        (s : k.State) (key : ObjectKey) (secret : Secret)
        → k.get_secret s key ≡ ok secret
        → secret.key ≡ key
