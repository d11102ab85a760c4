-- ===== src/SecretFs.antt =====
-- pkg/secretfs/lib.go: a file system in the entries of one Secret.
pub mod Files
use license_proxyserver.Base.{
  Text, str, text, List, [], ◌∷◌, ◌++◌, Option, none, some, Bool, true, false, Run, done, panic,
  Result, ok, err, Error, message,
}
use license_proxyserver.Base.Dict
use license_proxyserver.Kube.{ObjectKey, Secret, entries, VerbType, KubeClient}

pub record SecretFs : Type 0 where
  pub key : ObjectKey

unfoldable pub new : ObjectKey → SecretFs
new secret = record { key = secret }

-- the change that WriteFile makes to the secret
unfoldable pub put : Text → Text → Secret → Secret
put filepath bytes secret = record secret {
  data_map = some (Dict.insert str filepath bytes (entries secret.data_map));
}

module _ (k : KubeClient) (s : SecretFs) where
  unfoldable pub write_file : k.State → Text → Text → k.State × Option Error
  unfolding put
  write_file c filepath bytes =
      let (c', res) = k.create_or_patch c s.key (put filepath bytes) in
      (c', elim res [ ok v ↦ none | err e ↦ some e ])

  unfoldable pub read_file : k.State → Text → Result Text
  read_file c filepath = elim (k.get_secret c s.key) [
    | err e ↦ err e
    | ok obj ↦ elim (Dict.lookup str filepath (entries obj.data_map)) [
      | none ↦ err (message (text "mimssing file in secret"))
      | some bytes ↦ ok bytes
    ]
  ]

  unfoldable pub delete_file : k.State → Text → k.State × Option Error
  delete_file c filepath = elim (k.get_secret c s.key) [
    | err e ↦ (c, some e)
    | ok secret ↦ elim (Dict.lookup str filepath (entries secret.data_map)) [
      | none ↦ (c, none)
      | some _ ↦
          k.patch_secret c secret
            (record secret { data_map = some (Dict.delete str filepath (entries secret.data_map)) })
    ]
  ]

  unfoldable pub exists : k.State → Text → Result Bool
  exists c filepath = elim (k.get_secret c s.key) [
    | err e ↦ err e
    | ok obj ↦ elim (Dict.lookup str filepath (entries obj.data_map)) [
      | none ↦ ok false
      | some _ ↦ ok true
    ]
  ]

  unfoldable pub signed_url : Text → Run Text
  signed_url path = panic
