-- ===== src/Storage/Loader.antt =====
-- pkg/storage/loader.go: the licenses of a directory are added to the registry. The file system is
-- a parameter, which the calls read as it stands; the file calls of the registry are recorded apart
-- from it.
pub mod Lasting
pub mod Loaded
use license_proxyserver.Base.{
  Text, text, List, [], ◌∷◌, Option, none, some, Bool, true, false, not, if◌then◌else◌, Run, done,
  deref, ◌>>=◌, Result, ok, err, Error, wrapped,
}
use license_proxyserver.Base.Int.{ltb_ℤ}
use license_proxyserver.Api.{License, Time}
use license_proxyserver.Clock.{until, min_remaining_life}
use license_proxyserver.Verifier.{Verifier}
use license_proxyserver.Storage.Registry.{LicenseRegistry, add, join}

pub data FileType : Type 0 where
  regular directory symlink other : FileType

-- os.DirEntry
pub record DirEntry : Type 0 where
  pub name : Text
  pub type_of : FileType

pub record FileSystem : Type 0 where
  pub read_dir : Text → Result (List DirEntry)
  pub read_file : Text → Result Text
  pub eval_symlinks : Text → Result Text
  -- os.Stat, and whether the file is a directory
  pub stat : Text → Result Bool

abbrev pub is_directory : FileType → Bool
is_directory directory = true
is_directory _ = false

abbrev pub is_symlink : FileType → Bool
is_symlink symlink = true
is_symlink _ = false

unfoldable pub is_symlink_to_dir : FileSystem → Text → DirEntry → Result Bool
unfolding join
is_symlink_to_dir fs dir entry =
    if not (is_symlink entry.type_of)
    then ok false
    else elim (fs.eval_symlinks (join dir entry.name)) [ err e ↦ err e | ok path ↦ fs.stat path ]

module _ (less : License → License → Bool) where
  -- `if time.Until(license.NotAfter.Time) >= MinRemainingLife`, and Add
  unfoldable pub add_lasting : Time → LicenseRegistry → License → Run LicenseRegistry
  add_lasting now reg l = do
    not_after ← deref l.not_after
    if ltb_ℤ (until now not_after) min_remaining_life then done reg else add less reg l none

  module _ {Certificate : Type 0} (v : Verifier Certificate) (fs : FileSystem) (cid dir : Text)
      (ca_cert : Certificate) where
    -- the rest of the loop's body, for an entry that is no directory
    unfoldable pub load_file :
        Time → LicenseRegistry → DirEntry → Run (LicenseRegistry × Option Error)
    unfolding add_lasting join
    load_file now reg entry = elim (fs.read_file (join dir entry.name)) [
      | err e ↦ done (reg, some (wrapped (text "failed to load file") e))
      | ok bytes ↦ elim (v.parse_license cid ca_cert bytes) [
        | err e ↦ done (reg, none)
        | ok l ↦ add_lasting now reg l >>= λ reg. done (reg, none)
      ]
    ]

    unfoldable pub load_entry :
        Time → LicenseRegistry → DirEntry → Run (LicenseRegistry × Option Error)
    unfolding load_file is_symlink_to_dir
    load_entry now reg entry =
        if is_directory entry.type_of
        then done (reg, none)
        else elim (is_symlink_to_dir fs dir entry) [
          | err e ↦ done (reg, some e)
          | ok true ↦ done (reg, none)
          | ok false ↦ load_file now reg entry
        ]

    unfoldable pub load_entries :
        Time → LicenseRegistry → List DirEntry → Run (LicenseRegistry × Option Error)
    unfolding load_entry
    load_entries now reg [] = done (reg, none)
    load_entries now reg (entry ∷ entries) = load_entry now reg entry >>= λ (reg, e). elim e [
      | some failed ↦ done (reg, some failed)
      | none ↦ load_entries now reg entries
    ]

  unfoldable pub load_dir :
      {Certificate : Type 0}
      → Verifier Certificate
      → FileSystem
      → Text
      → Text
      → Time
      → LicenseRegistry
      → Run (LicenseRegistry × Option Error)
  unfolding load_entries
  load_dir v fs cid dir now reg = elim v.load_license_ca [
    | err e ↦ done (reg, some e)
    | ok ca_data ↦ elim (v.parse_certificate ca_data) [
      | err e ↦ done (reg, some e)
      | ok ca_cert ↦ elim (fs.read_dir dir) [
        | err e ↦ done (reg, some (wrapped (text "failed to read dir") e))
        | ok entries ↦ load_entries v fs cid dir ca_cert now reg entries
      ]
    ]
  ]
