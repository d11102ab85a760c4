-- ===== src/Table.antt =====
-- pkg/registry/proxyserver/licensestatus/table.go: LicenseStatus objects as the rows of a table. A column
-- has its name and format; the type, always `string`, and the descriptions are left out.
pub mod Rows
use license_proxyserver.Base.{
  Text, str, text, List, [], ◌∷◌, Option, none, some, Bool, true, false, ite, not, if◌then◌else◌,
  Result, ok, err, Error,
}
use license_proxyserver.Base.Int.{ℤ, ◌-ℤ◌, ltb_ℤ}
use license_proxyserver.Api.{Time, Contract, UserInfo, LicenseStatus}
use license_proxyserver.Clock.{Duration, saturate, is_zero}

-- What the convertor meets: a LicenseStatus, another object with its name, or a value without
-- metadata, for which meta.Accessor gives an error.
pub data Object : Type 0 where
  license_status : LicenseStatus → Object
  named : Text → Object
  bare : Object

-- the metadata of a list
pub record ListMeta : Type 0 where
  pub resource_version : Text
  pub continue_token : Text
  pub remaining_item_count : Option ℤ

-- One object, with its resource version, or a list of them.
pub data Input : Type 0 where
  single : Text → Object → Input
  items : ListMeta → List Object → Input

pub record TableRow : Type 0 where
  pub cells : List Text
  pub object : Object

pub record TableColumn : Type 0 where
  pub name : Text
  pub format : Text

pub record Table : Type 0 where
  pub metadata : ListMeta
  pub columns : List TableColumn
  pub rows : List TableRow

abbrev column : Text → TableColumn
column name = record { name = name; format = [] }

unfoldable pub column_definitions : List TableColumn
column_definitions =
    record { name = text "Id"; format = text "name" }
    ∷ column (text "Product")
    ∷ column (text "Requester")
    ∷ column (text "Contract")
    ∷ column (text "Valid")
    ∷ column (text "Rotates")
    ∷ []

-- duration.HumanDuration is a parameter, and so is the error of a value without metadata.
module _ (human_duration : Duration → Text) (not_acceptable : Error) where
  -- convertToHumanReadableDateType
  unfoldable pub human_readable : Time → Time → Text
  unfolding saturate ◌-ℤ◌
  human_readable now timestamp =
      if is_zero timestamp
      then text "<unknown>"
      else human_duration
          (if ltb_ℤ timestamp now then saturate (now -ℤ timestamp) else saturate (timestamp -ℤ now))

  unfoldable pub username : Option UserInfo → Text
  username none = []
  username (some user) = user.username

  unfoldable pub contract_cells : Time → Option Contract → Text × Text
  unfolding human_readable
  contract_cells now none = ([], [])
  contract_cells now (some c) = (c.id, human_readable now c.expiry_timestamp)

  unfoldable pub end_cell : Time → Option Time → Text
  unfolding human_readable
  end_cell now none = []
  end_cell now (some t) = human_readable now t

  -- the function `fn`: the row of an object
  unfoldable pub row : Time → Object → Result TableRow
  unfolding username contract_cells end_cell
  row now bare = err not_acceptable
  row now (named name) =
      ok (record { cells = name ∷ [] ∷ [] ∷ [] ∷ [] ∷ [] ∷ []; object = named name })
  row now (license_status o) =
      let (id, ends) = contract_cells now o.status.contract in
      ok (record {
        cells =
            o.name
            ∷ o.status.license.product_line
            ∷ username o.spec.user
            ∷ id
            ∷ ends
            ∷ end_cell now o.status.license.not_after
            ∷ [];
        object = license_status o;
      })

  -- meta.EachListItem with `fn`
  unfoldable pub each_item : Time → List Object → Result (List TableRow)
  unfolding row
  each_item now [] = ok []
  each_item now (o ∷ objects) = elim (row now o) [
    | err e ↦ err e
    | ok r ↦ elim (each_item now objects) [ err e ↦ err e | ok rows ↦ ok (r ∷ rows) ]
  ]

  unfoldable pub rows_of : Time → Input → Result (List TableRow)
  unfolding each_item
  rows_of now (items meta objects) = each_item now objects
  rows_of now (single version o) = each_item now (o ∷ [])

  unfoldable pub metadata_of : Input → ListMeta
  metadata_of (items meta objects) = meta
  metadata_of (single version o) = record {
    resource_version = version;
    continue_token = [];
    remaining_item_count = none;
  }

  -- ConvertToTable, with the option that leaves the headers out
  unfoldable pub convert_to_table : Time → Bool → Input → Result Table
  unfolding rows_of metadata_of column_definitions
  convert_to_table now no_headers input = elim (rows_of now input) [
    | err e ↦ err e
    | ok rows ↦ ok (record {
      metadata = metadata_of input;
      columns = if no_headers then [] else column_definitions;
      rows = rows;
    })
  ]
