-- ===== src/Table/Rows.antt =====
-- The rows of the table.
use license_proxyserver.Base.Int.{pos, negsuc, ◌≤ℤ◌, ◌<ℤ◌, ◌-ℤ◌, ltb_ℤ}
use license_proxyserver.Base.{
  zero, suc, none, some, text, ◌≢◌, Text, List, [], ◌∷◌, length, Bool, true, false, ◌≡◌, All,
  if◌then◌else◌, refl, arith, ok, Error,
}
use license_proxyserver.Api.{Time, Contract, UserInfo, LicenseStatus}
use license_proxyserver.Clock.{Duration, saturate, is_zero}
use license_proxyserver.Table.{
  ListMeta, human_readable, contract_cells, end_cell, username, Object, license_status, named, bare,
  Input, single, items, TableRow, Table, column_definitions, row, each_item, rows_of, metadata_of,
  convert_to_table,
}

-- the objects of the input, in order
abbrev pub objects_of : Input → List Object
objects_of (single version o) = o ∷ []
objects_of (items meta objects) = objects

abbrev pub name_of : Object → Text
name_of (license_status o) = o.name
name_of (named name) = name
name_of bare = []

abbrev has_metadata : Object → Bool
has_metadata bare = false
has_metadata (named name) = true
has_metadata (license_status o) = true

module _ (human_duration : Duration → Text) (now : Time) where
  -- The cell tells of the time `t`.
  pub record Tells (t : Time) (cell : Text) : Type 0 where
    pub unknown : t ≡ pos 0 → cell ≡ text "<unknown>"
    pub past : t ≢ pos 0 → t <ℤ now → cell ≡ human_duration (saturate (now -ℤ t))
    pub ahead : t ≢ pos 0 → now ≤ℤ t → cell ≡ human_duration (saturate (t -ℤ now))

  -- The cells of a status, in the order of the columns.
  pub record CellsOf (o : LicenseStatus) (cells : List Text) : Type 0 where
    pub requester : Text
    pub contract : Text
    pub valid : Text
    pub rotates : Text
    pub cells_are :
        cells ≡ o.name ∷ o.status.license.product_line ∷ requester ∷ contract ∷ valid ∷ rotates ∷ []
    pub nobody : o.spec.user ≡ none → requester ≡ []
    pub somebody : (u : UserInfo) → o.spec.user ≡ some u → requester ≡ u.username
    pub no_contract : o.status.contract ≡ none → (contract ≡ []) × (valid ≡ [])
    pub contracted :
        (c : Contract)
        → o.status.contract ≡ some c
        → (contract ≡ c.id) × Tells c.expiry_timestamp valid
    pub no_end : o.status.license.not_after ≡ none → rotates ≡ []
    pub ends : (t : Time) → o.status.license.not_after ≡ some t → Tells t rotates

  abbrev pub Cells : Object → List Text → Type 0
  Cells (license_status o) cells = CellsOf o cells
  Cells (named name) cells = cells ≡ name ∷ [] ∷ [] ∷ [] ∷ [] ∷ [] ∷ []
  Cells bare cells = ⊥

  -- The row holds the object, and a cell for each column.
  pub record RowFits (o : Object) (r : TableRow) : Type 0 where
    pub object : r.object ≡ o
    pub cells : Cells o r.cells
    pub full : length r.cells ≡ 6

  -- One row for each object, in the same order.
  abbrev pub RowsFit : List Object → List TableRow → Type 0
  RowsFit [] [] = Unit
  RowsFit [] (r ∷ rows) = ⊥
  RowsFit (o ∷ objects) [] = ⊥
  RowsFit (o ∷ objects) (r ∷ rows) = RowFits o r × RowsFit objects rows

-- The object has metadata.
abbrev pub IsObject : Object → Type 0
IsObject bare = ⊥
IsObject (named name) = Unit
IsObject (license_status o) = Unit

module _ (human_duration : Duration → Text) (not_acceptable : Error) (now : Time) where
  not_zero : (t : Time) → t ≢ pos 0 → is_zero t ≡ false
  not_zero (pos zero) n = absurd (n refl)
  not_zero (pos (suc m)) n = refl
  not_zero (negsuc m) n = refl

  human_readable-Tells :
      (t : Time) → Tells human_duration now t (human_readable human_duration not_acceptable now t)
  unfolding human_readable
  human_readable-Tells t = record {
    unknown = λ e. rw e refl;
    past = λ n before.
        let earlier : ltb_ℤ t now ≡ true = ground (arith, before) in
        rw (not_zero t n, earlier) refl;
    ahead = λ n after.
        let later : ltb_ℤ t now ≡ false = ground (arith, after) in rw (not_zero t n, later) refl;
  }

  row-RowFits :
      (o : Object)
      → IsObject o
      → (r : TableRow) × (row human_duration not_acceptable now o ≡ ok r)
        × RowFits human_duration now o r
  unfolding row contract_cells end_cell username
  row-RowFits bare h = absurd h
  row-RowFits (named name) h = (_, refl, record { object = refl; cells = refl; full = refl })
  row-RowFits (license_status o) h = (
    _,
    refl,
    record {
      object = refl;
      cells = record {
        requester = _;
        contract = _;
        valid = _;
        rotates = _;
        cells_are = refl;
        nobody = λ e. rw e refl;
        somebody = λ u e. rw e refl;
        no_contract = λ e. rw e (refl, refl);
        contracted = λ c e. rw e (refl, human_readable-Tells c.expiry_timestamp);
        no_end = λ e. rw e refl;
        ends = λ t e. rw e (human_readable-Tells t);
      };
      full = refl;
    },
  )

  each_item-RowsFit :
      (objects : List Object)
      → All IsObject objects
      → (rows : List TableRow) × (each_item human_duration not_acceptable now objects ≡ ok rows)
        × RowsFit human_duration now objects rows
  unfolding each_item
  each_item-RowsFit [] h = ([], refl, tt)
  each_item-RowsFit (o ∷ objects) h =
      let (r, e, fits) = row-RowFits o h.0 in
      let (rows, es, rest) = each_item-RowsFit objects h.1 in
      (r ∷ rows, ground (arith, e, es), (fits, rest))

  rows_of-RowsFit :
      (input : Input)
      → All IsObject (objects_of input)
      → (rows : List TableRow) × (rows_of human_duration not_acceptable now input ≡ ok rows)
        × RowsFit human_duration now (objects_of input) rows
  unfolding rows_of
  rows_of-RowsFit (single version o) h = each_item-RowsFit (o ∷ []) h
  rows_of-RowsFit (items meta objects) h = each_item-RowsFit objects h

  -- The metadata of a list is kept, and a single object gives its resource version alone.
  abbrev pub MetadataOf : Input → ListMeta → Type 0
  MetadataOf (items meta objects) m = m ≡ meta
  MetadataOf (single version o) m =
      (m.resource_version ≡ version) × (m.continue_token ≡ []) × (m.remaining_item_count ≡ none)

  metadata_of-MetadataOf :
      (input : Input) → MetadataOf input (metadata_of human_duration not_acceptable input)
  unfolding metadata_of
  metadata_of-MetadataOf (items meta objects) = refl
  metadata_of-MetadataOf (single version o) = (refl, refl, refl)

  -- the table of the input
  pub record Tabled (no_headers : Bool) (input : Input) (t : Table) : Type 0 where
    pub rows : RowsFit human_duration now (objects_of input) t.rows
    pub metadata : MetadataOf input t.metadata
    pub headers : no_headers ≡ false → length t.columns ≡ 6
    pub headless : no_headers ≡ true → t.columns ≡ []

  -- If every object of the input has metadata, ConvertToTable gives a table without an error. It
  -- has one row of six cells for each object, in the same order, that holds the object. The cells
  -- of a LicenseStatus are its name, the product line, the user's name, the contract's ID, the end
  -- of the contract and that of the license, blank where the status has none of these, and an end
  -- is told as the time that has passed since or is left until then, or as unknown for the zero
  -- time; another object has its name and blank cells. The metadata is that of a list, or has the
  -- resource version of a single object alone; and there are six columns, or none if the options
  -- leave out the headers.
  pub convert_to_table-Tabled :
      (no_headers : Bool) (input : Input)
      → All IsObject (objects_of input)
      → (t : Table) × (convert_to_table human_duration not_acceptable now no_headers input ≡ ok t)
        × Tabled no_headers input t
  unfolding convert_to_table column_definitions
  convert_to_table-Tabled no_headers input h =
      let (rows, e, fits) = rows_of-RowsFit input h in
      (
        record {
          metadata = metadata_of human_duration not_acceptable input;
          columns = if no_headers then [] else column_definitions;
          rows = rows;
        },
        ground (arith, e),
        record {
          rows = fits;
          metadata = metadata_of-MetadataOf input;
          headers = λ shown. rw shown refl;
          headless = λ off. rw off refl;
        },
      )
