-- ===== src/Addon/Chart.antt =====
-- The nested values of a chart, `map[string]any` in the source, and the calls of the libraries that
-- change them. The calls are parameters, with what their documentation promises.
use license_proxyserver.Base.{
  Text, str, List, [], ◌∷◌, Option, none, some, Bool, true, false, ◌≡◌, ite, Result, ok,
}

mutual
  pub data Value : Type 0 where
    nil : Value
    boolean : Bool → Value
    string : Text → Value
    object : Fields → Value

  pub data Fields : Type 0 where
    end : Fields
    field : Text → Value → Fields → Fields

abbrev pub FieldPath : Type 0
FieldPath = List Text

unfoldable pub find : Text → Fields → Option Value
find k end = none
find k (field j v m) = ite (str j k) (some v) (find k m)

abbrev pub child : Text → Value → Option Value
child k (object m) = find k m
child k _ = none

-- the value under a path of names
unfoldable pub at : FieldPath → Value → Option Value
at [] v = some v
at (k ∷ path) v = elim (child k v) [ none ↦ none | some w ↦ at path w ]

abbrev pub lookup : Fields → FieldPath → Option Value
lookup m path = at path (object m)

abbrev pub is_object : Value → Bool
is_object (object _) = true
is_object _ = false

-- Neither path is the start of the other.
unfoldable pub apart : FieldPath → FieldPath → Bool
apart (k ∷ p) (j ∷ q) = ite (str k j) (apart p q) true
apart _ _ = false

pub record ChartLibrary : Type 0 where
  -- addonfactory.MergeValues
  pub merge_values : Fields → Fields → Fields
  -- unstructured.SetNestedField and SetNestedMap
  pub set_nested_field : Fields → Value → FieldPath → Result Fields
  -- yaml.Unmarshal into a map
  pub unmarshal : Text → Result Fields
  -- yaml.Unmarshal into a ClusterClaimInfo: the names of the cluster's managers
  pub unmarshal_info : Text → Result (List Text)
  -- kmapi.ClusterClaimKeyInfo
  pub cluster_claim_key_info : Text
  -- kmapi.ClusterManagerOpenShift.Name()
  pub open_shift : Text

pub record IsChartLibrary (c : ChartLibrary) : Type 0 where
  -- A value of the second map that is no map itself wins.
  pub merged :
      (a b : Fields) (path : FieldPath) (v : Value)
      → lookup b path ≡ some v
      → is_object v ≡ false
      → lookup (c.merge_values a b) path ≡ some v
  -- What the second map does not have is as in the first.
  pub kept :
      (a b : Fields) (k : Text) (path : FieldPath)
      → find k b ≡ none
      → lookup (c.merge_values a b) (k ∷ path) ≡ lookup a (k ∷ path)
  -- A field that was set can be read, and a field that is apart from it is unchanged.
  pub set :
      (m m' : Fields) (v : Value) (k : Text) (path : FieldPath)
      → c.set_nested_field m v (k ∷ path) ≡ ok m'
      → lookup m' (k ∷ path) ≡ some v
  pub others :
      (m m' : Fields) (v : Value) (path other : FieldPath)
      → c.set_nested_field m v path ≡ ok m'
      → apart path other ≡ true
      → lookup m' other ≡ lookup m other
