-- ===== src/Tests/Charts.antt =====
-- Values of a chart: a merge that replaces whole fields, and a write below the names of a path.
use license_proxyserver.Base.{
  ap, subst, ◌∙◌, sym, Text, str, text, [], ◌∷◌, Option, none, some, true, false, ◌≡◌, refl, arith,
  ite, Result, ok, err, message, Option-cases, inl, inr,
}
use license_proxyserver.Addon.Chart.{
  Value, nil, boolean, string, object, Fields, end, field, FieldPath, find, at, lookup, apart,
  is_object, ChartLibrary, IsChartLibrary,
}

unfoldable pub replace : Text → Value → Fields → Fields
replace k w end = field k w end
replace k w (field j v m) = ite (str j k) (field k w m) (field j v (replace k w m))

unfoldable pub merge : Fields → Fields → Fields
unfolding replace
merge a end = a
merge a (field k v b) = replace k v (merge a b)

-- a value that may be missing, as a map
abbrev pub fields_of : Option Value → Option Fields
fields_of none = some end
fields_of (some (object m)) = some m
fields_of (some _) = none

unfoldable pub put : FieldPath → Value → Option Value → Option Value
unfolding replace find
put [] v old = some v
put (k ∷ p) v old = elim (fields_of old) [
  | none ↦ none
  | some m ↦ elim (put p v (find k m)) [ none ↦ none | some w ↦ some (object (replace k w m)) ]
]

abbrev pub at_opt : FieldPath → Option Value → Option Value
at_opt q none = none
at_opt q (some v) = at q v

find-replace :
    (k j : Text) (w : Value) (m : Fields)
    → find j (replace k w m) ≡ ite (str k j) (some w) (find j m)
unfolding find replace
find-replace k j w end = refl
find-replace k j w (field i v m) = ground (arith, find-replace k j w m)

find-merge :
    (j : Text) (a b : Fields)
    → find j (merge a b) ≡ elim (find j b) [ none ↦ find j a | some v ↦ some v ]
unfolding find merge
find-merge j a end = refl
find-merge j a (field k v b) = ground (arith, find-merge j a b, find-replace k j v (merge a b))

-- what a write below a name did
record Put (k : Text) (p : FieldPath) (v : Value) (old : Option Value) (w : Value) : Type 0 where
  pub fields : Fields
  pub opened : fields_of old ≡ some fields
  pub below : Value
  pub written : put p v (find k fields) ≡ some below
  pub result : object (replace k below fields) ≡ w

put-Put :
    (k : Text) (p : FieldPath) (v : Value) (old : Option Value) (w : Value)
    → put (k ∷ p) v old ≡ some w
    → Put k p v old w
unfolding put
put-Put k p v old w e = elim (Option-cases (fields_of old)) [
  | inl none_e ↦ absurd (ground (arith, e, none_e))
  | inr (m, some_e) ↦ elim (Option-cases (put p v (find k m))) [
    | inl gone ↦ absurd (ground (arith, e, some_e, gone))
    | inr (x, there) ↦ record {
      fields = m;
      opened = some_e;
      below = x;
      written = there;
      result = ground (arith, e, some_e, there);
    }
  ]
]

at-cons : (j : Text) (q : FieldPath) (m : Fields) → at (j ∷ q) (object m) ≡ at_opt q (find j m)
unfolding at
at-cons j q m = elim (Option-cases (find j m)) [
  | inl e ↦ ground (arith, e)
  | inr (v, e) ↦ ground (arith, e)
]

at-replace :
    (k j : Text) (q : FieldPath) (x : Value) (m : Fields)
    → at (j ∷ q) (object (replace k x m)) ≡ at_opt q (ite (str k j) (some x) (find j m))
at-replace k j q x m = at-cons j q (replace k x m) ∙ ap (at_opt q) (find-replace k j x m)

put-at :
    (p : FieldPath) (v : Value) (old : Option Value) (w : Value)
    → put p v old ≡ some w
    → at p w ≡ some v
unfolding put at
put-at [] v old w e = ground (arith, e)
put-at (k ∷ p) v old w e =
    let h = put-Put k p v old w e in
    let deep = put-at p v (find k h.fields) h.below h.written in
    rw (sym h.result) (at-replace k k p h.below h.fields ∙ ground (arith, deep))

find-old :
    (j : Text) (q : FieldPath) (old : Option Value) (m : Fields)
    → fields_of old ≡ some m
    → at_opt (j ∷ q) old ≡ at_opt q (find j m)
unfolding find
find-old j q none m e = let same : end ≡ m = cc in subst (λ m. none ≡ at_opt q (find j m)) same refl
find-old j q (some (object n)) m e =
    let same : n ≡ m = cc in
    subst (λ m. at (j ∷ q) (object n) ≡ at_opt q (find j m)) same (at-cons j q n)
find-old j q (some nil) m e = absurd (cc)
find-old j q (some (boolean b)) m e = absurd (cc)
find-old j q (some (string t)) m e = absurd (cc)

moved :
    (q : FieldPath) {P : Type 0} (d : Dec P) (x : Value) (o : Option Value)
    → (P → at q x ≡ at_opt q o)
    → at_opt q (ite d (some x) o) ≡ at_opt q o
moved q (yes p) x o h = h p
moved q (no n) x o h = refl

put-others :
    (p q : FieldPath) (v : Value) (old : Option Value) (w : Value)
    → put p v old ≡ some w
    → apart p q ≡ true
    → at q w ≡ at_opt q old
unfolding apart
put-others [] q v old w e a = absurd (cc)
put-others (k ∷ p) [] v old w e a = absurd (cc)
put-others (k ∷ p) (j ∷ q) v old w e a =
    let h = put-Put k p v old w e in
    let goes : at (j ∷ q) w ≡ at_opt q (ite (str k j) (some h.below) (find j h.fields)) =
      rw (sym h.result) (at-replace k j q h.below h.fields) in
    goes
    ∙ moved q (str k j) h.below (find j h.fields) (λ same.
      subst (λ i. at q h.below ≡ at_opt q (find i h.fields)) same
        (put-others p q v (find k h.fields) h.below h.written (ground (arith, a, same))))
    ∙ sym (find-old j q old h.fields h.opened)

-- as a call that may fail
abbrev pub written : Option Value → Result Fields
written (some (object m)) = ok m
written _ = err (message (text "value cannot be set"))

written-ok : (o : Option Value) (m : Fields) → written o ≡ ok m → o ≡ some (object m)
written-ok none m e = absurd (cc)
written-ok (some (object n)) m e = cc
written-ok (some nil) m e = absurd (cc)
written-ok (some (boolean b)) m e = absurd (cc)
written-ok (some (string t)) m e = absurd (cc)

-- the chart of the agent, in part, for every file, and a cluster without data
abbrev pub chart : Fields
chart =
    field (text "imagePullPolicy") (string (text "IfNotPresent"))
      (field (text "platform") (object (field (text "baseURL") (string []) end)) end)

abbrev pub charts : ChartLibrary
charts = record {
  merge_values = merge;
  set_nested_field = λ m v path. written (put path v (some (object m)));
  unmarshal = λ bytes. ok chart;
  unmarshal_info = λ bytes. ok (text "OpenShift" ∷ []);
  cluster_claim_key_info = text "cluster.ace.info";
  open_shift = text "OpenShift";
}

merge-at :
    (a b : Fields) (k : Text) (path : FieldPath)
    → at (k ∷ path) (object (merge a b))
      ≡ at_opt path (elim (find k b) [ none ↦ find k a | some v ↦ some v ])
merge-at a b k path = at-cons k path (merge a b) ∙ ap (at_opt path) (find-merge k a b)

merge-wins :
    (a b : Fields) (path : FieldPath) (v : Value)
    → lookup b path ≡ some v
    → is_object v ≡ false
    → lookup (merge a b) path ≡ some v
unfolding at
merge-wins a b [] v e leaf = absurd (ground (arith, e, leaf))
merge-wins a b (k ∷ path) v e leaf = merge-at a b k path ∙ elim (Option-cases (find k b)) [
  | inl gone ↦ absurd (ground (arith, e, gone))
  | inr (w, there) ↦ ground (arith, e, there)
]

merge-keeps :
    (a b : Fields) (k : Text) (path : FieldPath)
    → find k b ≡ none
    → lookup (merge a b) (k ∷ path) ≡ lookup a (k ∷ path)
merge-keeps a b k path e = merge-at a b k path ∙ rw e (sym (at-cons k path a))

pub charts-IsChartLibrary : IsChartLibrary charts
charts-IsChartLibrary = record {
  merged = merge-wins;
  kept = merge-keeps;
  set = λ m m' v k path e. put-at (k ∷ path) v (some (object m)) (object m') (written-ok _ m' e);
  others = λ m m' v path other e away.
      put-others path other v (some (object m)) (object m') (written-ok _ m' e) away;
}
