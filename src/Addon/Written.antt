-- ===== src/Addon/Written.antt =====
-- The fields of a chart that a run of calls of SetNestedField has written.
use license_proxyserver.Base.{
  subst, Result, sym, Text, List, [], ◌∷◌, ◌++◌, Option, none, some, Bool, true, false, ◌&&◌, ◌≡◌,
  ◌∙◌, refl, arith, All,
}
use license_proxyserver.Base.Fallible.{◌>>=◌, Gives, Gives-bind}
use license_proxyserver.Addon.Chart.{
  Value, Fields, FieldPath, lookup, apart, ChartLibrary, IsChartLibrary,
}

-- a field that is written, or, for none, left as it is
abbrev pub Setting : Type 0
Setting = FieldPath × Option Value

abbrev pub or_else : Option Value → Option Value → Option Value
or_else none old = old
or_else (some v) old = some v

-- The path is apart from those of the settings.
unfoldable pub aside : FieldPath → List Setting → Bool
unfolding apart
aside p [] = true
aside p ((q, _) ∷ l) = apart q p && aside p l

unfoldable pub separate : List Setting → List Setting → Bool
unfolding aside
separate [] m = true
separate ((p, _) ∷ l) m = aside p m && separate l m

abbrev pub Assigned : Fields → Fields → Setting → Type 0
Assigned a b s = lookup b s.0 ≡ or_else s.1 (lookup a s.0)

-- `b` is `a` with the settings, and the same everywhere else.
pub record Written (l : List Setting) (a b : Fields) : Type 0 where
  pub set : All (Assigned a b) l
  pub rest : (p : FieldPath) → aside p l ≡ true → lookup b p ≡ lookup a p

pub Written-refl : (p : FieldPath) (a : Fields) → Written ((p, none) ∷ []) a a
Written-refl p a = record { set = (refl, tt); rest = λ q h. refl }

pub Written-nil : (a : Fields) → Written [] a a
Written-nil a = record { set = tt; rest = λ q h. refl }

and_left : (b c : Bool) → (b && c) ≡ true → b ≡ true
and_left true c h = refl
and_left false c h = h

and_right : (b c : Bool) → (b && c) ≡ true → c ≡ true
and_right true c h = h
and_right false c h = absurd (cc)

module _ (a b c : Fields) where
  sets_kept :
      (l m : List Setting)
      → All (Assigned a b) l
      → ((p : FieldPath) → aside p m ≡ true → lookup c p ≡ lookup b p)
      → separate l m ≡ true
      → All (Assigned a c) l
  unfolding separate
  sets_kept [] m h rest s = tt
  sets_kept ((p, o) ∷ l) m h rest s =
      (rest p (and_left _ _ s) ∙ h.0, sets_kept l m h.1 rest (and_right _ _ s))

  sets_moved :
      (l m : List Setting)
      → All (Assigned b c) m
      → ((p : FieldPath) → aside p l ≡ true → lookup b p ≡ lookup a p)
      → separate m l ≡ true
      → All (Assigned a c) m
  unfolding separate
  sets_moved l [] h rest s = tt
  sets_moved l ((p, o) ∷ m) h rest s =
      (rw (sym (rest p (and_left _ _ s))) h.0, sets_moved l m h.1 rest (and_right _ _ s))

All-append : (P : Setting → Type 0) (l m : List Setting) → All P l → All P m → All P (l ++ m)
All-append P [] m h k = k
All-append P (s ∷ l) m h k = (h.0, All-append P l m h.1 k)

aside-append : (p : FieldPath) (l m : List Setting) → aside p (l ++ m) ≡ (aside p l && aside p m)
unfolding aside
aside-append p [] m = refl
aside-append p ((q, o) ∷ l) m = ground (arith, aside-append p l m)

-- Settings that are apart from each other are written one after the other.
pub Written-append :
    (l m : List Setting) {a b c : Fields}
    → Written l a b
    → Written m b c
    → separate l m ≡ true
    → separate m l ≡ true
    → Written (l ++ m) a c
Written-append l m {a} {b} {c} h k s t = record {
  set =
      All-append (Assigned a c) l m (sets_kept a b c l m h.set k.rest s)
        (sets_moved a b c l m k.set h.rest t);
  rest = λ p away.
      let both = sym (aside-append p l m) ∙ away in
      k.rest p (and_right _ _ both) ∙ h.rest p (and_left _ _ both);
}

-- one call
pub set_nested_field-Written :
    (c : ChartLibrary)
    → IsChartLibrary c
    → (m : Fields) (v : Value) (k : Text) (path : FieldPath)
    → Gives (Written ((k ∷ path, some v) ∷ []) m) (c.set_nested_field m v (k ∷ path))
unfolding aside
set_nested_field-Written c law m v k path = record {
  holds = λ m' e. record {
    set = (law.set m m' v k path e, tt);
    rest = λ p h. law.others m m' v (k ∷ path) p e (and_left _ _ h);
  };
}

-- `b` is `a` with the settings that come from an input, of which `R` holds.
pub record WrittenFor {I : Type 0} (R : I → Type 0) (l : I → List Setting) (a b : Fields)
    : Type 0 where
  pub input : I
  pub read : R input
  pub written : Written (l input) a b

-- settings that come from no input
abbrev pub Plainly : List Setting → Fields → Fields → Type 0
Plainly l = WrittenFor (λ (i : Unit). Unit) (λ i. l)

pub plainly :
    (l : List Setting) (a : Fields) (r : Result Fields)
    → Gives (Written l a) r
    → Gives (Plainly l a) r
plainly l a r h = record { holds = λ b e. record { input = tt; read = tt; written = h.holds b e } }

-- calls in sequence
pub WrittenFor-bind :
    {I J : Type 0} {R : I → Type 0} {S : J → Type 0} (l : I → List Setting) (m : J → List Setting)
    → ((i : I) (j : J) → (separate (l i) (m j) ≡ true) × (separate (m j) (l i) ≡ true))
    → {a : Fields} {r : Result Fields} {k : Fields → Result Fields} → Gives (WrittenFor R l a) r
    → ((b : Fields) → Gives (WrittenFor S m b) (k b))
    → Gives (WrittenFor {I = I × J} (λ p. R p.0 × S p.1) (λ p. l p.0 ++ m p.1) a) (r >>= k)
WrittenFor-bind l m away h next = Gives-bind h (λ b e w. record {
  holds = λ c e'.
      let w' = (next b).holds c e' in
      let aways = away w.input w'.input in
      record {
        input = (w.input, w'.input);
        read = (w.read, w'.read);
        written = Written-append (l w.input) (m w'.input) w.written w'.written aways.0 aways.1;
      };
})

-- another view of the input
pub WrittenFor-map :
    {I J : Type 0} {R : I → Type 0} {S : J → Type 0} {l : I → List Setting} {m : J → List Setting}
    (f : I → J)
    → ((i : I) → R i → S (f i))
    → ((i : I) → l i ≡ m (f i))
    → {a : Fields} {r : Result Fields} → Gives (WrittenFor R l a) r
    → Gives (WrittenFor S m a) r
WrittenFor-map f reads same {a} h = record {
  holds = λ b e.
      let w = h.holds b e in
      record {
        input = f w.input;
        read = reads w.input w.read;
        written = subst (λ x. Written x a b) (same w.input) w.written;
      };
}

-- one setting, then the others
pub first_then :
    {J : Type 0} {S : J → Type 0} {s : Setting} {m : J → List Setting} {a : Fields}
    {r : Result Fields} {k : Fields → Result Fields}
    → Gives (Plainly (s ∷ []) a) r
    → ((b : Fields) → Gives (WrittenFor S m b) (k b))
    → ((j : J) → (separate (s ∷ []) (m j) ≡ true) × (separate (m j) (s ∷ []) ≡ true))
    → Gives (WrittenFor S (λ j. s ∷ m j) a) (r >>= k)
first_then {S} {s} {m} h next away =
    WrittenFor-map (λ p. p.1) (λ p h. h.1) (λ p. refl)
      (WrittenFor-bind (λ (i : Unit). s ∷ []) m (λ i j. away j) h next)

-- a setting that comes from an input, then others that do not
pub input_then :
    {I : Type 0} {R : I → Type 0} {s : I → Setting} {m : List Setting} {a : Fields}
    {r : Result Fields} {k : Fields → Result Fields}
    → Gives (WrittenFor R (λ i. s i ∷ []) a) r
    → ((b : Fields) → Gives (Plainly m b) (k b))
    → ((i : I) → (separate (s i ∷ []) m ≡ true) × (separate m (s i ∷ []) ≡ true))
    → Gives (WrittenFor R (λ i. s i ∷ m) a) (r >>= k)
input_then {R} {s} {m} h next away =
    WrittenFor-map (λ p. p.0) (λ p h. h.0) (λ p. refl)
      (WrittenFor-bind (λ i. s i ∷ []) (λ (j : Unit). m) (λ i j. away i) h next)
