-- ===== src/Base/Split.antt =====
-- strings.Split and strings.Join for a separator of one byte.
use mathlib.Core.List.{List, [], ◌∷◌, ◌++◌}
use mathlib.Core.Path.{ap₂, ◌∙◌, ◌≡◌, refl, ap}
use mathlib.Core.Logic.{◌≢◌, inl, inr}
use native.Mathlib.Omega.{arith}
use Prim.Native.Nat.{ℕ}
use license_proxyserver.Base.Tests.{◌==◌, if◌then◌else◌, Bool-cases}
use license_proxyserver.Base.Strings.{Text}
use license_proxyserver.Base.Lists.{All}

-- the byte joins the first piece
abbrev extend : ℕ → List Text → List Text
extend c [] = (c ∷ []) ∷ []
extend c (piece ∷ pieces) = (c ∷ piece) ∷ pieces

-- strings.Split: a text without the separator, also the empty one, is one piece.
unfoldable pub split : ℕ → Text → List Text
split sep [] = [] ∷ []
split sep (c ∷ s) = if c == sep then [] ∷ split sep s else extend c (split sep s)

unfoldable pub join_with : ℕ → List Text → Text
join_with sep [] = []
join_with sep (piece ∷ []) = piece
join_with sep (piece ∷ next ∷ pieces) = piece ++ sep ∷ join_with sep (next ∷ pieces)

-- The text has no separator in it.
abbrev pub IsPlain : ℕ → Text → Type 0
IsPlain sep s = All (λ c. c ≢ sep) s

extend-nonempty : (c : ℕ) (l : List Text) → extend c l ≢ []
extend-nonempty c [] e = cc
extend-nonempty c (s ∷ l) e = cc

pub split-nonempty : (sep : ℕ) (s : Text) → split sep s ≢ []
unfolding split
split-nonempty sep [] e = cc
split-nonempty sep (c ∷ s) e = elim (Bool-cases (c == sep)) [
  | inl h ↦ absurd (ground (arith, e, h))
  | inr h ↦ extend-nonempty c (split sep s) (ground (arith, e, h))
]

split-plain : (sep : ℕ) (s : Text) → IsPlain sep s → split sep s ≡ s ∷ []
unfolding split
split-plain sep [] h = refl
split-plain sep (c ∷ s) h = ground (arith, split-plain sep s h.1)

split-append : (sep : ℕ) (s t : Text) → IsPlain sep s → split sep (s ++ sep ∷ t) ≡ s ∷ split sep t
unfolding split
split-append sep [] t h = ground arith
split-append sep (c ∷ s) t h = ground (arith, split-append sep s t h.1)

-- Splitting undoes joining, for one piece or more without the separator.
pub split-join_with :
    (sep : ℕ) (pieces : List Text)
    → pieces ≢ []
    → All (IsPlain sep) pieces
    → split sep (join_with sep pieces) ≡ pieces
unfolding join_with
split-join_with sep [] h p = absurd (h refl)
split-join_with sep (piece ∷ []) h p = split-plain sep piece p.0
split-join_with sep (piece ∷ next ∷ pieces) h p =
    split-append sep piece (join_with sep (next ∷ pieces)) p.0
    ∙ ap (◌∷◌ piece) (split-join_with sep (next ∷ pieces) (λ e. cc) p.1)

join_with_one : (sep : ℕ) → join_with sep ([] ∷ []) ≡ []
unfolding join_with
join_with_one sep = refl

extend-IsPlain :
    (sep c : ℕ) (pieces : List Text)
    → c ≢ sep
    → All (IsPlain sep) pieces
    → All (IsPlain sep) (extend c pieces)
extend-IsPlain sep c [] h p = ((h, tt), tt)
extend-IsPlain sep c (piece ∷ pieces) h p = ((h, p.0), p.1)

-- The pieces of a split are without the separator.
pub split-IsPlain : (sep : ℕ) (s : Text) → All (IsPlain sep) (split sep s)
unfolding split
split-IsPlain sep [] = (tt, tt)
split-IsPlain sep (c ∷ s) = elim (Bool-cases (c == sep)) [
  | inl e ↦ rw e (tt, split-IsPlain sep s)
  | inr e ↦ rw e (extend-IsPlain sep c (split sep s) (ground arith) (split-IsPlain sep s))
]

extend-ne-nil : (c : ℕ) (pieces : List Text) → extend c pieces ≢ []
extend-ne-nil c [] e = cc
extend-ne-nil c (piece ∷ pieces) e = cc

-- Split gives one piece at least.
pub split-ne-nil : (sep : ℕ) (s : Text) → split sep s ≢ []
unfolding split
split-ne-nil sep [] = λ e. cc
split-ne-nil sep (c ∷ s) = elim (Bool-cases (c == sep)) [
  | inl e ↦ rw e (λ q. cc)
  | inr e ↦ rw e (extend-ne-nil c (split sep s))
]

join_with-extend :
    (sep c : ℕ) (pieces : List Text) → join_with sep (extend c pieces) ≡ c ∷ join_with sep pieces
unfolding join_with
join_with-extend sep c [] = refl
join_with-extend sep c (piece ∷ []) = refl
join_with-extend sep c (piece ∷ next ∷ pieces) = refl

join_with-cons_nil :
    (sep : ℕ) (pieces : List Text)
    → pieces ≢ []
    → join_with sep ([] ∷ pieces) ≡ sep ∷ join_with sep pieces
unfolding join_with
join_with-cons_nil sep [] h = absurd (h refl)
join_with-cons_nil sep (piece ∷ pieces) h = refl

-- Joining undoes splitting.
pub join_with-split : (sep : ℕ) (s : Text) → join_with sep (split sep s) ≡ s
unfolding split
join_with-split sep [] = join_with_one sep
join_with-split sep (c ∷ s) = elim (Bool-cases (c == sep)) [
  | inl e ↦
      let same : sep ≡ c = ground arith in
      rw e (
        join_with-cons_nil sep (split sep s) (split-ne-nil sep s)
        ∙ ap₂ ◌∷◌ same (join_with-split sep s))
  | inr e ↦ rw e (join_with-extend sep c (split sep s) ∙ ap (◌∷◌ c) (join_with-split sep s))
]
