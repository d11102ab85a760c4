-- ===== src/Base/Strings.antt =====
-- A Go string is a sequence of bytes, and so is a `[]byte`: both are lists of numbers.
use Prim.Native.Nat.{ℕ}
use Prim.Native.Char.{code}
use Prim.Native.String.{String}
use mathlib.Core.List.{List, [], ◌∷◌}
use mathlib.Core.Path.{refl, ap₂}
use native.Mathlib.Decide.{ℕ_discrete}

abbrev pub Text : Type 0
Text = List ℕ

-- An ASCII literal.
abbrev pub text : String → Text
text String.[] = []
text (String.◌∷◌ c s) = code c ∷ text s

-- Equality of strings, `==` in Go.
unfoldable pub str : Discrete Text
unfolding ℕ_discrete
str [] [] = yes refl
str [] (b ∷ t) = no λ e. cc
str (a ∷ s) [] = no λ e. cc
str (a ∷ s) (b ∷ t) = elim (ℕ_discrete a b) [
  | yes p ↦ elim (str s t) [ yes q ↦ yes (ap₂ ◌∷◌ p q) | no q ↦ no λ e. q (cc) ]
  | no p ↦ no λ e. p (cc)
]
