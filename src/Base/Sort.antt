-- ===== src/Base/Sort.antt =====
-- sort.Strings: ascending by bytes.
use mathlib.Core.Bool.{Bool, true, false}
use mathlib.Core.List.{List, [], ◌∷◌, Perm}
use mathlib.Core.List.Perm
use mathlib.Core.Logic.{inl, inr}
use license_proxyserver.Base.Tests.{ltb, if◌then◌else◌, Bool-cases}
use license_proxyserver.Base.Strings.{Text}

-- `s < t` in Go
unfoldable pub text_lt : Text → Text → Bool
text_lt s [] = false
text_lt [] (c ∷ t) = true
text_lt (a ∷ s) (b ∷ t) = if ltb a b then true else if ltb b a then false else text_lt s t

unfoldable pub insert_string : Text → List Text → List Text
unfolding text_lt
insert_string s [] = s ∷ []
insert_string s (t ∷ l) = if text_lt t s then t ∷ insert_string s l else s ∷ t ∷ l

unfoldable pub sort_strings : List Text → List Text
unfolding insert_string
sort_strings [] = []
sort_strings (s ∷ l) = insert_string s (sort_strings l)

insert_string-perm : (s : Text) (l : List Text) → Perm (insert_string s l) (s ∷ l)
unfolding insert_string
insert_string-perm s [] = Perm.rfl
insert_string-perm s (t ∷ l) = elim (Bool-cases (text_lt t s)) [
  | inl e ↦ rw e (Perm.trans (Perm.cons t (insert_string-perm s l)) (Perm.swap s t l))
  | inr e ↦ rw e Perm.rfl
]

pub sort_strings-perm : (l : List Text) → Perm (sort_strings l) l
unfolding sort_strings
sort_strings-perm [] = Perm.rfl
sort_strings-perm (s ∷ l) = Perm.trans (insert_string-perm s _) (Perm.cons s (sort_strings-perm l))
