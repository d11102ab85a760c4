-- ===== src/Base/Base64.antt =====
-- base64.StdEncoding of the standard library.
use Prim.Native.Nat.{ℕ, ◌+◌, ◌-◌, ◌*◌, ◌/◌, ◌%◌}
use mathlib.Core.List.{[], ◌∷◌}
use license_proxyserver.Base.Tests.{ltb, ◌==◌, if◌then◌else◌}
use license_proxyserver.Base.Strings.{Text}

-- the letters A to Z and a to z, the digits, `+` and `/`
abbrev pub sextet : ℕ → ℕ
sextet n =
    if ltb n 26
    then n + 65
    else if ltb n 52
    then n + 71
    else if ltb n 62
    then n - 4
    else if n == 62
    then 43
    else 47

-- EncodeToString: three bytes are four letters, and `=` fills up the last four.
unfoldable pub encode_to_string : Text → Text
encode_to_string [] = []
encode_to_string (a ∷ []) = sextet (a / 4) ∷ sextet (a % 4 * 16) ∷ 61 ∷ 61 ∷ []
encode_to_string (a ∷ b ∷ []) =
    sextet (a / 4) ∷ sextet (a % 4 * 16 + b / 16) ∷ sextet (b % 16 * 4) ∷ 61 ∷ []
encode_to_string (a ∷ b ∷ c ∷ s) =
    sextet (a / 4)
    ∷ sextet (a % 4 * 16 + b / 16)
    ∷ sextet (b % 16 * 4 + c / 64)
    ∷ sextet (c % 64)
    ∷ encode_to_string s
