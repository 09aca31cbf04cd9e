-- ===== src/Common/Texts.antt =====
-- Texts: comparison, and `strings.TrimSpace` over the code points of Unicode's White_Space.
use Prim.Native.Nat.{ℕ}
use Prim.Native.Char.{code}
use Prim.Native.String.{String}
use mathlib.Core.Bool.{Bool, true, false, ◌&&◌, ◌||◌}
use text.Mathlib.Text.{◌==◌}
use text.Mathlib.TextEquality.{eq_iff}
use mathlib.Core.Path.{◌≡◌}
use native.Mathlib.Omega.{arith}
use nvelope.Common.Tests.{leb, if◌then◌else◌}
use nvelope.Common.Tests

abbrev pub text_eq : String → String → Bool
text_eq a b = a == b

pub text_eq_comm : (a b : String) → text_eq a b ≡ text_eq b a
text_eq_comm a b = ground (arith, eq_iff a b, eq_iff b a)

abbrev pub is_empty : String → Bool
is_empty String.[] = true
is_empty (String.◌∷◌ c s) = false

-- unicode.IsSpace
unfoldable pub is_space : ℕ → Bool
is_space c =
    (leb 9 c && leb c 13)
    || Tests.◌==◌ c 32
    || Tests.◌==◌ c 0x85
    || Tests.◌==◌ c 0xa0
    || Tests.◌==◌ c 0x1680
    || (leb 0x2000 c && leb c 0x200a)
    || Tests.◌==◌ c 0x2028
    || Tests.◌==◌ c 0x2029
    || Tests.◌==◌ c 0x202f
    || Tests.◌==◌ c 0x205f
    || Tests.◌==◌ c 0x3000

trim_left : String → String
trim_left String.[] = ""
trim_left (String.◌∷◌ c s) = if is_space (code c) then trim_left s else String.◌∷◌ c s

trim_right : String → String
trim_right String.[] = ""
trim_right (String.◌∷◌ c s) =
    let rest = trim_right s in if is_space (code c) && is_empty rest then "" else String.◌∷◌ c rest

unfoldable pub trim_space : String → String
unfolding is_space trim_left trim_right
trim_space s = trim_right (trim_left s)

-- `+` on strings.
unfoldable pub append_text : String → String → String
append_text String.[] t = t
append_text (String.◌∷◌ c s) t = String.◌∷◌ c (append_text s t)
