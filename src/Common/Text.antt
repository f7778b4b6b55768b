-- ===== src/Common/Text.antt =====
-- The functions of Go's `strings` that the program calls, over texts as lists of characters.
use preoomkiller_controller.Common.Tests.{leb, ◌==◌, if◌then◌else◌}
use Prim.Native.Nat.{ℕ}
use Prim.Native.Char.{code}
use Prim.Native.String.{String}
use mathlib.Core.Bool.{Bool, ◌&&◌, ◌||◌}
use mathlib.Core.Option.{Option, none, some}
use mathlib.Core.Option
use text.Mathlib.Text.{◌==◌ as str_eq}

-- `strings.CutSuffix`: `none` where the text does not end in the suffix.
unfoldable pub cut_suffix : String → String → Option String
cut_suffix String.[] suffix = if str_eq "" suffix then some "" else none
cut_suffix (String.◌∷◌ c s) suffix =
    if str_eq (String.◌∷◌ c s) suffix
    then some ""
    else Option.map (String.◌∷◌ c) (cut_suffix s suffix)

-- `unicode.IsSpace`, on the code point.
unfoldable pub is_space : ℕ → Bool
is_space c =
    (leb 9 c && leb c 13)
    || c == 0x20
    || c == 0x85
    || c == 0xa0
    || c == 0x1680
    || (leb 0x2000 c && leb c 0x200a)
    || c == 0x2028
    || c == 0x2029
    || c == 0x202f
    || c == 0x205f
    || c == 0x3000

trim_left : String → String
trim_left String.[] = ""
trim_left (String.◌∷◌ c s) = if is_space (code c) then trim_left s else String.◌∷◌ c s

trim_right : String → String
trim_right String.[] = ""
trim_right (String.◌∷◌ c s) =
    let rest = trim_right s in if str_eq rest "" && is_space (code c) then "" else String.◌∷◌ c rest

-- `strings.TrimSpace`.
unfoldable pub trim_space : String → String
unfolding trim_left trim_right is_space
trim_space s = trim_left (trim_right s)
