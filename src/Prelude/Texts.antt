-- ===== src/Prelude/Texts.antt =====
-- What the program uses of JavaScript's texts. Positions count bytes, which for the ASCII texts of
-- the program (shas, refs, names of checks) are JavaScript's code units; case is mapped on ASCII.
use Prim.Native.Nat.{ℕ, zero, suc, ◌-◌, ◌/◌, ◌%◌}
use Prim.Native.Char.{Char, code}
use Prim.Native.String
use Prim.Native.String.{String, slice, char_at, len}
use text.Mathlib.Text.{starts_with, find?}
use mathlib.Core.Path.{◌≡◌, refl}
use mathlib.Core.Bool.{Bool, ◌&&◌, ◌||◌}
use mathlib.Core.List.{List, [], ◌∷◌}
use patchrelay.Prelude.Tests.{leb, ◌==◌, if◌then◌else◌, is_some}

-- A template literal: its parts in order.
unfoldable pub template : List String → String
template [] = ""
template (s ∷ rest) = String.◌++◌ s (template rest)

-- `texts.join(separator)`.
unfoldable pub join : String → List String → String
unfolding template
join separator [] = ""
join separator (s ∷ []) = s
join separator (s ∷ t ∷ rest) = template (s ∷ separator ∷ join separator (t ∷ rest) ∷ [])

-- `s.slice(0, n)`.
unfoldable pub short : ℕ → String → String
short n s = slice s 0 n

lower_char : Char → Char
lower_char c =
    if leb b'A' (code c) && leb (code c) b'Z'
    then char_at "abcdefghijklmnopqrstuvwxyz" (code c - b'A')
    else c

unfoldable pub to_lower : String → String
unfolding lower_char
to_lower String.[] = ""
to_lower (String.◌∷◌ c s) = String.◌∷◌ (lower_char c) (to_lower s)

-- JavaScript's white space and line ends.
is_space : ℕ → Bool
is_space c =
    (leb 9 c && leb c 13)
    || c == 32
    || c == 160
    || c == 0x1680
    || (leb 0x2000 c && leb c 0x200a)
    || c == 0x2028
    || c == 0x2029
    || c == 0x202f
    || c == 0x205f
    || c == 0x3000
    || c == 0xfeff

trim_start : String → String
unfolding is_space
trim_start String.[] = ""
trim_start (String.◌∷◌ c s) =
    let rest = trim_start s in if is_space (code c) then rest else String.◌∷◌ c s

-- White space at the end goes once everything behind it has gone.
trim_end : String → String
unfolding is_space
trim_end String.[] = ""
trim_end (String.◌∷◌ c s) = elim (trim_end s) [
  | String.[] ↦ if is_space (code c) then "" else String.◌∷◌ c ""
  | String.◌∷◌ d r ↦ String.◌∷◌ c (String.◌∷◌ d r)
]

unfoldable pub trim : String → String
unfolding trim_start trim_end
trim s = trim_end (trim_start s)

-- `s.includes(t)`.
unfoldable pub includes : String → String → Bool
includes s t = is_some (find? s t)

unfoldable pub has_prefix : String → String → Bool
has_prefix s t = starts_with s t

digit : ℕ → String
digit d = String.◌∷◌ (char_at "0123456789" d) ""

show_from : ℕ → ℕ → String → String
unfolding digit
show_from zero n rest = rest
show_from (suc fuel) n rest =
    let shown = String.◌++◌ (digit (n % 10)) rest in
    let more = show_from fuel (n / 10) shown in if n / 10 == 0 then shown else more

-- A number in decimal; it has at most as many digits as its value plus one.
unfoldable pub show : ℕ → String
unfolding show_from
show n = show_from (suc n) n ""

show_example : show 1203 ≡ "1203"
unfolding show
show_example = refl

trim_example : to_lower (trim "  Unit Tests ") ≡ "unit tests"
unfolding to_lower trim
trim_example = refl

-- `s.replace(/^.*\//, "")`: what stands behind the last slash.
unfoldable pub last_segment : String → String
unfolding includes
last_segment String.[] = ""
last_segment (String.◌∷◌ c s) =
    let rest = last_segment s in
    if includes s "/" then rest else if code c == b'/' then s else String.◌∷◌ c s

-- `s.replace(/-/g, " ")`.
unfoldable pub dashes_to_spaces : String → String
dashes_to_spaces String.[] = ""
dashes_to_spaces (String.◌∷◌ c s) =
    if code c == b'-'
    then String.◌∷◌ " " (dashes_to_spaces s)
    else String.◌∷◌ c (dashes_to_spaces s)
