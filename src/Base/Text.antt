-- ===== src/Base/Text.antt =====
-- What the code uses of Go's `strings`.
use Prim.Native.Nat.{ℕ, ◌+◌}
use Prim.Native.Char.{Char, code}
use Prim.Native.String.{String, ◌++◌ as ◌<>◌}
use mathlib.Core.Bool.{Bool, true, false, ◌&&◌, ◌||◌}
use mathlib.Core.Option.{Option, none, some}
use mathlib.Core.List.{List, [], ◌∷◌, map}
use bundle_controller.Base.Equality.{◌==◌, nat_eq, string_eq, leb, if◌then◌else◌}

abbrev pub code_points : String → List ℕ
code_points String.[] = []
code_points (String.◌∷◌ first rest) = code first ∷ code_points rest

abbrev codes_equal : List ℕ → List ℕ → Bool
codes_equal [] [] = true
codes_equal [] (b ∷ bs) = false
codes_equal (a ∷ as') [] = false
codes_equal (a ∷ as') (b ∷ bs) = a == b && codes_equal as' bs

-- `unicode.ToLower` on the characters that it takes to ASCII: the capitals, the dotted capital I
-- and the Kelvin sign. Any other character stays outside ASCII.
to_lower_code : ℕ → ℕ
to_lower_code c =
    if leb b'A' c && leb c b'Z'
    then c + 32
    else if c == 0x130
    then b'i'
    else if c == 0x212a
    then b'k'
    else c

-- `strings.ToLower(s) == t`, for a text `t` in ASCII.
unfoldable pub lower_equals : String → String → Bool
unfolding to_lower_code
lower_equals s t = codes_equal (map to_lower_code (code_points s)) (code_points t)

abbrev put_first : Char → List String → List String
put_first c [] = (String.◌∷◌ c String.[]) ∷ []
put_first c (piece ∷ pieces) = (String.◌∷◌ c piece) ∷ pieces

-- `strings.Split(s, ",")`, which has at least one piece.
unfoldable pub split_comma : String → List String
split_comma String.[] = String.[] ∷ []
split_comma (String.◌∷◌ c s) =
    if code c == b',' then String.[] ∷ split_comma s else put_first c (split_comma s)

-- `strings.Join(pieces, "\n")`
unfoldable pub join_lines : List String → String
join_lines [] = ""
join_lines (piece ∷ []) = piece
join_lines (piece ∷ next ∷ rest) = piece <> "\n" <> join_lines (next ∷ rest)

-- `strings.TrimPrefix`, with whether there was the prefix.
abbrev pub without_prefix : String → String → Option String
without_prefix s String.[] = some s
without_prefix String.[] (String.◌∷◌ p ps) = none
without_prefix (String.◌∷◌ first rest) (String.◌∷◌ p ps) =
    let found = without_prefix rest ps in if code first == code p then found else none

-- `strings.HasPrefix`
unfoldable pub has_prefix : String → String → Bool
has_prefix s prefix = elim (without_prefix s prefix) [ none ↦ false | some rest ↦ true ]

unfoldable pub trim_prefix : String → String → String
trim_prefix s prefix = elim (without_prefix s prefix) [ none ↦ s | some rest ↦ rest ]

-- `strings.HasSuffix`: the text itself or a shorter end of it.
unfoldable pub has_suffix : String → String → Bool
has_suffix String.[] suffix = String.[] == suffix
has_suffix (String.◌∷◌ first rest) suffix =
    (String.◌∷◌ first rest) == suffix || has_suffix rest suffix

-- `unicode.IsSpace`
abbrev pub is_space : ℕ → Bool
is_space c =
    (leb 0x9 c && leb c 0xd)
    || c == 0x20
    || c == 0x85
    || c == 0xa0
    || c == 0x1680
    || (leb 0x2000 c && leb c 0x200a)
    || c == 0x2028
    || c == 0x2029
    || c == 0x202f
    || c == 0x205f
    || c == 0x3000

trim_left : String → String
trim_left String.[] = String.[]
trim_left (String.◌∷◌ c s) =
    let rest = trim_left s in if is_space (code c) then rest else String.◌∷◌ c s

trim_right : String → String
trim_right String.[] = String.[]
trim_right (String.◌∷◌ c s) =
    let rest = trim_right s in
    if rest == "" && is_space (code c) then String.[] else String.◌∷◌ c rest

-- `bytes.TrimSpace`
unfoldable pub trim_space : String → String
unfolding trim_left trim_right
trim_space s = trim_right (trim_left s)
