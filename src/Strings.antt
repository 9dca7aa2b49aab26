-- ===== src/Strings.antt =====
-- The functions of Go's packages strings and strconv that the program calls.
use Prim.Native.Char.{Char, code}
use text.Mathlib.Text.{starts_with}
use compose_lock.Prelude.{
  ℕ, zero, ◌+◌, ◌-◌, ◌*◌, String, ◌<>◌, len, slice, Bool, ◌&&◌, ◌||◌, Option, none, some, List, [],
  ◌∷◌, leb, beq, ◌==◌, if◌then◌else◌,
}

-- unicode.IsSpace
unfoldable pub is_space : ℕ → Bool
is_space c =
    (leb 9 c && leb c 13)
    || beq c 32
    || beq c 0x85
    || beq c 0xa0
    || beq c 0x1680
    || (leb 0x2000 c && leb c 0x200a)
    || beq c 0x2028
    || beq c 0x2029
    || beq c 0x202f
    || beq c 0x205f
    || beq c 0x3000

unfoldable pub trim_left : String → String
unfolding is_space
trim_left String.[] = ""
trim_left (String.◌∷◌ c s) =
    let rest = trim_left s in if is_space (code c) then rest else String.◌∷◌ c s

-- A space that only spaces follow is dropped.
unfoldable pub trim_right : String → String
unfolding is_space
trim_right String.[] = ""
trim_right (String.◌∷◌ c s) =
    let rest = trim_right s in if is_space (code c) && rest == "" then "" else String.◌∷◌ c rest

-- strings.TrimSpace
unfoldable pub trim_space : String → String
unfolding trim_left trim_right
trim_space s = trim_left (trim_right s)

unfoldable pub cut_from : String → ℕ → String → Option (String × String)
cut_from before sep String.[] = none
cut_from before sep (String.◌∷◌ c s) =
    let rest = cut_from (before <> String.◌∷◌ c "") sep s in
    if beq (code c) sep then some (before, s) else rest

-- strings.Cut at a one-byte separator, given by its code; `none` is `ok` false.
unfoldable pub cut : ℕ → String → Option (String × String)
unfolding cut_from
cut sep s = cut_from "" sep s

split_on_from : ℕ → String → String → List String
split_on_from sep piece String.[] = piece ∷ []
split_on_from sep piece (String.◌∷◌ c s) =
    let apart = piece ∷ split_on_from sep "" s in
    let along = split_on_from sep (piece <> String.◌∷◌ c "") s in
    if beq (code c) sep then apart else along

-- strings.Split at a one-byte separator.
unfoldable pub split_on : ℕ → String → List String
unfolding split_on_from
split_on sep s = split_on_from sep "" s

-- strings.Contains
unfoldable pub has_substring : String → String → Bool
has_substring String.[] t = t == ""
has_substring (String.◌∷◌ c s) t = starts_with (String.◌∷◌ c s) t || has_substring s t

digits_from : ℕ → String → Option ℕ
digits_from n String.[] = some n
digits_from n (String.◌∷◌ c s) =
    let rest = digits_from (n * 10 + (code c - b'0')) s in
    if leb b'0' (code c) && leb (code c) b'9' then rest else none

unsigned : String → Option ℕ
unfolding digits_from
unsigned s = if s == "" then none else digits_from 0 s

-- `strconv.Atoi` of a text in range. Each caller refuses a negative number, so that such a number
-- is `none` too; "-0" is 0.
unfoldable pub atoi : String → Option ℕ
unfolding unsigned
atoi s =
    let rest = unsigned (slice s 1 (len s)) in
    if starts_with s "+"
    then rest
    else if starts_with s "-"
    then elim rest [ some zero ↦ some 0 | _ ↦ none ]
    else unsigned s

alphabet : String
alphabet = "abcdefghijklmnopqrstuvwxyz"

lower_piece : Char → String
unfolding alphabet
lower_piece c =
    if leb b'A' (code c) && leb (code c) b'Z'
    then slice alphabet (code c - b'A') (code c - b'A' + 1)
    else String.◌∷◌ c ""

-- strings.ToLower, on the letters of ASCII.
unfoldable pub to_lower : String → String
unfolding lower_piece
to_lower String.[] = ""
to_lower (String.◌∷◌ c s) = lower_piece c <> to_lower s

-- strings.HasSuffix
unfoldable pub has_suffix : String → String → Bool
has_suffix s t = leb (len t) (len s) && slice s (len s - len t) (len s) == t

-- strings.TrimSuffix and strings.TrimPrefix
unfoldable pub trim_suffix : String → String → String
unfolding has_suffix
trim_suffix s t = if has_suffix s t then slice s 0 (len s - len t) else s

unfoldable pub trim_prefix : String → String → String
trim_prefix s t = if starts_with s t then slice s (len t) (len s) else s

-- filepath.Ext: from the last dot on.
unfoldable pub ext_of : String → String
ext_of String.[] = ""
ext_of (String.◌∷◌ c s) =
    let rest = ext_of s in if rest == "" && beq (code c) b'.' then String.◌∷◌ c s else rest

-- strings.CutPrefix; `none` is `ok` false.
unfoldable pub cut_prefix : String → String → Option String
cut_prefix String.[] s = some s
cut_prefix (String.◌∷◌ c p) String.[] = none
cut_prefix (String.◌∷◌ c p) (String.◌∷◌ d s) =
    let rest = cut_prefix p s in if String.◌∷◌ c "" == String.◌∷◌ d "" then rest else none
