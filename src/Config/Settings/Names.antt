-- ===== src/Config/Settings/Names.antt =====
-- The names that `Validate` of internal/config/config.go accepts: of a remote or a branch, and of a
-- header.
use Prim.Native.Char.{code}
use text.Mathlib.Text.{starts_with}
use compose_lock.Prelude.{
  ℕ, String, Bool, true, false, not, ◌&&◌, ◌||◌, List, [], ◌∷◌, leb, beq, ◌==◌, if◌then◌else◌,
}
use compose_lock.Strings.{has_substring}

is_ref_char : ℕ → Bool
is_ref_char c =
    (leb b'a' c && leb c b'z')
    || (leb b'A' c && leb c b'Z')
    || (leb b'0' c && leb c b'9')
    || beq c b'.'
    || beq c b'_'
    || beq c b'/'
    || beq c b'-'

unfoldable pub all_ref_chars : String → Bool
unfolding is_ref_char
all_ref_chars String.[] = true
all_ref_chars (String.◌∷◌ c s) = is_ref_char (code c) && all_ref_chars s

unfoldable pub valid_git_ref : String → Bool
valid_git_ref s =
    if s == "" || (starts_with s "-" || has_substring s "..") then false else all_ref_chars s

is_one_of : List ℕ → ℕ → Bool
is_one_of [] d = false
is_one_of (e ∷ es) d = beq d e || is_one_of es d

-- strings.ContainsAny
unfoldable pub contains_any : List ℕ → String → Bool
unfolding is_one_of
contains_any cs String.[] = false
contains_any cs (String.◌∷◌ c s) = is_one_of cs (code c) || contains_any cs s

separators : List ℕ
separators =
    b'(' ∷ b')' ∷ b'<' ∷ b'>' ∷ b'@' ∷ b',' ∷ b';' ∷ b':' ∷ b'\\' ∷ b'"' ∷ b'/' ∷ b'[' ∷ b']' ∷ b'?'
    ∷ b'=' ∷ b'{' ∷ b'}' ∷ []

all_name_chars : String → Bool
unfolding is_one_of separators
all_name_chars String.[] = true
all_name_chars (String.◌∷◌ c s) =
    not (leb (code c) 32 || (leb 127 (code c) || is_one_of separators (code c))) && all_name_chars s

unfoldable pub valid_header_name : String → Bool
unfolding all_name_chars
valid_header_name name = not (name == "") && all_name_chars name
