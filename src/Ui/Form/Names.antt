-- ===== src/Ui/Form/Names.antt =====
-- wifi_shepard_ui/config_io.py: the placeholder `${NAME}` of an environment variable.
use Prim.Native.Char.{code}
use Prim.Native.String.append
use Prim.Native.String.{char_at}
use wifi_shepard.Load.Yaml.{Value, text}
use wifi_shepard.Mac.{strip, strip_left, strip_right, is_space, is_empty}
use wifi_shepard.Prelude.{
  String, ◌<>◌, ℕ, Bool, true, false, ◌&&◌, ◌||◌, Option, none, some, ◌≡◌, refl, sym, ap, ◌∙◌,
  if◌then◌else◌, is_code, is_digit, leb, arith,
}

abbrev is_name_start : ℕ → Bool
is_name_start c = leb b'A' c && leb c b'Z' || is_code c b'_'

abbrev is_name_code : ℕ → Bool
is_name_code c = is_name_start c || is_digit c

unfoldable pub all_name_codes : String → Bool
all_name_codes String.[] = true
all_name_codes (String.◌∷◌ c s) = is_name_code (code c) && all_name_codes s

-- `re.fullmatch(r"[A-Z_][A-Z0-9_]*", name)`
unfoldable pub is_env_name : String → Bool
unfolding all_name_codes
is_env_name String.[] = false
is_env_name (String.◌∷◌ c s) = is_name_start (code c) && all_name_codes s

-- `f"${{{name}}}"`
abbrev pub placeholder : String → String
placeholder name = String.◌∷◌ (char_at "$" 0) (String.◌∷◌ (char_at "{" 0) (name <> "}"))

-- What stands before a final `}`.
unfoldable pub before_brace : String → Option String
before_brace String.[] = none
before_brace (String.◌∷◌ c s) =
    let later = before_brace s in
    if is_code (code c) b'}' && is_empty s
    then some String.[]
    else elim later [ none ↦ none | some inner ↦ some (String.◌∷◌ c inner) ]

abbrev named : Option String → String
named none = ""
named (some name) = if is_env_name name then name else ""

-- The match of `_ENV_REF`, on a text with no blanks around it.
unfoldable pub matched : String → String
unfolding before_brace is_env_name
matched (String.◌∷◌ c (String.◌∷◌ d s)) =
    if is_code (code c) b'$' && is_code (code d) b'{' then named (before_brace s) else ""
matched _ = ""

-- `_env_name`
unfoldable pub env_name : Value → String
unfolding matched
env_name (text s) = matched (strip s)
env_name _ = ""

appended_nonempty : (s : String) → is_empty (s <> "}") ≡ false
appended_nonempty String.[] = refl
appended_nonempty (String.◌∷◌ c s) = ap is_empty (append.cons c s "}")

before_brace-placeholder : (s : String) → before_brace (s <> "}") ≡ some s
unfolding before_brace
before_brace-placeholder String.[] = refl
before_brace-placeholder (String.◌∷◌ c s) =
    ap before_brace (append.cons c s "}")
    ∙ rw (appended_nonempty s, before_brace-placeholder s) (ground arith)

strip_right-closed : (s : String) → strip_right (s <> "}") ≡ (s <> "}")
unfolding strip_right is_space
strip_right-closed String.[] = refl
strip_right-closed (String.◌∷◌ c s) =
    ap strip_right (append.cons c s "}")
    ∙ rw (strip_right-closed s, appended_nonempty s) (ground arith)
    ∙ sym (append.cons c s "}")

left-placeholder : (name : String) → strip_left (placeholder name) ≡ placeholder name
unfolding strip_left is_space
left-placeholder name = refl

strip-placeholder : (name : String) → strip (placeholder name) ≡ placeholder name
unfolding strip strip_left strip_right is_space
strip-placeholder name = ap strip_right (left-placeholder name) ∙ rw (strip_right-closed name) refl

-- The name of an environment variable that is written as a placeholder is read back.
pub env_name-placeholder :
    (name : String) → is_env_name name ≡ true → env_name (text (placeholder name)) ≡ name
unfolding env_name matched
env_name-placeholder name valid =
    ap matched (strip-placeholder name) ∙ ap named (before_brace-placeholder name) ∙ rw valid refl
