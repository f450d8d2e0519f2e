-- ===== src/Load/Env.antt =====
-- wifi_shepard/config.py: the references `${NAME}` to environment variables, and `load_config_from_path`
-- behind the reading of the file. The environment is a function from names to values.
pub mod Resolved
use Prim.Native.Char.{Char, code}
use wifi_shepard.Load.Build.{LoadedConfig, Warning}
use wifi_shepard.Load.Mapping.{build_config_from_mapping}
use wifi_shepard.Load.Yaml.{Value, Items, Fields, text, seq, mapping, nil, item, end, field}
use wifi_shepard.Prelude.{
  ℕ, String, ◌<>◌, Bool, true, false, ◌&&◌, ◌||◌, Option, none, some, List, if◌then◌else◌, is_code,
  is_digit, leb, Result, ok, raise, ◌>>=◌, value_error,
}

abbrev pub is_name_start : ℕ → Bool
is_name_start c = leb b'A' c && leb c b'Z' || is_code c b'_'

unfoldable pub is_name_rest : String → Bool
is_name_rest String.[] = true
is_name_rest (String.◌∷◌ c s) = (is_name_start (code c) || is_digit (code c)) && is_name_rest s

-- `_ENV_VAR_NAME.fullmatch(name)`
unfoldable pub is_variable : String → Bool
unfolding is_name_rest
is_variable String.[] = false
is_variable (String.◌∷◌ c s) = is_name_start (code c) && is_name_rest s

abbrev or_refuse : Option String → Result String
or_refuse none = raise value_error
or_refuse (some value) = ok value

-- One reference: a name that is no variable's, and a variable that is not set, are refused.
unfoldable pub resolve : (String → Option String) → String → Result String
resolve environ name = if is_variable name then or_refuse (environ name) else raise value_error

-- Where a scan of a text stands: outside of a reference, behind a `$`, or in one, with its name so far.
pub data Mode : Type 0 where
  outside dollar : Mode
  inside : String → Mode

abbrev one : Char → String
one c = String.◌∷◌ c String.[]

-- What is left where the text ends: an open reference is no reference.
abbrev rest_of : Mode → String
rest_of outside = ""
rest_of dollar = "$"
rest_of (inside name) = "${" <> name

-- `_interpolate_env`: the matches of `\$\{([^}]*)\}` from left to right, each replaced.
unfoldable pub interpolate_env : (String → Option String) → Mode → String → Result String
unfolding resolve
interpolate_env environ mode String.[] = ok (rest_of mode)
interpolate_env environ outside (String.◌∷◌ c s) = elim (is_code (code c) b'$') [
  | true ↦ interpolate_env environ dollar s
  | false ↦ do later ← interpolate_env environ outside s; ok (String.◌∷◌ c later)
]
interpolate_env environ dollar (String.◌∷◌ c s) = elim (is_code (code c) b'{') [
  | true ↦ interpolate_env environ (inside "") s
  | false ↦ elim (is_code (code c) b'$') [
    | true ↦ do later ← interpolate_env environ dollar s; ok ("$" <> later)
    | false ↦ do later ← interpolate_env environ outside s; ok ("$" <> (one c <> later))
  ]
]
interpolate_env environ (inside name) (String.◌∷◌ c s) = elim (is_code (code c) b'}') [
  | true ↦ do
    value ← resolve environ name
    later ← interpolate_env environ outside s
    ok (value <> later)
  | false ↦ interpolate_env environ (inside (name <> one c)) s
]

-- `_walk_and_interpolate`
unfoldable mutual
  pub walk : (String → Option String) → Value → Result Value
  walk environ (text s) = do t ← interpolate_env environ outside s; ok (text t)
  walk environ (seq xs) = do ys ← walk_items environ xs; ok (seq ys)
  walk environ (mapping fs) = do gs ← walk_fields environ fs; ok (mapping gs)
  walk environ v = ok v

  pub walk_items : (String → Option String) → Items → Result Items
  walk_items environ nil = ok nil
  walk_items environ (item v rest) = do
    w ← walk environ v
    ws ← walk_items environ rest
    ok (item w ws)

  pub walk_fields : (String → Option String) → Fields → Result Fields
  walk_fields environ end = ok end
  walk_fields environ (field key v rest) = do
    w ← walk environ v
    ws ← walk_fields environ rest
    ok (field key w ws)

abbrev require_root : Value → Result Value
require_root (mapping fs) = ok (mapping fs)
require_root _ = raise value_error

-- From the answer of `yaml.safe_load` on.
unfoldable pub load_config_from_path :
    (String → Option String)
    → (Value → String)
    → (String → Bool)
    → Result Value
    → Result (LoadedConfig × List Warning)
unfolding walk
load_config_from_path environ show zone_ok read = do
  v ← read
  root ← require_root v
  w ← walk environ root
  build_config_from_mapping show zone_ok w
