-- ===== src/Load/Env/Resolved.antt =====
-- wifi_shepard/config.py and wifi_shepard_ui/config_io.py: a placeholder that the web interface writes,
-- and what the loader makes of it.
use Prim.Native.Char.{Char, code}
use Prim.Native.String.append
use package.text.Mathlib.TextLemmas.{append_assoc, append-nil}
use wifi_shepard.Load.Env.{
  interpolate_env, resolve, is_variable, is_name_rest, is_name_start, outside, inside, one,
}
use wifi_shepard.Load.Yaml.{text}
use wifi_shepard.Prelude.{
  String, ◌<>◌, true, false, ◌&&◌, ◌||◌, Option, some, ◌≡◌, refl, sym, ap, ◌∙◌, is_code, is_digit,
  arith, ok, ◌>>=◌,
}
use wifi_shepard.Ui.Form.Names.{
  is_env_name, placeholder, all_name_codes, env_name, env_name-placeholder,
}

rest_same : (s : String) → all_name_codes s ≡ is_name_rest s
unfolding all_name_codes is_name_rest
rest_same String.[] = refl
rest_same (String.◌∷◌ c s) =
    ap (λ b. (is_name_start (code c) || is_digit (code c)) && b) (rest_same s)

same : (s : String) → is_env_name s ≡ is_variable s
unfolding is_env_name is_variable
same String.[] = refl
same (String.◌∷◌ c s) = ap (λ b. is_name_start (code c) && b) (rest_same s)

longer : (acc : String) (c : Char) (s : String) → ((acc <> one c) <> s) ≡ (acc <> String.◌∷◌ c s)
longer acc c s =
    append_assoc acc (one c) s
    ∙ ap (λ t. acc <> t) (append.cons c String.[] s ∙ ap (λ t. String.◌∷◌ c t) (append.nil s))

name_scan :
    (environ : String → Option String) (acc s : String)
    → is_name_rest s ≡ true
    → interpolate_env environ (inside acc) (s <> "}")
      ≡ (resolve environ (acc <> s) >>= λ value. ok (value <> ""))
unfolding interpolate_env is_name_rest
name_scan environ acc String.[] e =
    ap (λ n. resolve environ n >>= λ value. ok (value <> "")) (sym (append-nil acc))
name_scan environ acc (String.◌∷◌ c s) e =
    let open' : is_code (code c) b'}' ≡ false = ground arith in
    let valid : is_name_rest s ≡ true = ground arith in
    ap (interpolate_env environ (inside acc)) (append.cons c s "}")
    ∙ rw (open', interpolate_env) (name_scan environ (acc <> one c) s valid)
    ∙ ap (λ n. resolve environ n >>= λ value. ok (value <> "")) (longer acc c s)

rest_of_name : (name : String) → is_variable name ≡ true → is_name_rest name ≡ true
unfolding is_variable is_name_rest
rest_of_name String.[] e = cc
rest_of_name (String.◌∷◌ c s) e = ground arith

placeholder-interpolated :
    (environ : String → Option String) (name value : String)
    → is_env_name name ≡ true
    → environ name ≡ some value
    → interpolate_env environ outside (placeholder name) ≡ ok value
unfolding interpolate_env resolve
placeholder-interpolated environ name value valid set =
    let valid' : is_variable name ≡ true = sym (same name) ∙ valid in
    name_scan environ "" name (rest_of_name name valid')
    ∙ ap (λ n. resolve environ n >>= λ v. ok (v <> "")) (append.nil name)
    ∙ rw (valid', set) (ap ok (append-nil value))

-- Where a variable is set and its name is one that the web interface accepts, the placeholder that
-- the web interface writes for it is read by the loader as the variable's value, and shown by the
-- web interface as the variable's name.
pub placeholder-round_trip :
    (environ : String → Option String) (name value : String)
    → is_env_name name ≡ true
    → environ name ≡ some value
    → (interpolate_env environ outside (placeholder name) ≡ ok value)
      × (env_name (text (placeholder name)) ≡ name)
placeholder-round_trip environ name value valid set =
    (placeholder-interpolated environ name value valid set, env_name-placeholder name valid)
