-- ===== src/Ui/Save/Laid.antt =====
-- wifi_shepard_ui/config_io.py: what stands under a key of the document that `write_config` dumps.
use wifi_shepard.Load.Yaml.{Value, Fields, mapping, end, field, find, get, get_or}
use wifi_shepard.Prelude.{
  String, Bool, true, false, ◌==◌, Option, none, some, List, [], ◌∷◌, if◌then◌else◌, ◌≡◌, refl, sym,
  ap, ◌∙◌, subst, Bool-cases, inl, inr, contains, is_some,
}
use wifi_shepard.Ui.Document.{fields_of}
use wifi_shepard.Ui.Save.{merge, overlay, saved}
use wifi_shepard.Ui.Save.Keys.{IsDict, laid_over, or_null, left, find-overlay, find-saved}

-- The top-level keys that the settings page owns.
abbrev pub settings_keys : List String
settings_keys =
    "detection" ∷ "scanner" ∷ "backoff" ∷ "safety_rails" ∷ "quiet_hours" ∷ "reboot" ∷ "overrides"
    ∷ "allowlist" ∷ "controllers" ∷ "home_assistant" ∷ "dns_sources" ∷ []

abbrev pub are_mappings : Value → Value → Bool
are_mappings (mapping _) (mapping _) = true
are_mappings _ _ = false

-- `result` is `new` laid over `old`: of two mappings the old one's keys that are not in the new one
-- stay, and each key of the new one is laid over the old one's; anything else is replaced.
pub data Overlaid : Value → Value → Value → Type 0 where
  replaced : (old new : Value) → are_mappings new old ≡ false → Overlaid old new new
  nested :
      (old new result : Fields)
      → ((key : String) → find new key ≡ none → find result key ≡ find old key)
      → ((key : String) (v : Value) → find new key ≡ some v → is_some (find result key) ≡ true)
      → ((key : String) (v : Value)
          → find new key ≡ some v
          → Overlaid (get old key) v (get result key))
      → Overlaid (mapping old) (mapping new) (mapping result)

-- Each mapping in a value has each key once.
unfoldable mutual
  pub AreDicts : Value → Type 0
  AreDicts (mapping fs) = IsDict fs × FieldsAreDicts fs
  AreDicts _ = Unit

  pub FieldsAreDicts : Fields → Type 0
  FieldsAreDicts end = Unit
  FieldsAreDicts (field key v rest) = AreDicts v × FieldsAreDicts rest

overlay-absent :
    (old new : Fields) (key : String)
    → IsDict new
    → find new key ≡ none
    → find (overlay old new) key ≡ find old key
overlay-absent old new key unique e =
    find-overlay new old key unique ∙ ap (λ o. laid_over o (find old key)) e

overlay-present :
    (old new : Fields) (key : String) (v : Value)
    → IsDict new
    → find new key ≡ some v
    → find (overlay old new) key ≡ some (merge (get old key) v)
unfolding get_or
overlay-present old new key v unique e =
    find-overlay new old key unique ∙ ap (λ o. laid_over o (find old key)) e

get-present : (fs : Fields) (key : String) (v : Value) → find fs key ≡ some v → get fs key ≡ v
unfolding get_or
get-present fs key v e = ap or_null e

laid :
    (old new : Fields) (key : String) (v : Value)
    → IsDict new
    → find new key ≡ some v
    → Overlaid (get old key) v (merge (get old key) v)
    → Overlaid (get old key) v (get (overlay old new) key)
laid old new key v unique e o =
    subst (Overlaid (get old key) v)
      (sym (
        get-present (overlay old new) key (merge (get old key) v)
          (overlay-present old new key v unique e)))
      o

one-sided : (old new : Value) → are_mappings new old ≡ false → Overlaid old new (merge old new)
unfolding merge
one-sided (mapping old) (mapping new) e = cc
one-sided old new e = replaced old new e

mutual
  unfolding merge AreDicts find

  merge-Overlaid : (new old : Value) → AreDicts new → Overlaid old new (merge old new)
  merge-Overlaid (mapping new) (mapping old) ds =
      nested old new (overlay old new) (λ key e. overlay-absent old new key (ds.0) e)
        (λ key v e. ap is_some (overlay-present old new key v (ds.0) e))
        (λ key v e. laid old new key v (ds.0) e (fields-Overlaid new key v (get old key) (ds.1) e))
  merge-Overlaid new old ds = one-sided old new refl

  fields-Overlaid :
      (new : Fields) (key : String) (v old : Value)
      → FieldsAreDicts new
      → find new key ≡ some v
      → Overlaid old v (merge old v)
  fields-Overlaid end key v old ds e = cc
  fields-Overlaid (field k w rest) key v old ds e = elim (Bool-cases (k == key)) [
    | inl same ↦
        let hit : w ≡ v = cc in
        subst (λ x. Overlaid old x (merge old x)) hit (merge-Overlaid w old (ds.0))
    | inr other ↦
        let later : find rest key ≡ some v = rw other at e in
        fields-Overlaid rest key v old (ds.1) later
  ]

-- What stands under a key of the saved document, by what was submitted and what the file held.
abbrev pub Stands : String → Option Value → Fields → Option Value → Type 0
Stands key none old result = result ≡ (if contains key settings_keys then none else find old key)
Stands key (some v) old none = false ≡ true
Stands key (some v) old (some w) = Overlaid (get old key) v w

placed :
    (key : String) (submitted old : Option Value) (doc : Fields) (result : Option Value)
    (o : (v : Value) → submitted ≡ some v → Overlaid (get doc key) v (merge (get doc key) v))
    → find doc key ≡ old
    → result ≡ left (contains key settings_keys) submitted (laid_over submitted old)
    → Stands key submitted doc result
unfolding get_or
placed key none old doc result o e h = rw e h
placed key (some v) old doc none o e h = cc
placed key (some v) old doc (some w) o e h =
    let whole : some w ≡ some (merge (get doc key) v) =
      h ∙ ap (λ x. some (merge (or_null x) v)) (sym e) in
    let same : w ≡ merge (get doc key) v = cc in
    subst (Overlaid (get doc key) v) (sym same) (o v refl)

-- What stands under each top-level key of the document that is saved, whatever the file held, where no
-- mapping that is submitted has a key twice: a submitted value, laid over the file's at every depth,
-- so that what the file alone has in a nested mapping stays; nothing, under a key of the settings
-- page that is not submitted; the file's own value under any other key.
pub saved-Stands :
    (doc : Value) (new : Fields) (key : String)
    → AreDicts (mapping new)
    → Stands key (find new key) (fields_of doc) (find (saved (some doc) new) key)
unfolding AreDicts
saved-Stands doc new key ds =
    placed key (find new key) (find (fields_of doc) key) (fields_of doc)
      (find (saved (some doc) new) key)
      (λ v e. fields-Overlaid new key v (get (fields_of doc) key) (ds.1) e) refl
      (find-saved doc new key (ds.0))
