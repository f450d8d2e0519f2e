-- ===== src/Ui/Save/Keys.antt =====
-- wifi_shepard_ui/config_io.py: the top-level keys of the document that `write_config` dumps.
use wifi_shepard.Load.Yaml.{Value, Fields, null, end, field, find, get, get_or}
use wifi_shepard.Prelude.{
  String, Bool, true, false, ◌||◌, ◌==◌, Option, none, some, List, [], ◌∷◌, if◌then◌else◌, ◌≡◌,
  refl, sym, ap, ◌∙◌, arith, eq_iff, Bool-cases, inl, inr, contains, is_some,
}
use wifi_shepard.Ui.Document.{fields_of, put_field}
use wifi_shepard.Ui.Document.Laws.{find-put_field, find-put_field_other}
use wifi_shepard.Ui.Save.{merge, overlay, remove_key, drop_managed, saved, managed_top_level}

-- A dict has each key once.
abbrev pub IsDict : Fields → Type 0
IsDict end = Unit
IsDict (field key v rest) = (find rest key ≡ none) × IsDict rest

abbrev pub or_null : Option Value → Value
or_null none = null
or_null (some v) = v

-- The submitted value laid over the old one; what is not submitted stays.
abbrev pub laid_over : Option Value → Option Value → Option Value
laid_over none old = old
laid_over (some v) old = some (merge (or_null old) v)

get_lem : (fs : Fields) (key : String) → get fs key ≡ or_null (find fs key)
unfolding get_or
get_lem fs key = refl

pub find-overlay :
    (new dst : Fields) (key : String)
    → IsDict new
    → find (overlay dst new) key ≡ laid_over (find new key) (find dst key)
unfolding overlay find
find-overlay end dst key unique = refl
find-overlay (field k v rest) dst key unique =
    find-overlay rest (put_field dst k (merge (get dst k) v)) key (unique.1)
    ∙ (elim (Bool-cases (k == key)) [
      | inl e ↦
          let same : k ≡ key = (eq_iff k key).0 e in
          let gone : find rest key ≡ none = rw (← same) (unique.0) in
          let hit : find (put_field dst k (merge (get dst k) v)) key ≡ some (merge (get dst k) v) =
            rw (← same) (find-put_field dst k (merge (get dst k) v)) in
          let old : get dst k ≡ or_null (find dst key) = rw same (get_lem dst key) in
          rw (e, gone, hit, old)
      | inr e ↦ rw (e, find-put_field_other dst k key (merge (get dst k) v) e)
    ])

find-remove_key :
    (fs : Fields) (key other : String)
    → find (remove_key fs key) other ≡ (if key == other then none else find fs other)
unfolding find remove_key
find-remove_key end key other = ground arith
find-remove_key (field k v rest) key other = elim (Bool-cases (k == key)) [
  | inl e ↦ rw (e, find-remove_key rest key other, (eq_iff k key).0 e) (ground arith)
  | inr e ↦
      rw (e, find-remove_key rest key other)
        (elim (Bool-cases (key == other)) [
          | inl h ↦
              let miss : (k == other) ≡ false = rw (← (eq_iff key other).0 h) e in rw (h, miss)
          | inr h ↦ rw h
        ])
]

-- A key that is managed and not submitted goes; every other key stays.
abbrev pub left : Bool → Option Value → Option Value → Option Value
left managed (some v) old = old
left managed none old = if managed then none else old

left-step :
    (hit later : Bool) (submitted old : Option Value)
    → left later submitted (if is_some submitted then old else if hit then none else old)
      ≡ left (hit || later) submitted old
left-step hit later none old = ground arith
left-step hit later (some v) old = refl

left-none : (submitted old : Option Value) → left false submitted old ≡ old
left-none none old = refl
left-none (some v) old = refl

find-dropped :
    (b : Bool) (doc : Fields) (k key : String)
    → find (if b then doc else remove_key doc k) key
      ≡ (if b then find doc key else if k == key then none else find doc key)
find-dropped true doc k key = refl
find-dropped false doc k key = find-remove_key doc k key

dropped_same :
    (new : Fields) (k key : String) (old : Option Value)
    → (if is_some (find new k) then old else if k == key then none else old)
      ≡ (if is_some (find new key) then old else if k == key then none else old)
dropped_same new k key old = elim (Bool-cases (k == key)) [
  | inl e ↦ rw ((eq_iff k key).0 e)
  | inr e ↦ rw e (ground arith)
]

find-drop_managed :
    (keys : List String) (new doc : Fields) (key : String)
    → find (drop_managed keys new doc) key ≡ left (contains key keys) (find new key) (find doc key)
unfolding drop_managed
find-drop_managed [] new doc key = sym (left-none (find new key) (find doc key))
find-drop_managed (k ∷ keys) new doc key =
    find-drop_managed keys new (if is_some (find new k) then doc else remove_key doc k) key
    ∙ ap (left (contains key keys) (find new key))
        (find-dropped (is_some (find new k)) doc k key ∙ dropped_same new k key (find doc key))
    ∙ left-step (k == key) (contains key keys) (find new key) (find doc key)

-- Of each top-level key that the saved document has, whatever the file held: a submitted value is laid
-- over the file's, where each key is submitted once; a managed key that is not submitted is gone; any
-- other key stands as it did.
pub find-saved :
    (doc : Value) (new : Fields) (key : String)
    → IsDict new
    → find (saved (some doc) new) key
      ≡ left
          (contains key managed_top_level)
          (find new key)
          (laid_over (find new key) (find (fields_of doc) key))
unfolding saved
find-saved doc new key unique =
    find-drop_managed managed_top_level new (overlay (fields_of doc) new) key
    ∙ ap (left (contains key managed_top_level) (find new key))
        (find-overlay new (fields_of doc) key unique)
