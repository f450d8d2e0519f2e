-- ===== src/Ui/Form/Sealed/Coerced.antt =====
-- What the coercions of wifi_shepard_ui/config_io.py answer, as values of a document.

use wifi_shepard.Load.Yaml.{Value, Items, null, bool, int, text, seq, nil, item, truthy}
use wifi_shepard.Load.Checks.{to_int}
use wifi_shepard.Mac.{strip}
use wifi_shepard.Prelude.{
  String, Bool, true, false, Option, none, some, List, [], ◌∷◌, if◌then◌else◌, ◌≡◌, refl, ◌⊎◌, inl,
  inr, is_blank, Result, ok, raise, value_error, ◌>>=◌, Ok, raised, returned, ◌▹◌, trivially,
  if_intro,
}
use wifi_shepard.Ui.Form.Coerce.{
  coerce_as, coerce_secret, coerce_list, coerce_entries, entry_as, whole_number, rows_of, stripped,
  str, blank_int,
}
use wifi_shepard.Ui.Form.Names.{is_env_name, placeholder}
use wifi_shepard.Ui.Form.Sealed.{IsPlaceholder, Sealed, SealedItems}
use wifi_shepard.Ui.Schema.Kinds.{Kind, FieldSpec}

abbrev pub is_secret_ref : Kind → Bool
is_secret_ref Kind.secret_ref = true
is_secret_ref _ = false

-- A coerced value: nothing nested, and of a secret a placeholder.
unfoldable pub Fits : Kind → Option Value → Type 0
Fits kind none = Unit
Fits kind (some v) = Sealed v × ((is_secret_ref kind ≡ false) ⊎ IsPlaceholder v)

whole_number-Ok : (v : Value) → Ok Sealed (whole_number v)
unfolding whole_number Sealed
whole_number-Ok (int i) = returned _ tt
whole_number-Ok (text s) = trivially (to_int (text (strip s))) ▹ λ n _. returned _ tt
whole_number-Ok _ = raised _

blank_int-Fits :
    (kind kind' : Kind) (f : FieldSpec) → is_secret_ref kind ≡ false → Fits kind (blank_int kind' f)
unfolding Fits Sealed
blank_int-Fits kind Kind.int_or_null f plain =
    if_intro (Fits kind) f.blank_writes_null (some null) none (λ _. (tt, inl plain)) (λ _. tt)
blank_int-Fits kind _ f plain = tt

plain-Fits : (kind : Kind) (v : Value) → is_secret_ref kind ≡ false → Sealed v → Fits kind (some v)
unfolding Fits
plain-Fits kind v plain s = (s, inl plain)

module _ (show : Value → String) where
  named-Ok :
      (b : Bool) (name : String)
      → is_env_name name ≡ b
      → Ok
          (Fits Kind.secret_ref)
          (if b then ok (some (text (placeholder name))) else raise value_error)
  unfolding Fits Sealed
  named-Ok true name e = returned _ (tt, inr (name, e, refl))
  named-Ok false name e = raised _

  coerce_secret-Ok : (name : String) → Ok (Fits Kind.secret_ref) (coerce_secret show name)
  unfolding Fits
  coerce_secret-Ok name =
      if_intro (Ok (Fits Kind.secret_ref)) (is_blank name) (ok none) _ (λ _. returned none tt)
        (λ _. named-Ok (is_env_name name) name refl)

  coerce_int-Ok :
      (kind : Kind) (f : FieldSpec) (v : Value) (b : Bool)
      → is_secret_ref kind ≡ false
      → Ok (Fits kind) (if b then ok (blank_int f.kind f) else do n ← whole_number v; ok (some n))
  coerce_int-Ok kind f v true plain = returned _ (blank_int-Fits kind f.kind f plain)
  coerce_int-Ok kind f v false plain =
      whole_number-Ok v ▹ λ n s. returned _ (plain-Fits kind n plain s)

  text-Fits :
      (kind : Kind) (b : Bool) (t : String)
      → is_secret_ref kind ≡ false
      → Fits kind (if b then none else some (text t))
  unfolding Fits Sealed
  text-Fits kind true t plain = tt
  text-Fits kind false t plain = (tt, inl plain)

  pub coerce_as-Ok :
      (kind : Kind) (f : FieldSpec) (v : Value) → Ok (Fits kind) (coerce_as show kind f v)
  unfolding coerce_as Sealed
  coerce_as-Ok Kind.secret_ref f v = coerce_secret-Ok (stripped show v)
  coerce_as-Ok Kind.bool f v = returned _ (plain-Fits Kind.bool (bool (truthy v)) refl tt)
  coerce_as-Ok Kind.int f v = coerce_int-Ok Kind.int f v _ refl
  coerce_as-Ok Kind.int_or_null f v = coerce_int-Ok Kind.int_or_null f v _ refl
  coerce_as-Ok Kind.enum f v = returned _ (text-Fits Kind.enum _ (stripped show v) refl)
  coerce_as-Ok Kind.string f v = returned _ (text-Fits Kind.string _ (stripped show v) refl)
  coerce_as-Ok Kind.mac f v = returned _ (text-Fits Kind.mac _ (stripped show v) refl)
  coerce_as-Ok Kind.time_hhmm f v = returned _ (text-Fits Kind.time_hhmm _ (stripped show v) refl)
  coerce_as-Ok Kind.timezone f v = returned _ (text-Fits Kind.timezone _ (stripped show v) refl)
  coerce_as-Ok Kind.int_list f v = returned _ (text-Fits Kind.int_list _ (stripped show v) refl)
  coerce_as-Ok Kind.string_list f v =
      returned _ (text-Fits Kind.string_list _ (stripped show v) refl)
  coerce_as-Ok Kind.mac_list f v = returned _ (text-Fits Kind.mac_list _ (stripped show v) refl)

  entry_as-Ok : (kind : Kind) (v : Value) → Ok Sealed (entry_as show kind v)
  unfolding Sealed
  entry_as-Ok Kind.int_list v = whole_number-Ok v
  entry_as-Ok _ v = returned _ tt

  entries-Ok :
      (b : Bool) (w : Result Value) (later : Result Items)
      → Ok Sealed w
      → Ok SealedItems later
      → Ok SealedItems (if b then later else do x ← w; items ← later; ok (item x items))
  unfolding Sealed
  entries-Ok true w later s l = l
  entries-Ok false w later s l =
      s ▹ λ x sealed. l ▹ λ items sealed'. returned (item x items) (sealed, sealed')

  coerce_entries-Ok : (kind : Kind) (vs : List Value) → Ok SealedItems (coerce_entries show kind vs)
  unfolding coerce_entries Sealed
  coerce_entries-Ok kind [] = returned nil tt
  coerce_entries-Ok kind (v ∷ rest) =
      entries-Ok (is_blank (strip (str show v))) (entry_as show kind v)
        (coerce_entries show kind rest) (entry_as-Ok kind v) (coerce_entries-Ok kind rest)

  pub coerce_list-Ok : (f : FieldSpec) (v : Value) → Ok Sealed (coerce_list show f v)
  unfolding coerce_list Sealed
  coerce_list-Ok f v = trivially (rows_of v) ▹ λ vs _.
      coerce_entries-Ok f.kind vs ▹ λ items s. returned (seq items) s
