-- ===== src/Ui/Form/Sealed/Built.antt =====
-- The mapping that `build_mapping` of wifi_shepard_ui/config_io.py makes.
use wifi_shepard.Load.Redact.Blind.{names_secret}
use wifi_shepard.Load.Yaml.{Value, Fields, seq, mapping, nil, item, end, get}
use wifi_shepard.Prelude.{
  String, Bool, true, false, not, ◌&&◌, ◌||◌, Option, none, some, List, [], ◌∷◌, ◌≡◌, ◌⊎◌, inl, inr,
  all, All, Ok, raised, returned, ◌▹◌, trivially, each-Ok, arith,
}
use wifi_shepard.Ui.Form.{items_of, store, build_leaves, build_plain, add_nested, build_items}
use wifi_shepard.Ui.Form.Coerce.{rows_of}
use wifi_shepard.Ui.Form.Sealed.{
  IsPlaceholder, Guards, GuardsAt, Sealed, SealedItems, SealedFields, put_field-Sealed,
}
use wifi_shepard.Ui.Schema.{ObjectListSpec, fields, leaves}
use wifi_shepard.Ui.Form.Sealed.Coerced.{is_secret_ref, Fits, coerce_as-Ok}
use wifi_shepard.Ui.Schema.Kinds.{Kind, FieldSpec}

-- A key of a secret belongs to a field whose kind is the reference of a secret.
abbrev pub is_safe : Kind → String → Bool
is_safe kind key = not (names_secret key) || is_secret_ref kind

abbrev pub is_safe_path : Kind → List String → Bool
is_safe_path kind [] = true
is_safe_path kind (key ∷ []) = is_safe kind key
is_safe_path kind (part ∷ next ∷ rest) = not (names_secret part) && is_safe_path kind (next ∷ rest)

safe-Guards :
    (kind : Kind) (key : String) (v : Value)
    → is_safe kind key ≡ true
    → (is_secret_ref kind ≡ false) ⊎ IsPlaceholder v
    → Guards key v
safe-Guards kind key v e (inr p) = inr p
safe-Guards kind key v e (inl plain) = inl (ground arith)

pub safe-GuardsAt :
    (kind : Kind) (parts : List String) (v : Value)
    → is_safe_path kind parts ≡ true
    → (is_secret_ref kind ≡ false) ⊎ IsPlaceholder v
    → GuardsAt parts v
safe-GuardsAt kind [] v e f = tt
safe-GuardsAt kind (key ∷ []) v e f = safe-Guards kind key v e f
safe-GuardsAt kind (part ∷ next ∷ rest) v e f =
    (ground arith, safe-GuardsAt kind (next ∷ rest) v (ground arith) f)

pub all_first :
    {A : Type 0} (p : A → Bool) (x : A) (xs : List A) → all p (x ∷ xs) ≡ true → p x ≡ true
all_first p x xs e = ground arith

pub all_rest :
    {A : Type 0} (p : A → Bool) (x : A) (xs : List A) → all p (x ∷ xs) ≡ true → all p xs ≡ true
all_rest p x xs e = ground arith

abbrev pub is_safe_leaf : String × FieldSpec → Bool
is_safe_leaf (leaf, f) = is_safe f.kind leaf

store-Sealed :
    (show : Value → String) (kind : Kind) (leaf : String) (o : Option Value) (m : Fields)
    → is_safe kind leaf ≡ true
    → Fits kind o
    → SealedFields m
    → SealedFields (store show leaf o m)
unfolding Fits
store-Sealed show kind leaf none m e f s = s
store-Sealed show kind leaf (some v) m e f s =
    put_field-Sealed m leaf v s (safe-Guards kind leaf v e (f.1)) (f.0)

-- What the table says of one list of objects.
pub record SafeNested (nested : String × String) : Type 0 where
  pub key_free : names_secret (nested.0) ≡ false
  pub nested_leaves : all is_safe_leaf (leaves (nested.1) fields) ≡ true

abbrev IsSafeNested : Option (String × String) → Type 0
IsSafeNested none = Unit
IsSafeNested (some nested) = SafeNested nested

pub record SafeSpec (spec : ObjectListSpec) : Type 0 where
  pub own_leaves : all is_safe_leaf (leaves spec.item_prefix fields) ≡ true
  pub nested_safe : IsSafeNested spec.nested
  pub location_free : is_safe_path Kind.string spec.location ≡ true

items_of-Sealed : (vs : List Value) → All Sealed vs → SealedItems (items_of vs)
unfolding items_of Sealed
items_of-Sealed [] s = tt
items_of-Sealed (v ∷ rest) s = (s.0, items_of-Sealed rest (s.1))

module _ (show : Value → String) where
  build_leaves-Ok :
      (ls : List (String × FieldSpec)) (row m : Fields)
      → all is_safe_leaf ls ≡ true
      → SealedFields m
      → Ok SealedFields (build_leaves show ls row m)
  unfolding build_leaves
  build_leaves-Ok [] row m e s = returned m s
  build_leaves-Ok ((leaf, f) ∷ rest) row m e s =
      coerce_as-Ok show f.kind f (get row leaf) ▹ λ o fits.
      build_leaves-Ok rest row (store show leaf o m) (all_rest is_safe_leaf (leaf, f) rest e)
        (store-Sealed show f.kind leaf o m (all_first is_safe_leaf (leaf, f) rest e) fits s)

  build_plain-Ok :
      (prefix : String)
      → all is_safe_leaf (leaves prefix fields) ≡ true
      → (v : Value) → Ok Sealed (build_plain show prefix v)
  unfolding Sealed
  build_plain-Ok prefix e (mapping row) =
      build_leaves-Ok (leaves prefix fields) row end e tt ▹ λ m s. returned (mapping m) s
  build_plain-Ok prefix e _ = raised _

  add_nested-Ok :
      (nested : Option (String × String)) (row m : Fields)
      → IsSafeNested nested
      → SealedFields m
      → Ok SealedFields (add_nested show nested row m)
  unfolding add_nested Sealed
  add_nested-Ok none row m safe s = returned m s
  add_nested-Ok (some (key, prefix)) row m safe s = trivially (rows_of (get row key)) ▹ λ rows _.
      each-Ok (build_plain-Ok prefix safe.nested_leaves) rows ▹ λ built sealed. returned _ (
        put_field-Sealed m key (seq (items_of built)) s (inl safe.key_free)
          (items_of-Sealed built sealed))

  pub build_items-Ok :
      (spec : ObjectListSpec) (rows : List Value)
      → SafeSpec spec
      → Ok SealedItems (build_items show spec rows)
  unfolding build_items Sealed
  build_items-Ok spec [] safe = returned nil tt
  build_items-Ok spec (mapping row ∷ rest) safe =
      build_leaves-Ok (leaves spec.item_prefix fields) row end safe.own_leaves tt ▹ λ m s.
      add_nested-Ok spec.nested row m safe.nested_safe s ▹ λ m' s'.
      build_items-Ok spec rest safe ▹ λ items sealed.
      returned (item (mapping m') items) (s', sealed)
  build_items-Ok spec (_ ∷ rest) safe = build_items-Ok spec rest safe
