-- ===== src/Ui/Form.antt =====
-- wifi_shepard_ui/config_io.py: `build_mapping`, from the submitted form to the mapping that is
-- validated and written.
pub mod Names
pub mod Paths
pub mod Coerce
pub mod Sealed
use wifi_shepard.Load.Yaml.{
  Value, Items, Fields, null, bool, int, text, seq, mapping, nil, item, end, field, find, get,
  list_of, truthy,
}
use wifi_shepard.Prelude.{
  String, Bool, true, false, not, ◌&&◌, ◌||◌, Option, none, some, List, [], ◌∷◌, contains,
  if◌then◌else◌, is_blank, Result, ok, raise, ◌>>=◌, value_error, attribute_error, type_error, each,
  is_some,
}
use wifi_shepard.Ui.Document.{put_field}
use wifi_shepard.Ui.Form.Coerce.{coerce_scalar, coerce_list, rows_of}
use wifi_shepard.Ui.Form.Paths.{set_at, del_at, get_at, split_dots}
use wifi_shepard.Ui.Schema.{
  ObjectListSpec, fields, scalar_fields, scalar_list_fields, leaves, object_lists,
  optional_sections,
}
use wifi_shepard.Ui.Schema.Kinds.{FieldSpec}

unfoldable pub items_of : List Value → Items
items_of [] = nil
items_of (v ∷ rest) = item v (items_of rest)

module _ (show : Value → String) where
  -- `item[leaf] = coerced`, unless it is OMIT
  abbrev store : String → Option Value → Fields → Fields
  store key none m = m
  store key (some v) m = put_field m key v

  unfoldable pub build_leaves : List (String × FieldSpec) → Fields → Fields → Result Fields
  build_leaves [] row m = ok m
  build_leaves ((leaf, f) ∷ rest) row m = do
    coerced ← coerce_scalar show f (get row leaf)
    build_leaves rest row (store leaf coerced m)

  -- `_build_item` with no nested list
  abbrev pub build_plain : String → Value → Result Value
  build_plain prefix (mapping row) = do
    m ← build_leaves (leaves prefix fields) row end
    ok (mapping m)
  build_plain prefix _ = raise attribute_error

  unfoldable pub add_nested : Option (String × String) → Fields → Fields → Result Fields
  add_nested none row m = ok m
  add_nested (some (key, prefix)) row m = do
    rows ← rows_of (get row key)
    built ← each (build_plain prefix) rows
    ok (put_field m key (seq (items_of built)))

  -- The rows that are objects, each as an item.
  unfoldable pub build_items : ObjectListSpec → List Value → Result Items
  build_items spec [] = ok nil
  build_items spec (mapping row ∷ rest) = do
    m ← build_leaves (leaves spec.item_prefix fields) row end
    m' ← add_nested spec.nested row m
    items ← build_items spec rest
    ok (item (mapping m') items)
  build_items spec (_ ∷ rest) = build_items spec rest

  abbrev path_of : FieldSpec → String
  path_of f = elim f.yaml_path [ none ↦ f.path | some path ↦ path ]

  -- `_set_path`
  abbrev set_path : String → Option Value → Fields → Result Fields
  set_path path none m = ok m
  set_path path (some v) m = set_at (split_dots path) v m

  unfoldable pub add_scalars : List FieldSpec → Fields → Fields → Result Fields
  add_scalars [] scalars m = ok m
  add_scalars (f ∷ rest) scalars m = do
    coerced ← coerce_scalar show f (get scalars f.path)
    m' ← set_path (path_of f) coerced m
    add_scalars rest scalars m'

  unfoldable pub add_lists : List FieldSpec → Fields → Fields → Result Fields
  add_lists [] lists m = ok m
  add_lists (f ∷ rest) lists m = do
    coerced ← coerce_list show f (get lists f.path)
    m' ← set_at (split_dots f.path) coerced m
    add_lists rest lists m'

  unfoldable pub add_objects : List ObjectListSpec → Fields → Fields → Result Fields
  add_objects [] lists m = ok m
  add_objects (spec ∷ rest) lists m = do
    rows ← rows_of (get lists spec.key)
    items ← build_items spec rows
    m' ← set_at spec.location (seq items) m
    add_objects rest lists m'

  -- `v in (None, "", {}, [])`
  abbrev is_nothing : Value → Bool
  is_nothing null = true
  is_nothing (text s) = is_blank s
  is_nothing (mapping end) = true
  is_nothing (seq nil) = true
  is_nothing _ = false

  unfoldable pub all_nothing : Fields → Bool
  all_nothing end = true
  all_nothing (field k v rest) = is_nothing v && all_nothing rest

  -- `_section_is_empty`
  unfoldable pub section_is_empty : Value → Bool
  section_is_empty null = true
  section_is_empty (seq nil) = true
  section_is_empty (mapping fs) = all_nothing fs
  section_is_empty _ = false

  -- The toggle of a section where the payload has one, else whether it has no content.
  abbrev toggled : Option Value → Value → Bool
  toggled none section = section_is_empty section
  toggled (some flag) section = not (truthy flag)

  abbrev flag_of : Value → String → Option Value
  flag_of (mapping enabled) path = find enabled path
  flag_of _ path = none

  unfoldable pub drop_sections : List String → Value → Fields → Fields
  drop_sections [] enabled m = m
  drop_sections (path ∷ rest) enabled m =
      let parts = split_dots path in
      drop_sections rest enabled
        (if toggled (flag_of enabled path) (get_at parts m) then del_at parts m else m)

  -- `payload.get(key) or {}`, whose own `get` is called
  abbrev part_of : Value → Result Fields
  part_of v = if truthy v then elim v [ mapping fs ↦ ok fs | _ ↦ raise attribute_error ] else ok end

  unfoldable pub build_mapping : Fields → Result Fields
  build_mapping payload = do
    scalars ← part_of (get payload "scalars")
    lists ← part_of (get payload "scalar_lists")
    objects ← part_of (get payload "object_lists")
    m ← add_scalars scalar_fields scalars end
    m' ← add_lists scalar_list_fields lists m
    m'' ← add_objects object_lists objects m'
    ok (drop_sections optional_sections (get payload "section_enabled") m'')
