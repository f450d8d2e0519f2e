-- ===== src/Ui/Form/Paths.antt =====
-- wifi_shepard_ui/config_io.py: dotted paths into a mapping.
use Prim.Native.Char.{code}
use wifi_shepard.Load.Yaml.{Value, Fields, null, mapping, end, find}
use wifi_shepard.Prelude.{
  String, Option, none, some, List, [], ◌∷◌, if◌then◌else◌, is_code, Result, ok, raise, ◌>>=◌,
  attribute_error,
}
use wifi_shepard.Ui.Document.{put_field}
use wifi_shepard.Ui.Save.{remove_key}

-- `dotted.split(".")`
unfoldable pub split_dots : String → List String
split_dots String.[] = String.[] ∷ []
split_dots (String.◌∷◌ c s) =
    let later = split_dots s in
    if is_code (code c) b'.'
    then String.[] ∷ later
    else elim later [ [] ↦ String.◌∷◌ c String.[] ∷ [] | part ∷ parts ↦ String.◌∷◌ c part ∷ parts ]

-- `node.setdefault(part, {})`; a node that is no mapping raises at its next use.
abbrev pub child_of : Option Value → Result Fields
child_of none = ok end
child_of (some (mapping fs)) = ok fs
child_of (some _) = raise attribute_error

-- The loop of `_set_path`, and the write behind it.
unfoldable pub set_at : List String → Value → Fields → Result Fields
set_at [] v m = ok m
set_at (key ∷ []) v m = ok (put_field m key v)
set_at (part ∷ next ∷ rest) v m = do
  child ← child_of (find m part)
  child' ← set_at (next ∷ rest) v child
  ok (put_field m part (mapping child'))

-- `_get_from`
unfoldable pub get_at : List String → Fields → Value
get_at [] m = mapping m
get_at (key ∷ []) m = elim (find m key) [ none ↦ null | some v ↦ v ]
get_at (part ∷ next ∷ rest) m = elim (find m part) [
  | some (mapping fs) ↦ get_at (next ∷ rest) fs
  | _ ↦ null
]

-- `_del_path`
unfoldable pub del_at : List String → Fields → Fields
del_at [] m = m
del_at (key ∷ []) m = remove_key m key
del_at (part ∷ next ∷ rest) m = elim (find m part) [
  | some (mapping fs) ↦ put_field m part (mapping (del_at (next ∷ rest) fs))
  | _ ↦ m
]
