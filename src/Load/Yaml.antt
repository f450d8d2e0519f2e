-- ===== src/Load/Yaml.antt =====
-- What `yaml.safe_load` answers: the values that the loader of the configuration reads.
use wifi_shepard.Prelude.{
  String, Bool, true, false, not, Option, none, some, List, [], ◌∷◌, ◌==◌, if◌then◌else◌, ℤ, pos,
  is_blank, Result, leb,
}

-- A float is kept as whether it is not zero, and as what `int` makes of it. `timestamp` is a date.
mutual
  pub data Value : Type 0 where
    null : Value
    bool : Bool → Value
    int : ℤ → Value
    float : Bool → Result ℤ → Value
    text : String → Value
    timestamp : String → Value
    seq : Items → Value
    mapping : Fields → Value

  pub data Items : Type 0 where
    nil : Items
    item : Value → Items → Items

  pub data Fields : Type 0 where
    end : Fields
    field : String → Value → Fields → Fields

unfoldable pub list_of : Items → List Value
list_of nil = []
list_of (item v rest) = v ∷ list_of rest

-- `key in mapping`, with the value
unfoldable pub find : Fields → String → Option Value
find end key = none
find (field k v rest) key = if k == key then some v else find rest key

-- `mapping.get(key, default)`
unfoldable pub get_or : Fields → String → Value → Value
unfolding find
get_or fs key default = elim (find fs key) [ none ↦ default | some v ↦ v ]

-- `mapping.get(key)`
abbrev pub get : Fields → String → Value
get fs key = get_or fs key null

-- `bool(value)`
unfoldable pub truthy : Value → Bool
truthy null = false
truthy (bool b) = b
truthy (int (pos n)) = leb 1 n
truthy (int _) = true
truthy (float nonzero _) = nonzero
truthy (text s) = not (is_blank s)
truthy (timestamp _) = true
truthy (seq nil) = false
truthy (seq (item _ _)) = true
truthy (mapping end) = false
truthy (mapping (field _ _ _)) = true
