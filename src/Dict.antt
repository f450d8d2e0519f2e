-- ===== src/Dict.antt =====
-- Python's `dict` with string keys: entries in the order of insertion, a write to a present key in
-- place. The representation is private; clients compute through `dict_laws`.
mod Assoc
use Assoc.{Entry, find, write, erase, find-write, find-erase}
use wifi_shepard.Prelude.{
  String, ◌≡◌, refl, Bool, Option, none, some, List, [], map, arith, ◌==◌, if◌then◌else◌, is_some,
}

pub record Dict {ℓ} (V : Type ℓ) : Type ℓ where
  entries : List (Entry V)

module _ {ℓ} {V : Type ℓ} where
  unfoldable pub empty : Dict V
  empty = record { entries = [] }

  -- `d.get(k)`
  unfoldable pub get : Dict V → String → Option V
  unfolding find
  get d = find d.entries

  -- `d.get(k, v)`
  unfoldable pub get_or : Dict V → String → V → V
  unfolding find
  get_or d k v = elim (find d.entries k) [ none ↦ v | some w ↦ w ]

  -- `d[k] = v`
  unfoldable pub put : Dict V → String → V → Dict V
  unfolding write
  put d k v = record d { entries = write d.entries k v }

  -- `d.pop(k, None)`
  unfoldable pub remove : Dict V → String → Dict V
  unfolding erase
  remove d k = record d { entries = erase d.entries k }

  -- `list(d.keys())`
  unfoldable pub keys : Dict V → List String
  keys d = map (λ (e : Entry V). e.name) d.entries

  -- `k in d`
  abbrev pub has : Dict V → String → Bool
  has d k = is_some (get d k)

  module _ (d : Dict V) (written asked : String) where
    pub get-put :
        (value : V)
        → get (put d written value) asked ≡ (if written == asked then some value else get d asked)
    unfolding get put
    get-put value = find-write written asked value d.entries

    pub get-remove : get (remove d written) asked ≡ (if written == asked then none else get d asked)
    unfolding get remove
    get-remove = find-erase written asked d.entries

    pub get_or-put :
        (value default : V)
        → get_or (put d written value) asked default
          ≡ (if written == asked then value else get_or d asked default)
    unfolding get_or put
    get_or-put value default = ground (arith, find-write written asked value d.entries)

    pub get_or-remove :
        (default : V)
        → get_or (remove d written) asked default
          ≡ (if written == asked then default else get_or d asked default)
    unfolding get_or remove
    get_or-remove default = ground (arith, find-erase written asked d.entries)

pub get_or-empty {ℓ} : {V : Type ℓ} (k : String) (w : V) → get_or (empty {V = V}) k w ≡ w
unfolding get_or empty find
get_or-empty k w = refl

pub get-empty {ℓ} : {V : Type ℓ} (k : String) → get (empty {V = V}) k ≡ none
unfolding get empty find
get-empty k = refl

pub ruleset dict_laws = (get-empty, get-put, get-remove, get_or-empty, get_or-put, get_or-remove)
