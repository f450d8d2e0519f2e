-- ===== src/Ui/Form/Sealed.antt =====
-- Documents, by what they hold under the keys of secrets.
pub mod Coerced
pub mod Built
pub mod Mapping
use wifi_shepard.Load.Redact.Blind.{names_secret}
use wifi_shepard.Load.Yaml.{
  Value, Items, Fields, seq, mapping, text, nil, item, end, field, find, null,
}
use wifi_shepard.Prelude.{
  String, Bool, true, false, not, ◌&&◌, ◌||◌, Option, none, some, List, [], ◌∷◌, ◌==◌,
  if◌then◌else◌, ◌≡◌, refl, sym, subst, ◌⊎◌, inl, inr, ap, ◌∙◌, eq_iff, Bool-cases, Result, ok,
  raise, Ok, raised, returned, ◌▹◌, arith,
}
use wifi_shepard.Ui.Document.{put_field}
use wifi_shepard.Ui.Form.Names.{is_env_name, placeholder}
use wifi_shepard.Ui.Form.Paths.{set_at, del_at, child_of}
use wifi_shepard.Ui.Save.{remove_key}
use wifi_shepard.Ui.Schema.Kinds.{Kind}

-- `${NAME}` for the valid name of a variable.
abbrev pub IsPlaceholder : Value → Type 0
IsPlaceholder v = (name : String) × (is_env_name name ≡ true) × (v ≡ text (placeholder name))

abbrev pub Guards : String → Value → Type 0
Guards key v = (names_secret key ≡ false) ⊎ IsPlaceholder v

-- Every key `password` or `token`, at whatever depth, holds a placeholder.
unfoldable mutual
  pub Sealed : Value → Type 0
  Sealed (seq xs) = SealedItems xs
  Sealed (mapping fs) = SealedFields fs
  Sealed _ = Unit

  pub SealedItems : Items → Type 0
  SealedItems nil = Unit
  SealedItems (item v rest) = Sealed v × SealedItems rest

  pub SealedFields : Fields → Type 0
  SealedFields end = Unit
  SealedFields (field key v rest) = Guards key v × Sealed v × SealedFields rest

put-Sealed :
    (b : Bool) (k key : String) (w v : Value) (rest later : Fields)
    → (k == key) ≡ b
    → SealedFields (field k w rest)
    → SealedFields later
    → Guards key v
    → Sealed v
    → SealedFields (if b then field k v rest else field k w later)
unfolding Sealed
put-Sealed true k key w v rest later e s l g sv =
    (subst (λ x. Guards x v) (sym ((eq_iff k key).0 e)) g, sv, s.2)
put-Sealed false k key w v rest later e s l g sv = (s.0, s.1, l)

pub put_field-Sealed :
    (m : Fields) (key : String) (v : Value)
    → SealedFields m
    → Guards key v
    → Sealed v
    → SealedFields (put_field m key v)
unfolding put_field Sealed
put_field-Sealed end key v s g sv = (g, sv, tt)
put_field-Sealed (field k w rest) key v s g sv =
    put-Sealed (k == key) k key w v rest (put_field rest key v) refl s
      (put_field-Sealed rest key v (s.2) g sv) g sv

removed-Sealed :
    (b : Bool) (k : String) (w : Value) (rest later : Fields)
    → SealedFields (field k w rest)
    → SealedFields later
    → SealedFields (if b then later else field k w later)
unfolding Sealed
removed-Sealed true k w rest later s l = l
removed-Sealed false k w rest later s l = (s.0, s.1, l)

remove_key-Sealed : (m : Fields) (key : String) → SealedFields m → SealedFields (remove_key m key)
unfolding remove_key Sealed
remove_key-Sealed end key s = tt
remove_key-Sealed (field k w rest) key s =
    removed-Sealed (k == key) k w rest (remove_key rest key) s (remove_key-Sealed rest key (s.2))

abbrev SealedOption : Option Value → Type 0
SealedOption none = Unit
SealedOption (some v) = Sealed v

found-Sealed :
    (b : Bool) (w : Value) (o : Option Value)
    → Sealed w
    → SealedOption o
    → SealedOption (if b then some w else o)
found-Sealed true w o s t = s
found-Sealed false w o s t = t

find-Sealed : (m : Fields) (key : String) → SealedFields m → SealedOption (find m key)
unfolding find Sealed
find-Sealed end key s = tt
find-Sealed (field k w rest) key s =
    found-Sealed (k == key) w (find rest key) (s.1) (find-Sealed rest key (s.2))

child_of-Ok : (o : Option Value) → SealedOption o → Ok SealedFields (child_of o)
unfolding Sealed
child_of-Ok none s = returned end tt
child_of-Ok (some (mapping fs)) s = returned fs s
child_of-Ok (some _) s = raised _

-- The parts of a path before its last are no keys of secrets, and the last guards the value.
abbrev pub GuardsAt : List String → Value → Type 0
GuardsAt [] v = Unit
GuardsAt (key ∷ []) v = Guards key v
GuardsAt (part ∷ next ∷ rest) v = (names_secret part ≡ false) × GuardsAt (next ∷ rest) v

pub set_at-Ok :
    (parts : List String) (v : Value) (m : Fields)
    → SealedFields m
    → Sealed v
    → GuardsAt parts v
    → Ok SealedFields (set_at parts v m)
unfolding set_at Sealed
set_at-Ok [] v m s sv g = returned m s
set_at-Ok (key ∷ []) v m s sv g = returned _ (put_field-Sealed m key v s g sv)
set_at-Ok (part ∷ next ∷ rest) v m s sv g =
    child_of-Ok (find m part) (find-Sealed m part s) ▹ λ child sealed.
    set_at-Ok (next ∷ rest) v child sealed sv (g.1) ▹ λ child' sealed'.
    returned _ (put_field-Sealed m part (mapping child') s (inl (g.0)) sealed')

deleted-Sealed :
    (o : Option Value) (part next : String) (rest : List String) (m : Fields)
    → SealedOption o
    → names_secret part ≡ false
    → ((fs : Fields) → SealedFields fs → SealedFields (del_at (next ∷ rest) fs))
    → SealedFields m
    → SealedFields (elim o [
      | some (mapping fs) ↦ put_field m part (mapping (del_at (next ∷ rest) fs))
      | _ ↦ m
    ])
unfolding Sealed
deleted-Sealed none part next rest m s free k sealed = sealed
deleted-Sealed (some (mapping fs)) part next rest m s free k sealed =
    put_field-Sealed m part (mapping (del_at (next ∷ rest) fs)) sealed (inl free) (k fs s)
deleted-Sealed (some _) part next rest m s free k sealed = sealed

pub del_at-Sealed :
    (parts : List String) (m : Fields)
    → GuardsAt parts null
    → SealedFields m
    → SealedFields (del_at parts m)
unfolding del_at
del_at-Sealed [] m g s = s
del_at-Sealed (key ∷ []) m g s = remove_key-Sealed m key s
del_at-Sealed (part ∷ next ∷ rest) m g s =
    deleted-Sealed (find m part) part next rest m (find-Sealed m part s) (g.0)
      (λ fs sealed. del_at-Sealed (next ∷ rest) fs (g.1) sealed) s
