-- ===== src/Ui/Document/Laws.antt =====
-- wifi_shepard_ui/device_config.py: `_node` behind a write of the document.
use wifi_shepard.Load.Yaml.{Value, Fields, null, end, field, find, get, get_or}
use wifi_shepard.Prelude.{
  String, Bool, true, false, ◌==◌, none, some, List, [], ◌∷◌, if◌then◌else◌, ◌≡◌, refl, ap, ◌∙◌,
  arith, eq_iff, eq_refl, Bool-cases, inl, inr,
}
use wifi_shepard.Ui.Document.{fields_of, node, put_field, put_at}

pub find-put_field :
    (fs : Fields) (key : String) (v : Value) → find (put_field fs key v) key ≡ some v
unfolding find put_field
find-put_field end key v = rw (eq_refl key)
find-put_field (field k w rest) key v = elim (Bool-cases (k == key)) [
  | inl e ↦ rw (e, e)
  | inr e ↦ rw (e, e, find-put_field rest key v)
]

pub find-put_field_other :
    (fs : Fields) (key other : String) (v : Value)
    → (key == other) ≡ false
    → find (put_field fs key v) other ≡ find fs other
unfolding find put_field
find-put_field_other end key other v apart = rw apart
find-put_field_other (field k w rest) key other v apart = elim (Bool-cases (k == key)) [
  | inl e ↦ let miss : (k == other) ≡ false = rw ((eq_iff k key).0 e) apart in rw (e, miss)
  | inr e ↦ rw (e, find-put_field_other rest key other v apart)
]

pub get-put_field : (fs : Fields) (key : String) (v : Value) → get (put_field fs key v) key ≡ v
unfolding get_or
get-put_field fs key v = ap (λ o. elim o [ none ↦ null | some w ↦ w ]) (find-put_field fs key v)

get-put_field_other :
    (fs : Fields) (key other : String) (v : Value)
    → (key == other) ≡ false
    → get (put_field fs key v) other ≡ get fs other
unfolding get_or
get-put_field_other fs key other v apart =
    ap (λ o. elim o [ none ↦ null | some w ↦ w ]) (find-put_field_other fs key other v apart)

pub node-put_at :
    (doc : Value) (parts : List String) (v : Value) → node (put_at doc parts v) parts ≡ v
unfolding node put_at fields_of
node-put_at doc [] v = refl
node-put_at doc (part ∷ parts) v =
    ap (λ w. node w parts)
      (get-put_field (fields_of doc) part (put_at (get (fields_of doc) part) parts v))
    ∙ node-put_at (get (fields_of doc) part) parts v

-- Neither path leads to the other.
unfoldable pub is_apart : List String → List String → Bool
is_apart (p ∷ ps) (q ∷ qs) = let rest = is_apart ps qs in if p == q then rest else true
is_apart _ _ = false

pub node-put_at_apart :
    (doc : Value) (parts others : List String) (v : Value)
    → is_apart parts others ≡ true
    → node (put_at doc parts v) others ≡ node doc others
unfolding node put_at fields_of is_apart get_or
node-put_at_apart doc [] others v apart = cc
node-put_at_apart doc (p ∷ ps) [] v apart = cc
node-put_at_apart doc (p ∷ ps) (q ∷ qs) v apart = elim (Bool-cases (p == q)) [
  | inl e ↦
      let below : is_apart ps qs ≡ true = ground arith in
      rw (← (eq_iff p q).0 e) (
        ap (λ w. node w qs) (get-put_field (fields_of doc) p (put_at (get (fields_of doc) p) ps v))
        ∙ node-put_at_apart (get (fields_of doc) p) ps qs v below)
  | inr e ↦
      ap (λ w. node w qs)
        (get-put_field_other (fields_of doc) p q (put_at (get (fields_of doc) p) ps v) e)
]
