-- ===== src/Ui/Device/Members.antt =====
-- wifi_shepard_ui/device_config.py: `_apply_membership`, with what `read_device_settings` reads.
use wifi_shepard.Load.Yaml.{Value, Items, null, text, seq, nil, item}
use wifi_shepard.Mac.{normalize_mac}
use wifi_shepard.Prelude.{
  String, Bool, true, false, ◌==◌, ◌||◌, List, ◌≡◌, refl, ◌∙◌, ◌⊎◌, inl, inr, arith, eq_iff,
  eq_refl, Bool-cases, ok, value_error, Ok, raised, returned, Ok-holds,
}
use wifi_shepard.Ui.Device.{
  mac_matches, any_matches, append, remove, add, drop, apply_membership, is_listed, is_member,
}
use wifi_shepard.Ui.Document.{node, put_at}
use wifi_shepard.Ui.Document.Laws.{node-put_at}

pub matches_self : (mac : String) → normalize_mac mac ≡ mac → mac_matches (text mac) mac ≡ true
unfolding mac_matches
matches_self mac canonical = rw canonical (eq_refl mac)

pub any_matches-append :
    (xs : Items) (v : Value) (mac : String)
    → any_matches (append xs v) mac ≡ (any_matches xs mac || mac_matches v mac)
unfolding any_matches append
any_matches-append nil v mac = ground arith
any_matches-append (item w rest) v mac = ground (arith, any_matches-append rest v mac)

any_matches-remove : (xs : Items) (mac : String) → any_matches (remove xs mac) mac ≡ false
unfolding any_matches remove
any_matches-remove nil mac = refl
any_matches-remove (item v rest) mac = elim (Bool-cases (mac_matches v mac)) [
  | inl e ↦ rw (e, any_matches-remove rest mac)
  | inr e ↦ rw (e, e, any_matches-remove rest mac)
]

pub matches-one :
    (v : Value) (mac other : String)
    → (mac == other) ≡ false
    → mac_matches v mac ≡ true
    → mac_matches v other ≡ false
unfolding mac_matches
matches-one (text s) mac other apart e = rw ((eq_iff (normalize_mac s) mac).0 e) apart
matches-one _ mac other apart e = cc

pub any_matches-remove_other :
    (xs : Items) (mac other : String)
    → (mac == other) ≡ false
    → any_matches (remove xs mac) other ≡ any_matches xs other
unfolding any_matches remove
any_matches-remove_other nil mac other apart = refl
any_matches-remove_other (item v rest) mac other apart = elim (Bool-cases (mac_matches v mac)) [
  | inl e ↦ rw (e, matches-one v mac other apart e, any_matches-remove_other rest mac other apart)
  | inr e ↦ rw (e, any_matches-remove_other rest mac other apart)
]

-- What an edit answers: the membership that it was asked for, which a second edit leaves alone, in a
-- document that is the old one where the edit says that nothing changed.
pub record IsEdited (doc : Value) (parts : List String) (mac : String) (on : Bool)
    (answer : Value × Bool) : Type 0 where
  pub reads : is_member answer.0 parts mac ≡ on
  pub again : apply_membership answer.0 parts mac on ≡ ok (answer.0, false)
  pub quiet : (answer.1 ≡ true) ⊎ (answer.0 ≡ doc)

module _ (doc : Value) (parts : List String) (mac : String) where
  settled :
      (xs : Items) (on : Bool)
      → node doc parts ≡ seq xs
      → any_matches xs mac ≡ on
      → (is_member doc parts mac ≡ on) × (apply_membership doc parts mac on ≡ ok (doc, false))
  unfolding apply_membership is_member is_listed add drop
  settled xs true e m = rw (e, m) (refl, refl)
  settled xs false e m = rw (e, m) (refl, refl)

module _ (doc : Value) (parts : List String) (mac : String)
    (canonical : normalize_mac mac ≡ mac) where
  written :
      (xs : Items) (on : Bool)
      → any_matches xs mac ≡ on
      → IsEdited doc parts mac on (put_at doc parts (seq xs), true)
  written xs on m =
      let (reads, again) =
        settled (put_at doc parts (seq xs)) parts mac xs on (node-put_at doc parts (seq xs)) m in
      record { reads = reads; again = again; quiet = inl refl }

  kept :
      (xs : Items) (on : Bool)
      → node doc parts ≡ seq xs
      → any_matches xs mac ≡ on
      → IsEdited doc parts mac on (doc, false)
  kept xs on e m =
      let (reads, again) = settled doc parts mac xs on e m in
      record { reads = reads; again = again; quiet = inr refl }

  add-IsEdited :
      (v : Value) → node doc parts ≡ v → Ok (IsEdited doc parts mac true) (add doc parts mac v)
  unfolding add any_matches
  add-IsEdited null e =
      returned _ (written (item (text mac) nil) true (rw (matches_self mac canonical)))
  add-IsEdited (seq xs) e = elim (Bool-cases (any_matches xs mac)) [
    | inl m ↦ rw m (returned (doc, false) (kept xs true e m))
    | inr m ↦ rw m (
        returned (put_at doc parts (seq (append xs (text mac))), true)
          (written (append xs (text mac)) true
            (any_matches-append xs (text mac) mac ∙ rw (m, matches_self mac canonical))))
  ]
  add-IsEdited _ e = raised value_error

  drop-IsEdited :
      (v : Value) → node doc parts ≡ v → Ok (IsEdited doc parts mac false) (drop doc parts mac v)
  unfolding drop is_member is_listed apply_membership
  drop-IsEdited null e =
      returned (doc, false) (record { reads = rw e; again = rw e; quiet = inr refl })
  drop-IsEdited (seq xs) e = elim (Bool-cases (any_matches xs mac)) [
    | inl m ↦ rw m (
        returned (put_at doc parts (seq (remove xs mac)), true)
          (written (remove xs mac) false (any_matches-remove xs mac)))
    | inr m ↦ rw m (returned (doc, false) (kept xs false e m))
  ]
  drop-IsEdited _ e = raised value_error

  pub apply-IsEdited :
      (on : Bool) → Ok (IsEdited doc parts mac on) (apply_membership doc parts mac on)
  unfolding apply_membership
  apply-IsEdited true = add-IsEdited (node doc parts) refl
  apply-IsEdited false = drop-IsEdited (node doc parts) refl

-- For a MAC in its canonical form, whatever the document holds: an edit of a membership that is
-- accepted leaves a document in which the membership is read back as it was asked for, the same edit
-- again changes nothing, and an edit that says it changed nothing answers the document it was given.
pub apply_membership-IsEdited :
    (doc : Value) (parts : List String) (mac : String) (on : Bool) (answer : Value × Bool)
    → normalize_mac mac ≡ mac
    → apply_membership doc parts mac on ≡ ok answer
    → IsEdited doc parts mac on answer
apply_membership-IsEdited doc parts mac on answer canonical e =
    Ok-holds (apply-IsEdited doc parts mac canonical on) e
