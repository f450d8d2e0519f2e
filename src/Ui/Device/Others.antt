-- ===== src/Ui/Device/Others.antt =====
-- wifi_shepard_ui/device_config.py: `_apply_membership`, beside the device that it is about.
use wifi_shepard.Load.Yaml.{Value, Items, null, text, seq, nil, item}
use wifi_shepard.Mac.{normalize_mac}
use wifi_shepard.Prelude.{
  String, Bool, true, false, ◌==◌, List, ◌≡◌, refl, ◌∙◌, inl, inr, arith, Bool-cases, ok,
  value_error, Ok, raised, returned, Ok-holds,
}
use wifi_shepard.Ui.Device.{
  mac_matches, any_matches, append, remove, add, drop, apply_membership, is_listed, is_member,
}
use wifi_shepard.Ui.Device.Members.{
  matches_self, matches-one, any_matches-append, any_matches-remove_other,
}
use wifi_shepard.Ui.Document.{node, put_at}
use wifi_shepard.Ui.Document.Laws.{node-put_at, node-put_at_apart, is_apart}

-- Of another device and of another place, the answer's document reads as the old one.
pub record IsBeside (doc : Value) (parts others : List String) (other : String)
    (answer : Value × Bool) : Type 0 where
  pub device : is_member answer.0 parts other ≡ is_member doc parts other
  pub place : node answer.0 others ≡ node doc others

module _ (doc : Value) (parts others : List String) (mac other : String)
    (canonical : normalize_mac mac ≡ mac) (apart : is_apart parts others ≡ true)
    (differs : (mac == other) ≡ false) where
  rewritten :
      (old : Value) (xs : Items)
      → node doc parts ≡ old
      → any_matches xs other ≡ is_listed old other
      → IsBeside doc parts others other (put_at doc parts (seq xs), true)
  unfolding is_member is_listed
  rewritten old xs e m = record {
    device = rw (node-put_at doc parts (seq xs), e) m;
    place = node-put_at_apart doc parts others (seq xs) apart;
  }

  untouched : IsBeside doc parts others other (doc, false)
  untouched = record { device = refl; place = refl }

  own : mac_matches (text mac) other ≡ false
  own = matches-one (text mac) mac other differs (matches_self mac canonical)

  add-IsBeside :
      (v : Value) → node doc parts ≡ v → Ok (IsBeside doc parts others other) (add doc parts mac v)
  unfolding add any_matches is_listed
  add-IsBeside null e = returned _ (rewritten null (item (text mac) nil) e (rw own))
  add-IsBeside (seq xs) e = elim (Bool-cases (any_matches xs mac)) [
    | inl m ↦ rw m (returned (doc, false) untouched)
    | inr m ↦ rw m (
        returned (put_at doc parts (seq (append xs (text mac))), true)
          (rewritten (seq xs) (append xs (text mac)) e
            (any_matches-append xs (text mac) other ∙ ground (arith, own))))
  ]
  add-IsBeside _ e = raised value_error

  drop-IsBeside :
      (v : Value) → node doc parts ≡ v → Ok (IsBeside doc parts others other) (drop doc parts mac v)
  unfolding drop is_listed
  drop-IsBeside null e = returned (doc, false) untouched
  drop-IsBeside (seq xs) e = elim (Bool-cases (any_matches xs mac)) [
    | inl m ↦ rw m (
        returned (put_at doc parts (seq (remove xs mac)), true)
          (rewritten (seq xs) (remove xs mac) e (any_matches-remove_other xs mac other differs)))
    | inr m ↦ rw m (returned (doc, false) untouched)
  ]
  drop-IsBeside _ e = raised value_error

  apply-IsBeside :
      (on : Bool) → Ok (IsBeside doc parts others other) (apply_membership doc parts mac on)
  unfolding apply_membership
  apply-IsBeside true = add-IsBeside (node doc parts) refl
  apply-IsBeside false = drop-IsBeside (node doc parts) refl

-- For a MAC in its canonical form: an accepted edit of its membership leaves the membership of every
-- other MAC as it was, and the node of every place that is apart from the list's, as it neither lies
-- on the way to the list, nor is the list, nor lies in it. Of the places on the way nothing is said:
-- one that holds no mapping is replaced.
pub apply_membership-IsBeside :
    (doc : Value) (parts others : List String) (mac other : String) (on : Bool)
    (answer : Value × Bool)
    → normalize_mac mac ≡ mac
    → is_apart parts others ≡ true
    → (mac == other) ≡ false
    → apply_membership doc parts mac on ≡ ok answer
    → IsBeside doc parts others other answer
apply_membership-IsBeside doc parts others mac other on answer canonical apart differs e =
    Ok-holds (apply-IsBeside doc parts others mac other canonical apart differs on) e
