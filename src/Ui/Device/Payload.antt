-- ===== src/Ui/Device/Payload.antt =====
-- The memberships of a whole payload, `apply_device_settings` and `read_device_settings`.
use wifi_shepard.Load.Yaml.{Value, Fields, null, text, seq, nil, item, find, truthy}
use wifi_shepard.Load.Rules.{any-Ok}
use wifi_shepard.Mac.{normalize_mac}
use wifi_shepard.Prelude.{
  String, Bool, true, false, ◌||◌, Option, none, some, List, [], ◌∷◌, ◌≡◌, refl, ap, ◌∙◌, ◌⊎◌, inl,
  inr, arith, All, Bool-cases, ok, value_error, Ok, raised, returned, ◌▹◌, Ok-holds, both-Ok,
  Ok-map,
}
use wifi_shepard.Ui.Device.{
  MembershipSpec, per_device_memberships, any_matches, append, remove, add, drop, apply_membership,
  is_listed, is_member, apply_memberships,
}
use wifi_shepard.Ui.Device.Members.{apply-IsEdited}
use wifi_shepard.Ui.Device.{edit}
use wifi_shepard.Ui.Document.{node, put_at}
use wifi_shepard.Ui.Document.Laws.{node-put_at_apart, is_apart}

module _ (doc : Value) (parts others : List String) (mac : String)
    (apart : is_apart parts others ≡ true) where
  Same : Value × Bool → Type 0
  Same answer = node answer.0 others ≡ node doc others

  put : (v : Value) (b : Bool) → Ok Same (ok (put_at doc parts v, b))
  unfolding Same
  put v b = returned _ (node-put_at_apart doc parts others v apart)

  stay : Ok Same (ok (doc, false))
  unfolding Same
  stay = returned _ refl

  add-Same : (v : Value) → Ok Same (add doc parts mac v)
  unfolding add
  add-Same null = put (seq (item (text mac) nil)) true
  add-Same (seq xs) = elim (Bool-cases (any_matches xs mac)) [
    | inl m ↦ rw m stay
    | inr m ↦ rw m (put (seq (append xs (text mac))) true)
  ]
  add-Same _ = raised value_error

  drop-Same : (v : Value) → Ok Same (drop doc parts mac v)
  unfolding drop
  drop-Same null = stay
  drop-Same (seq xs) = elim (Bool-cases (any_matches xs mac)) [
    | inl m ↦ rw m (put (seq (remove xs mac)) true)
    | inr m ↦ rw m stay
  ]
  drop-Same _ = raised value_error

  apply-Same : (on : Bool) → Ok Same (apply_membership doc parts mac on)
  unfolding apply_membership
  apply-Same true = add-Same (node doc parts)
  apply-Same false = drop-Same (node doc parts)

edit-Same :
    (s : MembershipSpec) (o : Option Value) (doc : Value) (mac : String) (others : List String)
    → is_apart s.path others ≡ true
    → Ok (λ (r : Value × Bool). node r.0 others ≡ node doc others) (edit s o mac doc)
unfolding edit Same
edit-Same s none doc mac others apart = returned _ refl
edit-Same s (some flag) doc mac others apart = apply-Same doc s.path others mac apart (truthy flag)

-- What a membership reads afterwards: the flag of the payload, or what it was.
abbrev asked : Option Value → Bool → Bool
asked none old = old
asked (some flag) old = truthy flag

unfoldable pub wanted : Fields → String → Value → MembershipSpec → Bool
unfolding is_member
wanted payload mac doc spec = asked (find payload spec.key) (is_member doc spec.path mac)

edit-IsEdited :
    (s : MembershipSpec) (o : Option Value) (doc : Value) (mac : String)
    → normalize_mac mac ≡ mac
    → Ok
        (λ (r : Value × Bool).
          (is_member r.0 s.path mac ≡ asked o (is_member doc s.path mac))
          × ((r.1 ≡ true) ⊎ (r.0 ≡ doc)))
        (edit s o mac doc)
unfolding edit
edit-IsEdited s none doc mac canonical = returned _ (refl, inr refl)
edit-IsEdited s (some flag) doc mac canonical =
    Ok-map (λ r edited. (edited.reads, edited.quiet))
      (apply-IsEdited doc s.path mac canonical (truthy flag))

abbrev Apart : MembershipSpec → MembershipSpec → Type 0
Apart s t = (is_apart s.path t.path ≡ true) × (is_apart t.path s.path ≡ true)

-- No list lies in another.
abbrev pub ArePairwiseApart : List MembershipSpec → Type 0
ArePairwiseApart [] = Unit
ArePairwiseApart (s ∷ ss) = All (Apart s) ss × ArePairwiseApart ss

member-same :
    (mac : String) (parts : List String) (doc' doc : Value)
    → node doc' parts ≡ node doc parts
    → is_member doc' parts mac ≡ is_member doc parts mac
unfolding is_member
member-same mac parts doc' doc e = ap (λ v. is_listed v mac) e

module _ (payload : Fields) (mac : String) where
  memberships-Same :
      (s : MembershipSpec) (ss : List MembershipSpec) (doc : Value)
      → All (Apart s) ss
      → Ok
          (λ (r : Value × Bool). node r.0 s.path ≡ node doc s.path)
          (apply_memberships ss payload mac doc)
  unfolding apply_memberships
  memberships-Same s [] doc apart = returned _ refl
  memberships-Same s (t ∷ ts) doc apart =
      edit-Same t (find payload t.key) doc mac s.path ((apart.0).1) ▹ λ r same.
      memberships-Same s ts r.0 (apart.1) ▹ λ r' same'. returned _ (same' ∙ same)

  all_same :
      (s : MembershipSpec) (ss : List MembershipSpec) (o : Option Value) (doc : Value)
      → All (Apart s) ss
      → Ok
          (λ (r : Value × Bool). All (λ (t : MembershipSpec). node r.0 t.path ≡ node doc t.path) ss)
          (edit s o mac doc)
  all_same s [] o doc apart = any-Ok _ (λ r. tt)
  all_same s (t ∷ ts) o doc apart =
      both-Ok (edit-Same s o doc mac t.path ((apart.0).0)) (all_same s ts o doc (apart.1))

  wanted-same :
      (ss : List MembershipSpec) (doc doc' last : Value)
      → All (λ (t : MembershipSpec). node doc' t.path ≡ node doc t.path) ss
      → All (λ (t : MembershipSpec). is_member last t.path mac ≡ wanted payload mac doc' t) ss
      → All (λ (t : MembershipSpec). is_member last t.path mac ≡ wanted payload mac doc t) ss
  unfolding wanted is_member
  wanted-same [] doc doc' last same reads = tt
  wanted-same (t ∷ ts) doc doc' last same reads = (
    reads.0 ∙ ap (λ v. asked (find payload t.key) (is_listed v mac)) (same.0),
    wanted-same ts doc doc' last (same.1) (reads.1),
  )

-- The answer to a payload: each membership reads as it was wanted, and the document is the old one
-- where nothing was touched.
pub record IsApplied (payload : Fields) (mac : String) (ss : List MembershipSpec) (doc : Value)
    (answer : Value × Bool) : Type 0 where
  pub reads :
      All (λ (t : MembershipSpec). is_member answer.0 t.path mac ≡ wanted payload mac doc t) ss
  pub quiet : (answer.1 ≡ true) ⊎ (answer.0 ≡ doc)

quiet-step :
    (b c : Bool) (doc doc' doc'' : Value)
    → (b ≡ true) ⊎ (doc' ≡ doc)
    → (c ≡ true) ⊎ (doc'' ≡ doc')
    → ((b || c) ≡ true) ⊎ (doc'' ≡ doc)
quiet-step b c doc doc' doc'' (inl e) q = inl (rw e)
quiet-step b c doc doc' doc'' (inr e) (inl e') = inl (ground arith)
quiet-step b c doc doc' doc'' (inr e) (inr e') = inr (e' ∙ e)

module _ (payload : Fields) (mac : String) (canonical : normalize_mac mac ≡ mac) where
  memberships-IsApplied :
      (ss : List MembershipSpec) (doc : Value)
      → ArePairwiseApart ss
      → Ok (IsApplied payload mac ss doc) (apply_memberships ss payload mac doc)
  unfolding apply_memberships wanted
  memberships-IsApplied [] doc apart = returned _ (record { reads = tt; quiet = inr refl })
  memberships-IsApplied (s ∷ ss) doc apart =
      let o = find payload s.key in
      both-Ok (edit-IsEdited s o doc mac canonical) (all_same payload mac s ss o doc (apart.0))
      ▹ λ r first.
          both-Ok (memberships-Same payload mac s ss r.0 (apart.0))
            (memberships-IsApplied ss r.0 (apart.1))
          ▹ λ r' later. returned _ (record {
            reads = (
              member-same mac s.path r'.0 r.0 (later.0) ∙ (first.0).0,
              wanted-same payload mac ss doc r.0 r'.0 (first.1) ((later.1).reads),
            );
            quiet = quiet-step r.1 r'.1 doc r.0 r'.0 ((first.0).1) ((later.1).quiet);
          })

memberships-apart : ArePairwiseApart per_device_memberships
unfolding is_apart
memberships-apart = ((((refl, refl), ((refl, refl), tt))), (((refl, refl), tt), (tt, tt)))

-- A payload for a MAC in its canonical form, whose edits of the three memberships are accepted: each
-- membership is read back as its flag in the payload, one that the payload does not mention as before,
-- and where nothing was touched the document is the one that was read.
pub apply_memberships-IsApplied :
    (payload : Fields) (mac : String) (doc : Value) (answer : Value × Bool)
    → normalize_mac mac ≡ mac
    → apply_memberships per_device_memberships payload mac doc ≡ ok answer
    → IsApplied payload mac per_device_memberships doc answer
apply_memberships-IsApplied payload mac doc answer canonical e =
    Ok-holds
      (memberships-IsApplied payload mac canonical per_device_memberships doc memberships-apart) e
