-- ===== src/Load/Redact/Blind.antt =====
-- wifi_shepard/config.py: what `_redact` and `_describe` answer for fragments that differ in secrets.
use wifi_shepard.Load.Redact.{is_secret, redact, redact_items, redact_fields, describe}
use wifi_shepard.Load.Yaml.{Value, Items, Fields, text, seq, mapping, nil, item, end, field}
use wifi_shepard.Mac.{lower}
use wifi_shepard.Prelude.{
  String, Bool, true, false, ◌||◌, ◌==◌, if◌then◌else◌, ◌≡◌, refl, ap, inl, inr, eq_iff, Bool-cases,
  arith,
}

-- The key is `password` or `token`, in whatever case.
unfoldable pub names_secret : String → Bool
names_secret key = (lower key == "password") || (lower key == "token")

is_secret-names_secret : (key : String) → is_secret key ≡ names_secret key
unfolding is_secret names_secret
is_secret-names_secret key = elim (Bool-cases ("password" == lower key)) [
  | inl e ↦ rw (← (eq_iff "password" (lower key)).0 e) refl
  | inr e ↦ elim (Bool-cases ("token" == lower key)) [
    | inl e' ↦ rw (← (eq_iff "token" (lower key)).0 e') refl
    | inr e' ↦ ground (
      arith,
      e,
      e',
      eq_iff "password" (lower key),
      eq_iff "token" (lower key),
      eq_iff (lower key) "password",
      eq_iff (lower key) "token",
    )
  ]
]

-- The fragment with other values in place of the secret ones, at any depth.
module _ (other : String → Value → Value) where
  unfoldable mutual
    pub replace : Value → Value
    replace (seq xs) = seq (replace_items xs)
    replace (mapping fs) = mapping (replace_fields fs)
    replace v = v

    pub replace_items : Items → Items
    replace_items nil = nil
    replace_items (item v rest) = item (replace v) (replace_items rest)

    pub replace_fields : Fields → Fields
    replace_fields end = end
    replace_fields (field key v rest) =
        let kept = replace v in
        field key (if names_secret key then other key v else kept) (replace_fields rest)

  same_field :
      (b : Bool) (s v w w' : Value)
      → redact w' ≡ redact v
      → (if b then text "***" else redact (if b then w else w'))
        ≡ (if b then text "***" else redact v)
  same_field true s v w w' e = refl
  same_field false s v w w' e = e

  mutual
    unfolding redact replace

    redact-replace : (v : Value) → redact (replace v) ≡ redact v
    redact-replace (seq xs) = ap seq (redact-replace_items xs)
    redact-replace (mapping fs) = ap mapping (redact-replace_fields fs)
    redact-replace _ = refl

    redact-replace_items : (xs : Items) → redact_items (replace_items xs) ≡ redact_items xs
    redact-replace_items nil = refl
    redact-replace_items (item v rest) = rw (redact-replace v, redact-replace_items rest)

    redact-replace_fields : (fs : Fields) → redact_fields (replace_fields fs) ≡ redact_fields fs
    redact-replace_fields end = refl
    redact-replace_fields (field key v rest) = rw (
      is_secret-names_secret key,
      same_field (names_secret key) v v (other key v) (replace v) (redact-replace v),
      redact-replace_fields rest,
    )

  describe-replace :
      (repr : Value → String) (date_name : String → String) (v : Value)
      → describe repr date_name (replace v) ≡ describe repr date_name v
  unfolding describe replace redact
  describe-replace repr date_name (seq xs) = rw (redact-replace_items xs)
  describe-replace repr date_name (mapping fs) = rw (redact-replace_fields fs)
  describe-replace repr date_name _ = refl

  -- The description of a rejected fragment is the same whatever stands, at any depth, behind a key that
  -- is `password` or `token` in any case; and that of a text is the same for every text.
  pub describe-blind :
      (repr : Value → String) (date_name : String → String) (v : Value) (s t : String)
      → (describe repr date_name (replace v) ≡ describe repr date_name v)
        × (describe repr date_name (text s) ≡ describe repr date_name (text t))
  unfolding describe replace
  describe-blind repr date_name v s t = (describe-replace repr date_name v, refl)
