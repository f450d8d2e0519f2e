-- ===== src/Prelude/Results.antt =====
-- Exceptions as values.
use mathlib.Core.List.{List, [], ◌∷◌}
use mathlib.Core.Path.{◌≡◌, refl, subst}
use wifi_shepard.Prelude.Lists.{All}

-- The exceptions that the modelled code raises itself, and one that a collaborator raises.
pub data Error : Type 0 where
  value_error runtime_error attribute_error type_error external_error : Error

pub data Result {ℓ} (A : Type ℓ) : Type ℓ where
  raise : Error → Result A
  ok : A → Result A

module _ {ℓ κ} {A : Type ℓ} {B : Type κ} where
  infixl 5 ◌>>=◌
  -- What follows a raised exception is skipped.
  abbrev pub ◌>>=◌ : Result A → (A → Result B) → Result B
  raise error >>= next = raise error
  ok value >>= next = next value

-- A loop over a list that stops at the first exception.
unfoldable pub each {ℓ κ} : {A : Type ℓ} {B : Type κ} → (A → Result B) → List A → Result (List B)
each f [] = ok []
each f (x ∷ xs) = do y ← f x; ys ← each f xs; ok (y ∷ ys)

-- What a result satisfies where no exception is raised.
pub data Ok {ℓ κ} {A : Type ℓ} (P : A → Type κ) : Result A → Type (ℓ ⊔ κ) where
  raised : (e : Error) → Ok P (raise e)
  returned : (a : A) → P a → Ok P (ok a)

module _ {ℓ κ σ τ} {A : Type ℓ} {B : Type κ} {P : A → Type σ} {Q : B → Type τ} where
  infixr 4 ◌▹◌
  -- A step and what follows it, in one chain.
  pub ◌▹◌ :
      {r : Result A} {f : A → Result B} → Ok P r → ((a : A) → P a → Ok Q (f a)) → Ok Q (r >>= f)
  raised e ▹ next = raised e
  returned a p ▹ next = next a p

module _ {ℓ κ} {A : Type ℓ} {P : A → Type κ} where
  Ok-value : {a : A} → Ok P (ok a) → P a
  Ok-value (returned a p) = p

  pub Ok-holds : {a : A} {r : Result A} → Ok P r → r ≡ ok a → P a
  Ok-holds holds eq = Ok-value (subst (Ok P) eq holds)

module _ {ℓ κ τ} {A : Type ℓ} {B : Type κ} {P : B → Type τ} where
  pub each-Ok : {f : A → Result B} → ((x : A) → Ok P (f x)) → (xs : List A) → Ok (All P) (each f xs)
  unfolding each
  each-Ok rule [] = returned [] tt
  each-Ok rule (x ∷ xs) = rule x ▹ λ y p. each-Ok rule xs ▹ λ ys ps. returned (y ∷ ys) (p, ps)

module _ {ℓ κ σ τ} {A : Type ℓ} {B : Type κ} {P : A → Type σ} {Q : B → Type τ} where
  -- The same, where the elements satisfy what the rule asks.
  pub each-All :
      {f : A → Result B}
      → ((x : A) → P x → Ok Q (f x))
      → (xs : List A) → All P xs
      → Ok (All Q) (each f xs)
  unfolding each
  each-All rule [] ps = returned [] tt
  each-All rule (x ∷ xs) ps =
      rule x (ps.0) ▹ λ y q. each-All rule xs (ps.1) ▹ λ ys qs. returned (y ∷ ys) (q, qs)

module _ {ℓ κ τ} {A : Type ℓ} {P : A → Type κ} {Q : A → Type τ} where
  pub both-Ok : {r : Result A} → Ok P r → Ok Q r → Ok (λ a. P a × Q a) r
  both-Ok (raised e) q = raised e
  both-Ok (returned a p) (returned _ q) = returned a (p, q)

  pub Ok-map : {r : Result A} → ((a : A) → P a → Q a) → Ok P r → Ok Q r
  Ok-map f (raised e) = raised e
  Ok-map f (returned a p) = returned a (f a p)

module _ {ℓ κ τ} {A : Type ℓ} {B : Type κ} {C : Type τ} where
  pub bind_assoc :
      (r : Result A) (f : A → Result B) (g : B → Result C)
      → (r >>= f >>= g) ≡ (r >>= λ a. f a >>= g)
  bind_assoc (raise e) f g = refl
  bind_assoc (ok a) f g = refl

module _ {ℓ κ} {A : Type ℓ} {B : Type κ} where
  -- Two steps that agree on every value, after the same result.
  pub bind_ext : (r : Result A) {f g : A → Result B} → ((a : A) → f a ≡ g a) → (r >>= f) ≡ (r >>= g)
  bind_ext (raise e) h = refl
  bind_ext (ok a) h = h a

module _ {ℓ κ} {A : Type ℓ} {P : A → Type κ} where
  pub any-Ok : (r : Result A) → ((a : A) → P a) → Ok P r
  any-Ok (raise e) p = raised e
  any-Ok (ok a) p = returned a (p a)

pub trivially {ℓ} : {A : Type ℓ} (r : Result A) → Ok (λ _. Unit {0}) r
trivially r = any-Ok r (λ _. tt)

pub known-Ok {ℓ} : {A : Type ℓ} (r : Result A) → Ok (λ a. r ≡ ok a) r
known-Ok (raise e) = raised e
known-Ok (ok a) = returned a refl
