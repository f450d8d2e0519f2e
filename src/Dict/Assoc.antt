-- ===== src/Dict/Assoc.antt =====
-- The entries behind `Dict`, and what a write and an erasure do to a search.
use wifi_shepard.Prelude.{
  String, ◌≡◌, refl, not, Option, none, some, List, [], ◌∷◌, arith, ◌==◌, eq_iff, if◌then◌else◌,
  filter,
}

pub record Entry {ℓ} (V : Type ℓ) : Type ℓ where
  pub name : String
  pub value : V

module _ {ℓ} {V : Type ℓ} where
  unfoldable pub find : List (Entry V) → String → Option V
  find [] name = none
  find (e ∷ rest) name = if e.name == name then some e.value else find rest name

  unfoldable pub write : List (Entry V) → String → V → List (Entry V)
  write [] name value = record { name = name; value = value } ∷ []
  write (e ∷ rest) name value =
      let later = write rest name value in
      if e.name == name then record e { value = value } ∷ rest else e ∷ later

  unfoldable pub erase : List (Entry V) → String → List (Entry V)
  erase entries name = filter (λ e. not (e.name == name)) entries

  module _ (written asked : String) where
    pub find-write :
        (value : V) (entries : List (Entry V))
        → find (write entries written value) asked
          ≡ (if written == asked then some value else find entries asked)
    unfolding find write
    find-write value [] = refl
    find-write value (e ∷ rest) = ground (
      arith,
      find-write value rest,
      eq_iff written asked,
      eq_iff e.name written,
      eq_iff e.name asked,
    )

    pub find-erase :
        (entries : List (Entry V))
        → find (erase entries written) asked
          ≡ (if written == asked then none else find entries asked)
    unfolding find erase
    find-erase [] = ground arith
    find-erase (e ∷ rest) =
        ground
          (arith, find-erase rest, eq_iff written asked, eq_iff e.name written, eq_iff e.name asked)
