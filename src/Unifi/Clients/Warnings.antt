-- ===== src/Unifi/Clients/Warnings.antt =====
-- How often a client with no statistics is warned about.
use wifi_shepard.Controller.{ClientSnapshot}
use wifi_shepard.Load.Yaml.{Value, Fields, get, truthy}
use wifi_shepard.Prelude.{
  String, Bool, true, false, not, ◌&&◌, ◌||◌, if◌then◌else◌, List, [], ◌∷◌, ◌≡◌, ◌≢◌, ◌⊎◌, inl, inr,
  refl, sym, ap, ◌∙◌, ◌==◌, contains, filter, Result, ok, raise, All, Bool-cases, eq_iff, eq_refl,
  filter_none,
}
use wifi_shepard.Unifi.Clients.{
  Answer, Warned, appended, discard, is_statless, list_entries, listed, snapshot, warned, ident_of,
  warn,
}
use wifi_shepard.Unifi.Clients.Reporting.{is_reporting}
use wifi_shepard.Unifi.Devices.{CuLookup}
use wifi_shepard.Unifi.Schema.{as_text, require}

-- The entry is not one with statistics whose MAC is this.
abbrev pub Spares : String → Fields → Type 0
Spares ident raw = (is_reporting raw ≡ false) ⊎ (require raw "mac" as_text ≢ ok ident)

-- The client stays in the set, and no warning of it was added.
pub record Silent (ident : String) (w w' : Warned) : Type 0 where
  pub still : contains ident w'.incomplete ≡ true
  pub quiet : filter (λ x. x == ident) w'.log ≡ filter (λ x. x == ident) w.log

apart_lem :
    (x ident mac : String) (b : Bool)
    → (x == ident) ≡ b
    → (x == mac) ≡ true
    → mac ≢ ident
    → b ≡ false
apart_lem x ident mac false e e' other = refl
apart_lem x ident mac true e e' other =
    absurd (other (sym ((eq_iff x mac).0 e') ∙ (eq_iff x ident).0 e))

contains-discard :
    (ident mac : String) (xs : List String)
    → mac ≢ ident
    → contains ident (filter (λ x. not (x == mac)) xs) ≡ contains ident xs
contains-discard ident mac [] other = refl
contains-discard ident mac (x ∷ xs) other = elim (Bool-cases (x == mac)) [
  | inl e ↦
      rw (e, apart_lem x ident mac (x == ident) refl e other) (contains-discard ident mac xs other)
  | inr e ↦ rw e (ap (λ b. (x == ident) || b) (contains-discard ident mac xs other))
]

module _ (ident : String) where
  Silent-trans : (a b c : Warned) → Silent ident a b → Silent ident b c → Silent ident a c
  Silent-trans a b c s t = record { still = t.still; quiet = t.quiet ∙ s.quiet }

  Silent-warn :
      (i : String) (w : Warned) → contains ident w.incomplete ≡ true → Silent ident w (warn i w)
  unfolding warn
  Silent-warn i w e = elim (Bool-cases (contains i w.incomplete)) [
    | inl known ↦ rw known (record { still = e; quiet = refl })
    | inr new ↦
        let other = apart_lem i ident i (i == ident) refl (eq_refl i) (λ q.
          let clash : true ≡ false = sym e ∙ ap (λ x. contains x w.incomplete) (sym q) ∙ new in
          cc) in
        rw new (record { still = rw other e; quiet = filter_none (λ x. x == ident) w.log i other })
  ]

  Silent-discard :
      (mac : String) (w : Warned)
      → contains ident w.incomplete ≡ true
      → mac ≢ ident
      → Silent ident w (discard mac w)
  Silent-discard mac w e other = record {
    still = contains-discard ident mac w.incomplete other ∙ e;
    quiet = refl;
  }

  module _ (next : Warned → Answer) where
    abbrev Goes : Type 0
    Goes = (w : Warned) → contains ident w.incomplete ≡ true → Silent ident w (next w).1

    Silent-warned :
        (r : Result String) (w : Warned)
        → Goes
        → contains ident w.incomplete ≡ true
        → Silent ident w (warned r w next).1
    Silent-warned (raise x) w k e = record { still = e; quiet = refl }
    Silent-warned (ok i) w k e =
        let s = Silent-warn i w e in Silent-trans w (warn i w) _ s (k (warn i w) s.still)

    Silent-appended :
        (r : Result ClientSnapshot) (w : Warned)
        → Goes
        → contains ident w.incomplete ≡ true
        → Silent ident w (appended r w next).1
    Silent-appended (raise x) w k e = record { still = e; quiet = refl }
    Silent-appended (ok c) w k e = k w e

    Silent-listed :
        (lookup : CuLookup) (raw : Fields) (r : Result String) (w : Warned)
        → Goes
        → r ≢ ok ident
        → contains ident w.incomplete ≡ true
        → Silent ident w (listed lookup raw r w next).1
    Silent-listed lookup raw (raise x) w k other e = record { still = e; quiet = refl }
    Silent-listed lookup raw (ok mac) w k other e =
        let s = Silent-discard mac w e (λ q. other (ap ok q)) in
        Silent-trans w (discard mac w) _ s
          (Silent-appended (snapshot lookup raw mac) (discard mac w) k s.still)

  module _ (show : Value → String) (lookup : CuLookup) where
    entry_lem :
        (raw : Fields) (rest : List Fields) (wired bare : Bool) (w : Warned)
        → Goes (list_entries show lookup rest)
        → ((not wired && not bare) ≡ false) ⊎ (require raw "mac" as_text ≢ ok ident)
        → contains ident w.incomplete ≡ true
        → Silent ident w
            (if wired
              then list_entries show lookup rest w
              else if bare
              then warned (ident_of show raw) w (list_entries show lookup rest)
              else listed lookup raw
                  (require raw "mac" as_text)
                  w
                  (list_entries show lookup rest)).1
    entry_lem raw rest true bare w k spares e = k w e
    entry_lem raw rest false true w k spares e =
        Silent-warned (list_entries show lookup rest) (ident_of show raw) w k e
    entry_lem raw rest false false w k (inl silent) e = cc
    entry_lem raw rest false false w k (inr other) e =
        Silent-listed (list_entries show lookup rest) lookup raw (require raw "mac" as_text) w k
          other e

    -- A client that was warned about is not warned about again by a poll whose entries with
    -- statistics are not its own, however the poll ends; and it stays warned about.
    pub list_entries-Silent :
        (raws : List Fields) (w : Warned)
        → All (Spares ident) raws
        → contains ident w.incomplete ≡ true
        → Silent ident w (list_entries show lookup raws w).1
    unfolding list_entries
    list_entries-Silent [] w spares e = record { still = e; quiet = refl }
    list_entries-Silent (raw ∷ rest) w spares e =
        entry_lem raw rest (truthy (get raw "is_wired")) (is_statless raw) w
          (λ w' e'. list_entries-Silent rest w' (spares.1) e') (spares.0) e
