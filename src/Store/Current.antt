-- ===== src/Store/Current.antt =====
-- The columns after the migrations.
use wifi_shepard.Prelude.{
  String, Bool, true, false, Option, none, some, List, [], ◌∷◌, ◌++◌, map, contains, if◌then◌else◌,
  ◌≡◌, refl, ap, sym, subst, ◌∙◌, All, arith, eq_refl,
}
use mathlib.Core.List.{append-nil}
use wifi_shepard.Window.{All-mono}
use wifi_shepard.Store.{Database, connect}
use wifi_shepard.Store.Columns.{
  Tables, Migration, created, added_by, missing, migrate, migrate_all, kick_events_columns,
  client_samples_columns, kick_events_migrations, client_samples_migrations,
}

-- Every one of these columns is there.
abbrev pub Holds : List String → List String → Type 0
Holds wanted columns = All (λ c. contains c columns ≡ true) wanted

contains-left :
    (c : String) (xs ys : List String) → contains c xs ≡ true → contains c (xs ++ ys) ≡ true
contains-left c [] ys e = cc
contains-left c (x ∷ xs) ys e = ground (arith, contains-left c xs ys)

contains-right :
    (c : String) (xs ys : List String) → contains c ys ≡ true → contains c (xs ++ ys) ≡ true
contains-right c [] ys e = e
contains-right c (x ∷ xs) ys e = ground (arith, contains-right c xs ys e)

contains-insert :
    (c y : String) (xs ys : List String)
    → contains c (xs ++ ys) ≡ true
    → contains c (xs ++ y ∷ ys) ≡ true
contains-insert c y [] ys e = ground arith
contains-insert c y (x ∷ xs) ys e = ground (arith, contains-insert c y xs ys)

added-Holds :
    (b : Bool) (c : String) (existing later rest : List String)
    → contains c existing ≡ b
    → Holds rest (existing ++ later)
    → Holds (c ∷ rest) (existing ++ (if b then later else c ∷ later))
added-Holds true c existing later rest e h = (contains-left c existing later e, h)
added-Holds false c existing later rest e h = (
  contains-right c existing (c ∷ later) (ground (arith, eq_refl c)),
  All-mono (λ x. contains x (existing ++ later) ≡ true)
      (λ x. contains x (existing ++ c ∷ later) ≡ true) (λ x e. contains-insert x c existing later e)
      rest h,
)

-- Each statement adds the column that it stands beside.
abbrev Adds : List Migration → Type 0
Adds ms = All (λ (m : Migration). added_by m.1 ≡ m.0) ms

abbrev columns_of : List Migration → List String
columns_of ms = map (λ (m : Migration). m.0) ms

missing-Holds :
    (existing : List String) (ms : List Migration)
    → Adds ms
    → Holds (columns_of ms) (existing ++ missing existing ms)
unfolding missing
missing-Holds existing [] adds = tt
missing-Holds existing ((c, ddl) ∷ rest) adds =
    let later = missing existing rest in
    subst
      (λ x.
        Holds (c ∷ columns_of rest)
          (existing ++ (if contains c existing then later else x ∷ later)))
      (sym (adds.0))
      (added-Holds (contains c existing) c existing later (columns_of rest) refl
        (missing-Holds existing rest (adds.1)))

missing_none :
    (columns : List String) (ms : List Migration)
    → Holds (columns_of ms) columns
    → missing columns ms ≡ []
unfolding missing
missing_none columns [] holds = refl
missing_none columns ((c, ddl) ∷ rest) holds = rw (holds.0) (missing_none columns rest (holds.1))

module _ (ms : List Migration) (adds : Adds ms) where
  migrate-migrate :
      (existing : List String) → migrate ms (migrate ms existing) ≡ migrate ms existing
  unfolding migrate
  migrate-migrate existing =
      ap (λ xs. (existing ++ missing existing ms) ++ xs)
        (missing_none (existing ++ missing existing ms) ms (missing-Holds existing ms adds))
      ∙ append-nil (existing ++ missing existing ms)

-- The columns that the oldest version of a table has, where the table exists.
abbrev pub HasBase : List String → Option (List String) → Type 0
HasBase base none = Unit
HasBase base (some columns) = Holds base columns

-- A table after `connect`: the columns that it had or was made with stand first, in their order, and
-- all that are wanted are there.
pub record Completed (wanted before : List String) (after : Option (List String)) : Type 0 where
  pub added : List String
  pub appended : after ≡ some (before ++ added)
  pub complete : Holds wanted (before ++ added)

All-both : (P : String → Type 0) (xs ys : List String) → All P xs → All P ys → All P (xs ++ ys)
All-both P [] ys h k = k
All-both P (x ∷ xs) ys h k = (h.0, All-both P xs ys h.1 k)

Holds-left : (base xs ys : List String) → Holds base xs → Holds base (xs ++ ys)
Holds-left base xs ys h =
    All-mono (λ c. contains c xs ≡ true) (λ c. contains c (xs ++ ys) ≡ true)
      (λ c e. contains-left c xs ys e) base h

migrate-Completed :
    (ms : List Migration) (base before : List String)
    → Adds ms
    → Holds base before
    → Completed (base ++ columns_of ms) before (some (migrate ms before))
unfolding migrate
migrate-Completed ms base before adds holds = record {
  added = missing before ms;
  appended = refl;
  complete =
      All-both (λ c. contains c (before ++ missing before ms) ≡ true) base (columns_of ms)
        (Holds-left base before (missing before ms) holds) (missing-Holds before ms adds);
}

abbrev pub kick_base : List String
kick_base = "id" ∷ "ts" ∷ "mac" ∷ "dry_run" ∷ []

abbrev pub sample_base : List String
sample_base =
    "id" ∷ "ts" ∷ "mac" ∷ "signal" ∷ "tx_rate_kbps" ∷ "tx_retries" ∷ "wifi_tx_attempts" ∷ "radio"
    ∷ "ap_id" ∷ "ap_cu_total" ∷ []

kicks-Adds : Adds kick_events_migrations
unfolding added_by
kicks-Adds = (refl, (refl, (refl, (refl, (refl, tt)))))

samples-Adds : Adds client_samples_migrations
unfolding added_by
samples-Adds = (refl, (refl, (refl, tt)))

kicks_before :
    (o : Option (List String))
    → HasBase kick_base o
    → Holds kick_base (created kick_events_columns o)
kicks_before none h = (refl, (refl, (refl, (refl, tt))))
kicks_before (some columns) h = h

samples_before :
    (o : Option (List String))
    → HasBase sample_base o
    → Holds sample_base (created client_samples_columns o)
samples_before none h =
    (refl, (refl, (refl, (refl, (refl, (refl, (refl, (refl, (refl, (refl, tt))))))))))
samples_before (some columns) h = h

tables-again : (t : Tables) → migrate_all (migrate_all t) ≡ migrate_all t
unfolding migrate_all
tables-again t =
    let kicks = migrate kick_events_migrations (created kick_events_columns t.kick_events) in
    let samples =
      migrate client_samples_migrations (created client_samples_columns t.client_samples) in
    ap
      (λ (xs : List String). record {
        kick_events = some xs;
        client_samples = some (migrate client_samples_migrations samples);
      })
      (migrate-migrate kick_events_migrations kicks-Adds
        (created kick_events_columns t.kick_events))
    ∙ ap (λ (xs : List String). record { kick_events = some kicks; client_samples = some xs })
        (migrate-migrate client_samples_migrations samples-Adds
          (created client_samples_columns t.client_samples))

connect-again : (d : Database) → connect (connect d) ≡ connect d
unfolding connect
connect-again d =
    ap (λ (t : Tables). record d { connected = true; tables = t }) (tables-again d.tables)

-- The tables of one store and of the store after `connect`.
pub record IsCurrent (d d' : Database) : Type 0 where
  pub kicks :
      Completed
        ("id" ∷ "ts" ∷ "mac" ∷ "dry_run" ∷ "mechanism" ∷ "target_bssid" ∷ "attempt_group"
          ∷ "trigger" ∷ "rationale" ∷ [])
        (created kick_events_columns d.tables.kick_events)
        d'.tables.kick_events
  pub samples :
      Completed
        ("id" ∷ "ts" ∷ "mac" ∷ "signal" ∷ "tx_rate_kbps" ∷ "tx_retries" ∷ "wifi_tx_attempts"
          ∷ "radio" ∷ "ap_id" ∷ "ap_cu_total" ∷ "name" ∷ "tx_bytes" ∷ "rx_bytes" ∷ [])
        (created client_samples_columns d.tables.client_samples)
        d'.tables.client_samples
  pub again : connect d' ≡ d'

-- After `connect` on a store whose tables of kicks and of samples are missing or have the columns of
-- their oldest version at least: both have every column of today's version, named one by one, behind
-- or among the columns that they had, which stay in their order; a second `connect` changes nothing.
pub connect-IsCurrent :
    (d : Database)
    → HasBase kick_base d.tables.kick_events
    → HasBase sample_base d.tables.client_samples
    → IsCurrent d (connect d)
unfolding connect migrate_all
connect-IsCurrent d kicks samples = record {
  kicks =
      migrate-Completed kick_events_migrations kick_base
        (created kick_events_columns d.tables.kick_events) kicks-Adds
        (kicks_before d.tables.kick_events kicks);
  samples =
      migrate-Completed client_samples_migrations sample_base
        (created client_samples_columns d.tables.client_samples) samples-Adds
        (samples_before d.tables.client_samples samples);
  again = connect-again d;
}
