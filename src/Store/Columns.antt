-- ===== src/Store/Columns.antt =====
-- wifi_shepard/db.py: the columns of the tables, and the migrations that add the missing ones.
use Prim.Native.Char.{code}
use wifi_shepard.Prelude.{
  ℕ, zero, suc, String, true, false, Option, none, some, List, [], ◌∷◌, ◌++◌, contains,
  if◌then◌else◌, is_code,
}

-- The columns of the two tables that have migrations, where they exist.
pub record Tables : Type 0 where
  pub kick_events : Option (List String)
  pub client_samples : Option (List String)

abbrev pub kick_events_columns : List String
kick_events_columns =
    "id" ∷ "ts" ∷ "mac" ∷ "dry_run" ∷ "mechanism" ∷ "target_bssid" ∷ "attempt_group" ∷ "trigger"
    ∷ "rationale" ∷ []

abbrev pub client_samples_columns : List String
client_samples_columns =
    "id" ∷ "ts" ∷ "mac" ∷ "signal" ∷ "tx_rate_kbps" ∷ "tx_retries" ∷ "wifi_tx_attempts" ∷ "radio"
    ∷ "ap_id" ∷ "ap_cu_total" ∷ "name" ∷ "tx_bytes" ∷ "rx_bytes" ∷ []

-- A column, and the statement that adds it.
abbrev pub Migration : Type 0
Migration = String × String

abbrev pub kick_events_migrations : List Migration
kick_events_migrations =
    ("mechanism", "ALTER TABLE kick_events ADD COLUMN mechanism TEXT NOT NULL DEFAULT 'deauth'")
    ∷ ("target_bssid", "ALTER TABLE kick_events ADD COLUMN target_bssid TEXT")
    ∷ ("attempt_group", "ALTER TABLE kick_events ADD COLUMN attempt_group TEXT")
    ∷ ("trigger", "ALTER TABLE kick_events ADD COLUMN trigger TEXT NOT NULL DEFAULT 'rf'")
    ∷ ("rationale", "ALTER TABLE kick_events ADD COLUMN rationale TEXT")
    ∷ []

abbrev pub client_samples_migrations : List Migration
client_samples_migrations =
    ("name", "ALTER TABLE client_samples ADD COLUMN name TEXT")
    ∷ ("tx_bytes", "ALTER TABLE client_samples ADD COLUMN tx_bytes INTEGER")
    ∷ ("rx_bytes", "ALTER TABLE client_samples ADD COLUMN rx_bytes INTEGER")
    ∷ []

-- The word of an index, between blanks.
unfoldable pub word : ℕ → String → String
word n String.[] = String.[]
word zero (String.◌∷◌ c s) =
    let rest = word zero s in if is_code (code c) b' ' then String.[] else String.◌∷◌ c rest
word (suc n) (String.◌∷◌ c s) = elim (is_code (code c) b' ') [
  | true ↦ word n s
  | false ↦ word (suc n) s
]

-- What `ALTER TABLE <table> ADD COLUMN <column> …` adds.
unfoldable pub added_by : String → String
unfolding word
added_by ddl = word 5 ddl

-- What the statements add that are executed: those of the columns that are not in `existing`.
unfoldable pub missing : List String → List Migration → List String
unfolding added_by
missing existing [] = []
missing existing ((column, ddl) ∷ rest) =
    let later = missing existing rest in
    if contains column existing then later else added_by ddl ∷ later

-- The loop over the migrations: `existing` is read once, before it.
unfoldable pub migrate : List Migration → List String → List String
unfolding missing
migrate migrations existing = existing ++ missing existing migrations

-- `CREATE TABLE IF NOT EXISTS`
abbrev pub created : List String → Option (List String) → List String
created columns none = columns
created columns (some existing) = existing

unfoldable pub migrate_all : Tables → Tables
unfolding migrate
migrate_all t = record {
  kick_events = some (migrate kick_events_migrations (created kick_events_columns t.kick_events));
  client_samples =
      some (migrate client_samples_migrations (created client_samples_columns t.client_samples));
}
