-- ===== src/Kicks.antt =====
-- wifi_shepard/db.py: the table `kick_events`, as a list of its rows in the order of insertion, with
-- the statement that inserts a row and the query that the backoff gate reads.
use wifi_shepard.Prelude.{
  ℕ, ◌+◌, String, Bool, not, ◌&&◌, Option, List, [], ◌∷◌, ◌++◌, map, leb, if◌then◌else◌, ◌==◌,
  filter,
}
use wifi_shepard.Rationale.{Rationale}

pub record KickRow : Type 0 where
  pub ts : ℕ
  pub mac : String
  pub dry_run : Bool
  pub mechanism : String
  pub attempt_group : Option String
  pub trigger : String
  pub rationale : Option Rationale

unfoldable pub insert_kick : List KickRow → KickRow → List KickRow
insert_kick rows row = rows ++ row ∷ []

-- `ORDER BY ts`
unfoldable pub insert_sorted : ℕ → List ℕ → List ℕ
insert_sorted t [] = t ∷ []
insert_sorted t (u ∷ us) = if leb t u then t ∷ u ∷ us else u ∷ insert_sorted t us

unfoldable pub sort : List ℕ → List ℕ
sort [] = []
sort (t ∷ ts) = insert_sorted t (sort ts)

-- The `WHERE` clause, for `since = now - lookback`.
unfoldable pub counts : String → ℕ → ℕ → KickRow → Bool
counts mac now lookback r =
    r.mac == mac
    && (leb now (r.ts + lookback) && (not r.dry_run && not (r.mechanism == "deauth_fallback")))

unfoldable pub recent_kick_timestamps : List KickRow → String → ℕ → ℕ → List ℕ
unfolding sort insert_sorted counts
recent_kick_timestamps rows mac now lookback =
    sort (map (λ r. r.ts) (filter (counts mac now lookback) rows))
