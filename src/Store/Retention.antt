-- ===== src/Store/Retention.antt =====
-- How old a stored sample can get.
use wifi_shepard.Controller.{ClientSnapshot}
use wifi_shepard.Prelude.{
  ℕ, ◌+◌, ◌*◌, ◌≤◌, Bool, true, false, List, [], ◌∷◌, ltb, leb, if◌then◌else◌, if_intro, Result,
  ◌≡◌, refl, All, arith, seconds, leb→le,
}
use wifi_shepard.Window.{All-append, All-mono}
use wifi_shepard.Store.{
  Database, Stamped, insert_sample, prune_client_samples, younger, client_samples_retention_seconds,
  client_samples_prune_interval_seconds,
}

-- The two operations of a poll cycle on `client_samples`, each with its reading of the clock, and
-- whether the DELETE of a pruning raises.
pub data Op : Type 0 where
  insert_at : ℕ → ClientSnapshot → Op
  prune_at : Bool → ℕ → Op

abbrev pub clock : Op → ℕ
clock (insert_at t client) = t
clock (prune_at fails t) = t

-- The DELETE of a pruning does not raise.
abbrev pub Succeeds : Op → Type 0
Succeeds (insert_at t client) = Unit
Succeeds (prune_at fails t) = fails ≡ false

unfoldable pub perform : Op → Database → Database
perform (insert_at t client) d = (insert_sample t client d).1
perform (prune_at fails t) d = (prune_client_samples fails t d).1

unfoldable pub perform_all : List Op → Database → Database
perform_all [] d = d
perform_all (op ∷ rest) d = perform_all rest (perform op d)

-- The clock does not run backwards, from an instant on.
abbrev pub IsOrdered : ℕ → List Op → Type 0
IsOrdered t [] = Unit
IsOrdered t (op ∷ rest) = (t ≤ clock op) × IsOrdered (clock op) rest

-- The last reading of the clock.
abbrev pub last_clock : ℕ → List Op → ℕ
last_clock t [] = t
last_clock t (op ∷ rest) = last_clock (clock op) rest

-- No sample is older than the retention at an instant.
abbrev pub IsYoung : ℕ → List (Stamped ClientSnapshot) → Type 0
IsYoung now rows =
    All (λ (r : Stamped ClientSnapshot). now ≤ r.ts + seconds client_samples_retention_seconds) rows

-- What holds between two operations.
record Kept (t : ℕ) (d : Database) : Type 0 where
  on : d.connected ≡ true
  past : d.last_client_prune ≤ t
  young : IsYoung d.last_client_prune d.client_samples

IsYoung-origin : (rows : List (Stamped ClientSnapshot)) → IsYoung 0 rows
IsYoung-origin [] = tt
IsYoung-origin (r ∷ rows) = (omega arith, IsYoung-origin rows)

kept-cons :
    (b : Bool) (now : ℕ) (r : Stamped ClientSnapshot) (rest : List (Stamped ClientSnapshot))
    → leb now (r.ts + seconds client_samples_retention_seconds) ≡ b
    → IsYoung now rest
    → IsYoung now (if b then r ∷ rest else rest)
kept-cons true now r rest e young =
    (leb→le now (r.ts + seconds client_samples_retention_seconds) e, young)
kept-cons false now r rest e young = young

younger-IsYoung :
    (now : ℕ) (rows : List (Stamped ClientSnapshot))
    → IsYoung now (younger client_samples_retention_seconds now rows)
younger-IsYoung now [] = tt
younger-IsYoung now (r ∷ rows) = kept-cons _ now r _ refl (younger-IsYoung now rows)

insert-Kept :
    (t t' : ℕ) (client : ClientSnapshot) (d : Database)
    → t ≤ t'
    → Kept t d
    → Kept t' (perform (insert_at t' client) d)
unfolding perform insert_sample
insert-Kept t t' client d le k = rw k.on (record {
  on = refl;
  past = omega (arith, k.past, le);
  young =
      All-append
        (λ (r : Stamped ClientSnapshot).
          d.last_client_prune ≤ r.ts + seconds client_samples_retention_seconds)
        d.client_samples (record { ts = t'; row = client }) k.young (omega (arith, k.past, le));
})

prune-Kept : (t t' : ℕ) (d : Database) → t ≤ t' → Kept t d → Kept t' (perform (prune_at false t') d)
unfolding perform prune_client_samples
prune-Kept t t' d le k =
    let idle : Kept t' d = record {
      on = k.on;
      past = omega (arith, k.past, le);
      young = k.young;
    } in
    let throttled = ltb t' (d.last_client_prune + seconds client_samples_prune_interval_seconds) in
    if_intro (λ (x : Result ℕ × Database). Kept t' x.1) d.connected _ _
      (λ _.
        if_intro (λ (x : Result ℕ × Database). Kept t' x.1) throttled _ _ (λ _. idle)
          (λ _. record {
            on = k.on;
            past = omega arith;
            young = younger-IsYoung t' d.client_samples;
          }))
      (λ _. idle)

perform-Kept :
    (t : ℕ) (op : Op) (d : Database)
    → Succeeds op
    → t ≤ clock op
    → Kept t d
    → Kept (clock op) (perform op d)
perform-Kept t (insert_at t' client) d good le k = insert-Kept t t' client d le k
perform-Kept t (prune_at true t') d good le k = cc
perform-Kept t (prune_at false t') d good le k = prune-Kept t t' d le k

all-Kept :
    (t : ℕ) (ops : List Op) (d : Database)
    → All Succeeds ops
    → IsOrdered t ops
    → Kept t d
    → Kept (last_clock t ops) (perform_all ops d)
unfolding perform_all
all-Kept t [] d good ordered k = k
all-Kept t (op ∷ rest) d good ordered k =
    all-Kept (clock op) rest (perform op d) (good.1) (ordered.1)
      (perform-Kept t op d (good.0) (ordered.0) k)

-- Not older than 30 days and an hour.
abbrev pub IsRecent : ℕ → Stamped ClientSnapshot → Type 0
IsRecent now r = now ≤ r.ts + seconds (30 * 24 * 3600) + seconds 3600

pruned-Recent :
    (t now : ℕ) (d : Database)
    → Kept t d
    → All (IsRecent now) (perform (prune_at false now) d).client_samples
unfolding perform prune_client_samples
pruned-Recent t now d k =
    let throttled = ltb now (d.last_client_prune + seconds client_samples_prune_interval_seconds) in
    rw k.on (
      if_intro (λ (x : Result ℕ × Database). All (IsRecent now) x.1.client_samples) throttled _ _
        (λ soon.
          All-mono
            (λ (r : Stamped ClientSnapshot).
              d.last_client_prune ≤ r.ts + seconds client_samples_retention_seconds)
            (IsRecent now) (λ r young. ground (arith, soon, young)) d.client_samples k.young)
        (λ _.
          All-mono
            (λ (r : Stamped ClientSnapshot). now ≤ r.ts + seconds client_samples_retention_seconds)
            (IsRecent now) (λ r young. omega (arith, young)) _
            (younger-IsYoung now d.client_samples)))

-- A store that is connected and has not pruned since it was made, whatever its table held: after any
-- inserts and prunings by a clock that does not run backwards, where no DELETE raised, each pruning
-- whose DELETE does not raise leaves only samples that are no older than 30 days and one hour.
pub perform_all-Recent :
    (ops : List Op) (now : ℕ) (d : Database)
    → d.connected ≡ true
    → d.last_client_prune ≡ 0
    → All Succeeds ops
    → IsOrdered 0 ops
    → last_clock 0 ops ≤ now
    → All (IsRecent now) (perform (prune_at false now) (perform_all ops d)).client_samples
perform_all-Recent ops now d on never good ordered later =
    pruned-Recent (last_clock 0 ops) now (perform_all ops d) (
      all-Kept 0 ops d good ordered (record {
        on = on;
        past = omega (arith, never);
        young = rw never (IsYoung-origin d.client_samples);
      }))
