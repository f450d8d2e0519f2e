-- ===== src/Actor/Trace.antt =====
-- What an observer of the actor reads: its wire calls, its ledger of live kicks and its counters.
use wifi_shepard.Prelude.{
  ℕ, String, ◌≡◌, refl, Bool, true, false, Option, none, some, List, arith, filter, filter-append,
  filter_none, Bool-cases, inl, inr,
}
use mathlib.Core.List.{append-nil}
use wifi_shepard.Actor.{
  Actor, Event, btm_sent, reconnect_forced, notified, logged, emit, Env, insert_row, insert_kick,
}
use wifi_shepard.Backoff.{BackoffManager, state_of}
use wifi_shepard.Kicks.{KickRow, counts, recent_kick_timestamps, insert_kick as insert_kick_row}
use wifi_shepard.RateLimit.{KickRateLimiter}

abbrev pub is_wire : Event → Bool
is_wire (btm_sent _) = true
is_wire (reconnect_forced _) = true
is_wire (notified _ _) = false
is_wire (logged _) = false

-- The two calls that touch a client.
abbrev pub wire_calls : Actor → List Event
wire_calls a = filter is_wire a.trace

-- Kicks counted towards the quarantine of a client.
abbrev pub count_of : Option BackoffManager → String → ℕ
count_of none mac = 0
count_of (some b) mac = (state_of b mac).kick_count

abbrev pub timer_of : Option KickRateLimiter → Option ℕ
timer_of none = none
timer_of (some l) = l.last_kick_at

-- The same ledger: no query of the backoff gate tells the two tables apart.
abbrev pub SameLedger : List KickRow → List KickRow → Type 0
SameLedger rows rows' =
    (mac : String) (now lookback : ℕ)
    → recent_kick_timestamps rows' mac now lookback ≡ recent_kick_timestamps rows mac now lookback

pub insert_kick-SameLedger :
    (rows : List KickRow) (row : KickRow)
    → ((mac : String) (now lookback : ℕ) → counts mac now lookback row ≡ false)
    → SameLedger rows (insert_kick_row rows row)
unfolding recent_kick_timestamps insert_kick_row
insert_kick-SameLedger rows row h mac now lookback = rw (filter-append, h, append-nil)

-- A dry-run row and a fallback's row are never counted.
pub counts-dry_run :
    (mac : String) (now lookback : ℕ) (row : KickRow)
    → row.dry_run ≡ true
    → counts mac now lookback row ≡ false
unfolding counts
counts-dry_run mac now lookback row e = ground arith

pub counts-fallback :
    (mac : String) (now lookback : ℕ) (row : KickRow)
    → row.mechanism ≡ "deauth_fallback"
    → counts mac now lookback row ≡ false
unfolding counts
counts-fallback mac now lookback row e = rw e (ground arith)

-- A log line and a notification are no wire calls.
pub wires-emit : (e : Event) (a : Actor) → is_wire e ≡ false → wire_calls (emit e a) ≡ wire_calls a
wires-emit e a h = filter_none is_wire a.trace e h

pub insert_row-SameLedger :
    (env : Env) (row : KickRow) (a : Actor)
    → ((mac : String) (now lookback : ℕ) → counts mac now lookback row ≡ false)
    → SameLedger a.db (insert_row env row a).1.db
unfolding insert_row
insert_row-SameLedger env row a h mac now lookback = elim (Bool-cases (env.fails insert_kick)) [
  | inl e ↦ rw e refl
  | inr e ↦ rw e (insert_kick-SameLedger a.db row h mac now lookback)
]
