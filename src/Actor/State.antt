-- ===== src/Actor/State.antt =====
-- The object `Actor` with the collaborators' state that it changes, what one call reads from outside,
-- and the monad of its methods: what was written before an exception stays written.
use wifi_shepard.Prelude.{
  ℕ, String, Bool, Option, List, [], ◌∷◌, ◌++◌, if◌then◌else◌, Result, ok, raise, external_error,
}
use wifi_shepard.Backoff.{BackoffManager}
use wifi_shepard.Config.{Config}
use wifi_shepard.Dict.{Dict}
use wifi_shepard.Kicks.{KickRow}
use wifi_shepard.Pending.{PendingKicks}
use wifi_shepard.RateLimit.{KickRateLimiter}

-- The log lines, with the fields that a reader of the log tells them apart by.
pub data LogLine : Type 0 where
  would_kick : String → String → LogLine
  kick_deferred : String → String → String → ℕ → String → LogLine
  kick : String → String → String → String → LogLine
  kick_succeeded kick_no_roam : String → String → String → String → String → LogLine

-- What leaves the process: the two calls of the controller, a notification, a log line.
pub data Event : Type 0 where
  btm_sent reconnect_forced : String → Event
  notified : String → String → Event
  logged : LogLine → Event

pub record Actor : Type 0 where
  pub config : Config
  -- `self.ha is not None`
  pub ha : Bool
  pub backoff : Option BackoffManager
  pub rate_limiter : Option KickRateLimiter
  pub pending : PendingKicks
  pub dry_run_last_write : Dict ℕ
  -- the rows of `kick_events`
  pub db : List KickRow
  pub trace : List Event

-- The awaited calls, each of which may raise.
pub data Await : Type 0 where
  send_btm_request force_reconnect_client insert_kick recent_kick_timestamps notify : Await

-- What one call of `handle` reads: `wall_now_fn`, the two readings of `now_fn` (at a gate, and after
-- the wire call), the clock of the inserted row, `uuid.uuid4()`, and which awaited calls raise.
pub record Env : Type 0 where
  pub wall_now : ℕ
  pub gate_now : ℕ
  pub wire_now : ℕ
  pub row_ts : ℕ
  pub uuid : String
  pub fails : Await → Bool

abbrev pub Act : Type 0 → Type 0
Act A = Actor → Result A × Actor

abbrev pub continue : {A B : Type 0} → Result A → (A → Act B) → Act B
continue (ok x) f a = f x a
continue (raise e) f a = (raise e, a)

infixl 5 ◌>>=◌ ◌>>◌
abbrev pub ◌>>=◌ : {A B : Type 0} → Act A → (A → Act B) → Act B
◌>>=◌ m f a = continue (m a).0 f (m a).1

abbrev pub ◌>>◌ : {B : Type 0} → Act (Unit {0}) → Act B → Act B
m >> k = m >>= λ _. k

abbrev pub pure : {A : Type 0} → A → Act A
pure x a = (ok x, a)

abbrev pub lift : {A : Type 0} → Result A → Act A
lift r a = (r, a)

abbrev pub gets : {A : Type 0} → (Actor → A) → Act A
gets f a = (ok (f a), a)

abbrev pub modify : (Actor → Actor) → Act (Unit {0})
modify f a = (ok tt, f a)

-- An awaited call: it raises and changes nothing, or has its effect.
abbrev pub await : Env → Await → (Actor → Actor) → Act (Unit {0})
await env call effect a = if env.fails call then (raise external_error, a) else (ok tt, effect a)

abbrev pub emit : Event → Actor → Actor
emit e a = record a { trace = a.trace ++ e ∷ [] }
