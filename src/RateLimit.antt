-- ===== src/RateLimit.antt =====
-- wifi_shepard/rate_limit.py: the global single-flight timer and the cap of each access point.
-- Instants are microseconds of the monotonic clock; a refusal carries the time to wait.
pub mod History
pub mod Gate
pub mod Run
pub mod Safety
use wifi_shepard.Prelude.{
  ℕ, ◌+◌, ◌-◌, String, ◌&&◌, Option, none, some, List, [], ◌∷◌, ◌++◌, ltb, leb, if◌then◌else◌,
  length, seconds,
}
use wifi_shepard.Window.{prune_deque}
use wifi_shepard.Verdict.{Verdict, allowed, denied}
use wifi_shepard.Dict
use wifi_shepard.Dict.{Dict}

pub record KickRateLimiter : Type 0 where
  pub min_seconds_between_kicks : ℕ
  pub max_kicks_per_ap_per_window : ℕ
  pub per_ap_window_seconds : ℕ
  pub last_kick_at : Option ℕ
  pub per_ap_kicks : Dict (List ℕ)

-- `setdefault(ap_id, deque())`
abbrev pub kicks_of : KickRateLimiter → String → List ℕ
kicks_of l ap_id = Dict.get_or l.per_ap_kicks ap_id []

unfoldable pub check_timer : KickRateLimiter → ℕ → Option ℕ → Verdict
check_timer l now none = allowed
check_timer l now (some last) =
    if ltb 0 l.min_seconds_between_kicks && ltb now (last + seconds l.min_seconds_between_kicks)
    then denied "global_rate_limit" (last + seconds l.min_seconds_between_kicks - now)
    else allowed

unfoldable pub check_global : KickRateLimiter → ℕ → Verdict
check_global l now = check_timer l now l.last_kick_at

-- `_prune`: the pruned deque is stored.
unfoldable pub prune : KickRateLimiter → String → ℕ → KickRateLimiter
prune l ap_id now = record l {
  per_ap_kicks =
      Dict.put l.per_ap_kicks ap_id
        (prune_deque (seconds l.per_ap_window_seconds) now (kicks_of l ap_id));
}

-- The test of the deque after `_prune`; its head is the oldest kick in the window.
unfoldable pub check_deque : KickRateLimiter → ℕ → List ℕ → Verdict
check_deque l now [] = allowed
check_deque l now (oldest ∷ ts) =
    if leb l.max_kicks_per_ap_per_window (length (oldest ∷ ts))
    then denied "per_ap_cap" (oldest + seconds l.per_ap_window_seconds - now)
    else allowed

unfoldable pub check_ap : KickRateLimiter → String → ℕ → Verdict × KickRateLimiter
check_ap l ap_id now =
    if ltb 0 l.max_kicks_per_ap_per_window
    then (
      check_deque l now (prune_deque (seconds l.per_ap_window_seconds) now (kicks_of l ap_id)),
      prune l ap_id now,
    )
    else (allowed, l)

unfoldable pub after_global : KickRateLimiter → String → ℕ → Verdict → Verdict × KickRateLimiter
after_global l ap_id now allowed = check_ap l ap_id now
after_global l ap_id now (denied reason retry) = (denied reason retry, l)

unfoldable pub can_kick : KickRateLimiter → String → ℕ → Verdict × KickRateLimiter
unfolding after_global
can_kick l ap_id now = after_global l ap_id now (check_global l now)

unfoldable pub can_wire_call : KickRateLimiter → ℕ → Verdict
can_wire_call l now = check_global l now

unfoldable pub record_wire_call : KickRateLimiter → ℕ → KickRateLimiter
record_wire_call l now = record l { last_kick_at = some now }

unfoldable pub record_kick : KickRateLimiter → String → ℕ → KickRateLimiter
record_kick l ap_id now =
    if ltb 0 l.max_kicks_per_ap_per_window
    then record l {
      last_kick_at = some now;
      per_ap_kicks = Dict.put l.per_ap_kicks ap_id (kicks_of l ap_id ++ now ∷ []);
    }
    else record l { last_kick_at = some now }

-- What passed a gate: a fresh kick at an access point, or a fallback's wire call.
pub data Sent : Type 0 where
  kicked : String → ℕ → Sent
  wired : ℕ → Sent
