-- ===== src/Daemon/Closing.antt =====
-- wifi_shepard/main.py: the two ends of `Daemon.run`: what is opened before the loop, and the `finally`
-- block.
use wifi_shepard.Daemon.{Daemon}
use wifi_shepard.Prelude.{
  ℕ, suc, Bool, false, List, [], ◌∷◌, ◌≡◌, if◌then◌else◌, Result, ok, raise, external_error, All,
}
use wifi_shepard.Unifi.Session
use wifi_shepard.Unifi.Session.{UniFiController}
use wifi_shepard.Unifi.Session.Closed.{Refuses, close-Refuses}

-- Which of the calls raise; the controllers by position.
pub record Calls : Type 0 where
  pub connect_fails : Bool
  pub login_fails : ℕ → Bool
  pub db_close_fails : Bool
  pub close_fails : ℕ → Bool

abbrev opened :
    UniFiController
    → Result (Unit {0}) × List UniFiController
    → Result (Unit {0}) × List UniFiController
opened c (r, rest) = (r, c ∷ rest)

abbrev open_next :
    Result (Unit {0}) × UniFiController
    → List UniFiController
    → Result (Unit {0}) × List UniFiController
    → Result (Unit {0}) × List UniFiController
open_next (raise e, c) rest later = (raise e, c ∷ rest)
open_next (ok u, c) rest later = opened c later

-- The loop over the controllers' logins stops at the first that raises.
unfoldable pub login_all :
    (ℕ → Bool) → List UniFiController → Result (Unit {0}) × List UniFiController
login_all fails [] = (ok tt, [])
login_all fails (c ∷ rest) =
    open_next (Session.login (fails 0) c) rest (login_all (λ k. fails (suc k)) rest)

abbrev with_controllers :
    Daemon → Result (Unit {0}) × List UniFiController → Result (Unit {0}) × Daemon
with_controllers d (r, cs) = (r, record d { controllers = cs })

-- `db.connect` and the logins; the login of a DNS source raises nothing.
unfoldable pub open_all : Calls → Daemon → Result (Unit {0}) × Daemon
open_all calls d =
    if calls.connect_fails
    then (raise external_error, d)
    else with_controllers d (login_all calls.login_fails d.controllers)

-- The loop over the controllers' closes, whose exceptions are logged.
unfoldable pub close_each : (ℕ → Bool) → List UniFiController → List UniFiController
close_each fails [] = []
close_each fails (c ∷ rest) = (Session.close (fails 0) c).1 ∷ close_each (λ k. fails (suc k)) rest

-- The `finally` block; the exception of `db.close` leaves it.
unfoldable pub close_all : Calls → Daemon → Result (Unit {0}) × Daemon
close_all calls d =
    if calls.db_close_fails
    then (raise external_error, d)
    else (ok tt, record d { controllers = close_each calls.close_fails d.controllers })

close_each-Refuses :
    (fails : ℕ → Bool) (cs : List UniFiController) → All Refuses (close_each fails cs)
unfolding close_each
close_each-Refuses fails [] = tt
close_each-Refuses fails (c ∷ rest) =
    (close-Refuses (fails 0) c, close_each-Refuses (λ k. fails (suc k)) rest)

closed-Refuses :
    (calls : Calls) (d : Daemon)
    → calls.db_close_fails ≡ false
    → All Refuses (close_all calls d).1.controllers
unfolding close_all
closed-Refuses calls d fine = rw fine (close_each-Refuses calls.close_fails d.controllers)

-- Where the close of the database does not raise, whichever of the other calls did, the start's
-- included: after the `finally` block no controller can be used, each call of it raising
-- RuntimeError.
pub close_all-Refuses :
    (calls : Calls) (d : Daemon)
    → calls.db_close_fails ≡ false
    → All Refuses (close_all calls (open_all calls d).1).1.controllers
close_all-Refuses calls d fine = closed-Refuses calls (open_all calls d).1 fine
