-- ===== src/Backoff/Counts.antt =====
-- The quarantine counters: only `record_kick` moves one, and only its own client's.
use wifi_shepard.Prelude.{suc, String, ◌≡◌, arith, ◌==◌, eq_iff, if◌then◌else◌}
use wifi_shepard.Backoff.{BackoffManager, state_of, entry, record_kick, mark_quarantine_notified}
use wifi_shepard.Dict.{get_or-put}

pub kick_count-entry :
    (b : BackoffManager) (mac j : String) → state_of (entry b mac).1 j ≡ state_of b j
unfolding entry
kick_count-entry b mac j = rw get_or-put (ground (arith, eq_iff mac j))

pub kick_count-mark_quarantine_notified :
    (b : BackoffManager) (mac j : String)
    → (state_of (mark_quarantine_notified b mac) j).kick_count ≡ (state_of b j).kick_count
unfolding mark_quarantine_notified
kick_count-mark_quarantine_notified b mac j =
    rw (get_or-put, get_or-put) (ground (arith, eq_iff mac j))

-- A kick counts for its client and for no other.
pub kick_count-record_kick :
    (b : BackoffManager) (mac j : String)
    → (state_of (record_kick b mac) j).kick_count
      ≡ (if mac == j then suc (state_of b j).kick_count else (state_of b j).kick_count)
unfolding record_kick
kick_count-record_kick b mac j = rw (get_or-put, get_or-put) (ground (arith, eq_iff mac j))
