-- ===== src/Tests/Inactivity.antt =====
-- The inactivity scorer at a client whose counters stand still.
use wifi_shepard.Prelude.{false, some, [], ◌∷◌, refl, ◌≡◌}
use wifi_shepard.Dict
use wifi_shepard.Dict.{empty, get, get_or, put, remove}
use wifi_shepard.Inactivity.{
  InactivityScorer, Flatline, ingest, counted, observe_total, test_window, sum, drop_window,
}
use wifi_shepard.Inactivity.Flags
use wifi_shepard.Inactivity.Flags.{Idle}
use wifi_shepard.Mac.{normalize_mac}
use wifi_shepard.Tests.Fixtures.{weak, config_with}

-- One delta of 5 bytes is in the window, and the last total was 25.
abbrev still : InactivityScorer
still = record {
  config = config_with false;
  prev = Dict.put Dict.empty "aa" 25;
  windows = Dict.put Dict.empty "aa" (record { maxlen = 2; deltas = 5 ∷ [] });
}

abbrev flatline : Flatline
flatline = record { window_bytes = 10; min_bytes_per_window = 100; window_samples = 2 }

still-flag : (ingest still weak).0 ≡ some flatline
unfolding ingest counted observe_total test_window sum drop_window normalize_mac empty get get_or
    put
still-flag = refl

ingest-Idle_example : Idle still weak flatline
ingest-Idle_example = Flags.ingest-Idle still weak flatline still-flag
