-- ===== src/Inactivity.antt =====
-- wifi_shepard/inactivity.py: the detector of opted-in clients whose byte counters stand still.
pub mod Flags
use wifi_shepard.Prelude.{
  ℕ, ◌+◌, ◌-◌, String, not, ◌||◌, Option, none, some, List, [], ◌∷◌, ltb, if◌then◌else◌, length,
  contains, push_bounded,
}
use wifi_shepard.Config.{Config, InactivityConfig}
use wifi_shepard.Controller.{ClientSnapshot}
use wifi_shepard.Dict
use wifi_shepard.Dict.{Dict}
use wifi_shepard.Mac.{normalize_mac}

-- The dict that a flag returns.
pub record Flatline : Type 0 where
  pub window_bytes : ℕ
  pub min_bytes_per_window : ℕ
  pub window_samples : ℕ

-- A deque and the `maxlen` that it was made with.
pub record Window : Type 0 where
  pub maxlen : ℕ
  pub deltas : List ℕ

pub record InactivityScorer : Type 0 where
  pub config : Config
  pub prev : Dict ℕ
  pub windows : Dict Window

abbrev pub new : Config → InactivityScorer
new config = record { config = config; prev = Dict.empty; windows = Dict.empty }

abbrev pub settings : InactivityScorer → InactivityConfig
settings s = s.config.detection.inactivity

unfoldable pub sum : List ℕ → ℕ
sum [] = 0
sum (x ∷ xs) = x + sum xs

-- `_window`
abbrev pub window : InactivityScorer → String → Window
window s mac =
    Dict.get_or s.windows mac (record { maxlen = (settings s).window_samples; deltas = [] })

-- `_clear`
unfoldable pub clear : InactivityScorer → String → InactivityScorer
clear s mac = record s { prev = Dict.remove s.prev mac; windows = Dict.remove s.windows mac }

-- `self._windows.pop(mac, None)`
unfoldable pub drop_window : InactivityScorer → String → InactivityScorer
drop_window s mac = record s { windows = Dict.remove s.windows mac }

-- From `window.append(delta)` on; `w` is the window after the append.
unfoldable pub test_window : InactivityScorer → String → Window → Option Flatline × InactivityScorer
unfolding drop_window sum
test_window s mac w =
    let s' : InactivityScorer = record s { windows = Dict.put s.windows mac w } in
    if ltb (length w.deltas) w.maxlen
    then (none, s')
    else if ltb (sum w.deltas) (settings s).min_bytes_per_window
    then (
      some (record {
        window_bytes = sum w.deltas;
        min_bytes_per_window = (settings s).min_bytes_per_window;
        window_samples = w.maxlen;
      }),
      drop_window s' mac,
    )
    else (none, s')

abbrev pub append : Window → ℕ → Window
append w delta = record w { deltas = push_bounded w.maxlen w.deltas delta }

-- With both counters known: `delta < 0` is `total < prev`.
unfoldable pub observe_total :
    InactivityScorer → String → ℕ → Option ℕ → Option Flatline × InactivityScorer
unfolding test_window
observe_total s mac total none = (none, record s { prev = Dict.put s.prev mac total })
observe_total s mac total (some p) =
    let s' : InactivityScorer = record s { prev = Dict.put s.prev mac total } in
    if ltb total p
    then (none, drop_window s' mac)
    else test_window s' mac (append (window s' mac) (total - p))

unfoldable pub counted :
    InactivityScorer → String → Option ℕ → Option ℕ → Option Flatline × InactivityScorer
counted s mac (some tx) (some rx) = observe_total s mac (tx + rx) (Dict.get s.prev mac)
counted s mac _ _ = (none, clear s mac)

unfoldable pub ingest : InactivityScorer → ClientSnapshot → Option Flatline × InactivityScorer
unfolding counted clear observe_total
ingest s client =
    let mac = normalize_mac client.mac in
    if not (settings s).enabled
      || (contains mac s.config.allowlist || not (contains mac (settings s).macs))
    then (none, s)
    else counted s mac client.tx_bytes client.rx_bytes
