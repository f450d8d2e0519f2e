-- ===== src/Daemon/Stops.antt =====
-- The end of `Daemon.run`.
use wifi_shepard.Config.{Config}
use wifi_shepard.Controller.{ClientSnapshot}
use wifi_shepard.Daemon.{
  Daemon, reload_config, watch_tick, watched, on_sighup, on_sigterm, scheduler_tick, is_seen, swept,
}
use wifi_shepard.Daemon.Loop.{
  Running, Phase, Event, scanning, pausing, over, turn, watch, sweep, sighup, sigterm, nth, replace,
  scan_turn, main_turn, step, run,
}
use wifi_shepard.Prelude.{
  ℕ, zero, suc, ◌+◌, ◌-◌, ◌≤◌, String, true, Option, none, some, List, [], ◌∷◌, map, length, ◌≡◌,
  refl, ap, ◌∙◌, Result, ok, raise, arith, if_intro,
}
use wifi_shepard.Reboot.Resolver.{HaDeviceRegistry}
use wifi_shepard.Reboot.Scheduler
use wifi_shepard.Reboot.Scheduler.{LocalTime}
use wifi_shepard.Scanner
use wifi_shepard.Scanner.{Scanner, CycleEnv}

-- The steps of the main task in a sequence of events.
abbrev pub turns : List Event → ℕ
turns [] = 0
turns (turn e answer ∷ rest) = suc (turns rest)
turns (_ ∷ rest) = turns rest

-- The steps that are left to the main task of a daemon that is shut down.
left : ℕ → Phase → ℕ
left scanners (scanning k) = scanners - k + 2
left scanners pausing = 1
left scanners over = 0

-- A step that is not the main task's: the daemon stays shut down, with as many scanners.
record Same (d d' : Daemon) : Type 0 where
  off : d'.shut_down ≡ d.shut_down
  count : length d'.scanners ≡ length d.scanners

length-map : (f : Scanner → Scanner) (ss : List Scanner) → length (map f ss) ≡ length ss
length-map f [] = refl
length-map f (s ∷ ss) = ap suc (length-map f ss)

length-replace : (k : ℕ) (t : Scanner) (ss : List Scanner) → length (replace k t ss) ≡ length ss
length-replace k t [] = refl
length-replace zero t (s ∷ ss) = refl
length-replace (suc k) t (s ∷ ss) = ap suc (length-replace k t ss)

nth-length : (k : ℕ) (ss : List Scanner) (s : Scanner) → nth k ss ≡ some s → suc k ≤ length ss
nth-length k [] s e = cc
nth-length zero (t ∷ ss) s e = omega arith
nth-length (suc k) (t ∷ ss) s e = omega (arith, nth-length k ss s e)

reload-Same : (loaded : Result Config) (d : Daemon) → Same d (reload_config loaded d).1
unfolding reload_config
reload-Same (raise e) d = record { off = refl; count = refl }
reload-Same (ok config) d = record {
  off = refl;
  count = length-map (Scanner.update_config config) d.scanners;
}

watched-Same :
    (digest : Option String) (loaded : Result Config) (d : Daemon)
    → Same d (watched digest loaded d)
watched-Same none loaded d = record { off = refl; count = refl }
watched-Same (some digest) loaded d =
    let d' : Daemon = record d { config_digest_seen = some digest } in
    if_intro (Same d) (is_seen digest d.config_digest_seen) d (reload_config loaded d').1
      (λ _. record { off = refl; count = refl })
      (λ _. let s = reload-Same loaded d' in record { off = s.off; count = s.count })

module _ (local_time : String → ℕ → Result ℕ) where
  -- One step of the main task.
  record Turned (phase : Phase) (d : Daemon) (r : Running) : Type 0 where
    off : r.daemon.shut_down ≡ d.shut_down
    count : length r.daemon.scanners ≡ length d.scanners
    fewer : left (length d.scanners) r.phase ≤ left (length d.scanners) phase - 1

  scan_turn-Turned :
      (e : CycleEnv) (answer : Result (List ClientSnapshot)) (k : ℕ) (o : Option Scanner)
      (d : Daemon)
      → nth k d.scanners ≡ o
      → Turned (scanning k) d (scan_turn local_time e answer k o d)
  unfolding left
  scan_turn-Turned e answer k none d eq = record { off = refl; count = refl; fewer = omega arith }
  scan_turn-Turned e answer k (some s) d eq = record {
    off = refl;
    count = length-replace k _ d.scanners;
    fewer = omega (arith, nth-length k d.scanners s eq);
  }

  main_turn-Turned :
      (e : CycleEnv) (answer : Result (List ClientSnapshot)) (phase : Phase) (d : Daemon)
      → d.shut_down ≡ true
      → Turned phase d (main_turn local_time e answer phase d)
  unfolding main_turn left
  main_turn-Turned e answer (scanning k) d off =
      scan_turn-Turned e answer k (nth k d.scanners) d refl
  main_turn-Turned e answer pausing d off = record {
    off = refl;
    count = refl;
    fewer = rw off (omega arith);
  }
  main_turn-Turned e answer over d off = record { off = refl; count = refl; fewer = omega arith }

  ends-over : (scanners : ℕ) (phase : Phase) → left scanners phase ≤ 0 → phase ≡ over
  unfolding left
  ends-over scanners (scanning k) few = absurd (omega (arith, few))
  ends-over scanners pausing few = absurd (omega (arith, few))
  ends-over scanners over few = refl

  left_bound : (scanners : ℕ) (phase : Phase) → left scanners phase ≤ scanners + 2
  unfolding left
  left_bound scanners (scanning k) = omega arith
  left_bound scanners pausing = omega arith
  left_bound scanners over = omega arith

  watch_tick-Same :
      (digest : Option String) (loaded : Result Config) (d : Daemon)
      → Same d (watch_tick digest loaded d)
  unfolding watch_tick
  watch_tick-Same digest loaded d =
      if_intro (Same d) d.shut_down d (watched digest loaded d)
        (λ _. record { off = refl; count = refl }) (λ _. watched-Same digest loaded d)

  scheduler_tick-Same :
      (registry : HaDeviceRegistry) (envs : ℕ → Scheduler.Env) (now : LocalTime) (d : Daemon)
      → Same d (scheduler_tick registry envs now d)
  unfolding scheduler_tick
  scheduler_tick-Same registry envs now d =
      if_intro (Same d) d.shut_down d (record d { scheduler = swept registry envs now d.scheduler })
        (λ _. record { off = refl; count = refl }) (λ _. record { off = refl; count = refl })

  ends :
      (events : List Event) (r : Running)
      → r.daemon.shut_down ≡ true
      → left (length r.daemon.scanners) r.phase ≤ turns events
      → (run local_time events r).phase ≡ over
  unfolding run step on_sighup on_sigterm
  ends [] r off few = ends-over (length r.daemon.scanners) r.phase few
  ends (turn e answer ∷ events) r off few =
      let t = main_turn-Turned e answer r.phase r.daemon off in
      ends events (main_turn local_time e answer r.phase r.daemon) (t.off ∙ off)
        (rw t.count (omega (arith, t.fewer, few)))
  ends (watch digest loaded ∷ events) r off few =
      let s = watch_tick-Same digest loaded r.daemon in ends events _ (s.off ∙ off) (rw s.count few)
  ends (sweep registry envs now ∷ events) r off few =
      let s = scheduler_tick-Same registry envs now r.daemon in
      ends events _ (s.off ∙ off) (rw s.count few)
  ends (sighup loaded ∷ events) r off few =
      let s = reload-Same loaded r.daemon in ends events _ (s.off ∙ off) (rw s.count few)
  ends (sigterm ∷ events) r off few =
      ends events (record r { daemon = on_sigterm r.daemon }) refl few

  -- After SIGTERM the main task is past its loop within as many steps of its own as there are
  -- scanners, and two more, wherever it stood, and whatever the other tasks and the signals do
  -- between them.
  pub run-stops :
      (events : List Event) (r : Running)
      → length r.daemon.scanners + 2 ≤ turns events
      → (run local_time (sigterm ∷ events) r).phase ≡ over
  unfolding run step on_sigterm
  run-stops events r enough =
      ends events (record r { daemon = on_sigterm r.daemon }) refl
        (omega (arith, left_bound (length r.daemon.scanners) r.phase, enough))
