-- ===== src/Daemon/Kept.antt =====
-- How often an edit of the configuration is loaded.
use wifi_shepard.Config.{Config}
use wifi_shepard.Daemon.{Daemon, reload_config, watch_tick, watched, is_seen}
use wifi_shepard.Prelude.{
  String, true, Option, none, some, List, [], ◌∷◌, ◌≡◌, ◌⊎◌, inl, inr, refl, ap, ◌∙◌, Result, ok,
  raise, All, arith, eq_refl, if_intro,
}

-- The ticks of the watch while the file stays as it is: unreadable, or of this digest.
abbrev pub IsSame : String → Option String → Type 0
IsSame digest read = (read ≡ none) ⊎ (read ≡ some digest)

abbrev Tick : Type 0
Tick = Option String × Result Config

abbrev pub ticks : List Tick → Daemon → Daemon
ticks [] d = d
ticks ((digest, loaded) ∷ rest) d = ticks rest (watch_tick digest loaded d)

-- The digest was seen, or the watch is over.
Seen : String → Daemon → Type 0
Seen digest d = (d.shut_down ≡ true) ⊎ (is_seen digest d.config_digest_seen ≡ true)

tick-Seen :
    (digest : String) (read : Option String) (loaded : Result Config) (d : Daemon)
    → Seen digest d
    → IsSame digest read
    → watch_tick read loaded d ≡ d
unfolding watch_tick Seen
tick-Seen digest read loaded d (inl off) same = rw off refl
tick-Seen digest read loaded d (inr seen) (inl none') = rw none' (ground arith)
tick-Seen digest read loaded d (inr seen) (inr some') = rw (some', seen) (ground arith)

ticks-Seen :
    (digest : String) (ts : List Tick) (d : Daemon)
    → Seen digest d
    → All (λ (t : Tick). IsSame digest (t.0)) ts
    → ticks ts d ≡ d
ticks-Seen digest [] d seen same = refl
ticks-Seen digest ((read, loaded) ∷ rest) d seen same =
    ap (ticks rest) (tick-Seen digest read loaded d seen (same.0))
    ∙ ticks-Seen digest rest d seen (same.1)

reload-Seen :
    (digest : String) (loaded : Result Config) (d : Daemon)
    → d.config_digest_seen ≡ some digest
    → Seen digest (reload_config loaded d).1
unfolding reload_config Seen
reload-Seen digest (raise e) d seen = inr (rw seen (eq_refl digest))
reload-Seen digest (ok c) d seen = inr (rw seen (eq_refl digest))

after-Seen :
    (digest : String) (loaded : Result Config) (d : Daemon)
    → Seen digest (watch_tick (some digest) loaded d)
unfolding watch_tick Seen
after-Seen digest loaded d =
    let d' : Daemon = record d { config_digest_seen = some digest } in
    if_intro (Seen digest) d.shut_down d (watched (some digest) loaded d) (λ off. inl off)
      (λ _.
        if_intro (Seen digest) (is_seen digest d.config_digest_seen) d (reload_config loaded d').1
          (λ seen. inr seen) (λ _. reload-Seen digest loaded d' refl))

-- Once a tick of the watch has read a digest, all later ticks that read the same digest, or cannot
-- read the file, change nothing, also where the file did not load: an edit is loaded once.
pub ticks-settled :
    (digest : String) (loaded : Result Config) (ts : List Tick) (d : Daemon)
    → All (λ (t : Tick). IsSame digest (t.0)) ts
    → ticks ts (watch_tick (some digest) loaded d) ≡ watch_tick (some digest) loaded d
ticks-settled digest loaded ts d same =
    ticks-Seen digest ts (watch_tick (some digest) loaded d) (after-Seen digest loaded d) same
