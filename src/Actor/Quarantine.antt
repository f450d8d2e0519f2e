-- ===== src/Actor/Quarantine.antt =====
-- The quarantine of a live kick.
use wifi_shepard.Prelude.{
  String, ◌≡◌, refl, ap, ◌∙◌, Bool, true, false, Option, none, some, leb, if◌then◌else◌, Result, ok,
  raise, is_some, external_error,
}
use wifi_shepard.Actor.{
  Actor, Env, Act, ask_quarantine, quarantined, notify_once, notify_quarantine, notified, emit,
  notify, pure, ◌>>=◌, ◌>>◌, modify,
}
use wifi_shepard.Actor.Gates.{Quiet, Quiet-refl, Quiet-trans, emit-Quiet}
use wifi_shepard.Actor.Trace.{count_of}
use wifi_shepard.Backoff
use wifi_shepard.Backoff.{BackoffManager, state_of}
use wifi_shepard.Backoff.Counts.{kick_count-entry, kick_count-mark_quarantine_notified}
use wifi_shepard.Controller.{ClientSnapshot}

-- `self.backoff is not None and self.backoff.should_quarantine(mac)`
abbrev pub quarantine_of : Option BackoffManager → String → Bool
quarantine_of none mac = false
quarantine_of (some b) mac = leb b.quarantine_after_kicks (state_of b mac).kick_count

-- Another manager with the same counters.
pub record SameCounts (o o' : Option BackoffManager) : Type 0 where
  pub counts : (mac : String) → count_of o' mac ≡ count_of o mac
  pub managed : is_some o' ≡ is_some o

pub SameCounts-Quiet :
    (a : Actor) (o : Option BackoffManager)
    → SameCounts a.backoff o
    → Quiet a (record a { backoff = o })
SameCounts-Quiet a o s = record {
  wires = refl;
  counts = s.counts;
  timer = refl;
  pending = refl;
  db = refl;
  managed = s.managed;
  limited = refl;
}

entry-SameCounts :
    (b : BackoffManager) (mac : String) → SameCounts (some b) (some (Backoff.entry b mac).1)
entry-SameCounts b mac = record {
  counts = λ j. ap (λ (s : Backoff.MacState). s.kick_count) (kick_count-entry b mac j);
  managed = refl;
}

module _ (env : Env) (client : ClientSnapshot) where
  module _ (Q : Result (Unit {0}) × Actor → Type 0) (halt go : Act (Unit {0})) where
    decide_then :
        (stop : Bool) (a : Actor)
        → (stop ≡ true → Q (halt a))
        → (stop ≡ false → Q (go a))
        → Q ((if stop then halt else go) a)
    decide_then true a h g = h refl
    decide_then false a h g = g refl

    ask_quarantine_then :
        (o : Option BackoffManager) (a : Actor)
        → a.backoff ≡ o
        → ((o' : Option BackoffManager)
            → quarantine_of o client.mac ≡ true
            → SameCounts o o'
            → Q (halt (record a { backoff = o' })))
        → ((o' : Option BackoffManager)
            → quarantine_of o client.mac ≡ false
            → SameCounts o o'
            → Q (go (record a { backoff = o' })))
        → Q ((do stop ← ask_quarantine env client o; if stop then halt else go) a)
    unfolding Backoff.should_quarantine
    ask_quarantine_then none a e h g =
        g a.backoff refl (rw e (record { counts = λ m. refl; managed = refl }))
    ask_quarantine_then (some b) a e h g =
        decide_then _ _
          (λ q.
            h (some (Backoff.entry b client.mac).1) (unfold Backoff.entry in q)
              (entry-SameCounts b client.mac))
          (λ q.
            g (some (Backoff.entry b client.mac).1) (unfold Backoff.entry in q)
              (entry-SameCounts b client.mac))

    -- The question reads the counter of the client, and may give the client an entry.
    pub quarantined_then :
        (a : Actor)
        → ((o : Option BackoffManager)
            → quarantine_of a.backoff client.mac ≡ true
            → SameCounts a.backoff o
            → Q (halt (record a { backoff = o })))
        → ((o : Option BackoffManager)
            → quarantine_of a.backoff client.mac ≡ false
            → SameCounts a.backoff o
            → Q (go (record a { backoff = o })))
        → Q ((do stop ← quarantined env client; if stop then halt else go) a)
    unfolding quarantined
    quarantined_then a h g = ask_quarantine_then a.backoff a refl h g

  notify_mark-Quiet :
      (b : BackoffManager) (a : Actor) (failed told : Bool)
      → SameCounts a.backoff (some b)
      → Quiet a
          ((if told then pure tt else (do
            (λ (a : Actor).
                if failed
                then (raise external_error, a)
                else (ok tt, emit (notified client.mac "quarantine") a))
            modify
                (λ a. record a { backoff = some (Backoff.mark_quarantine_notified b client.mac) })))
            (record a { backoff = some b })).1
  notify_mark-Quiet b a failed true s = SameCounts-Quiet a (some b) s
  notify_mark-Quiet b a true false s = SameCounts-Quiet a (some b) s
  notify_mark-Quiet b a false false s =
      Quiet-trans a (emit (notified client.mac "quarantine") a) _ (emit-Quiet _ a refl) (
        SameCounts-Quiet (emit (notified client.mac "quarantine") a) _ (record {
          counts = λ j. kick_count-mark_quarantine_notified b client.mac j ∙ s.counts j;
          managed = s.managed;
        }))

  notify_once-Quiet :
      (o : Option BackoffManager) (a : Actor)
      → a.backoff ≡ o
      → Quiet a (notify_once env client o a).1
  unfolding Backoff.quarantine_notified
  notify_once-Quiet none a e = Quiet-refl a
  notify_once-Quiet (some b) a e =
      notify_mark-Quiet (Backoff.entry b client.mac).1 a (env.fails notify) _
        (rw e (entry-SameCounts b client.mac))

  notify_if-Quiet :
      (ha : Bool) (a : Actor)
      → Quiet a ((if ha then notify_once env client a.backoff else pure tt) a).1
  notify_if-Quiet true a = notify_once-Quiet a.backoff a refl
  notify_if-Quiet false a = Quiet-refl a

  -- The notice of a quarantine makes no wire call and moves no counter, sent or not.
  pub notify_quarantine-Quiet : (a : Actor) → Quiet a (notify_quarantine env client a).1
  unfolding notify_quarantine
  notify_quarantine-Quiet a = notify_if-Quiet a.ha a
