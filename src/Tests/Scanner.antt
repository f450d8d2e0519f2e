-- ===== src/Tests/Scanner.antt =====
-- A poll cycle at one weak client.
use wifi_shepard.Prelude.{Result, ℕ, String, false, none, [], ◌∷◌, ok, refl}
use wifi_shepard.Controller.{ClientSnapshot}
use wifi_shepard.Inactivity
use wifi_shepard.Scanner.{Scanner, CycleEnv, run_once}
use wifi_shepard.Scanner.Clients.{Safe}
use wifi_shepard.Scanner.Cycle
use wifi_shepard.Scanner.Cycle.{Agrees}
use wifi_shepard.Tests.Fixtures.{weak, calm, actor_with, config_with, half_full}

abbrev scanner : Scanner
scanner = record {
  config = config_with false;
  pipeline = record {
    scorer = half_full;
    inactivity = Inactivity.new (config_with false);
    actor = actor_with false;
  };
  detector = none;
}

abbrev pub cycle : CycleEnv
cycle = record {
  client_envs = λ k. record { sample_fails = false; score_now = 0; rf_env = calm; idle_env = calm };
  dns_now = 0;
  source = λ since. ok [];
  dns_envs = λ k. calm;
  ap_stats = ok tt;
}

-- A protected client beside the weak one.
abbrev pub protected_client : ClientSnapshot
protected_client = record weak { mac = "CC " }

abbrev pub midnight : String → ℕ → Result ℕ
midnight zone now = ok 0

scanner-Agrees : Agrees ("cc" ∷ []) scanner
scanner-Agrees = record { own = refl; reads = record { by_scorer = refl; by_inactivity = refl } }

run_once-Safe_example :
    Safe
      ("cc" ∷ [])
      scanner.pipeline
      (run_once midnight cycle (ok (weak ∷ protected_client ∷ [])) scanner).1.pipeline
run_once-Safe_example =
    Cycle.run_once-Safe ("cc" ∷ []) midnight cycle (ok (weak ∷ protected_client ∷ [])) scanner
      scanner-Agrees
