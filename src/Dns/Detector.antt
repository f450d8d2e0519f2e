-- ===== src/Dns/Detector.antt =====
-- wifi_shepard/dns_thrash.py: the counts of queries of one domain in a trailing window, and how long
-- a client has been over its threshold. The source is a parameter, from `since` to an answer.
use wifi_shepard.Prelude.{
  ℕ, ◌+◌, ◌-◌, ◌*◌, String, Bool, true, false, ◌||◌, Option, none, some, List, [], ◌∷◌, ◌++◌, ltb,
  leb, if◌then◌else◌, Result, ok, raise, length, seconds,
}
use wifi_shepard.Config.{Config, DnsThrashConfig}
use wifi_shepard.Controller.{ClientSnapshot}
use wifi_shepard.Dict
use wifi_shepard.Dict.{Dict}
use wifi_shepard.Dns.Source.{DnsQuery}
use wifi_shepard.Window.{prune_deque}
use wifi_shepard.Resolution.{resolve_dns_same_domain_max}

pub record Standing : Type 0 where
  pub mac : String
  pub domain : String
  pub count : ℕ
  pub threshold : ℕ
  pub over_since : Option ℕ

-- domain → instants of its queries
abbrev pub Domains : Type 0
Domains = Dict (List ℕ)

pub record DnsThrashDetector : Type 0 where
  pub config : Config
  pub counts : Dict Domains
  pub over_since : Dict ℕ
  pub last_poll_ts : Option ℕ
  pub last_standings : List Standing

abbrev pub new : Config → DnsThrashDetector
new config = record {
  config = config;
  counts = Dict.empty;
  over_since = Dict.empty;
  last_poll_ts = none;
  last_standings = [];
}

note_ip : Dict String → Option String → String → Dict String
note_ip m none mac = m
note_ip m (some String.[]) mac = m
note_ip m (some (String.◌∷◌ c s)) mac = Dict.put m (String.◌∷◌ c s) mac

-- `ip_to_mac`: a client with no known address is skipped, and a later one takes an address over.
unfoldable pub ip_to_mac : Dict String → List ClientSnapshot → Dict String
unfolding note_ip
ip_to_mac m [] = m
ip_to_mac m (c ∷ rest) = ip_to_mac (note_ip m c.ip c.mac) rest

abbrev pub domains_of : Dict Domains → String → Domains
domains_of counts mac = Dict.get_or counts mac Dict.empty

abbrev pub queries_of : Domains → String → List ℕ
queries_of d domain = Dict.get_or d domain []

-- `setdefault(mac, {}).setdefault(domain, deque()).append(ts)`
unfoldable pub count_query : Dict Domains → String → String → ℕ → Dict Domains
count_query counts mac domain ts =
    let d = domains_of counts mac in
    Dict.put counts mac (Dict.put d domain (queries_of d domain ++ ts ∷ []))

note_query : Dict Domains → Option String → DnsQuery → Dict Domains
unfolding count_query
note_query counts none q = counts
note_query counts (some mac) q = count_query counts mac q.domain q.ts

unfoldable pub note_queries : Dict String → Dict Domains → List DnsQuery → Dict Domains
unfolding note_query
note_queries ips counts [] = counts
note_queries ips counts (q ∷ qs) =
    note_queries ips (note_query counts (Dict.get ips q.client_ip) q) qs

-- The loop over a client's domains: prune each deque, delete the empty ones, and list the others
-- with their counts.
unfoldable pub prune_domains : ℕ → ℕ → List String → Domains → Domains × List (String × ℕ)
unfolding prune_deque
prune_domains window now [] d = (d, [])
prune_domains window now (k ∷ ks) d = elim (prune_deque window now (queries_of d k)) [
  | [] ↦ prune_domains window now ks (Dict.remove d k)
  | t ∷ ts ↦
      let (d', live) = prune_domains window now ks (Dict.put d k (t ∷ ts)) in
      (d', (k, length (t ∷ ts)) ∷ live)
]

-- `count > threshold` for some live domain
unfoldable pub is_over : ℕ → List (String × ℕ) → Bool
is_over threshold [] = false
is_over threshold ((_, count) ∷ rest) = ltb threshold count || is_over threshold rest

-- The streak: cleared, begun now, or going on; and whether it has lasted the sustain time.
unfoldable pub streak : ℕ → ℕ → Bool → Option ℕ → Option ℕ × Bool
streak sustain now false since = (none, false)
streak sustain now true none = (some now, leb (now + sustain) now)
streak sustain now true (some started) = (some started, leb (started + sustain) now)

abbrev store {ℓ} : {V : Type ℓ} → Dict V → String → Option V → Dict V
store d k none = Dict.remove d k
store d k (some v) = Dict.put d k v

unfoldable pub standings_of : String → ℕ → Option ℕ → List (String × ℕ) → List Standing
standings_of mac threshold since [] = []
standings_of mac threshold since ((domain, count) ∷ rest) =
    record { mac = mac; domain = domain; count = count; threshold = threshold; over_since = since }
    ∷ standings_of mac threshold since rest

-- What one round of the loop over the clients adds and leaves.
pub record Round : Type 0 where
  pub counts : Dict Domains
  pub over_since : Dict ℕ
  pub flagged : List String
  pub standings : List Standing

settle : String → ℕ → ℕ → ℕ → Round → Domains × List (String × ℕ) → Round
unfolding is_over streak standings_of
settle mac threshold sustain now r (d, []) = record r {
  counts = Dict.remove r.counts mac;
  over_since = Dict.remove r.over_since mac;
}
settle mac threshold sustain now r (d, l ∷ live) =
    let (since, flag) =
      streak sustain now (is_over threshold (l ∷ live)) (Dict.get r.over_since mac) in
    record {
      counts = Dict.put r.counts mac d;
      over_since = store r.over_since mac since;
      flagged = r.flagged ++ (if flag then mac ∷ [] else []);
      standings = r.standings ++ standings_of mac threshold since (l ∷ live);
    }

unfoldable pub judge : Config → DnsThrashConfig → ℕ → String → Round → Round
unfolding settle prune_domains
judge config cfg now mac r =
    let d = domains_of r.counts mac in
    settle mac (resolve_dns_same_domain_max mac config cfg.same_domain_queries_max)
      (seconds (cfg.sustain_windows * cfg.window_minutes * 60)) now r
      (prune_domains (seconds (cfg.window_minutes * 60)) now (Dict.keys d) d)

unfoldable pub judge_all : Config → DnsThrashConfig → ℕ → List String → Round → Round
unfolding judge
judge_all config cfg now [] r = r
judge_all config cfg now (mac ∷ rest) r = judge_all config cfg now rest (judge config cfg now mac r)

-- `now - window_seconds` on the first poll; an instant before the clock's origin is the origin.
abbrev pub since_of : ℕ → ℕ → Option ℕ → ℕ
since_of window now none = now - window
since_of window now (some last) = last

unfoldable pub finish :
    DnsThrashConfig
    → ℕ
    → Dict String
    → DnsThrashDetector
    → Result (List DnsQuery)
    → List String × DnsThrashDetector
unfolding judge_all note_queries
finish cfg now ips d (raise _) = ([], record d { last_poll_ts = some now; last_standings = [] })
finish cfg now ips d (ok queries) =
    let counts = note_queries ips d.counts queries in
    let r =
      judge_all d.config cfg now (Dict.keys counts)
        (record { counts = counts; over_since = d.over_since; flagged = []; standings = [] }) in
    (
      r.flagged,
      record d {
        counts = r.counts;
        over_since = r.over_since;
        last_poll_ts = some now;
        last_standings = r.standings;
      },
    )

-- `observe`, where `cfg` is the configured `detection.dns_thrash`.
unfoldable pub observe :
    DnsThrashConfig
    → (ℕ → Result (List DnsQuery))
    → ℕ
    → List ClientSnapshot
    → DnsThrashDetector
    → List String × DnsThrashDetector
unfolding finish ip_to_mac
observe cfg source now clients d =
    finish cfg now (ip_to_mac Dict.empty clients) d
      (source (since_of (seconds (cfg.window_minutes * 60)) now d.last_poll_ts))
