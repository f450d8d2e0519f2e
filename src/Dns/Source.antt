-- ===== src/Dns/Source.antt =====
-- wifi_shepard/dns_sources/base.py and pihole.py: a query, and the merge of several instances. What an
-- instance answers over HTTP is a parameter: the rows of its response, or an exception.
use wifi_shepard.Prelude.{
  ℕ, ◌*◌, String, Bool, true, false, Option, some, List, [], ◌∷◌, ◌++◌, Result, ok, raise, length,
}
use Prim.Native.Nat.{◌/◌}

pub record DnsQuery : Type 0 where
  pub ts : ℕ
  pub client_ip : String
  pub domain : String

-- A row of the response, with the keys that are missing or of a wrong type as `none`.
pub record Row : Type 0 where
  pub time : Option ℕ
  pub client_ip : Option String
  pub domain : Option String

parse_row : Option ℕ → Option String → Option String → List DnsQuery
parse_row (some ts) (some ip) (some domain) =
    record { ts = ts; client_ip = ip; domain = domain } ∷ []
parse_row _ _ _ = []

-- `_parse_rows`: an incomplete row is skipped.
unfoldable pub parse_rows : List Row → List DnsQuery
unfolding parse_row
parse_rows [] = []
parse_rows (r ∷ rest) = parse_row r.time r.client_ip r.domain ++ parse_rows rest

-- `int(since)` of `_request_queries`, as an instant: the whole second at or before `since`.
unfoldable pub request_from : ℕ → ℕ
request_from since = since / 1000000 * 1000000

-- An instance: its name, and for the requested second the rows of its answer.
pub record Instance : Type 0 where
  pub name : String
  pub respond : ℕ → Result (List Row)

parsed : Result (List Row) → Result (List DnsQuery)
parsed (ok rows) = ok (parse_rows rows)
parsed (raise e) = raise e

-- `PiholeSource.queries_since`, its session being part of `respond`.
unfoldable pub queries_of : Instance → ℕ → Result (List DnsQuery)
unfolding parsed request_from
queries_of i since = parsed (i.respond (request_from since))

pub record Status : Type 0 where
  pub name : String
  pub is_ok : Bool
  pub query_count : ℕ

collect :
    String → Result (List DnsQuery) → List DnsQuery × List Status → List DnsQuery × List Status
collect name (ok qs) (merged, status) =
    (qs ++ merged, record { name = name; is_ok = true; query_count = length qs } ∷ status)
collect name (raise _) (merged, status) =
    (merged, record { name = name; is_ok = false; query_count = 0 } ∷ status)

-- `MergedDnsSource.queries_since`: the queries in the order of the instances, and their status. An
-- instance that raises contributes nothing.
unfoldable pub queries_since : List Instance → ℕ → List DnsQuery × List Status
unfolding collect queries_of
queries_since [] since = ([], [])
queries_since (i ∷ rest) since = collect i.name (queries_of i since) (queries_since rest since)
