-- ===== src/Dns/Factory.antt =====
-- wifi_shepard/dns_sources/__init__.py: the sources that a configuration names.
use wifi_shepard.Config.{DnsInstanceSpec, DnsSourceSpec}
use wifi_shepard.Prelude.{
  String, ◌<>◌, Option, none, some, List, [], ◌∷◌, ◌++◌, map, ◌==◌, if◌then◌else◌, Result, ok,
  raise, ◌>>=◌, value_error, is_blank,
}

pub record PiholeSource : Type 0 where
  pub url : String
  pub password : Option String
  pub name : String

-- `inst.password or spec.password`
abbrev pub own_or : Option String → Option String → Option String
own_or none default = default
own_or (some s) default = if is_blank s then default else some s

unfoldable pub build_dns_source_from_spec : DnsSourceSpec → Result (List PiholeSource)
build_dns_source_from_spec spec =
    if spec.type == "pihole"
    then ok (
        map
          (λ (i : DnsInstanceSpec). record {
            url = i.url;
            password = own_or i.password spec.password;
            name = "pihole@" <> i.url;
          })
          spec.instances)
    else raise value_error

unfoldable pub all_sources : List DnsSourceSpec → Result (List PiholeSource)
all_sources [] = ok []
all_sources (spec ∷ rest) = do
  first ← build_dns_source_from_spec spec
  later ← all_sources rest
  ok (first ++ later)

abbrev pub merged : List PiholeSource → Option (List PiholeSource)
merged [] = none
merged (s ∷ rest) = some (s ∷ rest)

-- The instances that `MergedDnsSource` holds.
unfoldable pub build_dns_sources : List DnsSourceSpec → Result (Option (List PiholeSource))
build_dns_sources specs = do sources ← all_sources specs; ok (merged sources)
