-- ===== src/Ui/Allowlist.antt =====
-- wifi_shepard_ui/config_io.py: `read_allowlist`, the pages' own reading of the allowlist, against the
-- loader's. The set is a list here; `str` of a number is the parameter `show`.
use Prim.Native.String as Text
use wifi_shepard.Load.Checks.{require_mac, require_sequence, is_valid_mac, is_mac, mac_shape}
use wifi_shepard.Load.Yaml.{Value, Items, bool, int, text, seq, nil, item, list_of, null}
use wifi_shepard.Load.Env.{walk}
use wifi_shepard.Mac.{normalize_mac, strip, lower}
use wifi_shepard.Prelude.{
  String, true, false, List, [], ◌∷◌, ◌≡◌, refl, sym, ap, ◌∙◌, Option, if◌then◌else◌, is_blank, ok,
  ◌>>=◌, each, Bool-cases, inl, inr, Ok, raised, returned, ◌▹◌, Ok-holds, value_error,
}

-- One entry in front of the others: a blank one is left out.
abbrev add_shown : String → List String → List String
add_shown s rest = if is_blank (strip s) then rest else lower (strip s) ∷ rest

module _ (show : Value → String) where
  unfoldable pub read_entries : Items → List String
  read_entries nil = []
  read_entries (item (text s) rest) = let later = read_entries rest in add_shown s later
  read_entries (item (int i) rest) = let later = read_entries rest in add_shown (show (int i)) later
  read_entries (item (bool b) rest) =
      let later = read_entries rest in add_shown (show (bool b)) later
  read_entries (item _ rest) = read_entries rest

  unfoldable pub read_allowlist : Value → List String
  unfolding read_entries
  read_allowlist (seq xs) = read_entries xs
  read_allowlist _ = []

lowered_mac : (t : String) → is_mac (lower t) ≡ true → is_blank t ≡ false
unfolding is_mac mac_shape lower
lowered_mac Text.[] e = cc
lowered_mac (Text.◌∷◌ c t) e = refl

add_shown-normalize_mac :
    (s : String) (later : List String)
    → is_mac (normalize_mac s) ≡ true
    → add_shown s later ≡ normalize_mac s ∷ later
unfolding normalize_mac
add_shown-normalize_mac s later e = rw (lowered_mac (strip s) e)

module _ (show : Value → String) where
  read_entries-Ok :
      (xs : Items) → Ok (λ macs. read_entries show xs ≡ macs) (each require_mac (list_of xs))
  unfolding each list_of read_entries require_mac is_valid_mac
  read_entries-Ok nil = returned [] refl
  read_entries-Ok (item (text s) rest) = elim (Bool-cases (is_mac (normalize_mac s))) [
    | inl e ↦ rw e (
        read_entries-Ok rest ▹ λ macs same.
        returned (normalize_mac s ∷ macs)
          (add_shown-normalize_mac s (read_entries show rest) e ∙ ap (◌∷◌ (normalize_mac s)) same))
    | inr e ↦ rw e (raised value_error)
  ]
  read_entries-Ok (item _ rest) = raised value_error

  read_allowlist-Ok :
      (v : Value)
      → Ok (λ macs. read_allowlist show v ≡ macs) (require_sequence v >>= each require_mac)
  unfolding require_sequence read_allowlist each
  read_allowlist-Ok null = returned [] refl
  read_allowlist-Ok (seq xs) = read_entries-Ok xs
  read_allowlist-Ok _ = raised value_error

  -- Where the interpolation of environment variables leaves the value of `allowlist` as it stands in
  -- the file, and the loader's checks accept what it answers, the pages, which read the file without
  -- interpolating, show the allowlist that the daemon has: the same MACs in the same form.
  pub read_allowlist-same :
      (environ : String → Option String) (v : Value) (macs : List String)
      → walk environ v ≡ ok v
      → (walk environ v >>= λ w. require_sequence w >>= each require_mac) ≡ ok macs
      → read_allowlist show v ≡ macs
  read_allowlist-same environ v macs plain e =
      Ok-holds (read_allowlist-Ok v)
        (ap (λ r. r >>= λ w. require_sequence w >>= each require_mac) (sym plain) ∙ e)
