-- ===== src/Pending.antt =====
-- wifi_shepard/pending.py: the kicks in flight, a BTM request that awaits its fallback and a kick
-- whose outcome is not yet logged.
use wifi_shepard.Prelude.{String, Bool, Option}
use wifi_shepard.Dict
use wifi_shepard.Dict.{Dict}

pub record Btm : Type 0 where
  pub group : String
  pub ap_id : String

pub record Outcome : Type 0 where
  pub ap_id : String
  pub mechanism : String
  pub attempt_group : String

pub record PendingKicks : Type 0 where
  pub btm : Dict Btm
  pub outcome : Dict Outcome

abbrev pub new : PendingKicks
new = record { btm = Dict.empty; outcome = Dict.empty }

unfoldable pub set_btm : PendingKicks → String → String → String → PendingKicks
set_btm p mac group ap_id = record p {
  btm = Dict.put p.btm mac (record { group = group; ap_id = ap_id });
}

unfoldable pub get_btm : PendingKicks → String → Option Btm
get_btm p mac = Dict.get p.btm mac

unfoldable pub clear_btm : PendingKicks → String → PendingKicks
clear_btm p mac = record p { btm = Dict.remove p.btm mac }

unfoldable pub has_btm : PendingKicks → String → Bool
has_btm p mac = Dict.has p.btm mac

unfoldable pub set_outcome : PendingKicks → String → Outcome → PendingKicks
set_outcome p mac o = record p { outcome = Dict.put p.outcome mac o }

unfoldable pub pop_outcome : PendingKicks → String → Option Outcome × PendingKicks
pop_outcome p mac = (Dict.get p.outcome mac, record p { outcome = Dict.remove p.outcome mac })
