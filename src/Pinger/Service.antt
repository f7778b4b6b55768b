-- ===== src/Pinger/Service.antt =====
-- The registry of internal/infra/pinger/pinger.go: `Register`, `GetStats`, `GetAllStats` and
-- `updateStats`. Each holds the lock `mu`, so it is one step on the maps.
pub mod Registry
pub mod Reports
pub mod Panics
use preoomkiller_controller.Common.{
  ℕ, String, Bool, true, false, if◌then◌else◌, Option, none, some, List, [], ◌∷◌,
}
use preoomkiller_controller.Common.Int.{ℤ, pos, ltb_ℤ}
use preoomkiller_controller.Common.Dict.{Dict, lookup, insert}
use preoomkiller_controller.Common.Error.{Error, Sentinel, Result, ok, err, sentinel, message, wrap}
use preoomkiller_controller.Pinger.Stats.{
  Stats, Statistics, new_pinger_stats, record_ping, get_statistics,
}

-- A `Pinger`, with the answer of each optional interface that it implements.
pub record Pinger : Type 0 where
  pub name : String
  pub pinger_ready_critical : Option Bool
  pub pinger_critical : Option Bool
  pub pinger_timeout : Option ℤ

pub record PingerInfo : Type 0 where
  pub pinger : Pinger
  pub ready_critical : Bool
  pub health_critical : Bool
  pub timeout : ℤ

-- The two maps of `Service`.
pub record Service : Type 0 where
  pub pingers : Dict PingerInfo
  pub stats : Dict Stats

-- `New`.
abbrev pub new_service : Service
new_service = record { pingers = []; stats = [] }

-- One second.
abbrev pub default_ping_timeout : ℤ
default_ping_timeout = pos 1_000_000_000

-- `detectReadyCritical` and `detectHealthCritical`.
abbrev pub detect_critical : Option Bool → Bool
detect_critical none = true
detect_critical (some critical) = critical

abbrev pub detect_timeout : Option ℤ → ℤ
detect_timeout none = default_ping_timeout
detect_timeout (some custom) = if ltb_ℤ (pos 0) custom then custom else default_ping_timeout

abbrev pub create_pinger_info : Pinger → PingerInfo
create_pinger_info pinger = record {
  pinger = pinger;
  ready_critical = detect_critical pinger.pinger_ready_critical;
  health_critical = detect_critical pinger.pinger_critical;
  timeout = detect_timeout pinger.pinger_timeout;
}

register_if_new : Pinger → Option PingerInfo → Service → Option Error × Service
register_if_new pinger (some info) s =
    (some (wrap "register pinger" (sentinel Sentinel.pinger_already_registered)), s)
register_if_new pinger none s = (
  none,
  record {
    pingers = insert pinger.name (create_pinger_info pinger) s.pingers;
    stats = insert pinger.name (new_pinger_stats pinger.name) s.stats;
  },
)

-- `Register`; `none` is a nil `Pinger`.
unfoldable pub register : Option Pinger → Service → Option Error × Service
unfolding register_if_new
register none s = (some (message "register pinger: pinger cannot be nil"), s)
register (some pinger) s = register_if_new pinger (lookup pinger.name s.pingers) s

stats_of : Option PingerInfo → Option Stats → Result Statistics
stats_of (some info) (some st) = ok (get_statistics st info.ready_critical info.health_critical)
stats_of (some info) none = err (wrap "get stats" (sentinel Sentinel.pinger_not_found))
stats_of none st = err (wrap "get stats" (sentinel Sentinel.pinger_not_found))

-- `GetStats`.
unfoldable pub get_stats : String → Service → Result Statistics
unfolding stats_of
get_stats name s = stats_of (lookup name s.pingers) (lookup name s.stats)

add_stats : String → Stats → Option PingerInfo → Dict Statistics → Dict Statistics
add_stats name st none result = result
add_stats name st (some info) result =
    insert name (get_statistics st info.ready_critical info.health_critical) result

-- The loop of `GetAllStats`, over the entries of `s.stats` in some order.
collect : Dict Stats → Dict PingerInfo → Dict Statistics → Dict Statistics
unfolding add_stats
collect [] pingers result = result
collect ((name, st) ∷ rest) pingers result =
    collect rest pingers (add_stats name st (lookup name pingers) result)

unfoldable pub get_all_stats : Service → Dict Statistics
unfolding collect
get_all_stats s = collect s.stats s.pingers []

-- `*stats` is written in place: the entry of the map changes.
update_entry : String → Option Stats → Service → Option Service
update_entry name none s = none
update_entry name (some st) s = some (record s { stats = insert name st s.stats })

update_found : String → ℤ → ℤ → Option Error → Option Stats → Service → Option Service
unfolding update_entry
update_found name now latency e none s = some s
update_found name now latency e (some st) s = update_entry name (record_ping now latency e st) s

-- `updateStats`, at the time `now`; `none` is a panic.
unfoldable pub update_stats : String → ℤ → ℤ → Option Error → Service → Option Service
unfolding update_found
update_stats name now latency e s = update_found name now latency e (lookup name s.stats) s
