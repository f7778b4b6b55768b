-- ===== src/Pinger/Service/Reports.antt =====
-- What `GetStats` and `GetAllStats` of pinger.go report, and when.
use preoomkiller_controller.Common.{
  ◌≡◌, refl, sym, ap, ◌∙◌, String, true, ◌⊎◌, inl, inr, if◌then◌else◌, Option, none, some, [], ◌∷◌,
  Bool-cases, arith,
}
use text.Mathlib.Text.{◌==◌ as str_eq}
use text.Mathlib.TextPositions.{eq_refl as str_eq_refl}
use text.Mathlib.TextEquality.{eq_iff}
use preoomkiller_controller.Common.Int.{ℤ}
use preoomkiller_controller.Common.Dict.{
  Dict, lookup, insert, lookup-insert, HasDistinctKeys, insert-HasDistinctKeys,
}
use preoomkiller_controller.Common.Error.{
  Error, Sentinel, Result, ok, err, sentinel, wrap, errors_is,
}
use preoomkiller_controller.Pinger.Stats.{Stats, Statistics, record_ping, get_statistics}
use preoomkiller_controller.Pinger.Service.{
  PingerInfo, Service, stats_of, get_stats, add_stats, collect, get_all_stats, update_entry,
  update_found, update_stats,
}
use preoomkiller_controller.Pinger.Service.Registry.{IsPaired}

-- The statistics of a name as an entry of a map.
abbrev report : Option PingerInfo → Option Stats → Option Statistics → Option Statistics
report info none old = old
report none (some st) old = old
report (some info) (some st) old = some (get_statistics st info.ready_critical info.health_critical)

add_stats-lookup :
    (name key : String) (st : Stats) (info : Option PingerInfo) (result : Dict Statistics)
    → lookup name (add_stats key st info result)
      ≡ (if str_eq key name then report info (some st) (lookup name result) else lookup name result)
unfolding add_stats
add_stats-lookup name key st none result = ground arith
add_stats-lookup name key st (some info) result =
    lookup-insert key name (get_statistics st info.ready_critical info.health_critical) result

collect-lookup :
    (name : String) (stats : Dict Stats) (pingers : Dict PingerInfo) (result : Dict Statistics)
    → HasDistinctKeys stats
    → lookup name (collect stats pingers result)
      ≡ report (lookup name pingers) (lookup name stats) (lookup name result)
unfolding collect lookup
collect-lookup name [] pingers result h = refl
collect-lookup name ((key, st) ∷ rest) pingers result h =
    collect-lookup name rest pingers (add_stats key st (lookup key pingers) result) h.1
    ∙ ap (λ o. report (lookup name pingers) (lookup name rest) o)
        (add_stats-lookup name key st (lookup key pingers) result)
    ∙ elim (Bool-cases (str_eq key name)) [
      | inl same ↦ ground (arith, eq_iff key name, h.0)
      | inr other ↦ ground (arith)
    ]

abbrev pub result_of : Result Statistics → Option Statistics
result_of (ok t) = some t
result_of (err e) = none

-- With paired maps, `GetAllStats` holds under each name what `GetStats` answers for it, and has no
-- entry where that fails.
pub get_all_stats-get_stats :
    (s : Service) (name : String)
    → IsPaired s
    → lookup name (get_all_stats s) ≡ result_of (get_stats name s)
unfolding get_all_stats get_stats lookup
get_all_stats-get_stats s name v =
    collect-lookup name s.stats s.pingers [] v.distinct ∙ elim (v.paired name) [
      | inl (a, b) ↦ rw (a, b, stats_of)
      | inr (info, st, a, b) ↦ rw (a, b, stats_of)
    ]

entry-IsPaired :
    (s : Service) (name : String) (st' : Stats)
    → (info : PingerInfo) (st : Stats) → lookup name s.pingers ≡ some info
    → lookup name s.stats ≡ some st
    → IsPaired s
    → IsPaired (record s { stats = insert name st' s.stats })
entry-IsPaired s name st' info st a b v = record {
  paired = λ other.
      rw (lookup-insert name other st' s.stats) (elim (Bool-cases (str_eq name other)) [
        | inl same ↦ inr (
          info,
          st',
          ap (λ k. lookup k s.pingers) (sym ((eq_iff name other).0 same)) ∙ a,
          ap (λ c. if c then some st' else lookup other s.stats) same,
        )
        | inr distinct ↦ simp distinct (v.paired other)
      ]);
  distinct = insert-HasDistinctKeys name st' s.stats v.distinct;
}

-- `updateStats` for a registered pinger, whose `Stats` takes the ping: the maps stay paired, `GetStats`
-- then reports the pinger's new `Stats`, and answers for any other name as before.
pub get_stats-update_stats :
    (s : Service) (name other : String) (now latency : ℤ) (e : Option Error) (info : PingerInfo)
    (st st' : Stats)
    → IsPaired s
    → lookup name s.pingers ≡ some info
    → lookup name s.stats ≡ some st
    → record_ping now latency e st ≡ some st'
    → (t : Service) × (update_stats name now latency e s ≡ some t)
      × IsPaired t
      × (get_stats name t ≡ ok (get_statistics st' info.ready_critical info.health_critical))
      × ((str_eq name other ≡ true) ⊎ (get_stats other t ≡ get_stats other s))
unfolding update_stats get_stats
get_stats-update_stats s name other now latency e info st st' v a b h = (
  record s { stats = insert name st' s.stats },
  rw (b, update_found, h, update_entry),
  entry-IsPaired s name st' info st a b v,
  rw (a, lookup-insert, str_eq_refl, stats_of),
  (elim (Bool-cases (str_eq name other)) [
    | inl same ↦ inl same
    | inr distinct ↦ inr (
        ap (λ o. stats_of (lookup other s.pingers) o)
          (lookup-insert name other st' s.stats
            ∙ ap (λ c. if c then some st' else lookup other s.stats) distinct))
  ]),
)

-- `updateStats` for a name that is not registered changes nothing, and `GetStats` answers it with
-- an error that is `ErrPingerNotFound`.
pub unknown_pinger :
    (s : Service) (name : String) (now latency : ℤ) (e : Option Error)
    → lookup name s.stats ≡ none
    → (update_stats name now latency e s ≡ some s)
      × ((x : Error) × (get_stats name s ≡ err x) × (errors_is Sentinel.pinger_not_found x ≡ true))
unfolding update_stats get_stats errors_is stats_of
unknown_pinger s name now latency e h = (
  rw (h, update_found),
  (wrap "get stats" (sentinel Sentinel.pinger_not_found), answer (lookup name s.pingers), refl),
)
  where
    answer :
        (info : Option PingerInfo)
        → stats_of info (lookup name s.stats)
          ≡ err (wrap "get stats" (sentinel Sentinel.pinger_not_found))
    answer none = refl
    answer (some info) = ap (λ o. stats_of (some info) o) h
