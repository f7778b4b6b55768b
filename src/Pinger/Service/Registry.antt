-- ===== src/Pinger/Service/Registry.antt =====
-- The registry of pinger.go keeps one record of statistics for each pinger.
use preoomkiller_controller.Common.{
  ◌≡◌, refl, String, Bool, true, false, ◌⊎◌, inl, inr, if◌then◌else◌, none, some, Option-cases,
}
use text.Mathlib.Text.{◌==◌ as str_eq}
use text.Mathlib.TextPositions.{eq_refl as str_eq_refl}
use preoomkiller_controller.Common.Dict.{
  Dict, lookup, insert, lookup-insert, HasDistinctKeys, insert-HasDistinctKeys,
}
use preoomkiller_controller.Common.Error.{Error, Sentinel, errors_is}
use preoomkiller_controller.Pinger.Stats.{Stats, new_pinger_stats}
use preoomkiller_controller.Pinger.Service.{
  Pinger, PingerInfo, Service, new_service, create_pinger_info, register_if_new, register,
}

-- Both maps have the same keys, each once.
pub record IsPaired (s : Service) : Type 0 where
  pub paired :
      (name : String)
      → (lookup name s.pingers ≡ none × lookup name s.stats ≡ none)
        ⊎ ((info : PingerInfo) × (st : Stats) × (lookup name s.pingers ≡ some info)
            × (lookup name s.stats ≡ some st))
  pub distinct : HasDistinctKeys s.stats

pub new-IsPaired : IsPaired new_service
unfolding lookup
new-IsPaired = record { paired = λ name. inl (refl, refl); distinct = tt }

insert-paired :
    (pingers : Dict PingerInfo) (stats : Dict Stats) (key name : String) (info : PingerInfo)
    (st : Stats)
    → ((lookup name pingers ≡ none × lookup name stats ≡ none)
        ⊎ ((info : PingerInfo) × (st : Stats) × (lookup name pingers ≡ some info)
            × (lookup name stats ≡ some st)))
    → (lookup name (insert key info pingers) ≡ none × lookup name (insert key st stats) ≡ none)
      ⊎ ((info' : PingerInfo) × (st' : Stats) × (lookup name (insert key info pingers) ≡ some info')
          × (lookup name (insert key st stats) ≡ some st'))
insert-paired pingers stats key name info st h =
    rw (lookup-insert, lookup-insert) (split (str_eq key name))
  where
    split :
        (b : Bool)
        → (((if b then some info else lookup name pingers) ≡ none)
            × ((if b then some st else lookup name stats) ≡ none))
          ⊎ ((info' : PingerInfo) × (st' : Stats) × ((if b then some info else lookup name pingers)
                ≡ some info')
              × ((if b then some st else lookup name stats) ≡ some st'))
    split true = inr (info, st, refl, refl)
    split false = h

-- `Register` keeps the two maps paired, whatever it answers. A pinger with a name that is taken is
-- refused with `ErrPingerAlreadyRegistered`, and changes nothing; another is added.
pub register-IsPaired :
    (p : Pinger) (s : Service)
    → IsPaired s
    → let (answer, t) = register (some p) s in
      IsPaired t
      × (((answer ≡ none)
            × (lookup p.name s.pingers ≡ none)
            × (lookup p.name t.pingers ≡ some (create_pinger_info p))
            × (lookup p.name t.stats ≡ some (new_pinger_stats p.name)))
          ⊎ ((e : Error) × (answer ≡ some e)
              × (errors_is Sentinel.pinger_already_registered e ≡ true)
              × (t ≡ s)))
unfolding register errors_is
register-IsPaired p s v = elim (Option-cases (lookup p.name s.pingers)) [
  | inl free ↦
      rw (free, register_if_new)
        (
          record {
            paired = λ name.
                insert-paired s.pingers s.stats p.name name (create_pinger_info p)
                  (new_pinger_stats p.name) (v.paired name);
            distinct = insert-HasDistinctKeys p.name (new_pinger_stats p.name) s.stats v.distinct;
          },
          inl (refl, refl, rw (lookup-insert, str_eq_refl), rw (lookup-insert, str_eq_refl)),
        )
  | inr (info, taken) ↦ rw (taken, register_if_new) (v, inr (_, refl, refl, refl))
]
