-- ===== src/Pinger/Service/Panics.antt =====
-- That `updateStats` of pinger.go does not panic: the buffers of a registered pinger stay in range.
use preoomkiller_controller.Common.{
  ◌≡◌, String, inl, inr, Option, none, some, Bool-cases, Option-cases, arith,
}
use mathlib.Core.Path.{subst}
use text.Mathlib.Text.{◌==◌ as str_eq}
use preoomkiller_controller.Common.Int.{ℤ}
use preoomkiller_controller.Common.Dict.{Dict, lookup, insert, lookup-insert}
use preoomkiller_controller.Common.Error.{Error}
use preoomkiller_controller.Pinger.Buffer.Window.{IsValid, add-Adds}
use preoomkiller_controller.Pinger.Buffer.History.{new-Holds}
use preoomkiller_controller.Pinger.Stats.{Stats, new_pinger_stats, record_ping}
use preoomkiller_controller.Pinger.Service.{
  Pinger, PingerInfo, Service, new_service, create_pinger_info, register_if_new, register,
  update_stats, update_found, update_entry,
}

pub record HasBuffers (st : Stats) : Type 0 where
  pub good : IsValid st.success_latencies
  pub bad : IsValid st.error_latencies

-- The buffers of every registered pinger are in range.
abbrev pub IsInRange : Service → Type 0
IsInRange s = (name : String) (st : Stats) → lookup name s.stats ≡ some st → HasBuffers st

new-HasBuffers : (name : String) → HasBuffers (new_pinger_stats name)
unfolding new_pinger_stats
new-HasBuffers name = record {
  good = (new-Holds 100 (omega arith)).valid;
  bad = (new-Holds 10 (omega arith)).valid;
}

record_ping-HasBuffers :
    (now latency : ℤ) (e : Option Error) (st : Stats)
    → HasBuffers st
    → (after : Stats) × (record_ping now latency e st ≡ some after) × HasBuffers after
unfolding record_ping
record_ping-HasBuffers now latency none st v =
    let a = add-Adds latency st.success_latencies v.good in
    (
      record st { last_run = some now; last_error = none; success_latencies = a.after },
      ground (arith, a.added),
      record { good = a.valid; bad = v.bad },
    )
record_ping-HasBuffers now latency (some x) st v =
    let a = add-Adds latency st.error_latencies v.bad in
    (
      record st {
        last_run = some now;
        last_error = some x;
        last_error_snapshot = some (record { timestamp = now; latency = latency; error = x });
        error_latencies = a.after;
      },
      ground (arith, a.added),
      record { good = v.good; bad = a.valid },
    )

insert-IsInRange :
    (s : Service) (key : String) (new : Stats) (pingers : Dict PingerInfo)
    → IsInRange s
    → HasBuffers new
    → IsInRange (record { pingers = pingers; stats = insert key new s.stats })
insert-IsInRange s key new pingers v h name st e = elim (Bool-cases (str_eq key name)) [
  | inl same ↦ go (ground (arith, lookup-insert key name new s.stats, e, same))
  | inr other ↦ v name st (ground (arith, lookup-insert key name new s.stats, e, other))
]
  where
    go : new ≡ st → HasBuffers st
    go k = subst HasBuffers k h

pub new-IsInRange : IsInRange new_service
unfolding lookup
new-IsInRange name st e = absurd cc

pub register-IsInRange :
    (p : Option Pinger) (s : Service) → IsInRange s → IsInRange (register p s).1
unfolding register register_if_new
register-IsInRange none s v = v
register-IsInRange (some p) s v = go (lookup p.name s.pingers)
  where
    go : (o : Option PingerInfo) → IsInRange (register_if_new p o s).1
    go (some info) = v
    go none =
        insert-IsInRange s p.name (new_pinger_stats p.name)
          (insert p.name (create_pinger_info p) s.pingers) v (new-HasBuffers p.name)

-- The call returns, whatever the ping was, and keeps the buffers in range.
pub update_stats-IsInRange :
    (name : String) (now latency : ℤ) (e : Option Error) (s : Service)
    → IsInRange s
    → (t : Service) × (update_stats name now latency e s ≡ some t) × IsInRange t
unfolding update_stats
update_stats-IsInRange name now latency e s v = elim (Option-cases (lookup name s.stats)) [
  | inl free ↦ (s, rw (free, update_found), v)
  | inr (st, found) ↦
      let (after, recorded, kept) = record_ping-HasBuffers now latency e st (v name st found) in
      (
        record s { stats = insert name after s.stats },
        rw (found, update_found, recorded, update_entry),
        insert-IsInRange s name after s.pingers v kept,
      )
]
