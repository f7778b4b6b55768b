-- ===== src/Pinger/Examples.antt =====
-- Latencies, statistics and registrations on concrete values.
use preoomkiller_controller.Common.{
  ◌*◌, ◌≤◌, ◌≡◌, refl, ◌⊎◌, inr, true, false, none, some, List, [], ◌∷◌, arith,
}
use text.Mathlib.Text.{◌==◌ as str_eq}
use preoomkiller_controller.Common.Int.{ℤ, pos}
use preoomkiller_controller.Common.Dict.{lookup, insert}
use preoomkiller_controller.Common.Error.{Error, Sentinel, foreign, ok, errors_is}
use preoomkiller_controller.Pinger.Buffer.{LatencyBuffer, new_latency_buffer, add, get_all, len}
use preoomkiller_controller.Pinger.Buffer.History.{add_all, get_all-add_all}
use preoomkiller_controller.Pinger.Figures.{calculate_latency_metrics}
use preoomkiller_controller.Pinger.Figures.Ranks.{
  HasRank, at_most, at_least, calculate_latency_metrics-HasRank,
}
use preoomkiller_controller.Pinger.Figures.Means.{median_metric-IsMiddle}
use preoomkiller_controller.Pinger.Stats.{Stats, new_pinger_stats, record_ping, get_statistics}
use preoomkiller_controller.Pinger.Stats.History.{Ping, record_all, get_statistics-record_all}
use preoomkiller_controller.Pinger.Service.{
  Pinger, Service, new_service, create_pinger_info, register, get_stats, get_all_stats,
  update_stats,
}
use preoomkiller_controller.Pinger.Service.Registry.{IsPaired, new-IsPaired, register-IsPaired}
use preoomkiller_controller.Pinger.Service.Reports.{
  result_of, get_all_stats-get_stats, get_stats-update_stats,
}
use preoomkiller_controller.Pinger.Rounds.{
  Phase as RoundPhase, pinging, recorded, left, Task, joining, settled, exited, waiting_loop,
  returned, System, initial, Step, Reach, here, next,
}
use preoomkiller_controller.Pinger.Rounds.Returning.{pinger_can_return}
use preoomkiller_controller.Pinger.Rounds.Waiting.{busy, pinger_drained}

abbrev latencies : List ℤ
latencies = pos 30 ∷ pos 10 ∷ pos 20 ∷ pos 50 ∷ []

-- Five durations in a buffer of three.
wrapped :
    elim (add_all (pos 1 ∷ pos 2 ∷ pos 3 ∷ pos 4 ∷ pos 5 ∷ []) (new_latency_buffer 3)) [
      | none ↦ []
      | some lb ↦ get_all lb
    ]
    ≡ pos 3 ∷ pos 4 ∷ pos 5 ∷ []
unfolding new_latency_buffer add get_all
wrapped = refl

get_all-add_all_example :
    (lb : LatencyBuffer) × (add_all latencies (new_latency_buffer 3) ≡ some lb)
    × (get_all lb ≡ pos 10 ∷ pos 20 ∷ pos 50 ∷ [])
    × (len lb ≡ 3)
get_all-add_all_example = get_all-add_all 3 latencies (omega arith)

calculate_latency_metrics-HasRank_example :
    let m = calculate_latency_metrics latencies in
    (m.count ≡ 4)
    × HasRank 2 m.p80 latencies
    × HasRank 2 m.p90 latencies
    × HasRank 3 m.p99 latencies
    × (at_most m.p99 latencies ≡ 4)
calculate_latency_metrics-HasRank_example =
    calculate_latency_metrics-HasRank latencies (omega arith)

median_metric-IsMiddle_example :
    let v = (calculate_latency_metrics latencies).median in
    (4 ≤ 2 * at_most v latencies) × (4 ≤ 2 * at_least v latencies)
median_metric-IsMiddle_example = median_metric-IsMiddle latencies (omega arith) (
  omega arith,
  omega arith,
  (omega arith, omega arith, (omega arith, omega arith, (omega arith, omega arith, tt))),
)

abbrev good_ping : Ping
good_ping = record { at = pos 100; latency = pos 3; error = none }

abbrev bad_ping : Ping
bad_ping = record { at = pos 200; latency = pos 9; error = some (foreign "refused") }

get_statistics-record_all_example :
    (st : Stats) × (record_all (good_ping ∷ bad_ping ∷ []) (new_pinger_stats "db") ≡ some st)
    × (let t = get_statistics st true false in
        (t.is_ready ≡ false)
        × (t.is_healthy ≡ true)
        × (t.last_error ≡ some (foreign "refused"))
        × (t.last_error_snapshot
            ≡ some (record { timestamp = pos 200; latency = pos 9; error = foreign "refused" }))
        × (t.success_count ≡ 1)
        × (t.error_count ≡ 1)
        × (t.success_latencies ≡ calculate_latency_metrics (pos 3 ∷ []))
        × (t.error_latencies ≡ calculate_latency_metrics (pos 9 ∷ [])))
get_statistics-record_all_example =
    get_statistics-record_all "db" (good_ping ∷ bad_ping ∷ []) true false

abbrev db : Pinger
db = record {
  name = "db";
  pinger_ready_critical = none;
  pinger_critical = some false;
  pinger_timeout = none;
}

abbrev one_pinger : Service
one_pinger = (register (some db) new_service).1

register-IsPaired_example :
    let (answer, t) = register (some db) new_service in
    IsPaired t
    × (((answer ≡ none)
          × (lookup "db" new_service.pingers ≡ none)
          × (lookup "db" t.pingers ≡ some (create_pinger_info db))
          × (lookup "db" t.stats ≡ some (new_pinger_stats "db")))
        ⊎ ((e : Error) × (answer ≡ some e)
            × (errors_is Sentinel.pinger_already_registered e ≡ true)
            × (t ≡ new_service)))
register-IsPaired_example = register-IsPaired db new_service new-IsPaired

one_pinger-IsPaired : IsPaired one_pinger
one_pinger-IsPaired = (register-IsPaired db new_service new-IsPaired).0

get_all_stats-get_stats_example :
    lookup "db" (get_all_stats one_pinger) ≡ result_of (get_stats "db" one_pinger)
get_all_stats-get_stats_example = get_all_stats-get_stats one_pinger "db" one_pinger-IsPaired

abbrev pinged : Stats
pinged = record (new_pinger_stats "db") {
  last_run = some (pos 100);
  success_latencies = record (new_latency_buffer 100) { buffer = pos 3 ∷ []; count = 1 };
}

get_stats-update_stats_example :
    (t : Service) × (update_stats "db" (pos 100) (pos 3) none one_pinger ≡ some t)
    × IsPaired t
    × (get_stats "db" t ≡ ok (get_statistics pinged true false))
    × ((str_eq "db" "http" ≡ true) ⊎ (get_stats "http" t ≡ get_stats "http" one_pinger))
unfolding register lookup insert record_ping add new_pinger_stats new_latency_buffer
get_stats-update_stats_example =
    get_stats-update_stats one_pinger "db" "http" (pos 100) (pos 3) none (create_pinger_info db)
      (new_pinger_stats "db") pinged one_pinger-IsPaired refl refl refl

-- One round with one ping, and then a shutdown.
abbrev stopped : System
stopped = record initial {
  service = record one_pinger { stats = insert "db" pinged one_pinger.stats };
  in_shutdown = true;
  ready = true;
  done = true;
  loop = exited;
  stage = returned;
}

abbrev task : RoundPhase → Task
task phase = record { name = "db"; round = 0; phase = phase }

launching_one : Reach initial (record initial {
  service = one_pinger;
  loop = joining;
  in_flight = 1;
  running = task pinging ∷ [];
})
unfolding initial register lookup insert
launching_one =
    next
      (next
        (next (next (next here (Step.registers (some db))) (Step.starts refl refl))
          (Step.first_round refl))
        (Step.launches "db" [] refl refl))
      (Step.joins refl)

ping_over : Reach initial (record initial { service = stopped.service; loop = settled })
unfolding initial register lookup insert update_stats record_ping add new_pinger_stats
    new_latency_buffer
ping_over =
    next
      (next
        (next
          (next launching_one (
            Step.records [] (task pinging) [] (pos 100) (pos 3) none stopped.service refl refl
              refl))
          (Step.counts_off [] (task recorded) [] 0 refl refl refl))
        (Step.ends [] (task left) [] refl refl))
      (Step.joined refl (inr refl))

stopping : Reach initial stopped
unfolding initial
stopping =
    next
      (next
        (next (next (next ping_over (Step.settles refl)) (Step.begins refl))
          (Step.leaves_loop refl refl))
        (Step.sees_loop refl refl))
      (Step.returns refl refl)

pinger_drained_example :
    (stopped.loop ≡ exited) × (stopped.in_flight ≡ 0) × (busy stopped.running ≡ 0)
pinger_drained_example = pinger_drained {s = stopped} {t = stopped} stopping refl here

-- A shutdown while a ping runs.
abbrev interrupted : System
interrupted = record initial {
  service = one_pinger;
  cancelled = true;
  in_shutdown = true;
  in_flight = 1;
  running = task pinging ∷ [];
  loop = joining;
  stage = waiting_loop;
}

interrupting : Reach initial interrupted
unfolding initial
interrupting = next (next launching_one Step.cancels) (Step.begins refl)

pinger_can_return_example : (t : System) × Reach interrupted t × (t.stage ≡ returned)
pinger_can_return_example = pinger_can_return {s = interrupted} interrupting refl (λ e. cc) refl
