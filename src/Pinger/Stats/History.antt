-- ===== src/Pinger/Stats/History.antt =====
-- The statistics of a pinger, of statistics.go, against the history of its pings.
use preoomkiller_controller.Common.{
  ◌-◌, ◌≡◌, refl, sym, ap, String, Bool, true, false, not, ◌||◌, Option, none, some, List, [], ◌∷◌,
  ◌++◌, append-nil, append_assoc, length, drop, arith,
}
use preoomkiller_controller.Common.Int.{ℤ}
use preoomkiller_controller.Common.Error.{Error}
use preoomkiller_controller.Pinger.Buffer.History.{Holds, add-Holds, new-Holds, Holds-get_all}
use preoomkiller_controller.Pinger.Figures.{calculate_latency_metrics}
use preoomkiller_controller.Pinger.Stats.{
  Stats, ErrorSnapshot, new_pinger_stats, record_ping, get_statistics, is_nil,
}

-- A ping that has ended: when, after how long, and with what error.
pub record Ping : Type 0 where
  pub at : ℤ
  pub latency : ℤ
  pub error : Option Error

-- `updateStats` for each ping in turn.
abbrev pub record_all : List Ping → Stats → Option Stats
record_all [] st = some st
record_all (p ∷ ps) st = elim (record_ping p.at p.latency p.error st) [
  | none ↦ none
  | some st' ↦ record_all ps st'
]

abbrev latency_if : Bool → ℤ → List ℤ
latency_if true d = d ∷ []
latency_if false d = []

-- The latencies of the pings that succeeded, and of those that failed, oldest first.
abbrev pub successes : List Ping → List ℤ
successes [] = []
successes (p ∷ ps) = latency_if (is_nil p.error) p.latency ++ successes ps

abbrev pub failures : List Ping → List ℤ
failures [] = []
failures (p ∷ ps) = latency_if (not (is_nil p.error)) p.latency ++ failures ps

-- The error of the last ping, or `e` if there is none.
abbrev pub last_error_of : Option Error → List Ping → Option Error
last_error_of e [] = e
last_error_of e (p ∷ ps) = last_error_of p.error ps

-- The last ping that failed, as a snapshot.
abbrev snapshot : Ping → Option Error → Option ErrorSnapshot → Option ErrorSnapshot
snapshot p none old = old
snapshot p (some e) old = some (record { timestamp = p.at; latency = p.latency; error = e })

abbrev pub last_failure : Option ErrorSnapshot → List Ping → Option ErrorSnapshot
last_failure old [] = old
last_failure old (p ∷ ps) = last_failure (snapshot p p.error old) ps

record Tells (good bad : List ℤ) (e : Option Error) (f : Option ErrorSnapshot) (st : Stats)
    : Type 0 where
  good_held : Holds 100 good st.success_latencies
  bad_held : Holds 10 bad st.error_latencies
  error_kept : st.last_error ≡ e
  failure_kept : st.last_error_snapshot ≡ f

record_ping-Tells :
    (good bad : List ℤ) (e : Option Error) (f : Option ErrorSnapshot) (st : Stats) (p : Ping)
    (error : Option Error)
    → Tells good bad e f st
    → (after : Stats) × (record_ping p.at p.latency error st ≡ some after)
      × Tells
          (good ++ latency_if (is_nil error) p.latency)
          (bad ++ latency_if (not (is_nil error)) p.latency)
          error
          (snapshot p error f)
          after
unfolding record_ping
record_ping-Tells good bad e f st p none t =
    let (b, added, held) = add-Holds 100 good p.latency st.success_latencies t.good_held in
    (
      record st { last_run = some p.at; last_error = none; success_latencies = b },
      ground (arith, added),
      record {
        good_held = held;
        bad_held = rw (append-nil bad) t.bad_held;
        error_kept = refl;
        failure_kept = t.failure_kept;
      },
    )
record_ping-Tells good bad e f st p (some x) t =
    let (b, added, held) = add-Holds 10 bad p.latency st.error_latencies t.bad_held in
    (
      record st {
        last_run = some p.at;
        last_error = some x;
        last_error_snapshot = some (record { timestamp = p.at; latency = p.latency; error = x });
        error_latencies = b;
      },
      ground (arith, added),
      record {
        good_held = rw (append-nil good) t.good_held;
        bad_held = held;
        error_kept = refl;
        failure_kept = refl;
      },
    )

record_all-Tells :
    (good bad : List ℤ) (e : Option Error) (f : Option ErrorSnapshot) (st : Stats) (ps : List Ping)
    → Tells good bad e f st
    → (after : Stats) × (record_all ps st ≡ some after)
      × Tells
          (good ++ successes ps)
          (bad ++ failures ps)
          (last_error_of e ps)
          (last_failure f ps)
          after
record_all-Tells good bad e f st [] t = (st, refl, rw (append-nil good, append-nil bad) t)
record_all-Tells good bad e f st (p ∷ ps) t =
    let (mid, h, u) = record_ping-Tells good bad e f st p p.error t in
    let (after, k, v) = record_all-Tells _ _ p.error (snapshot p p.error f) mid ps u in
    (
      after,
      ground (arith, h, k),
      rw
          (
            sym (append_assoc good (latency_if (is_nil p.error) p.latency) (successes ps)),
            sym (append_assoc bad (latency_if (not (is_nil p.error)) p.latency) (failures ps)),
          )
          v,
    )

new-Tells : (name : String) → Tells [] [] none none (new_pinger_stats name)
unfolding new_pinger_stats
new-Tells name = record {
  good_held = new-Holds 100 (omega arith);
  bad_held = new-Holds 10 (omega arith);
  error_kept = refl;
  failure_kept = refl;
}

-- The pings of a new pinger are recorded without a panic, however many, and its statistics are then:
-- ready, and healthy, unless the pinger is critical for that and its last ping failed; the error of
-- the last ping; the last failure; and the metrics of the last 100 successes and of the last 10
-- failures, counted as they are.
pub get_statistics-record_all :
    (name : String) (ps : List Ping) (ready_critical health_critical : Bool)
    → let good = drop (length (successes ps) - 100) (successes ps) in
      let bad = drop (length (failures ps) - 10) (failures ps) in
      (st : Stats) × (record_all ps (new_pinger_stats name) ≡ some st)
      × (let t = get_statistics st ready_critical health_critical in
          (t.is_ready ≡ (not ready_critical || is_nil (last_error_of none ps)))
          × (t.is_healthy ≡ (not health_critical || is_nil (last_error_of none ps)))
          × (t.last_error ≡ last_error_of none ps)
          × (t.last_error_snapshot ≡ last_failure none ps)
          × (t.success_count ≡ length good)
          × (t.error_count ≡ length bad)
          × (t.success_latencies ≡ calculate_latency_metrics good)
          × (t.error_latencies ≡ calculate_latency_metrics bad))
unfolding get_statistics
get_statistics-record_all name ps r h =
    let (st, e, t) = record_all-Tells [] [] none none (new_pinger_stats name) ps (new-Tells name) in
    let g = Holds-get_all 100 (successes ps) st.success_latencies t.good_held in
    let b = Holds-get_all 10 (failures ps) st.error_latencies t.bad_held in
    (
      st,
      e,
      (
        ap (λ x. not r || is_nil x) t.error_kept,
        ap (λ x. not h || is_nil x) t.error_kept,
        t.error_kept,
        t.failure_kept,
        ap length g,
        ap length b,
        ap calculate_latency_metrics g,
        ap calculate_latency_metrics b,
      ),
    )
