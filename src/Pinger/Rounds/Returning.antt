-- ===== src/Pinger/Rounds/Returning.antt =====
-- That a `Shutdown` of the pinger service in pinger.go can always still return.
use preoomkiller_controller.Common.{
  ℕ, zero, suc, ◌+◌, ◌≤◌, ◌<◌, ◌≡◌, ◌≢◌, refl, ap, ◌∙◌, inl, inr, true, none, List, [], ◌∷◌, ◌++◌,
  eq-cases, arith,
}
use preoomkiller_controller.Common.Int.{pos}
use preoomkiller_controller.Pinger.Service.Panics.{update_stats-IsInRange}
use preoomkiller_controller.Pinger.Rounds.Waiting.{busy, busy-middle}
use preoomkiller_controller.Pinger.Rounds.Panics.{IsFine, initial-IsFine, Reach-IsFine, Reach-trans}
use preoomkiller_controller.Pinger.Rounds.{
  Phase, pinging, recorded, left, Task, unstarted, waiting_loop, waiting_pings, returned, System,
  initial, Step, Reach, here, next,
}
use preoomkiller_controller.Pinger.Rounds.Exiting.{loop_exits}

-- The steps that the pings have left up to their `Done` of the wait group.
abbrev ping_work : Phase → ℕ
ping_work pinging = 2
ping_work recorded = 1
ping_work left = 0

abbrev work : List Task → ℕ
work [] = 0
work (t ∷ ts) = ping_work t.phase + work ts

work-middle :
    (before : List Task) (t : Task) (after : List Task)
    → work (before ++ (t ∷ after)) ≡ ping_work t.phase + (work before + work after)
work-middle [] t after = omega arith
work-middle (u ∷ before) t after = omega (arith, work-middle before t after)

-- A ping that has not counted itself off.
abbrev Unfinished : List Task → Type 0
Unfinished ts =
    (before : List Task) × (t : Task) × (after : List Task) × (ts ≡ before ++ (t ∷ after))
    × (t.phase ≢ left)

ping_left_over : (ts : List Task) → busy ts ≢ 0 → Unfinished ts
ping_left_over [] h = absurd (h refl)
ping_left_over (t ∷ ts) h = split t.phase refl (ping_left_over ts)
  where
    split : (p : Phase) → t.phase ≡ p → (busy ts ≢ 0 → Unfinished ts) → Unfinished (t ∷ ts)
    split pinging e rest = ([], t, ts, refl, λ x. cc (x, e))
    split recorded e rest = ([], t, ts, refl, λ x. cc (x, e))
    split left e rest =
        let (before, u, after, k, on) = rest (λ z. h (ground (arith, e, z))) in
        (t ∷ before, u, after, ap (◌∷◌ t) k, on)

record NextStep (s : System) : Type 0 where
  after : System
  step : Step s after
  less : work after.running < work s.running
  same_stage : after.stage ≡ s.stage

work_moves :
    (s : System) (before : List Task) (t : Task) (after : List Task) (p : Phase)
    → IsFine s
    → s.running ≡ before ++ (t ∷ after)
    → t.phase ≡ p
    → p ≢ left
    → NextStep s
work_moves s before t after pinging v e h on =
    let (service, u, kept) =
      update_stats-IsInRange t.name (pos 0) (pos 0) none s.service v.live.in_range in
    record {
      after = _;
      step = Step.records before t after (pos 0) (pos 0) none service e h u;
      less = ground (
        arith,
        ap work e,
        work-middle before t after,
        work-middle before (record t { phase = recorded }) after,
      );
      same_stage = refl;
    }
work_moves s before t after recorded v e h on = record {
  after = _;
  step =
      Step.counts_off before t after (busy before + busy after) e h
        (ground (arith, v.sound.counted, busy-middle s.running before t after e));
  less = ground (
    arith,
    ap work e,
    work-middle before t after,
    work-middle before (record t { phase = left }) after,
  );
  same_stage = refl;
}
work_moves s before t after left v e h on = absurd (on refl)

-- Down to an empty wait group.
record WaitOver (s : System) : Type 0 where
  after : System
  reach : Reach s after
  empty : after.in_flight ≡ 0
  same_stage : after.stage ≡ s.stage

next_ping : (s : System) → IsFine s → s.in_flight ≢ 0 → NextStep s
next_ping s v more =
    let (before, t, after, e, on) = ping_left_over s.running (λ z. more (v.sound.counted ∙ z)) in
    work_moves s before t after t.phase v e refl on

empties : (n : ℕ) (s : System) → work s.running ≤ n → IsFine s → WaitOver s
empties zero s h v = elim (eq-cases s.in_flight 0) [
  | inl empty ↦ record { after = s; reach = here; empty = empty; same_stage = refl }
  | inr more ↦ absurd (omega (arith, (next_ping s v more).less, h))
]
empties (suc n) s h v = elim (eq-cases s.in_flight 0) [
  | inl empty ↦ record { after = s; reach = here; empty = empty; same_stage = refl }
  | inr more ↦
      let a = next_ping s v more in
      let d = empties n a.after (omega (arith, a.less, h)) (Reach-IsFine v (next here a.step)) in
      record {
        after = d.after;
        reach = Reach-trans (next here a.step) d.reach;
        empty = d.empty;
        same_stage = d.same_stage ∙ a.same_stage;
      }
]

-- `Shutdown` of the pinger service is never stuck: from every state of every interleaving in which it
-- waits for a loop that was started and whose context is cancelled, there is a way on to its return of
-- nil.
pub pinger_can_return :
    {s : System}
    → Reach initial s
    → s.stage ≡ waiting_loop
    → s.loop ≢ unstarted
    → s.cancelled ≡ true
    → (t : System) × Reach s t × (t.stage ≡ returned)
pinger_can_return {s} r h started c =
    let v = Reach-IsFine initial-IsFine r in
    let flag = v.sound.flagged (λ e. cc (e, h)) in
    let (t, leads, over) = loop_exits s s.loop flag c refl started in
    let u = Reach-IsFine v leads.reach in
    let seen : System = record t { stage = waiting_pings } in
    let st : Step t seen = Step.sees_loop (leads.same_stage ∙ h) (u.live.exited_done over) in
    let d = empties (work seen.running) seen (omega arith) (Reach-IsFine u (next here st)) in
    (
      record (d.after) { stage = returned },
      next (Reach-trans (next leads.reach st) d.reach) (Step.returns d.same_stage d.empty),
      refl,
    )
