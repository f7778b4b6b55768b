-- ===== src/Controller/Reconcile/Rounds.antt =====
-- `ReconcileCommand` and the rounds of `RunCommand` (service.go), whole.
use preoomkiller_controller.Common.{
  ℕ, suc, zero, ◌≤◌, ◌≡◌, ◌≢◌, ◌↔◌, refl, sym, ap, ◌∙◌, ◌<◌, Bool, Bool-cases, inl, inr, true,
  false, Option, none, some, List, [], ◌∷◌, arith, length,
}
use preoomkiller_controller.Common.Int.{pos, ◌<ℤ◌}
use preoomkiller_controller.Common.Error.{Result, ok, err}
use preoomkiller_controller.Controller.Platform.{Numbers, Env, Config, Pod, DrawsBelow}
use preoomkiller_controller.Controller.State.{
  State, Outcome, ret, panic, ret_of_ne_panic, >>=-eq_of_ret, >>=-ne-panic,
}
use preoomkiller_controller.Controller.Schedule.Arming.{IsJitter}
use preoomkiller_controller.Controller.Reconcile.Total.{
  IsNeverDone, Visits, visit_total, reconcile_pods_visits,
}
use preoomkiller_controller.Controller.Reconcile.{
  reconcile_one_pod, reconcile_pods, reconcile_listed, reconcile_command, after_pod,
  set_last_reconcile_end_time, run_round, after_round, run_rounds, run_command,
}
use preoomkiller_controller.Controller.Reconcile.Flags.{run_rounds-SameFlags}

module _ {num : Numbers} (env : Env num) (cfg : Config) where
  open env use {World}

  -- The state at the n-th tick of the loop, if the context was not done at those before it.
  abbrev pub at_tick : ℕ → State World → State World
  at_tick zero s = (run_round env cfg s).1
  at_tick (suc n) s =
      let t = (run_round env cfg s).1 in
      at_tick n (record t { world = (env.done_before_tick t.world).1 })

  -- The loop finds the context done at the n-th tick.
  abbrev pub IsDoneAt : ℕ → State World → Type 0
  IsDoneAt n s = (env.done_before_tick (at_tick n s).world).0 ≡ true

  after_tick : State World → State World
  after_tick s =
      let t = (run_round env cfg s).1 in record t { world = (env.done_before_tick t.world).1 }

  -- The state in which the loop of `RunCommand` begins.
  abbrev pub entered : State World → State World
  entered s = record s {
    world = (env.now s.world).1;
    ready = true;
    last_reconcile_end_time = (env.now s.world).0;
  }

module _ {num : Numbers} (env : Env num) (cfg : Config) (draws : DrawsBelow env)
    (jitter : IsJitter env cfg) where
  open env use {World}
  open num use {Quantity}

  -- With a jitter limit that `rand.Int63n` takes, a context that is never done, and a list of pods
  -- from the cluster, `ReconcileCommand` ends with no panic and a nil error: it visits every pod
  -- once, in the order of the list, whatever errors the pods meet, and the count that it logs is
  -- no more than their number.
  pub reconcile_command-Visits :
      (pods : List (Pod Quantity)) (w : World) (s : State World)
      → IsNeverDone env cfg
      → env.list_pods_query cfg.label_selector s.world ≡ (ok pods, w)
      → let (r, t) = reconcile_command env cfg s in
        (k : ℕ) × (r ≡ ret (ok (some k)))
        × (k ≤ length pods)
        × Visits env cfg pods 0 (record s { world = w }) k t
  unfolding reconcile_command
  reconcile_command-Visits pods w s h e =
      let (k, f, low, high, v) =
        reconcile_pods_visits env cfg draws jitter pods 0 (record s { world = w }) h in
      rw (e, reconcile_listed)
        (
          k,
          ground (arith, f),
          omega arith,
          rw (>>=-eq_of_ret (reconcile_pods env cfg pods 0) _ _ f) v,
        )

  one_total :
      (pod : Pod Quantity) (n : ℕ) (s : State World) → (reconcile_one_pod env cfg pod n s).0 ≢ panic
  unfolding reconcile_one_pod
  one_total pod n s = ground (
    arith,
    (visit_total env cfg draws jitter pod n (record s { world = (env.ctx_done s.world).1 })).1,
  )

  after_total :
      (rest : ℕ → State World → Outcome (Option ℕ) × State World)
      → ((n : ℕ) (s : State World) → (rest n s).0 ≢ panic)
      → (o : Option ℕ) (s : State World) → (after_pod env cfg rest o s).0 ≢ panic
  unfolding after_pod
  after_total rest h none s = ground arith
  after_total rest h (some n) s =
      ground (arith, h n (record s { world = (env.done_before_second s.world).1 }))

  pods_total :
      (pods : List (Pod Quantity)) (n : ℕ) (s : State World)
      → (reconcile_pods env cfg pods n s).0 ≢ panic
  unfolding reconcile_pods
  pods_total [] n s = ground arith
  pods_total (pod ∷ pods) n s =
      >>=-ne-panic (reconcile_one_pod env cfg pod n)
        (after_pod env cfg (reconcile_pods env cfg pods)) s (one_total pod n s)
        λ o.
          after_total (reconcile_pods env cfg pods) (λ m t. pods_total pods m t) o
            (reconcile_one_pod env cfg pod n s).1

  listed_total :
      (answer : Result (List (Pod Quantity))) (t : State World)
      → (reconcile_listed env cfg answer t).0 ≢ panic
  unfolding reconcile_listed
  listed_total (ok pods) t = ground (arith, pods_total pods 0 t)
  listed_total (err e) t = ground arith

  reconcile_total : (s : State World) → (reconcile_command env cfg s).0 ≢ panic
  unfolding reconcile_command
  reconcile_total s =
      listed_total (env.list_pods_query cfg.label_selector s.world).0
        (record s { world = (env.list_pods_query cfg.label_selector s.world).1 })

  round_total : (s : State World) → (run_round env cfg s).0 ≢ panic
  unfolding run_round
  round_total s = ground (arith, reconcile_total s)

  rounds_total : (rounds : ℕ) (s : State World) → (run_rounds env cfg rounds s).0 ≢ panic
  unfolding run_rounds
  rounds_total zero s = ground arith
  rounds_total (suc rounds) s =
      >>=-ne-panic (run_round env cfg) (λ _. after_round env cfg (run_rounds env cfg rounds)) s
        (round_total s)
        λ u.
          ground
            (arith, rounds_total rounds (record t { world = (env.done_before_tick t.world).1 }))
    where
      t : State World
      t = (run_round env cfg s).1

  round_done :
      (rounds : ℕ) (s : State World)
      → IsDoneAt env cfg 0 s
      → (run_rounds env cfg (suc rounds) s).0 ≡ ret true
  unfolding run_rounds
  round_done rounds s h = let (u, e) = ret_of_ne_panic _ (round_total s) in ground (arith, e, h)

  round_goes_on :
      (rounds : ℕ) (s : State World)
      → (env.done_before_tick (at_tick env cfg 0 s).world).0 ≡ false
      → (run_rounds env cfg (suc rounds) s).0 ≡ (run_rounds env cfg rounds (after_tick env cfg s)).0
  unfolding run_rounds after_tick
  round_goes_on rounds s h = let (u, e) = ret_of_ne_panic _ (round_total s) in ground (arith, e, h)

  rounds_end :
      (rounds n : ℕ) (s : State World)
      → n < rounds
      → IsDoneAt env cfg n s
      → (run_rounds env cfg rounds s).0 ≡ ret true
  unfolding after_tick
  rounds_end zero n s h d = absurd (omega arith)
  rounds_end (suc rounds) zero s h d = round_done rounds s d
  rounds_end (suc rounds) (suc n) s h d =
      elim (Bool-cases (env.done_before_tick (at_tick env cfg 0 s).world).0) [
        | inl done ↦ round_done rounds s done
        | inr going ↦
            round_goes_on rounds s going
            ∙ rounds_end rounds n (after_tick env cfg s) (omega arith) d
      ]

  rounds_ended :
      (rounds : ℕ) (s : State World)
      → (run_rounds env cfg rounds s).0 ≡ ret true
      → (n : ℕ) × (n < rounds) × IsDoneAt env cfg n s
  unfolding run_rounds after_tick
  rounds_ended zero s h = absurd (ground arith)
  rounds_ended (suc rounds) s h =
      elim (Bool-cases (env.done_before_tick (at_tick env cfg 0 s).world).0) [
        | inl done ↦ (0, omega arith, done)
        | inr going ↦
            let (n, less, d) =
              rounds_ended rounds (after_tick env cfg s) (sym (round_goes_on rounds s going) ∙ h) in
            (suc n, omega arith, d)
      ]

  -- With a positive interval and a jitter limit that `rand.Int63n` takes, and both channels open at first,
  -- `RunCommand` does not panic in any number of rounds, whatever the cluster answers. It returns in them
  -- if and only if one of their ticks finds the context done. The service is ready from the start of the
  -- loop on, and `doneCh` is closed exactly if `RunCommand` has returned.
  pub run_command_total :
      (rounds : ℕ) (s : State World)
      → pos 0 <ℤ cfg.interval
      → s.ready ≡ false
      → s.done ≡ false
      → let (r, t) = run_command env cfg rounds s in
        (exited : Bool) × (r ≡ ret exited)
        × (t.done ≡ exited)
        × (t.ready ≡ true)
        × ((exited ≡ true) ↔ ((n : ℕ) × (n < rounds) × IsDoneAt env cfg n (entered env cfg s)))
  unfolding run_command set_last_reconcile_end_time
  run_command_total rounds s positive not_ready not_done =
      let (exited, e) = ret_of_ne_panic _ (rounds_total rounds (entered env cfg s)) in
      let k = run_rounds-SameFlags env cfg rounds (entered env cfg s) in
      (
        exited,
        ground (arith, e, k.same_done),
        ground (arith, e, k.same_done),
        ground (arith, e, k.same_done, k.same_ready),
        (
          λ h. rounds_ended rounds (entered env cfg s) (e ∙ ap ret h),
          λ (n, less, d). ground (arith, sym e ∙ rounds_end rounds n (entered env cfg s) less d),
        ),
      )

  -- A second `RunCommand` of a service panics at `close(s.ready)`.
  pub run_command_again :
      (rounds : ℕ) (s : State World) → s.ready ≡ true → (run_command env cfg rounds s).0 ≡ panic
  unfolding run_command set_last_reconcile_end_time
  run_command_again rounds s h = ground arith
