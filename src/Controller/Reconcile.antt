-- ===== src/Controller/Reconcile.antt =====
-- The reconciliation loop of service.go: `ReconcileCommand`, `reconcileOnePod`, `RunCommand`, and
-- `Start` and `Ping`, which answer for it.
pub mod Total
pub mod Flags
pub mod Rounds
pub mod Acts
pub mod Calls
pub mod Health
use preoomkiller_controller.Common.{
  ℕ, zero, suc, ◌+◌, String, Bool, true, false, Option, none, some, List, [], ◌∷◌, if◌then◌else◌,
}
use preoomkiller_controller.Common.Int.{ℤ, pos, ltb_ℤ, add64, sub_time}
use preoomkiller_controller.Common.Dict.{lookup}
use preoomkiller_controller.Common.Error.{Error, Result, ok, err, canceled, message, wrap}
use preoomkiller_controller.Controller.Platform.{Numbers, Env, Config, Pod}
use preoomkiller_controller.Controller.State.{
  State, Action, Outcome, ret, panic, ◌>>=◌, ◌>>◌, pure, fail, gets, modify, ask,
}
use preoomkiller_controller.Controller.Process.{process_pod}
use preoomkiller_controller.Controller.Schedule.{process_scheduled_restart}

-- `*evictedCount++` if the pod was evicted; an error is logged, and counts nothing.
abbrev pub count_evicted : Result Bool → ℕ → ℕ
count_evicted (ok true) n = n + 1
count_evicted (ok false) n = n
count_evicted (err e) n = n

module _ {num : Numbers} (env : Env num) (cfg : Config) where
  open env use {World}
  open num use {Quantity}

  restart_if_scheduled : Pod Quantity → Option String → Action World (Unit {0})
  restart_if_scheduled pod none = pure tt
  restart_if_scheduled pod (some spec) = process_scheduled_restart env cfg pod

  process_if_threshold : Pod Quantity → ℕ → Option String → Action World ℕ
  process_if_threshold pod n none = pure n
  process_if_threshold pod n (some threshold) =
      process_pod env cfg pod >>= λ evicted. pure (count_evicted evicted n)

  unfoldable pub visit_pod : Pod Quantity → ℕ → Action World ℕ
  unfolding restart_if_scheduled process_if_threshold
  visit_pod pod n = do
    restart_if_scheduled pod (lookup cfg.annotation_restart_schedule_key pod.annotations)
    process_if_threshold pod n (lookup cfg.annotation_memory_threshold_key pod.annotations)

  -- `none` if the context is done, else the new count of evicted pods.
  unfoldable pub reconcile_one_pod : Pod Quantity → ℕ → Action World (Option ℕ)
  reconcile_one_pod pod n = do
    stop ← ask env.ctx_done
    if stop then pure none else (visit_pod pod n >>= λ m. pure (some m))

  -- The wait of a second between two pods.
  after_pod : (ℕ → Action World (Option ℕ)) → Option ℕ → Action World (Option ℕ)
  after_pod rest none = pure none
  after_pod rest (some n) = do stop ← ask env.done_before_second; if stop then pure none else rest n

  -- The loop over the pods: `none` if the context ended it, else the count that it logs.
  unfoldable pub reconcile_pods : List (Pod Quantity) → ℕ → Action World (Option ℕ)
  unfolding after_pod
  reconcile_pods [] n = pure (some n)
  reconcile_pods (pod ∷ pods) n = reconcile_one_pod pod n >>= after_pod (reconcile_pods pods)

  reconcile_listed : Result (List (Pod Quantity)) → Action World (Result (Option ℕ))
  reconcile_listed (err e) = pure (err (wrap "list pods" e))
  reconcile_listed (ok pods) = reconcile_pods pods 0 >>= λ n. pure (ok n)

  unfoldable pub reconcile_command : Action World (Result (Option ℕ))
  unfolding reconcile_listed
  reconcile_command = ask (env.list_pods_query cfg.label_selector) >>= reconcile_listed

  unfoldable pub set_last_reconcile_end_time : Action World (Unit {0})
  set_last_reconcile_end_time = do
    now ← ask env.now
    modify λ s. record s { last_reconcile_end_time = now }

  -- One turn of the loop of `RunCommand`; a reconcile error is logged, and goes nowhere else.
  pub run_round : Action World (Unit {0})
  unfolding set_last_reconcile_end_time
  run_round = reconcile_command >> set_last_reconcile_end_time

  after_round : Action World Bool → Action World Bool
  after_round rest = do stop ← ask env.done_before_tick; if stop then pure true else rest

  -- At most `rounds` turns of the loop; true if the context ended it.
  unfoldable pub run_rounds : ℕ → Action World Bool
  unfolding run_round after_round
  run_rounds zero = pure false
  run_rounds (suc rounds) = run_round >>= λ _. after_round (run_rounds rounds)

  -- `close(s.ready)` and `close(s.doneCh)`: to close a closed channel panics.
  close_ready : Action World (Unit {0})
  close_ready = do
    closed ← gets (λ s. s.ready)
    if closed then fail else modify (λ s. record s { ready = true })

  close_done : Action World (Unit {0})
  close_done = do
    closed ← gets (λ s. s.done)
    if closed then fail else modify (λ s. record s { done = true })

  -- `time.NewTicker(s.interval)`, which panics unless the interval is positive.
  new_ticker : Action World (Unit {0})
  new_ticker = if ltb_ℤ (pos 0) cfg.interval then pure tt else fail

  -- What comes before the loop of `RunCommand`.
  unfoldable pub enter_loop : Action World (Unit {0})
  unfolding new_ticker close_ready
  enter_loop = do new_ticker; set_last_reconcile_end_time; close_ready

  -- The body of `RunCommand`, watched for `rounds` rounds; true if it returns in them.
  run_body : ℕ → Action World Bool
  unfolding enter_loop
  run_body rounds = enter_loop >> run_rounds rounds

  -- The deferred `close(s.doneCh)`: at the return of the body, at its panic, and not before.
  run_deferred : Outcome Bool × State World → Outcome Bool × State World
  unfolding close_done
  run_deferred (ret true, s) = (close_done >> pure true) s
  run_deferred (ret false, s) = (ret false, s)
  run_deferred (panic, s) = (close_done >> fail) s

  unfoldable pub run_command : ℕ → Action World Bool
  unfolding run_body run_deferred
  run_command rounds s = run_deferred (run_body rounds s)

  -- `Start`: whether the goroutine of `RunCommand` is started.
  unfoldable pub start : Action World Bool
  start = gets (λ s. s.in_shutdown) >>= λ stopping. pure (if stopping then false else true)

  check_age : ℤ → Option Error
  check_age age =
      if ltb_ℤ (add64 cfg.interval cfg.interval) age
      then some (message "last reconcile was too long ago")
      else none

  ping_ready : Action World (Option Error)
  unfolding check_age
  ping_ready = do
    last ← gets (λ s. s.last_reconcile_end_time)
    now ← ask env.now
    pure (check_age (sub_time now last))

  -- The `select` of `Ping`: of two ready cases it takes either, as the world chooses.
  unfoldable pub ping : Action World (Option Error)
  unfolding ping_ready
  ping = do
    cancelled ← ask env.ctx_done
    first ← ask env.choose
    ready ← gets (λ s. s.ready)
    if cancelled
        then (if ready
            then (if first then pure (some canceled) else ping_ready)
            else pure (some canceled))
        else (if ready then ping_ready else pure (some (message "controller service is not ready")))
