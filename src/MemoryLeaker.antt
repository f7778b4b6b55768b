-- ===== src/MemoryLeaker.antt =====
-- examples/memory-leaker/main.go: the program that the README runs to see the controller act. It
-- allocates memory at a rate until it is told to end.
pub mod Growth
mod Examples
use preoomkiller_controller.Common.{
  ℕ, zero, suc, ◌+◌, ◌%◌, String, Bool, true, false, if◌then◌else◌, Option, none, some, List, [],
  ◌∷◌,
}
use text.Mathlib.Text.{◌==◌ as str_eq}
use preoomkiller_controller.Common.Int.{ℤ, pos, negsuc, add64}
use preoomkiller_controller.Common.Error.{Error, Result, ok, err, message, wrap}
use preoomkiller_controller.Controller.Platform.{Numbers}

abbrev pub default_leak_rate : ℕ
default_leak_rate = 10

module _ (num : Numbers) where
  open num use {Float}

  positive_rate : Result Float → Result Float
  positive_rate (err e) = err (wrap "LEAK_RATE_MI_PER_MIN" e)
  positive_rate (ok v) =
      if num.le_float v (num.float_of 0)
      then err (message "LEAK_RATE_MI_PER_MIN must be positive")
      else ok v

  -- `parseLeakRate`, from the value of its variable.
  unfoldable pub parse_leak_rate : String → Result Float
  unfolding positive_rate
  parse_leak_rate s =
      if str_eq s "" then ok (num.float_of default_leak_rate) else positive_rate (num.parse_float s)

  abbrev pub bytes_per_second : Float → ℤ
  bytes_per_second rate = num.to_int64 (
      num.div_float (num.mul_float (num.mul_float rate (num.float_of 1024)) (num.float_of 1024))
        (num.float_of 60))

-- The case that a `select` of `runLeakLoop` takes.
pub data Event : Type 0 where
  done tick log_tick : Event

-- The variables of `runLeakLoop`; the chunks of bytes stand last first.
pub record Leak : Type 0 where
  pub total_allocated : ℤ
  pub memory : List (List ℕ)

-- `chunk[i] = byte(i % 256)` for each `i` from there on.
unfoldable pub fill : ℕ → ℕ → List ℕ
fill zero i = []
fill (suc n) i = i % 256 ∷ fill n (suc i)

-- `make` of a negative length is a panic.
allocate : ℤ → Leak → Option Leak
unfolding fill
allocate (pos n) s =
    some
      (record { total_allocated = add64 s.total_allocated (pos n); memory = fill n 0 ∷ s.memory })
allocate (negsuc n) s = none

-- `runLeakLoop` over the cases that its `select` takes: `none` is a panic, and the flag tells whether it
-- has returned.
unfoldable pub run_leak_loop : List Event → ℤ → Leak → Option (Bool × Leak)
unfolding allocate
run_leak_loop [] bytes s = some (false, s)
run_leak_loop (done ∷ events) bytes s = some (true, s)
run_leak_loop (log_tick ∷ events) bytes s = run_leak_loop events bytes s
run_leak_loop (tick ∷ events) bytes s = elim (allocate bytes s) [
  | none ↦ none
  | some t ↦ run_leak_loop events bytes t
]

abbrev pub no_leak : Leak
no_leak = record { total_allocated = pos 0; memory = [] }

-- `shutdownServer`, from the answer of the server's `Shutdown`.
abbrev pub shutdown_answer : Option Error → Option Error
shutdown_answer none = none
shutdown_answer (some e) = some (wrap "shutdown http server" e)

ended : Option Error → Option (Bool × Leak) → Option (Option Error)
ended answer none = none
ended answer (some (true, s)) =
    some (elim (shutdown_answer answer) [ none ↦ none | some e ↦ some (wrap "shutdown server" e) ])
ended answer (some (false, s)) = none

-- `run`, from the value of its variable, the cases of the loop and the answer of the server: `none` if it
-- panics or has not returned.
unfoldable pub run_leaker : Numbers → String → List Event → Option Error → Option (Option Error)
unfolding ended
run_leaker num s events answer = elim (parse_leak_rate num s) [
  | err e ↦ some (some (wrap "parse leak rate" e))
  | ok rate ↦ ended answer (run_leak_loop events (bytes_per_second num rate) no_leak)
]
