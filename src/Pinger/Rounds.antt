-- ===== src/Pinger/Rounds.antt =====
-- The goroutines of internal/infra/pinger/pinger.go as interleaved steps: the loop `run` with its rounds
-- of pings, one `runSinglePinger` for each ping, and `Start`, `Register` and `Shutdown`.
pub mod Waiting
pub mod Panics
pub mod Exiting
pub mod Returning
use preoomkiller_controller.Common.{
  ℕ, suc, ◌+◌, ◌≡◌, ◌≢◌, ◌⊎◌, String, Bool, true, false, ◌==◌, ◌&&◌, Option, none, some, List, [],
  ◌∷◌, ◌++◌,
}
use preoomkiller_controller.Common.Int.{ℤ}
use preoomkiller_controller.Common.Dict.{Dict}
use preoomkiller_controller.Common.Error.{Error}
use preoomkiller_controller.Pinger.Service.{
  Pinger, PingerInfo, Service, new_service, register, update_stats,
}

-- How far a `runSinglePinger` has come: before its `updateStats`, before the `Done` of the service's
-- wait group, and before the `Done` of its round's.
pub data Phase : Type 0 where
  pinging recorded left : Phase

pub record Task : Type 0 where
  pub name : String
  pub round : ℕ
  pub phase : Phase

-- Where the loop `run` stands: not started, started, in `executePingers` with the pingers that are still
-- to launch, in `waitForPingers`, after the round, before its test of `inShutdown`, in its `select`,
-- and returned.
pub data Loop : Type 0 where
  unstarted entered : Loop
  launching : List String → Loop
  joining settled testing selecting exited : Loop

-- How far `Shutdown` has come; it gives up on the loop if its context is done first.
pub data Stage : Type 0 where
  idle waiting_loop waiting_pings returned gave_up : Stage

-- `cancelled` says whether the loop's context is done, `done` whether `doneCh` is closed; `in_flight` is
-- the counter of the service's wait group. The wait group of a round is at zero when no task of the
-- round is left over.
pub record System : Type 0 where
  pub service : Service
  pub in_shutdown : Bool
  pub cancelled : Bool
  pub ready : Bool
  pub done : Bool
  pub in_flight : ℕ
  pub round : ℕ
  pub running : List Task
  pub loop : Loop
  pub stage : Stage

unfoldable pub initial : System
initial = record {
  service = new_service;
  in_shutdown = false;
  cancelled = false;
  ready = false;
  done = false;
  in_flight = 0;
  round = 0;
  running = [];
  loop = unstarted;
  stage = idle;
}

-- `copyPingers`, and the order in which the loop ranges over the copy.
abbrev pub names : Dict PingerInfo → List String
names [] = []
names ((name, info) ∷ rest) = name ∷ names rest

-- A task of the round that is not over yet.
abbrev pub has_round : ℕ → List Task → Bool
has_round r [] = false
has_round r (t ∷ ts) = elim (t.round == r) [ true ↦ true | false ↦ has_round r ts ]

pub data Step (s : System) : System → Type 0 where
  registers : (p : Option Pinger) → Step s (record s { service = (register p s.service).1 })
  cancels : Step s (record s { cancelled = true })
  -- `Start`, and the first round
  starts : s.loop ≡ unstarted → s.in_shutdown ≡ false → Step s (record s { loop = entered })
  first_round : s.loop ≡ entered → Step s (record s { loop = launching (names s.service.pingers) })
  -- `executePingers`: `shouldStop`, the two `Add`s with the `go`, and the wait
  stops :
      (name : String) (rest : List String)
      → s.loop ≡ launching (name ∷ rest)
      → s.cancelled ≡ true
      → Step s (record s { loop = settled })
  launches :
      (name : String) (rest : List String)
      → s.loop ≡ launching (name ∷ rest)
      → s.cancelled ≡ false
      → Step s (record s {
        loop = launching rest;
        in_flight = suc s.in_flight;
        running = record { name = name; round = s.round; phase = pinging } ∷ s.running;
      })
  joins : s.loop ≡ launching [] → Step s (record s { loop = joining })
  joined :
      s.loop ≡ joining
      → (s.cancelled ≡ true) ⊎ (has_round s.round s.running ≡ false)
      → Step s (record s { loop = settled })
  -- `close(s.ready)` after the first round; a later round finds it closed
  settles : s.loop ≡ settled → Step s (record s { loop = testing; ready = true })
  -- the loop: its test of `inShutdown`, its `select`, and its end with the deferred `close(s.doneCh)`
  leaves_loop :
      s.loop ≡ testing → s.in_shutdown ≡ true → Step s (record s { loop = exited; done = true })
  goes_on : s.loop ≡ testing → s.in_shutdown ≡ false → Step s (record s { loop = selecting })
  ticks :
      s.loop ≡ selecting
      → Step s (record s { loop = launching (names s.service.pingers); round = suc s.round })
  context_ends :
      s.loop ≡ selecting → s.cancelled ≡ true → Step s (record s { loop = exited; done = true })
  -- `runSinglePinger`
  records :
      (before : List Task) (t : Task) (after : List Task) (now latency : ℤ) (e : Option Error)
      (service : Service)
      → s.running ≡ before ++ (t ∷ after)
      → t.phase ≡ pinging
      → update_stats t.name now latency e s.service ≡ some service
      → Step s (record s {
        service = service;
        running = before ++ (record t { phase = recorded } ∷ after);
      })
  counts_off :
      (before : List Task) (t : Task) (after : List Task) (n : ℕ)
      → s.running ≡ before ++ (t ∷ after)
      → t.phase ≡ recorded
      → s.in_flight ≡ suc n
      → Step s (record s { in_flight = n; running = before ++ (record t { phase = left } ∷ after) })
  ends :
      (before : List Task) (t : Task) (after : List Task)
      → s.running ≡ before ++ (t ∷ after)
      → t.phase ≡ left
      → Step s (record s { running = before ++ after })
  -- `Shutdown`
  begins : s.in_shutdown ≡ false → Step s (record s { in_shutdown = true; stage = waiting_loop })
  sees_loop : s.stage ≡ waiting_loop → s.done ≡ true → Step s (record s { stage = waiting_pings })
  gives_up : s.stage ≡ waiting_loop → Step s (record s { stage = gave_up })
  returns : s.stage ≡ waiting_pings → s.in_flight ≡ 0 → Step s (record s { stage = returned })

pub data Reach (s : System) : System → Type 0 where
  here : Reach s s
  next : {t u : System} → Reach s t → Step t u → Reach s u
