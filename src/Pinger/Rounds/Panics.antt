-- ===== src/Pinger/Rounds/Panics.antt =====
-- That no ping of pinger.go panics, in any interleaving.
use preoomkiller_controller.Common.{◌≡◌, ◌≢◌, refl, sym, ◌∙◌, String, true, Option, some}
use mathlib.Core.Path.{subst}
use preoomkiller_controller.Common.Int.{ℤ}
use preoomkiller_controller.Common.Error.{Error}
use preoomkiller_controller.Pinger.Service.{Service, update_stats}
use preoomkiller_controller.Pinger.Service.Panics.{
  IsInRange, new-IsInRange, register-IsInRange, update_stats-IsInRange,
}
use preoomkiller_controller.Pinger.Rounds.Waiting.{IsSound, Step-IsSound, initial-IsSound}
use preoomkiller_controller.Pinger.Rounds.{
  Loop, entered, launching, joining, settled, testing, selecting, exited, System, initial, Step,
  Reach, here, next,
}

-- The loop closes `doneCh` when it returns, and the buffers of the pingers are in range.
pub record IsLive (s : System) : Type 0 where
  pub exited_done : s.loop ≡ exited → s.done ≡ true
  pub in_range : IsInRange s.service

loop_at :
    (s : System) (loop : Loop) (t : System)
    → t.loop ≡ loop
    → loop ≢ exited
    → t.service ≡ s.service
    → IsLive s
    → IsLive t
loop_at s loop t e h k v = record {
  exited_done = λ x. absurd (h (sym e ∙ x));
  in_range = subst IsInRange (sym k) v.in_range;
}

Step-IsLive : {s t : System} → Step s t → IsLive s → IsLive t
Step-IsLive {s} (Step.registers p) v = record {
  exited_done = v.exited_done;
  in_range = register-IsInRange p s.service v.in_range;
}
Step-IsLive {s} Step.cancels v = record { exited_done = v.exited_done; in_range = v.in_range }
Step-IsLive {s} (Step.starts h k) v = loop_at s entered _ refl (λ e. cc) refl v
Step-IsLive {s} (Step.first_round h) v = loop_at s _ _ refl (λ e. cc) refl v
Step-IsLive {s} (Step.stops n ns h k) v = loop_at s settled _ refl (λ e. cc) refl v
Step-IsLive {s} (Step.launches n ns h k) v = loop_at s (launching ns) _ refl (λ e. cc) refl v
Step-IsLive {s} (Step.joins h) v = loop_at s joining _ refl (λ e. cc) refl v
Step-IsLive {s} (Step.joined h k) v = loop_at s settled _ refl (λ e. cc) refl v
Step-IsLive {s} (Step.settles h) v = loop_at s testing _ refl (λ e. cc) refl v
Step-IsLive {s} (Step.leaves_loop h k) v = record { exited_done = λ e. refl; in_range = v.in_range }
Step-IsLive {s} (Step.goes_on h k) v = loop_at s selecting _ refl (λ e. cc) refl v
Step-IsLive {s} (Step.ticks h) v = loop_at s _ _ refl (λ e. cc) refl v
Step-IsLive {s} (Step.context_ends h k) v = record {
  exited_done = λ e. refl;
  in_range = v.in_range;
}
Step-IsLive {s} (Step.records before t after now latency e service h p u) v =
    let (service', u', kept) = update_stats-IsInRange t.name now latency e s.service v.in_range in
    record {
      exited_done = v.exited_done;
      in_range = subst IsInRange (same service' service (sym u' ∙ u)) kept;
    }
  where
    same : (a b : Service) → some a ≡ some b → a ≡ b
    same a b h = cc (h)
Step-IsLive {s} (Step.counts_off before t after n h p k) v = record {
  exited_done = v.exited_done;
  in_range = v.in_range;
}
Step-IsLive {s} (Step.ends before t after h p) v = record {
  exited_done = v.exited_done;
  in_range = v.in_range;
}
Step-IsLive {s} (Step.begins h) v = record { exited_done = v.exited_done; in_range = v.in_range }
Step-IsLive {s} (Step.sees_loop h k) v = record {
  exited_done = v.exited_done;
  in_range = v.in_range;
}
Step-IsLive {s} (Step.gives_up h) v = record { exited_done = v.exited_done; in_range = v.in_range }
Step-IsLive {s} (Step.returns h k) v = record { exited_done = v.exited_done; in_range = v.in_range }

initial-IsLive : IsLive initial
unfolding initial
initial-IsLive = record { exited_done = λ e. absurd cc; in_range = new-IsInRange }

pub record IsFine (s : System) : Type 0 where
  pub sound : IsSound s
  pub live : IsLive s

pub initial-IsFine : IsFine initial
initial-IsFine = record { sound = initial-IsSound; live = initial-IsLive }

pub Reach-IsFine : {s t : System} → IsFine s → Reach s t → IsFine t
Reach-IsFine v here = v
Reach-IsFine v (next r st) =
    let u = Reach-IsFine v r in
    record { sound = Step-IsSound st u.sound; live = Step-IsLive st u.live }

pub Reach-trans : {s t u : System} → Reach s t → Reach t u → Reach s u
Reach-trans r here = r
Reach-trans r (next q st) = next (Reach-trans r q) st

-- No ping panics: in every interleaving, the `updateStats` of a ping with any latency and any error
-- returns, and so its goroutine goes on to its two `Done`s.
pub updates_return :
    {s : System} (name : String) (now latency : ℤ) (e : Option Error)
    → Reach initial s
    → (t : Service) × (update_stats name now latency e s.service ≡ some t)
updates_return {s} name now latency e r =
    let v = Reach-IsFine initial-IsFine r in
    let (t, u, kept) = update_stats-IsInRange name now latency e s.service v.live.in_range in (t, u)
