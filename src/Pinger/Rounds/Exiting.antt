-- ===== src/Pinger/Rounds/Exiting.antt =====
-- The way of the loop `run` of pinger.go to its end, once its context is cancelled.
use preoomkiller_controller.Common.{◌≡◌, ◌≢◌, refl, ◌∙◌, inl, String, true, List, [], ◌∷◌}
use preoomkiller_controller.Pinger.Rounds.Panics.{Reach-trans}
use preoomkiller_controller.Pinger.Rounds.{
  Loop, unstarted, entered, launching, joining, settled, testing, selecting, exited, System, names,
  Step, Reach, here, next,
}

-- A way on that leaves `Shutdown` where it is, with its flag and the loop's context.
pub record Leads (s t : System) : Type 0 where
  pub reach : Reach s t
  pub same_stage : t.stage ≡ s.stage
  pub same_flag : t.in_shutdown ≡ s.in_shutdown
  pub same_context : t.cancelled ≡ s.cancelled

stays_put : (s : System) → Leads s s
stays_put s = record { reach = here; same_stage = refl; same_flag = refl; same_context = refl }

Leads-trans : {s t u : System} → Leads s t → Leads t u → Leads s u
Leads-trans a b = record {
  reach = Reach-trans a.reach b.reach;
  same_stage = b.same_stage ∙ a.same_stage;
  same_flag = b.same_flag ∙ a.same_flag;
  same_context = b.same_context ∙ a.same_context;
}

-- The loop on its way to its test of `inShutdown`, and out.
abbrev pub LoopOut : System → Type 0
LoopOut s = (t : System) × Leads s t × (t.loop ≡ exited)

after_round : (s : System) → s.in_shutdown ≡ true → s.loop ≡ settled → LoopOut s
after_round s flag e = (
  record s { loop = exited; ready = true; done = true },
  record {
    reach = next (next here (Step.settles e)) (Step.leaves_loop refl flag);
    same_stage = refl;
    same_flag = refl;
    same_context = refl;
  },
  refl,
)

one_step :
    {s t : System}
    → Step s t
    → t.stage ≡ s.stage
    → t.in_shutdown ≡ s.in_shutdown
    → t.cancelled ≡ s.cancelled
    → LoopOut t
    → LoopOut s
one_step st a b c (u, leads, e) = (
  u,
  Leads-trans (record { reach = next here st; same_stage = a; same_flag = b; same_context = c })
      leads,
  e,
)

in_round :
    (s : System) (ns : List String)
    → s.in_shutdown ≡ true
    → s.cancelled ≡ true
    → s.loop ≡ launching ns
    → LoopOut s
in_round s [] flag c e = one_step (Step.joins e) refl refl refl (
    one_step (Step.joined refl (inl c)) refl refl refl
      (after_round (record s { loop = settled }) flag refl))
in_round s (n ∷ ns) flag c e =
    one_step (Step.stops n ns e c) refl refl refl
      (after_round (record s { loop = settled }) flag refl)

pub loop_exits :
    (s : System) (loop : Loop)
    → s.in_shutdown ≡ true
    → s.cancelled ≡ true
    → s.loop ≡ loop
    → loop ≢ unstarted
    → LoopOut s
loop_exits s unstarted flag c e h = absurd (h refl)
loop_exits s entered flag c e h =
    one_step (Step.first_round e) refl refl refl
      (in_round (record s { loop = launching (names s.service.pingers) }) _ flag c refl)
loop_exits s (launching ns) flag c e h = in_round s ns flag c e
loop_exits s joining flag c e h =
    one_step (Step.joined e (inl c)) refl refl refl
      (after_round (record s { loop = settled }) flag refl)
loop_exits s settled flag c e h = after_round s flag e
loop_exits s testing flag c e h =
    one_step (Step.leaves_loop e flag) refl refl refl (_, stays_put _, refl)
loop_exits s selecting flag c e h =
    one_step (Step.context_ends e c) refl refl refl (_, stays_put _, refl)
loop_exits s exited flag c e h = (s, stays_put s, e)
