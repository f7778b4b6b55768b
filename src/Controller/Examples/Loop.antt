-- ===== src/Controller/Examples/Loop.antt =====
-- The reconciliation of the two pods of the testbed.
use preoomkiller_controller.Common.{
  ℕ, ◌*◌, ◌≤◌, ◌≡◌, ◌↔◌, refl, true, false, ◌⊎◌, none, some, List, [], ◌∷◌, arith, length,
}
use preoomkiller_controller.Common.Int.{ℤ, pos, ◌≤ℤ◌}
use preoomkiller_controller.Common.Error.{Error, ok, err, wrap}
use preoomkiller_controller.Controller.Platform.{Pod}
use preoomkiller_controller.Controller.State.{ret}
use preoomkiller_controller.Controller.Reconcile.{reconcile_command, ping}
use preoomkiller_controller.Controller.Reconcile.Total.{IsNeverDone, Visits}
use preoomkiller_controller.Controller.Reconcile.Rounds.{reconcile_command-Visits}
use preoomkiller_controller.Controller.Reconcile.Calls.{reconcile_command-Acts}
use preoomkiller_controller.Controller.Reconcile.Acts.{InTurn}
use preoomkiller_controller.Controller.Reconcile.Health.{
  cancelled, takes_context, last_reconcile_age, ping_healthy_iff,
}
use preoomkiller_controller.Controller.Examples.Testbed.{
  env, config, leaky, nightly, at_time, draws,
}

never_done : IsNeverDone env config
never_done = record { no_done = λ w. refl; no_done_before_second = λ w. refl }

reconcile_command-Visits_example :
    let (r, t) = reconcile_command env config (at_time 600) in
    (k : ℕ) × (r ≡ ret (ok (some k)))
    × (k ≤ 2)
    × Visits env config (leaky ∷ nightly ∷ []) 0 (at_time 600) k t
reconcile_command-Visits_example =
    reconcile_command-Visits env config draws (omega arith) (leaky ∷ nightly ∷ []) 600 (at_time 600)
      never_done refl

reconcile_command-Acts_example :
    let (r, t) = reconcile_command env config (at_time 600) in
    ((pods : List (Pod ℤ)) × (ok (leaky ∷ nightly ∷ []) ≡ ok pods)
      × InTurn env config pods (at_time 600) t)
    ⊎ ((e : Error) × (ok (leaky ∷ nightly ∷ []) ≡ err e)
        × (r ≡ ret (err (wrap "list pods" e)))
        × (t.calls ≡ []))
reconcile_command-Acts_example = reconcile_command-Acts env config (at_time 600)

ping_healthy_iff_example : ((ping env config (at_time 601)).0 ≡ ret none) ↔ (
    (true ≡ true)
    × ((cancelled env config (at_time 601) ≡ false)
        ⊎ (takes_context env config (at_time 601) ≡ false))
    × (last_reconcile_age env config (at_time 601) ≤ℤ pos 600))
ping_healthy_iff_example = ping_healthy_iff env config (at_time 601) (omega arith) (omega arith)
