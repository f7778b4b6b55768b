-- ===== src/App/Channels/Progress.antt =====
-- That the channel of `allChannelsClose` of internal/app/app.go closes in the end.
use preoomkiller_controller.Common.{
  suc, ◌+◌, ◌≤◌, ◌≡◌, ◌≢◌, refl, ap, inl, inr, Bool, true, List, [], ◌∷◌, ◌++◌, eq-cases, arith,
}
use preoomkiller_controller.App.Channels.{
  Waiter, waiting, finished, counted, Watch, Gate, all_channels_close, next_count, Step, Reach,
}
use preoomkiller_controller.App.Channels.Closing.{
  total, total-append, total-le, waits, due, work, is_open, all_channels_close-IsGated,
  Reach-IsGated, swap,
}

-- A goroutine that has a step left.
abbrev Busy : List Watch → Type 0
Busy ws =
    (before : List Watch) × (w : Watch) × (after : List Watch) × (ws ≡ before ++ (w ∷ after))
    × (work w ≢ 0)

next_worker : (ws : List Watch) → total work ws ≢ 0 → Busy ws
next_worker [] h = absurd (h refl)
next_worker (w ∷ ws) h = elim (eq-cases (work w) 0) [
  | inr busy ↦ ([], w, ws, refl, busy)
  | inl idle ↦
      let (before, v, after, e, busy) = next_worker ws (λ z. h (omega (arith, idle, z))) in
      (w ∷ before, v, after, ap (◌∷◌ w) e, busy)
]

all_closed :
    (ws : List Watch)
    → total is_open ws ≡ 0
    → (before : List Watch) (w : Watch) (after : List Watch) → ws ≡ before ++ (w ∷ after)
    → w.is_closed ≡ true
all_closed ws h before w after e =
    ground (arith, h, ap (total is_open) e, total-append is_open before w after)

worker_steps : (s : Gate) → total is_open s.watches ≡ 0 → Busy s.watches → (t : Gate) × Step s t
worker_steps s h (before, w, after, e, busy) = move w.waiter refl
  where
    move : (m : Waiter) → w.waiter ≡ m → (t : Gate) × Step s t
    move waiting q = (_, Step.counts before w after e (all_closed s.watches h before w after e) q)
    move finished q =
        absurd (busy (ap (λ m. elim m [ waiting ↦ 2 | counted n ↦ 1 | finished ↦ 0 ]) q))
    move (counted n) q = elim (eq-cases n s.target_count) [
      | inl same ↦ (_, Step.closes_out before w after n e q same)
      | inr other ↦ (_, Step.passes before w after n e q other)
    ]

Step-work :
    {s t : Gate}
    → total is_open s.watches ≡ 0
    → Step s t
    → suc (total work t.watches) ≡ total work s.watches
Step-work {s} h (Step.signals before w after e q) =
    absurd (cc (q, all_closed s.watches h before w after e))
Step-work {s} h (Step.counts before w after e p q) =
    let k =
      swap s.target_count s.watches before w
        (record w { waiter = counted (next_count s.ready_count) }) after e in
    ground (arith, k.old_work, k.new_work)
Step-work {s} h (Step.closes_out before w after n e q r) =
    let k = swap s.target_count s.watches before w (record w { waiter = finished }) after e in
    ground (arith, k.old_work, k.new_work)
Step-work {s} h (Step.passes before w after n e q r) =
    let k = swap s.target_count s.watches before w (record w { waiter = finished }) after e in
    ground (arith, k.old_work, k.new_work)

-- The channel that `waitForReady` waits for does close: once every one of the channels is closed, each further step takes one from the work
-- that the goroutines have left, some step is possible as long as work is left, and when none is left
-- `out` is closed.
pub out_closes :
    (cs : List Bool) {s : Gate}
    → Reach (all_channels_close cs) s
    → total is_open s.watches ≡ 0
    → ((t : Gate) → Step s t → suc (total work t.watches) ≡ total work s.watches)
      × (total work s.watches ≢ 0 → (t : Gate) × Step s t)
      × (total work s.watches ≡ 0 → s.closes ≡ 1)
out_closes cs {s} r h = (
  (λ t st. Step-work h st),
  (λ left. worker_steps s h (next_worker s.watches left)),
  (λ over. ground (
    arith,
    (Reach-IsGated (all_channels_close-IsGated cs) r).once,
    (Reach-IsGated (all_channels_close-IsGated cs) r).counted_so_far,
    waits-le s.watches,
    due-le s.watches,
    over,
  )),
)
  where
    waits-le : (ws : List Watch) → total waits ws ≤ total work ws + total work ws
    waits-le = total-le waits work work (λ w. ground arith)

    due-le : (ws : List Watch) → total (due s.target_count) ws ≤ total work ws + total work ws
    due-le = total-le (due s.target_count) work work (λ w. ground arith)
