-- ===== src/App/Channels/Closing.antt =====
-- When the channel of `allChannelsClose` of internal/app/app.go closes, in every interleaving.
use preoomkiller_controller.Common.{
  ℕ, ◌+◌, ◌≤◌, ◌≡◌, refl, ap, ◌∙◌, Bool, true, ◌==◌, if◌then◌else◌, List, [], ◌∷◌, ◌++◌, map,
  length, arith,
}
use preoomkiller_controller.App.Channels.{
  Waiter, waiting, finished, counted, Watch, Gate, max_int32, watch, all_channels_close, next_count,
  Step, Reach, here, next,
}

-- Sums over the goroutines.
abbrev pub total : (Watch → ℕ) → List Watch → ℕ
total f [] = 0
total f (w ∷ ws) = f w + total f ws

pub total-append :
    (f : Watch → ℕ) (before : List Watch) (w : Watch) (after : List Watch)
    → total f (before ++ (w ∷ after)) ≡ f w + (total f before + total f after)
total-append f [] w after = omega arith
total-append f (v ∷ before) w after = omega (arith, total-append f before w after)

pub total-le :
    (f g h : Watch → ℕ)
    → ((w : Watch) → f w ≤ g w + h w)
    → (ws : List Watch) → total f ws ≤ total g ws + total h ws
total-le f g h p [] = omega arith
total-le f g h p (w ∷ ws) = omega (arith, p w, total-le f g h p ws)

-- A goroutine that still waits, one that is about to close `out`, and the steps that one has left.
abbrev pub waits : Watch → ℕ
waits w = elim w.waiter [ waiting ↦ 1 | counted n ↦ 0 | finished ↦ 0 ]

abbrev pub is_due : ℕ → Waiter → ℕ
is_due target waiting = 0
is_due target finished = 0
is_due target (counted n) = if n == target then 1 else 0

abbrev pub due : ℕ → Watch → ℕ
due target w = is_due target w.waiter

abbrev pub work : Watch → ℕ
work w = elim w.waiter [ waiting ↦ 2 | counted n ↦ 1 | finished ↦ 0 ]

-- A channel that is still open, and a goroutine that has gone past one.
abbrev pub is_open : Watch → ℕ
is_open w = if w.is_closed then 0 else 1

abbrev early : Watch → ℕ
early w = if w.is_closed then 0 else elim w.waiter [ waiting ↦ 0 | counted n ↦ 1 | finished ↦ 1 ]

pub record IsGated (s : Gate) : Type 0 where
  fits : s.target_count ≤ max_int32
  pub counted_so_far : s.ready_count + total waits s.watches ≡ s.target_count
  pub once :
      s.closes + total (due s.target_count) s.watches
      ≡ (if s.ready_count == s.target_count then 1 else 0)
  none_early : total early s.watches ≡ 0

fresh_totals :
    (target : ℕ) (cs : List Bool)
    → (total waits (map watch cs) ≡ length cs)
      × (total (due target) (map watch cs) ≡ 0)
      × (total early (map watch cs) ≡ 0)
fresh_totals target [] = (refl, refl, refl)
fresh_totals target (c ∷ cs) =
    let (a, b, d) = fresh_totals target cs in
    (omega (arith, a), omega (arith, b), ground (arith, d))

pub all_channels_close-IsGated : (cs : List Bool) → IsGated (all_channels_close cs)
unfolding all_channels_close
all_channels_close-IsGated cs =
    let (a, b, d) = fresh_totals (length cs) cs in
    record {
      fits = ground arith;
      counted_so_far = ground (arith, a);
      once = ground (arith, b);
      none_early = ground (arith, d);
    }

-- The sums over the goroutines of a state, and over those of the next, where one has gone from `w` to
-- `w'`.
pub record Swap (target : ℕ) (ws ws' : List Watch) (w w' : Watch) : Type 0 where
  others_wait : ℕ
  others_due : ℕ
  others_early : ℕ
  others_work : ℕ
  old_waits : total waits ws ≡ waits w + others_wait
  old_due : total (due target) ws ≡ due target w + others_due
  old_early : total early ws ≡ early w + others_early
  pub old_work : total work ws ≡ work w + others_work
  new_waits : total waits ws' ≡ waits w' + others_wait
  new_due : total (due target) ws' ≡ due target w' + others_due
  new_early : total early ws' ≡ early w' + others_early
  pub new_work : total work ws' ≡ work w' + others_work

pub swap :
    (target : ℕ) (ws before : List Watch) (w w' : Watch) (after : List Watch)
    → ws ≡ before ++ (w ∷ after)
    → Swap target ws (before ++ (w' ∷ after)) w w'
swap target ws before w w' after e = record {
  others_wait = total waits before + total waits after;
  others_due = total (due target) before + total (due target) after;
  others_early = total early before + total early after;
  others_work = total work before + total work after;
  old_waits = ap (total waits) e ∙ total-append waits before w after;
  old_due = ap (total (due target)) e ∙ total-append (due target) before w after;
  old_early = ap (total early) e ∙ total-append early before w after;
  old_work = ap (total work) e ∙ total-append work before w after;
  new_waits = total-append waits before w' after;
  new_due = total-append (due target) before w' after;
  new_early = total-append early before w' after;
  new_work = total-append work before w' after;
}

Step-IsGated : {s t : Gate} → IsGated s → Step s t → IsGated t
Step-IsGated {s} v (Step.signals before w after e h) =
    let k = swap s.target_count s.watches before w (record w { is_closed = true }) after e in
    record {
      fits = v.fits;
      counted_so_far = omega (arith, k.old_waits, k.new_waits, v.counted_so_far);
      once = omega (arith, k.old_due, k.new_due, v.once);
      none_early = ground (arith, k.old_early, k.new_early, v.none_early);
    }
Step-IsGated {s} v (Step.counts before w after e h q) =
    let k =
      swap s.target_count s.watches before w
        (record w { waiter = counted (next_count s.ready_count) }) after e in
    record {
      fits = v.fits;
      counted_so_far = ground (arith, k.old_waits, k.new_waits, v.counted_so_far, v.fits);
      once = ground (arith, k.old_waits, k.old_due, k.new_due, v.counted_so_far, v.fits, v.once);
      none_early = ground (arith, k.old_early, k.new_early, v.none_early);
    }
Step-IsGated {s} v (Step.closes_out before w after n e q r) =
    let k = swap s.target_count s.watches before w (record w { waiter = finished }) after e in
    record {
      fits = v.fits;
      counted_so_far = ground (arith, k.old_waits, k.new_waits, v.counted_so_far);
      once = ground (arith, k.old_due, k.new_due, v.once);
      none_early = ground (arith, k.old_early, k.new_early, v.none_early);
    }
Step-IsGated {s} v (Step.passes before w after n e q r) =
    let k = swap s.target_count s.watches before w (record w { waiter = finished }) after e in
    record {
      fits = v.fits;
      counted_so_far = ground (arith, k.old_waits, k.new_waits, v.counted_so_far);
      once = ground (arith, k.old_due, k.new_due, v.once);
      none_early = ground (arith, k.old_early, k.new_early, v.none_early);
    }

pub Reach-IsGated : {s t : Gate} → IsGated s → Reach s t → IsGated t
Reach-IsGated v here = v
Reach-IsGated v (next r st) = Step-IsGated (Reach-IsGated v r) st

-- The channel that `waitForReady` waits for never closes too early or twice: in every interleaving, `out`
-- has been closed at most once, and if it has, then every one of the channels is closed.
pub out_closed_once :
    (cs : List Bool) {s : Gate}
    → Reach (all_channels_close cs) s
    → (s.closes ≤ 1) × (s.closes ≡ 1 → total is_open s.watches ≡ 0)
out_closed_once cs {s} r =
    let v = Reach-IsGated (all_channels_close-IsGated cs) r in
    (
      ground (arith, v.once),
      λ h. ground (arith, v.once, v.counted_so_far, v.none_early, open-le s.watches),
    )
  where
    open-le : (ws : List Watch) → total is_open ws ≤ total waits ws + total early ws
    open-le = total-le is_open waits early (λ w. ground arith)
