-- ===== src/Pinger/Rounds/Waiting.antt =====
-- What the wait group of pinger.go counts, and what a `Shutdown` of the pinger service has waited for.
use preoomkiller_controller.Common.{
  ℕ, suc, ◌+◌, ◌≡◌, ◌≢◌, refl, ap, ◌∙◌, ◌⊎◌, inl, inr, Bool, true, List, [], ◌∷◌, ◌++◌, arith,
}
use preoomkiller_controller.Pinger.Rounds.{
  Phase, pinging, recorded, left, Task, Loop, entered, launching, joining, settled, testing,
  selecting, exited, idle, waiting_pings, returned, System, initial, Step, Reach, here, next,
}

abbrev pub weight : Phase → ℕ
weight pinging = 1
weight recorded = 1
weight left = 0

-- The pings that have not counted themselves off yet.
abbrev pub busy : List Task → ℕ
busy [] = 0
busy (t ∷ ts) = weight t.phase + busy ts

pub busy-append : (ts us : List Task) → busy (ts ++ us) ≡ busy ts + busy us
busy-append [] us = omega arith
busy-append (t ∷ ts) us = omega (arith, busy-append ts us)

pub busy-middle :
    (ts before : List Task) (t : Task) (after : List Task)
    → ts ≡ before ++ (t ∷ after)
    → busy ts ≡ busy before + (weight t.phase + busy after)
busy-middle ts before t after e = ap busy e ∙ busy-append before (t ∷ after)

pub record IsSound (s : System) : Type 0 where
  pub counted : s.in_flight ≡ busy s.running
  ended : s.done ≡ true → s.loop ≡ exited
  pub flagged : s.stage ≢ idle → s.in_shutdown ≡ true
  pings_last : (s.stage ≡ waiting_pings) ⊎ (s.stage ≡ returned) → s.done ≡ true
  returned_empty : s.stage ≡ returned → s.in_flight ≡ 0

-- A step of the loop, which has not ended.
loop_moves :
    (s : System) (loop : Loop) (round : ℕ) (ready : Bool)
    → s.loop ≢ exited
    → IsSound s
    → IsSound (record s { loop = loop; round = round; ready = ready })
loop_moves s loop round ready h v = record {
  counted = v.counted;
  ended = λ k. absurd (h (v.ended k));
  flagged = v.flagged;
  pings_last = v.pings_last;
  returned_empty = v.returned_empty;
}

loop_ends : (s : System) → IsSound s → IsSound (record s { loop = exited; done = true })
loop_ends s v = record {
  counted = v.counted;
  ended = λ k. refl;
  flagged = v.flagged;
  pings_last = λ k. refl;
  returned_empty = v.returned_empty;
}

launch_lem :
    (s : System) (loop : Loop) (t : Task)
    → s.loop ≢ exited
    → t.phase ≡ pinging
    → IsSound s
    → IsSound (record s { loop = loop; in_flight = suc s.in_flight; running = t ∷ s.running })
launch_lem s loop t h p v = record {
  counted = ground (arith, v.counted, p);
  ended = λ k. absurd (h (v.ended k));
  flagged = v.flagged;
  pings_last = v.pings_last;
  returned_empty = λ k. absurd (h (v.ended (v.pings_last (inr k))));
}

pub Step-IsSound : {s t : System} → Step s t → IsSound s → IsSound t
Step-IsSound {s} (Step.registers p) v = record {
  counted = v.counted;
  ended = v.ended;
  flagged = v.flagged;
  pings_last = v.pings_last;
  returned_empty = v.returned_empty;
}
Step-IsSound {s} Step.cancels v = record {
  counted = v.counted;
  ended = v.ended;
  flagged = v.flagged;
  pings_last = v.pings_last;
  returned_empty = v.returned_empty;
}
Step-IsSound {s} (Step.starts h k) v = loop_moves s entered s.round s.ready (λ e. cc) v
Step-IsSound {s} (Step.first_round h) v = loop_moves s _ s.round s.ready (λ e. cc) v
Step-IsSound {s} (Step.stops n ns h k) v = loop_moves s settled s.round s.ready (λ e. cc) v
Step-IsSound {s} (Step.launches n ns h k) v = launch_lem s (launching ns) _ (λ e. cc) refl v
Step-IsSound {s} (Step.joins h) v = loop_moves s joining s.round s.ready (λ e. cc) v
Step-IsSound {s} (Step.joined h k) v = loop_moves s settled s.round s.ready (λ e. cc) v
Step-IsSound {s} (Step.settles h) v = loop_moves s testing s.round true (λ e. cc) v
Step-IsSound {s} (Step.leaves_loop h k) v = loop_ends s v
Step-IsSound {s} (Step.goes_on h k) v = loop_moves s selecting s.round s.ready (λ e. cc) v
Step-IsSound {s} (Step.ticks h) v = loop_moves s _ (suc s.round) s.ready (λ e. cc) v
Step-IsSound {s} (Step.context_ends h k) v = loop_ends s v
Step-IsSound {s} (Step.records before t after now latency e service h p u) v = record {
  counted = ground (
    arith,
    v.counted,
    p,
    busy-middle s.running before t after h,
    busy-append before (record t { phase = recorded } ∷ after),
  );
  ended = v.ended;
  flagged = v.flagged;
  pings_last = v.pings_last;
  returned_empty = v.returned_empty;
}
Step-IsSound {s} (Step.counts_off before t after n h p k) v = record {
  counted = ground (
    arith,
    v.counted,
    k,
    p,
    busy-middle s.running before t after h,
    busy-append before (record t { phase = left } ∷ after),
  );
  ended = v.ended;
  flagged = v.flagged;
  pings_last = v.pings_last;
  returned_empty = λ r. absurd (omega (arith, v.returned_empty r));
}
Step-IsSound {s} (Step.ends before t after h p) v = record {
  counted =
      ground
        (arith, v.counted, p, busy-middle s.running before t after h, busy-append before after);
  ended = v.ended;
  flagged = v.flagged;
  pings_last = v.pings_last;
  returned_empty = v.returned_empty;
}
Step-IsSound {s} (Step.begins h) v = record {
  counted = v.counted;
  ended = v.ended;
  flagged = λ k. refl;
  pings_last = λ k. ground arith;
  returned_empty = λ k. absurd cc;
}
Step-IsSound {s} (Step.sees_loop h k) v = record {
  counted = v.counted;
  ended = v.ended;
  flagged = λ e. v.flagged (λ f. cc);
  pings_last = λ e. k;
  returned_empty = λ e. absurd cc;
}
Step-IsSound {s} (Step.gives_up h) v = record {
  counted = v.counted;
  ended = v.ended;
  flagged = λ e. v.flagged (λ f. cc);
  pings_last = λ e. ground arith;
  returned_empty = λ e. absurd cc;
}
Step-IsSound {s} (Step.returns h k) v = record {
  counted = v.counted;
  ended = v.ended;
  flagged = λ e. v.flagged (λ f. cc);
  pings_last = λ e. v.pings_last (inl h);
  returned_empty = λ e. k;
}

pub initial-IsSound : IsSound initial
unfolding initial
initial-IsSound = record {
  counted = refl;
  ended = λ k. absurd cc;
  flagged = λ k. absurd (k refl);
  pings_last = λ k. ground arith;
  returned_empty = λ k. refl;
}

pub Reach-IsSound : {s t : System} → IsSound s → Reach s t → IsSound t
Reach-IsSound v here = v
Reach-IsSound v (next r st) = Step-IsSound st (Reach-IsSound v r)

returned_stays :
    {s t : System} → IsSound s → s.stage ≡ returned → Reach s t → IsSound t × (t.stage ≡ returned)
returned_stays v h here = (v, h)
returned_stays v h (next r st) =
    let (u, k) = returned_stays v h r in (Step-IsSound st u, stays st u k)
  where
    stays : {t u : System} → Step t u → IsSound t → t.stage ≡ returned → u.stage ≡ returned
    stays (Step.registers p) v h = h
    stays Step.cancels v h = h
    stays (Step.starts a b) v h = h
    stays (Step.first_round a) v h = h
    stays (Step.stops a b c d) v h = h
    stays (Step.launches a b c d) v h = h
    stays (Step.joins a) v h = h
    stays (Step.joined a b) v h = h
    stays (Step.settles a) v h = h
    stays (Step.leaves_loop a b) v h = h
    stays (Step.goes_on a b) v h = h
    stays (Step.ticks a) v h = h
    stays (Step.context_ends a b) v h = h
    stays (Step.records a b c d e f g i j k) v h = h
    stays (Step.counts_off a b c d e f g) v h = h
    stays (Step.ends a b c d e) v h = h
    stays (Step.begins a) v h = absurd (cc (v.flagged (λ e. cc)))
    stays (Step.sees_loop a b) v h = absurd cc
    stays (Step.gives_up a) v h = absurd cc
    stays (Step.returns a b) v h = refl

-- In any interleaving, from the time on that `Shutdown` of the pinger service has returned nil, the loop
-- has returned and no ping is running that has not counted itself off; none is launched any more.
pub pinger_drained :
    {s t : System}
    → Reach initial s
    → s.stage ≡ returned
    → Reach s t
    → (t.loop ≡ exited) × (t.in_flight ≡ 0) × (busy t.running ≡ 0)
pinger_drained r h q =
    let (v, k) = returned_stays (Reach-IsSound initial-IsSound r) h q in
    let zero_left = v.returned_empty k in
    (v.ended (v.pings_last (inr k)), zero_left, omega (arith, v.counted))
