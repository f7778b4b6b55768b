-- ===== src/MemoryLeaker/Growth.antt =====
-- How much memory examples/memory-leaker has taken.
use preoomkiller_controller.Common.{
  ℕ, zero, suc, ◌+◌, ◌*◌, ◌<◌, ◌≡◌, refl, ap, ◌∙◌, Bool, true, false, some, List, [], ◌∷◌, length,
  arith,
}
use preoomkiller_controller.Common.Int.{pos, int64_half, add64, wrap64, ◌+ℤ◌}
use preoomkiller_controller.MemoryLeaker.{
  Event, done, tick, log_tick, Leak, fill, run_leak_loop, no_leak,
}

-- The ticks before the loop is told to end.
abbrev pub ticks : List Event → ℕ
ticks [] = 0
ticks (done ∷ events) = 0
ticks (log_tick ∷ events) = ticks events
ticks (tick ∷ events) = suc (ticks events)

abbrev pub bytes_held : List (List ℕ) → ℕ
bytes_held [] = 0
bytes_held (chunk ∷ chunks) = length chunk + bytes_held chunks

length-fill : (n i : ℕ) → length (fill n i) ≡ n
unfolding fill
length-fill zero i = refl
length-fill (suc n) i = omega (arith, length-fill n (suc i))

add64_small : (k n : ℕ) → k + n < int64_half → add64 (pos k) (pos n) ≡ pos (k + n)
unfolding add64 wrap64 ◌+ℤ◌
add64_small k n h = ground arith

next_tick : (k t n : ℕ) → k + suc t * n ≡ k + n + t * n
next_tick k t n = grind arith

-- The loop from `k` bytes in those chunks on has allocated that much more.
record Grows (events : List Event) (n k : ℕ) (m : List (List ℕ)) : Type 0 where
  returned : Bool
  leak : Leak
  result :
      run_leak_loop events (pos n) (record { total_allocated = pos k; memory = m })
      ≡ some (returned, leak)
  total : leak.total_allocated ≡ pos (k + ticks events * n)
  held : bytes_held leak.memory ≡ k + ticks events * n
  chunks : length leak.memory ≡ length m + ticks events

grows :
    (events : List Event) (n k : ℕ) (m : List (List ℕ))
    → bytes_held m ≡ k
    → k + ticks events * n < int64_half
    → Grows events n k m
unfolding run_leak_loop
grows [] n k m h fits = record {
  returned = false;
  leak = record { total_allocated = pos k; memory = m };
  result = refl;
  total = ap pos (omega arith);
  held = omega (arith, h);
  chunks = omega arith;
}
grows (done ∷ events) n k m h fits = record {
  returned = true;
  leak = record { total_allocated = pos k; memory = m };
  result = refl;
  total = ap pos (omega arith);
  held = omega (arith, h);
  chunks = omega arith;
}
grows (log_tick ∷ events) n k m h fits =
    let g = grows events n k m h fits in
    record {
      returned = g.returned;
      leak = g.leak;
      result = g.result;
      total = g.total;
      held = g.held;
      chunks = g.chunks;
    }
grows (tick ∷ events) n k m h fits =
    let e = next_tick k (ticks events) n in
    let g =
      grows events n (k + n) (fill n 0 ∷ m) (omega (arith, h, length-fill n 0))
        (omega (arith, e, fits)) in
    let sum = add64_small k n (omega (arith, e, fits)) in
    record {
      returned = g.returned;
      leak = g.leak;
      result =
          ap
            (λ t.
              run_leak_loop events (pos n) (record { total_allocated = t; memory = fill n 0 ∷ m }))
            sum
          ∙ g.result;
      total = g.total ∙ ap pos (omega (arith, e));
      held = omega (arith, g.held, e);
      chunks = omega (arith, g.chunks);
    }

-- As long as the count fits an `int64`, the loop does not panic, and each tick of a second before its end
-- adds one chunk: the count that it logs is the size of the memory that it holds, a rate's worth of
-- bytes for each tick.
pub total_allocated_held :
    (events : List Event) (n : ℕ)
    → ticks events * n < int64_half
    → (returned : Bool) × (leak : Leak) × (run_leak_loop events (pos n) no_leak
        ≡ some (returned, leak))
      × (leak.total_allocated ≡ pos (bytes_held leak.memory))
      × (bytes_held leak.memory ≡ ticks events * n)
      × (length leak.memory ≡ ticks events)
total_allocated_held events n fits =
    let g = grows events n 0 [] refl (omega (arith, fits)) in
    (
      g.returned,
      g.leak,
      g.result,
      g.total ∙ ap pos (omega (arith, g.held)),
      omega (arith, g.held),
      omega (arith, g.chunks),
    )
