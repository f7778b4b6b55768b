-- ===== src/Pinger/Buffer/History.antt =====
-- `LatencyBuffer` of statistics.go after any number of calls of `Add`.
use preoomkiller_controller.Common.{
  ℕ, ◌+◌, ◌-◌, ◌<◌, min, ◌≡◌, refl, sym, ap, ◌∙◌, inr, Option, none, some, List, [], ◌∷◌, ◌++◌,
  append-nil, append_assoc, length, drop, length-append, length-drop, drop-append, drop-drop, arith,
}
use preoomkiller_controller.Common.Int.{ℤ}
use preoomkiller_controller.Pinger.Buffer.{LatencyBuffer, new_latency_buffer, add, get_all, len}
use preoomkiller_controller.Pinger.Buffer.Window.{
  last, contents, IsValid, push, add-Adds, get_all-contents, length-contents, last_of_short,
}

-- `Add` of each duration in turn.
abbrev pub add_all : List ℤ → LatencyBuffer → Option LatencyBuffer
add_all [] lb = some lb
add_all (d ∷ ds) lb = elim (add d lb) [ none ↦ none | some lb' ↦ add_all ds lb' ]

push-last : (c : ℕ) (xs : List ℤ) (d : ℤ) → push c (last c xs) d ≡ last c (xs ++ (d ∷ []))
push-last c xs d =
    let k = length xs - c in
    let ys = xs ++ (d ∷ []) in
    let inside : drop k xs ++ (d ∷ []) ≡ drop k ys =
      sym (drop-append k xs (d ∷ []) (omega arith)) in
    let e : k + (length (drop k ys) - c) ≡ length ys - c =
      omega (arith, length-drop k ys, length-append xs (d ∷ [])) in
    ap (λ zs. last c zs) inside ∙ drop-drop (length (drop k ys) - c) k ys ∙ ap (λ j. drop j ys) e

-- The buffer has taken the history `xs`.
pub record Holds (c : ℕ) (xs : List ℤ) (lb : LatencyBuffer) : Type 0 where
  pub valid : IsValid lb
  pub same_capacity : lb.capacity ≡ c
  pub held : contents lb ≡ last c xs

pub add-Holds :
    (c : ℕ) (xs : List ℤ) (d : ℤ) (lb : LatencyBuffer)
    → Holds c xs lb
    → (after : LatencyBuffer) × (add d lb ≡ some after) × Holds c (xs ++ (d ∷ [])) after
add-Holds c xs d lb h =
    let a = add-Adds d lb h.valid in
    (
      a.after,
      a.added,
      record {
        valid = a.valid;
        same_capacity = a.same_capacity ∙ h.same_capacity;
        held =
            a.pushed
            ∙ ap (λ k. push k (contents lb) d) h.same_capacity
            ∙ ap (λ zs. push c zs d) h.held
            ∙ push-last c xs d;
      },
    )

pub new-Holds : (c : ℕ) → 0 < c → Holds c [] (new_latency_buffer c)
unfolding new_latency_buffer
new-Holds c h = record {
  valid = record {
    positive = h;
    counted = refl;
    bounded = omega arith;
    in_range = h;
    filling = inr refl;
  };
  same_capacity = refl;
  held = sym (last_of_short c [] (omega arith));
}

add_all-Holds :
    (c : ℕ) (xs ds : List ℤ) (lb : LatencyBuffer)
    → Holds c xs lb
    → (after : LatencyBuffer) × (add_all ds lb ≡ some after) × Holds c (xs ++ ds) after
add_all-Holds c xs [] lb h = (lb, refl, rw (append-nil xs) h)
add_all-Holds c xs (d ∷ ds) lb h =
    let (mid, e, k) = add-Holds c xs d lb h in
    let (after, f, l) = add_all-Holds c (xs ++ (d ∷ [])) ds mid k in
    (after, cc (e, f), rw (sym (append_assoc xs (d ∷ []) ds)) l)

pub Holds-get_all :
    (c : ℕ) (xs : List ℤ) (lb : LatencyBuffer) → Holds c xs lb → get_all lb ≡ last c xs
Holds-get_all c xs lb h = get_all-contents lb h.valid ∙ h.held

-- A buffer of any positive capacity takes any durations without a panic, and `GetAll` then returns
-- the last of them, oldest first, as many as the capacity; `Len` is their number.
pub get_all-add_all :
    (capacity : ℕ) (ds : List ℤ)
    → 0 < capacity
    → (lb : LatencyBuffer) × (add_all ds (new_latency_buffer capacity) ≡ some lb)
      × (get_all lb ≡ drop (length ds - capacity) ds)
      × (len lb ≡ min (length ds) capacity)
get_all-add_all capacity ds h =
    let (lb, e, k) =
      add_all-Holds capacity [] ds (new_latency_buffer capacity) (new-Holds capacity h) in
    (
      lb,
      e,
      Holds-get_all capacity ds lb k,
      omega (
        arith,
        k.valid.counted,
        length-contents lb,
        ap length k.held,
        length-drop (length ds - capacity) ds,
      ),
    )
