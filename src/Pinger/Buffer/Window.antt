-- ===== src/Pinger/Buffer/Window.antt =====
-- `LatencyBuffer` of statistics.go against what it is for: the last durations, oldest first.
use preoomkiller_controller.Common.{
  ℕ, zero, suc, ◌+◌, ◌-◌, ◌%◌, ◌≤◌, ◌<◌, ◌≡◌, refl, sym, ap, ◌∙◌, ◌⊎◌, inl, inr, some, List, [],
  ◌∷◌, ◌++◌, append-nil, append_assoc, length, take, drop, set, length-append, length-set,
  length-zero, length-take, length-drop, take-all, drop-all, drop-append, drop-drop, take-append,
  drop-length, take-set, drop-set, arith,
}
use native.Mathlib.Nat.{mod-eq_of_lt, mod-lt, mod_self}
use native.Mathlib.Decide.{dec_lt}
use preoomkiller_controller.Common.Int.{ℤ}
use preoomkiller_controller.Pinger.Buffer.{
  LatencyBuffer, overwrite, add, zeros, copy, copy_from, get_all,
}

-- The last `n` elements of a list.
abbrev pub last : ℕ → List ℤ → List ℤ
last n xs = drop (length xs - n) xs

length-zeros : (n : ℕ) → length (zeros n) ≡ n
length-zeros zero = refl
length-zeros (suc n) = ap suc (length-zeros n)

-- What the buffer holds, oldest first: it begins at the index once it is full.
abbrev pub contents : LatencyBuffer → List ℤ
contents lb = drop lb.index lb.buffer ++ take lb.index lb.buffer

pub record IsValid (lb : LatencyBuffer) : Type 0 where
  pub positive : 0 < lb.capacity
  pub counted : lb.count ≡ length lb.buffer
  pub bounded : lb.count ≤ lb.capacity
  pub in_range : lb.index < lb.capacity
  pub filling : (lb.count ≡ lb.capacity) ⊎ (lb.index ≡ 0)

copy-exact : (dst src : List ℤ) → length dst ≡ length src → copy dst src ≡ src
copy-exact dst src h = cc (
  take-all (length dst) src (omega arith),
  drop-all (length src) dst (omega arith),
  append-nil src,
)

copy-front :
    (dst src : List ℤ) → length src ≤ length dst → copy dst src ≡ src ++ drop (length src) dst
copy-front dst src h = rw (take-all (length dst) src (omega arith))

copy_from-exact :
    (xs ys src : List ℤ) (k : ℕ)
    → k ≡ length xs
    → length ys ≡ length src
    → copy_from k (xs ++ ys) src ≡ xs ++ src
copy_from-exact xs ys src k e h = rw (e, take-append xs ys, drop-length xs ys, copy-exact ys src h)

get_all_full :
    (lb : LatencyBuffer)
    → lb.count ≡ length lb.buffer
    → lb.index < lb.capacity
    → lb.count ≡ lb.capacity
    → copy_from
        (lb.capacity - lb.index)
        (copy (zeros lb.count) (drop lb.index lb.buffer))
        (take lb.index lb.buffer)
      ≡ contents lb
get_all_full lb counted bound full =
    ap (λ r. copy_from (lb.capacity - lb.index) r (take lb.index lb.buffer))
      (copy-front (zeros lb.count) (drop lb.index lb.buffer)
        (omega (arith, length-zeros lb.count, length-drop lb.index lb.buffer)))
    ∙ copy_from-exact (drop lb.index lb.buffer) _ (take lb.index lb.buffer) _
        (omega (arith, length-drop lb.index lb.buffer))
        (omega (
          arith,
          length-drop (length (drop lb.index lb.buffer)) (zeros lb.count),
          length-drop lb.index lb.buffer,
          length-take lb.index lb.buffer,
          length-zeros lb.count,
        ))

contents_filling : (lb : LatencyBuffer) → lb.index ≡ 0 → contents lb ≡ lb.buffer
contents_filling lb h = rw h (append-nil lb.buffer)

pub get_all-contents : (lb : LatencyBuffer) → IsValid lb → get_all lb ≡ contents lb
unfolding get_all
get_all-contents lb v = elim (dec_lt lb.count lb.capacity) [
  | yes below ↦
      let start : lb.index ≡ 0 = omega (arith, v.filling) in
      let whole =
        copy-exact (zeros lb.count) lb.buffer (omega (arith, length-zeros lb.count, v.counted)) in
      ground (arith, whole, contents_filling lb start, length-zero lb.buffer, v.counted)
  | no full ↦
      let all = get_all_full lb v.counted v.in_range (omega (arith, v.bounded)) in
      ground (arith, all, v.positive, v.bounded)
]

-- One more element turns a window on the last `capacity` elements into the next.
abbrev pub push : ℕ → List ℤ → ℤ → List ℤ
push capacity xs d = last capacity (xs ++ (d ∷ []))

pub record Adds (d : ℤ) (lb : LatencyBuffer) : Type 0 where
  pub after : LatencyBuffer
  pub added : add d lb ≡ some after
  pub valid : IsValid after
  pub same_capacity : after.capacity ≡ lb.capacity
  pub pushed : contents after ≡ push lb.capacity (contents lb) d

pub length-contents : (lb : LatencyBuffer) → length (contents lb) ≡ length lb.buffer
length-contents lb = omega (
  arith,
  length-append (drop lb.index lb.buffer) (take lb.index lb.buffer),
  length-drop lb.index lb.buffer,
  length-take lb.index lb.buffer,
)

pub last_of_short : (n : ℕ) (xs : List ℤ) → length xs ≤ n → last n xs ≡ xs
last_of_short n xs h = let e : length xs - n ≡ 0 = omega arith in ap (λ k. drop k xs) e

add_filling : (d : ℤ) (lb : LatencyBuffer) → IsValid lb → lb.count < lb.capacity → Adds d lb
unfolding add
add_filling d lb v h =
    let start : lb.index ≡ 0 = omega (arith, v.filling) in
    record {
      after = record lb { buffer = lb.buffer ++ (d ∷ []); count = lb.count + 1 };
      added = ground (arith, h);
      valid = record {
        positive = v.positive;
        counted = omega (arith, v.counted, length-append lb.buffer (d ∷ []));
        bounded = omega arith;
        in_range = v.in_range;
        filling = inr start;
      };
      same_capacity = refl;
      pushed =
          rw (start, append-nil, append-nil)
            (sym (
              last_of_short lb.capacity (lb.buffer ++ (d ∷ []))
                (omega (arith, length-append lb.buffer (d ∷ []), v.counted))));
    }

push_full :
    (b : List ℤ) (i : ℕ) (d : ℤ)
    → i < length b
    → push (length b) (drop i b ++ take i b) d ≡ drop (suc i) b ++ (take i b ++ (d ∷ []))
push_full b i d h =
    let xs = drop i b ++ take i b in
    let len = length-append (drop i b) (take i b) in
    let one : length (xs ++ (d ∷ [])) - length b ≡ 1 =
      omega (arith, length-append xs (d ∷ []), len, length-drop i b, length-take i b) in
    ap (λ k. drop k (xs ++ (d ∷ []))) one
    ∙ drop-append 1 xs (d ∷ []) (omega (arith, len, length-drop i b, length-take i b))
    ∙ ap (λ ys. ys ++ (d ∷ []))
        (drop-append 1 (drop i b) (take i b) (omega (arith, length-drop i b))
          ∙ ap (λ ys. ys ++ take i b)
              (drop-drop 1 i b ∙ (let e : i + 1 ≡ suc i = omega arith in ap (λ k. drop k b) e)))
    ∙ append_assoc (drop (suc i) b) (take i b) (d ∷ [])

pushed_full :
    (b : List ℤ) (i : ℕ) (d : ℤ)
    → i < length b
    → let j = (i + 1) % length b in
      drop j (set b i d) ++ take j (set b i d) ≡ drop (suc i) b ++ (take i b ++ (d ∷ []))
pushed_full b i d h = elim (dec_lt (i + 1) (length b)) [
  | yes inside ↦
      let e : (i + 1) % length b ≡ suc i = mod-eq_of_lt inside ∙ omega arith in
      rw (e, drop-set b i d, take-set b i d h)
  | no outside ↦
      let whole : i + 1 ≡ length b = omega arith in
      let e : (i + 1) % length b ≡ 0 = ap (λ k. k % length b) whole ∙ mod_self (length b) in
      rw (e, append-nil)
        (sym (take-all (suc i) (set b i d) (omega (arith, length-set b i d)))
          ∙ take-set b i d h
          ∙ ap (λ ys. ys ++ (take i b ++ (d ∷ []))) (sym (drop-all (suc i) b (omega arith))))
]

add_full : (d : ℤ) (lb : LatencyBuffer) → IsValid lb → lb.capacity ≤ lb.count → Adds d lb
unfolding add overwrite
add_full d lb v h =
    let full : lb.capacity ≡ length lb.buffer = omega (arith, v.bounded, v.counted) in
    record {
      after = record lb { buffer = set lb.buffer lb.index d; index = (lb.index + 1) % lb.capacity };
      added = ground (arith, h, full, v.positive, v.in_range);
      valid = record {
        positive = v.positive;
        counted = omega (arith, v.counted, length-set lb.buffer lb.index d);
        bounded = v.bounded;
        in_range = mod-lt (lb.index + 1) v.positive;
        filling = inl (omega (arith, v.bounded));
      };
      same_capacity = refl;
      pushed =
          ap
            (λ c.
              drop ((lb.index + 1) % c) (set lb.buffer lb.index d)
              ++ take ((lb.index + 1) % c) (set lb.buffer lb.index d))
            full
          ∙ pushed_full lb.buffer lb.index d (omega (arith, v.in_range))
          ∙ sym (push_full lb.buffer lb.index d (omega (arith, v.in_range)))
          ∙ ap (λ c. push c (contents lb) d) (sym full);
    }

pub add-Adds : (d : ℤ) (lb : LatencyBuffer) → IsValid lb → Adds d lb
add-Adds d lb v = elim (dec_lt lb.count lb.capacity) [
  | yes below ↦ add_filling d lb v below
  | no full ↦ add_full d lb v (omega arith)
]
