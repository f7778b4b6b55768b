-- ===== src/Pinger/Buffer.antt =====
-- `LatencyBuffer` of internal/infra/pinger/statistics.go: a circular buffer of durations. An
-- operation that panics, at an index out of range, is `none`.
pub mod Window
pub mod History
use preoomkiller_controller.Common.{
  ℕ, zero, suc, ◌+◌, ◌-◌, ◌%◌, ltb, leb, ◌==◌, if◌then◌else◌, ◌&&◌, not, Option, none, some, List,
  [], ◌∷◌, ◌++◌, length, take, drop, set,
}
use preoomkiller_controller.Common.Int.{ℤ, pos}

pub record LatencyBuffer : Type 0 where
  pub buffer : List ℤ
  pub capacity : ℕ
  pub index : ℕ
  pub count : ℕ

-- `NewLatencyBuffer`. A negative capacity, at which `make` panics, is left out: the program has two
-- capacities, 100 and 10.
unfoldable pub new_latency_buffer : ℕ → LatencyBuffer
new_latency_buffer capacity = record { buffer = []; capacity = capacity; index = 0; count = 0 }

-- `lb.buffer[lb.index] = d` and the step of the index; `% 0` panics as well.
overwrite : ℤ → LatencyBuffer → Option LatencyBuffer
overwrite d lb =
    if ltb lb.index (length lb.buffer) && not (lb.capacity == 0)
    then some
        (record lb { buffer = set lb.buffer lb.index d; index = (lb.index + 1) % lb.capacity })
    else none

unfoldable pub add : ℤ → LatencyBuffer → Option LatencyBuffer
unfolding overwrite
add d lb =
    if ltb lb.count lb.capacity
    then some (record lb { buffer = lb.buffer ++ (d ∷ []); count = lb.count + 1 })
    else overwrite d lb

abbrev pub zeros : ℕ → List ℤ
zeros zero = []
zeros (suc n) = pos 0 ∷ zeros n

-- `copy(dst, src)`: as many as fit.
abbrev pub copy : List ℤ → List ℤ → List ℤ
copy dst src = take (length dst) src ++ drop (length src) dst

-- `copy(dst[k:], src)`.
abbrev pub copy_from : ℕ → List ℤ → List ℤ → List ℤ
copy_from k dst src = take k dst ++ copy (drop k dst) src

-- `GetAll`; a nil slice is the empty list.
unfoldable pub get_all : LatencyBuffer → List ℤ
get_all lb =
    let result = zeros lb.count in
    if lb.count == 0
    then []
    else if ltb lb.count lb.capacity
    then copy result lb.buffer
    else copy_from (lb.capacity - lb.index) (copy result (drop lb.index lb.buffer))
        (take lb.index lb.buffer)

-- `Len`.
abbrev pub len : LatencyBuffer → ℕ
len lb = lb.count
