-- ===== src/App/Channels.antt =====
-- `allChannelsClose` of internal/app/app.go, which `waitForReady` waits for: one goroutine to a channel,
-- as interleaved steps.
pub mod Closing
pub mod Progress
use preoomkiller_controller.Common.{
  ℕ, suc, ◌%◌, ◌≡◌, ◌≢◌, Bool, true, false, ◌==◌, ltb, if◌then◌else◌, List, [], ◌∷◌, ◌++◌, map,
  length,
}

-- How far a goroutine has come: before `<-ch`, with the answer of its `Add(1)`, and at its end.
pub data Waiter : Type 0 where
  waiting finished : Waiter
  counted : ℕ → Waiter

-- A channel, and the goroutine that waits for it.
pub record Watch : Type 0 where
  pub is_closed : Bool
  pub waiter : Waiter

-- `ready_count` is the bit pattern of an `int32`; `closes` says how often `out` was closed, and a second
-- time would be a panic.
pub record Gate : Type 0 where
  pub watches : List Watch
  pub target_count : ℕ
  pub ready_count : ℕ
  pub closes : ℕ

abbrev pub max_int32 : ℕ
max_int32 = 2_147_483_647

abbrev pub watch : Bool → Watch
watch is_closed = record { is_closed = is_closed; waiter = waiting }

-- The call, from the channels that are closed by then.
unfoldable pub all_channels_close : List Bool → Gate
all_channels_close cs =
    if length cs == 0
    then record { watches = []; target_count = 0; ready_count = 0; closes = 1 }
    else if ltb max_int32 (length cs)
    then record { watches = []; target_count = 0; ready_count = 0; closes = 1 }
    else record { watches = map watch cs; target_count = length cs; ready_count = 0; closes = 0 }

-- `readyCount.Add(1)`.
abbrev pub next_count : ℕ → ℕ
next_count n = suc n % 4_294_967_296

pub data Step (s : Gate) : Gate → Type 0 where
  -- a component is ready
  signals :
      (before : List Watch) (w : Watch) (after : List Watch)
      → s.watches ≡ before ++ (w ∷ after)
      → w.is_closed ≡ false
      → Step s (record s { watches = before ++ (record w { is_closed = true } ∷ after) })
  -- a goroutine: `<-ch` with the `Add`, and the comparison
  counts :
      (before : List Watch) (w : Watch) (after : List Watch)
      → s.watches ≡ before ++ (w ∷ after)
      → w.is_closed ≡ true
      → w.waiter ≡ waiting
      → Step s (record s {
        ready_count = next_count s.ready_count;
        watches = before ++ (record w { waiter = counted (next_count s.ready_count) } ∷ after);
      })
  closes_out :
      (before : List Watch) (w : Watch) (after : List Watch) (n : ℕ)
      → s.watches ≡ before ++ (w ∷ after)
      → w.waiter ≡ counted n
      → n ≡ s.target_count
      → Step s (record s {
        closes = suc s.closes;
        watches = before ++ (record w { waiter = finished } ∷ after);
      })
  passes :
      (before : List Watch) (w : Watch) (after : List Watch) (n : ℕ)
      → s.watches ≡ before ++ (w ∷ after)
      → w.waiter ≡ counted n
      → n ≢ s.target_count
      → Step s (record s { watches = before ++ (record w { waiter = finished } ∷ after) })

pub data Reach (s : Gate) : Gate → Type 0 where
  here : Reach s s
  next : {t u : Gate} → Reach s t → Step t u → Reach s u
