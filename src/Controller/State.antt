-- ===== src/Controller/State.antt =====
-- The mutable fields of `Service` (service.go), and its methods as actions on them: a method ends
-- with a value or with a panic, and leaves the state as it then is.
use preoomkiller_controller.Common.{
  ◌≡◌, ◌≢◌, refl, ap, ℕ, zero, suc, String, Bool, false, Option, List, [],
}
use preoomkiller_controller.Common.Int.{ℤ, negsuc}
use preoomkiller_controller.Common.Dict.{Dict}
use preoomkiller_controller.Common.Error.{Error}

-- A timer of `time.AfterFunc`, with what its callback `runScheduledEviction` is given. It is armed
-- until it fires or is stopped.
pub record Timer : Type 0 where
  pub namespace : String
  pub name : String
  pub delay : ℤ
  pub is_armed : Bool

-- The commands sent to the cluster, with the answer that each got.
pub data Call : Type 0 where
  evict : String → String → Option Error → Call
  annotate : String → String → String → String → Option Error → Call

-- `ready` and `done` say whether the channels `ready` and `doneCh` are closed; `in_flight` is the
-- counter of `inFlightWg`; `skipped` is the counter vector of internal/infra/metrics, as the list
-- of its increments; `calls` is the log of the commands. Both lists are newest first.
pub record State (World : Type 0) : Type 0 where
  pub world : World
  pub in_shutdown : Bool
  pub ready : Bool
  pub done : Bool
  pub last_reconcile_end_time : ℤ
  pub pending_timers : Dict Timer
  pub in_flight : ℕ
  pub skipped : List (String × String)
  pub calls : List Call

-- The zero `time.Time`, year 1.
abbrev pub zero_time : ℤ
zero_time = negsuc 62_135_596_799_999_999_999

-- `New`.
unfoldable pub new : {World : Type 0} → World → State World
new w = record {
  world = w;
  in_shutdown = false;
  ready = false;
  done = false;
  last_reconcile_end_time = zero_time;
  pending_timers = [];
  in_flight = 0;
  skipped = [];
  calls = [];
}

pub data Outcome (A : Type 0) : Type 0 where
  ret : A → Outcome A
  panic : Outcome A

pub ret_of_ne_panic : {A : Type 0} (o : Outcome A) → o ≢ panic → (a : A) × (o ≡ ret a)
ret_of_ne_panic (ret a) h = (a, refl)
ret_of_ne_panic panic h = absurd (h refl)

abbrev pub Action : Type 0 → Type 0 → Type 0
Action W A = State W → Outcome A × State W

infixl 5 ◌>>=◌ ◌>>◌
abbrev pub ◌>>=◌ : {W A B : Type 0} → Action W A → (A → Action W B) → Action W B
◌>>=◌ m f s = elim (m s).0 [ ret a ↦ f a (m s).1 | panic ↦ (panic, (m s).1) ]

abbrev pub ◌>>◌ : {W A B : Type 0} → Action W A → Action W B → Action W B
m >> k = m >>= λ _. k

-- A step that returns is followed by the rest, and a chain of steps that return returns.
pub >>=-eq_of_ret :
    {W A B : Type 0} (m : Action W A) (f : A → Action W B) (s : State W) {a : A}
    → (m s).0 ≡ ret a
    → (m >>= f) s ≡ f a (m s).1
>>=-eq_of_ret m f s e = ap (λ o. elim o [ ret a ↦ f a (m s).1 | panic ↦ (panic, (m s).1) ]) e

pub >>=-ne-panic :
    {W A B : Type 0} (m : Action W A) (f : A → Action W B) (s : State W)
    → (m s).0 ≢ panic
    → ((a : A) → (f a (m s).1).0 ≢ panic)
    → ((m >>= f) s).0 ≢ panic
>>=-ne-panic m f s h k = let (a, e) = ret_of_ne_panic (m s).0 h in rw (>>=-eq_of_ret m f s e) (k a)

-- The state after a chain is the state after its first step, if that panics, or else the state
-- after the rest.
pub >>=-state :
    {W A B : Type 0} (P : State W → Type 0) (m : Action W A) (f : A → Action W B) (s : State W)
    → P (m s).1
    → ((a : A) → P (f a (m s).1).1)
    → P ((m >>= f) s).1
>>=-state {W} {A} {B} P m f s h k = split (m s).0
  where
    split :
        (o : Outcome A)
        → let r : Outcome B × State W = elim o [ ret a ↦ f a (m s).1 | panic ↦ (panic, (m s).1) ] in
          P r.1
    split (ret a) = k a
    split panic = h

abbrev pub pure : {W A : Type 0} → A → Action W A
pure a s = (ret a, s)

abbrev pub fail : {W A : Type 0} → Action W A
fail s = (panic, s)

abbrev pub gets : {W A : Type 0} → (State W → A) → Action W A
gets f s = (ret (f s), s)

abbrev pub modify : {W : Type 0} → (State W → State W) → Action W (Unit {0})
modify f s = (ret tt, f s)

-- An operation of the outside world.
abbrev pub ask : {W A : Type 0} → (W → A × W) → Action W A
ask op s = (ret (op s.world).0, record s { world = (op s.world).1 })

-- `WaitGroup.Add(1)`, and `WaitGroup.Done`, which panics at zero.
abbrev pub wg_add : {W : Type 0} → Action W (Unit {0})
wg_add s = (ret tt, record s { in_flight = suc s.in_flight })

abbrev wg_done_at : {W : Type 0} → ℕ → Action W (Unit {0})
wg_done_at zero s = (panic, s)
wg_done_at (suc n) s = (ret tt, record s { in_flight = n })

abbrev pub wg_done : {W : Type 0} → Action W (Unit {0})
wg_done s = wg_done_at s.in_flight s

pub wg_done_of_suc :
    {W : Type 0} (s : State W) {n : ℕ}
    → s.in_flight ≡ suc n
    → wg_done s ≡ (ret tt, record s { in_flight = n })
wg_done_of_suc s e = ap (λ k. wg_done_at k s) e
