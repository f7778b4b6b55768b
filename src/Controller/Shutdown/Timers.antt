-- ===== src/Controller/Shutdown/Timers.antt =====
-- The map of timers under the operations of the steps: which of its timers may still fire.
use preoomkiller_controller.Common.{
  ℕ, suc, ◌+◌, ◌≡◌, refl, String, true, Option, none, some, [], ◌∷◌, arith,
}
use preoomkiller_controller.Common.Dict.{
  Dict, lookup, insert, delete, delete_of_absent, HasDistinctKeys,
}
use preoomkiller_controller.Controller.State.{Timer}
use preoomkiller_controller.Controller.Schedule.Stopping.{armed_bit, armed}
use preoomkiller_controller.Controller.Shutdown.{disarm}
use text.Mathlib.TextEquality.{eq_iff}

pub armed-insert :
    (k : String) (t : Timer) (m : Dict Timer)
    → lookup k m ≡ none
    → armed (insert k t m) ≡ armed_bit t.is_armed + armed m
unfolding lookup insert
armed-insert k t [] h = refl
armed-insert k t ((j, u) ∷ m) h = ground (arith, armed-insert k t m)

pub armed-disarm :
    (k : String) (t : Timer) (m : Dict Timer)
    → lookup k m ≡ some t
    → t.is_armed ≡ true
    → suc (armed (disarm k m)) ≡ armed m
unfolding lookup disarm
armed-disarm k t [] h e = ground arith
armed-disarm k t ((j, u) ∷ m) h e = ground (arith, armed-disarm k t m)

abbrev pub armed_at : Option Timer → ℕ
armed_at none = 0
armed_at (some t) = armed_bit t.is_armed

pub armed-delete :
    (k : String) (m : Dict Timer)
    → HasDistinctKeys m
    → armed_at (lookup k m) + armed (delete k m) ≡ armed m
unfolding lookup delete
armed-delete k [] h = refl
armed-delete k ((j, u) ∷ m) h =
    ground (arith, eq_iff j k, armed-delete k m h.1, delete_of_absent j m h.0)

pub lookup-disarm-none :
    (k j : String) (m : Dict Timer) → lookup j m ≡ none → lookup j (disarm k m) ≡ none
unfolding lookup disarm
lookup-disarm-none k j [] h = refl
lookup-disarm-none k j ((i, u) ∷ m) h = ground (arith, lookup-disarm-none k j m)

pub disarm-HasDistinctKeys :
    (k : String) (m : Dict Timer) → HasDistinctKeys m → HasDistinctKeys (disarm k m)
unfolding disarm
disarm-HasDistinctKeys k [] h = tt
disarm-HasDistinctKeys k ((j, u) ∷ m) h =
    ground (arith, lookup-disarm-none k j m h.0, disarm-HasDistinctKeys k m h.1)
