-- ===== src/Shutdown/Order.antt =====
-- The order and the errors of `GracefulShutdown` of internal/infra/shutdown/shutdown.go.
use preoomkiller_controller.Common.{
  ℕ, zero, suc, ◌≤◌, ◌<◌, ◌≡◌, refl, sym, ap, ◌∙◌, Bool, false, ◌||◌, ◌↔◌, Option, none, some, List,
  [], ◌∷◌, ◌++◌, length, get_elem?, take, take-all, arith,
}
use preoomkiller_controller.Common.Error.{Error, Sentinel, errors_is}
use preoomkiller_controller.Shutdown.{
  Shutdowner, join, join_all, call, keep, shutdown_down, graceful_shutdown,
}

module _ {World : Type 0} where
  abbrev pub backwards : List (Shutdowner World) → List (Shutdowner World)
  backwards [] = []
  backwards (c ∷ cs) = backwards cs ++ (c ∷ [])

  -- Each component of a list in turn, whatever the others answer: the errors, and the world after.
  abbrev pub in_turn : List (Shutdowner World) → World → List Error × World
  in_turn [] w = ([], w)
  in_turn (c ∷ cs) w =
      let (answer, w') = c.shutdown w in let (es, w'') = in_turn cs w' in (keep answer es, w'')

  backwards-snoc :
      (cs : List (Shutdowner World)) (c : Shutdowner World)
      → backwards (cs ++ (c ∷ [])) ≡ c ∷ backwards cs
  backwards-snoc [] c = refl
  backwards-snoc (d ∷ cs) c = ap (λ ds. ds ++ (d ∷ [])) (backwards-snoc cs c)

  take-suc :
      (cs : List (Shutdowner World)) (i : ℕ)
      → i < length cs
      → (c : Shutdowner World) × (get_elem? cs i ≡ some c)
        × (take (suc i) cs ≡ take i cs ++ (c ∷ []))
  take-suc [] i h = absurd (omega arith)
  take-suc (c ∷ cs) zero h = (c, refl, refl)
  take-suc (c ∷ cs) (suc i) h = let (d, e, f) = take-suc cs i (omega arith) in (d, e, ap (◌∷◌ c) f)

  shutdown_down-in_turn :
      (i : ℕ) (cs : List (Shutdowner World)) (w : World)
      → i ≤ length cs
      → shutdown_down i cs w ≡ in_turn (backwards (take i cs)) w
  unfolding shutdown_down
  shutdown_down-in_turn zero cs w h = refl
  shutdown_down-in_turn (suc i) cs w h =
      let (c, e, f) = take-suc cs i (omega arith) in
      ap
        (λ o.
          let (answer, w') = call o w in
          let (es, w'') = shutdown_down i cs w' in (keep answer es, w''))
        e
      ∙ ap (λ r. (keep (c.shutdown w).0 r.0, r.1))
          (shutdown_down-in_turn i cs (c.shutdown w).1 (omega arith))
      ∙ ap (λ ds. in_turn ds w) (sym (ap backwards f ∙ backwards-snoc (take i cs) c))

-- An error of the list is the sentinel.
abbrev pub any_is : Sentinel → List Error → Bool
any_is t [] = false
any_is t (e ∷ es) = errors_is t e || any_is t es

abbrev pub is_error : Sentinel → Option Error → Bool
is_error t none = false
is_error t (some e) = errors_is t e

join_all-is :
    (t : Sentinel) (errs : Option Error) (es : List Error)
    → is_error t (join_all errs es) ≡ (is_error t errs || any_is t es)
unfolding errors_is
join_all-is t none [] = refl
join_all-is t (some e) [] = ground arith
join_all-is t none (e ∷ es) = ground (arith, join_all-is t (some (join none e)) es)
join_all-is t (some errs) (e ∷ es) = ground (arith, join_all-is t (some (join (some errs) e)) es)

join_all-nil : (errs : Option Error) (es : List Error) → join_all errs es ≡ none → es ≡ []
join_all-nil errs [] h = refl
join_all-nil errs (e ∷ es) h = absurd (never es (join errs e) h)
  where
    never : (xs : List Error) (x : Error) → join_all (some x) xs ≡ none → ⊥
    never [] x k = cc
    never (y ∷ ys) x k = never ys (join (some x) y) k

module _ {World : Type 0} where
  -- `GracefulShutdown` shuts every component down once, the last registered first, whatever errors
  -- they answer. It returns nil exactly if none of them failed, and `errors.Is` finds a sentinel in
  -- what it returns exactly if it finds it in the error of one of them.
  pub graceful_shutdown-in_turn :
      (cs : List (Shutdowner World)) (w : World) (t : Sentinel)
      → let (answer, w') = graceful_shutdown cs w in
        let (es, w'') = in_turn (backwards cs) w in
        (w' ≡ w'') × ((answer ≡ none) ↔ (es ≡ [])) × (is_error t answer ≡ any_is t es)
  unfolding graceful_shutdown
  graceful_shutdown-in_turn cs w t =
      let e =
        shutdown_down-in_turn (length cs) cs w (omega arith)
        ∙ ap (λ ds. in_turn (backwards ds) w) (take-all (length cs) cs (omega arith)) in
      rw e (
        refl,
        (join_all-nil none _, λ h. ap (λ es. join_all none es) h),
        join_all-is t none (in_turn (backwards cs) w).0,
      )
