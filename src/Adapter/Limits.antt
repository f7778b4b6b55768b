-- ===== src/Adapter/Limits.antt =====
-- The memory limit that convert.go gives a pod.
use preoomkiller_controller.Common.{
  ◌≡◌, ◌≢◌, refl, ap, ◌∙◌, ◌⊎◌, inl, inr, Bool, true, false, Option, none, some, List, [], ◌∷◌,
}
use preoomkiller_controller.Common.Int.{pos}
use preoomkiller_controller.Common.Dict.{lookup}
use preoomkiller_controller.Controller.Platform.{Numbers}
use preoomkiller_controller.Adapter.{
  Container, ApiPod, add_limit, sum_limits, limit_of, to_domain_pod,
}

module _ (num : Numbers) where
  open num use {Quantity}

  abbrev with_limit : Option Quantity → List Quantity → List Quantity
  with_limit none ls = ls
  with_limit (some l) ls = l ∷ ls

  -- The memory limits that the containers set.
  abbrev pub memory_limits : List (Container Quantity) → List Quantity
  memory_limits [] = []
  memory_limits (c ∷ cs) = with_limit (lookup "memory" c.limits) (memory_limits cs)

  abbrev pub sum_from : Quantity → List Quantity → Quantity
  sum_from total [] = total
  sum_from total (l ∷ ls) = sum_from (num.add total l) ls

  abbrev is_some_list : List Quantity → Bool → Bool
  is_some_list [] has_limit = has_limit
  is_some_list (l ∷ ls) has_limit = true

  is_some_list-true : (ls : List Quantity) → is_some_list ls true ≡ true
  is_some_list-true [] = refl
  is_some_list-true (l ∷ ls) = refl

  sum_limits-memory_limits :
      (cs : List (Container Quantity)) (total : Quantity) (has_limit : Bool)
      → sum_limits num cs (total, has_limit)
        ≡ (sum_from total (memory_limits cs), is_some_list (memory_limits cs) has_limit)
  unfolding sum_limits add_limit
  sum_limits-memory_limits [] total has_limit = refl
  sum_limits-memory_limits (c ∷ cs) total has_limit =
      split (lookup "memory" c.limits) (sum_limits-memory_limits cs total has_limit)
        (λ l. sum_limits-memory_limits cs (num.add total l) true)
    where
      split :
          (o : Option Quantity)
          → sum_limits num cs (total, has_limit)
            ≡ (sum_from total (memory_limits cs), is_some_list (memory_limits cs) has_limit)
          → ((l : Quantity)
              → sum_limits num cs (num.add total l, true) ≡ (
                sum_from (num.add total l) (memory_limits cs),
                is_some_list (memory_limits cs) true,
              ))
          → sum_limits num cs (add_limit num o (total, has_limit)) ≡ (
            sum_from total (with_limit o (memory_limits cs)),
            is_some_list (with_limit o (memory_limits cs)) has_limit,
          )
      split none h k = h
      split (some l) h k =
          k l
          ∙ ap (λ b. (sum_from (num.add total l) (memory_limits cs), b))
              (is_some_list-true (memory_limits cs))

  -- A pod has a memory limit if a container of it sets one; it is then the sum, from zero, of those that
  -- are set, in the order of the containers.
  pub to_domain_pod-limit :
      (pod : ApiPod Quantity)
      → let limits = memory_limits pod.containers in
        let limit = (to_domain_pod num pod).memory_limit in
        ((limits ≡ []) × (limit ≡ none))
        ⊎ ((limits ≢ []) × (limit ≡ some (sum_from (num.new_quantity (pos 0)) limits)))
  unfolding to_domain_pod limit_of
  to_domain_pod-limit pod =
      rw (sum_limits-memory_limits pod.containers (num.new_quantity (pos 0)) false)
        (split (memory_limits pod.containers))
    where
      split :
          (ls : List Quantity)
          → ((ls ≡ [])
              × (limit_of num (sum_from (num.new_quantity (pos 0)) ls, is_some_list ls false)
                  ≡ none))
            ⊎ ((ls ≢ [])
                × (limit_of num (sum_from (num.new_quantity (pos 0)) ls, is_some_list ls false)
                    ≡ some (sum_from (num.new_quantity (pos 0)) ls)))
      split [] = inl (refl, refl)
      split (l ∷ ls) = inr ((λ e. cc), refl)
