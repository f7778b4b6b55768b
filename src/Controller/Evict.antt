-- ===== src/Controller/Evict.antt =====
-- `evictPodCommand` of service.go: every eviction goes through it.
pub mod Guard
use preoomkiller_controller.Common.{
  ◌≡◌, String, Bool, true, false, ◌&&◌, Option, none, some, ◌∷◌, if◌then◌else◌,
}
use preoomkiller_controller.Common.Int.{ℤ, pos, ltb_ℤ, sub_time}
use preoomkiller_controller.Common.Error.{
  Error, Sentinel, Result, ok, err, sentinel, wrap, both, is_not_found, is_too_many_requests,
}
use preoomkiller_controller.Controller.Platform.{Numbers, Env, Config, Pod}
use preoomkiller_controller.Controller.State.{
  State, Call, evict, Action, ◌>>=◌, ◌>>◌, pure, modify, ask,
}

-- What an answer of `EvictPodCommand` makes of the call: done, put off, or failed.
unfoldable pub eviction_result : Option Error → Result Bool
eviction_result none = ok true
eviction_result (some e) =
    if is_not_found e
    then ok false
    else if is_too_many_requests e
    then ok false
    else err (both (sentinel Sentinel.evict_pod) e)

module _ {num : Numbers} (env : Env num) (cfg : Config) where
  open env use {World}

  -- `s.minPodAgeBeforeEviction > 0 && podAge < s.minPodAgeBeforeEviction`
  unfoldable pub is_too_young : ℤ → ℤ → Bool
  is_too_young now created_at =
      ltb_ℤ (pos 0) cfg.min_pod_age_before_eviction
      && ltb_ℤ (sub_time now created_at) cfg.min_pod_age_before_eviction

  -- `repo.EvictPodCommand`, logged.
  pub send_eviction : String → String → Action World (Option Error)
  send_eviction namespace name = do
    answer ← ask (env.evict_pod_command namespace name)
    modify λ s. record s { calls = evict namespace name answer ∷ s.calls }
    pure answer

  -- `metrics.RecordEvictionSkippedPodTooYoung`
  pub record_eviction_skipped_pod_too_young : String → String → Action World (Unit {0})
  record_eviction_skipped_pod_too_young namespace name =
      modify λ s. record s { skipped = (namespace, name) ∷ s.skipped }

  pub evict_fetched : String → String → Pod num.Quantity → Action World (Result Bool)
  unfolding is_too_young send_eviction record_eviction_skipped_pod_too_young eviction_result
  evict_fetched namespace name pod = do
    now ← ask env.now
    if is_too_young now pod.created_at
        then record_eviction_skipped_pod_too_young namespace name >> pure (ok false)
        else (send_eviction namespace name >>= λ answer. pure (eviction_result answer))

  evict_query : String → String → Result (Pod num.Quantity) → Action World (Result Bool)
  evict_query namespace name (ok pod) = evict_fetched namespace name pod
  evict_query namespace name (err e) =
      pure (if is_not_found e then ok false else err (wrap "get pod for eviction" e))

  -- The last argument is the pod, if the caller has it (`pod *Pod`).
  unfoldable pub evict_pod_command :
      String → String → Option (Pod num.Quantity) → Action World (Result Bool)
  unfolding evict_query evict_fetched
  evict_pod_command namespace name none =
      ask (env.get_pod_query namespace name) >>= evict_query namespace name
  evict_pod_command namespace name (some pod) = evict_fetched namespace name pod
