-- ===== src/Kube/Retry.antt =====
-- internal/kube/retry.go. The call `fn`, the clock and the context act on a state of type S that they
-- thread: `fn` may answer differently each time, and `cancelled` is the branch that `select` takes
-- in a wait. The error predicates of apimachinery and of net are the interface `ApiErrors`.
use kubectl_hpa_status.Prelude.{ℕ, zero, suc, ◌+◌, ◌-◌, ◌*◌, Bool, ◌||◌, not, ltb, if◌then◌else◌}

pub record ApiErrors (E : Type 0) : Type 0 where
  pub is_too_many_requests : E → Bool
  pub is_internal_error : E → Bool
  pub is_service_unavailable : E → Bool
  pub is_server_timeout : E → Bool
  pub is_timeout : E → Bool
  -- a net.Error whose Timeout() is true
  pub is_net_timeout : E → Bool
  -- Details.RetryAfterSeconds of a StatusError, 0 if there is none
  pub retry_after_seconds : E → ℕ

pub data Outcome (E A : Type 0) : Type 0 where
  ok : A → Outcome E A
  failed : E → Outcome E A

-- Durations in nanoseconds.
abbrev pub retry_attempts : ℕ
retry_attempts = 3

abbrev pub retry_base_wait : ℕ
retry_base_wait = 200000000

abbrev pub retry_jitter : ℕ
retry_jitter = 100000000

abbrev pub retry_max_wait : ℕ
retry_max_wait = 5000000000

module _ {E : Type 0} (errors : ApiErrors E) where
  open errors use {
    is_too_many_requests, is_internal_error, is_service_unavailable, is_server_timeout, is_timeout,
    is_net_timeout, retry_after_seconds,
  }

  unfoldable pub is_transient : E → Bool
  is_transient e =
      (is_too_many_requests e
        || (is_internal_error e
            || (is_service_unavailable e || (is_server_timeout e || is_timeout e))))
      || is_net_timeout e

  unfoldable pub retry_after : E → ℕ
  retry_after e = retry_after_seconds e * 1000000000

  -- `jitter` is what rand.N returned.
  unfoldable pub retry_wait : ℕ → ℕ → E → ℕ
  retry_wait attempt jitter cause =
      let wait = retry_base_wait * attempt + jitter in
      if ltb wait (retry_after cause)
      then (if ltb retry_max_wait (retry_after cause) then retry_max_wait else retry_after cause)
      else wait

  module _ {S A : Type 0} (fn : S → Outcome E A × S) (cancelled : S → Bool)
      (context_error : E) where
    -- A transient failure leads to a wait and to the next attempt.
    unfoldable pub continue_after : (S → Outcome E A × S) → Outcome E A × S → Outcome E A × S
    continue_after next (ok value, s) = (ok value, s)
    continue_after next (failed e, s) =
        if not (is_transient e)
        then (failed e, s)
        else if cancelled s
        then (failed context_error, s)
        else next s

    -- `left` counts the attempts after this one.
    unfoldable pub retry_loop : ℕ → S → Outcome E A × S
    unfolding continue_after
    retry_loop zero s = fn s
    retry_loop (suc left) s = continue_after (retry_loop left) (fn s)

    unfoldable pub retry_transient : S → Outcome E A × S
    retry_transient s = retry_loop (retry_attempts - 1) s
