-- ===== src/Kube/RetryLaws.antt =====
-- How often a call is made, and how long the waits are.
use kubectl_hpa_status.Prelude.{
  ℕ, zero, suc, ◌+◌, ◌*◌, ◌≤◌, ◌<◌, Bool, true, false, arith, ◌≡◌, ◌∙◌, Bool-cases, inl, inr, ◌⊎◌,
}
use kubectl_hpa_status.Kube.Retry.{
  ApiErrors, Outcome, ok, failed, is_transient, retry_after, retry_wait, retry_max_wait,
  retry_base_wait, retry_jitter, continue_after, retry_loop, retry_transient,
}

-- The wait before the second or the third attempt is at least the fixed backoff and at most five
-- seconds, and it is at least the server's hint or five seconds.
pub retry_wait_bounds :
    {E : Type 0} (errors : ApiErrors E) (attempt jitter : ℕ) (cause : E)
    → jitter < retry_jitter
    → attempt ≤ 2
    → let wait = retry_wait errors attempt jitter cause in
      (retry_base_wait * attempt ≤ wait)
      × ((retry_after errors cause ≤ wait) ⊎ (retry_max_wait ≤ wait))
      × (wait ≤ retry_max_wait)
unfolding retry_wait
retry_wait_bounds errors attempt jitter cause h k = (ground arith, ground arith, ground arith)

module _ {E S A : Type 0} (errors : ApiErrors E) (fn : S → Outcome E A × S) (cancelled : S → Bool)
    (context_error : E) where
  -- The call with a counter of its uses.
  abbrev pub counted : S × ℕ → Outcome E A × (S × ℕ)
  counted (s, n) = let (o, s') = fn s in (o, (s', suc n))

  abbrev pub counted_cancelled : S × ℕ → Bool
  counted_cancelled (s, n) = cancelled s

  -- The result is a transient failure, and no wait was cut short.
  abbrev pub GivesUp : Outcome E A → Type 0
  GivesUp (ok v) = ⊥
  GivesUp (failed e) = is_transient errors e ≡ true

  abbrev Calls : ℕ → ℕ → Outcome E A × (S × ℕ) → Type 0
  Calls low high r =
      (low ≤ r.1.1)
      × (r.1.1 ≤ high)
      × (((t : S) → cancelled t ≡ false) → GivesUp r.0 → r.1.1 ≡ high)

  retry_loop-calls :
      (left : ℕ) (s : S) (n : ℕ)
      → let r = retry_loop errors counted counted_cancelled context_error left (s, n) in
        (suc n ≤ r.1.1)
        × (r.1.1 ≤ n + suc left)
        × (((t : S) → cancelled t ≡ false) → GivesUp r.0 → r.1.1 ≡ n + suc left)
  unfolding retry_loop
  retry_loop-calls zero s n = (omega arith, omega arith, λ c g. omega arith)
  retry_loop-calls (suc left) s n = after (fn s) (λ t. retry_loop-calls left t (suc n))
    where
      after :
          (o : Outcome E A × S)
          → ((t : S)
              → Calls
                  (suc (suc n))
                  (suc n + suc left)
                  (retry_loop errors counted counted_cancelled context_error left (t, suc n)))
          → Calls (suc n) (n + suc (suc left)) (
              continue_after errors counted counted_cancelled context_error
                (retry_loop errors counted counted_cancelled context_error left)
                (o.0, (o.1, suc n)))
      after (ok v, t) rest = (omega arith, omega arith, λ c g. absurd g)
      after (failed e, t) rest = elim (Bool-cases (is_transient errors e)) [
        | inr final ↦ rw final (omega arith, omega arith, λ c g. cc)
        | inl transient ↦ elim (Bool-cases (cancelled t)) [
          | inl cut ↦ rw (transient, cut) (omega arith, omega arith, λ c g. cc (c t))
          | inr waited ↦
              let ih = rest t in
              rw (transient, waited) (omega arith, omega arith, λ c g. ih.2 c g ∙ omega arith)
        ]
      ]

  -- The call is made at least once and at most three times.
  pub retry_transient-calls :
      (s : S) (n : ℕ)
      → let r = retry_transient errors counted counted_cancelled context_error (s, n) in
        (suc n ≤ r.1.1) × (r.1.1 ≤ n + 3)
  unfolding retry_transient
  retry_transient-calls s n = let (a, b, c) = retry_loop-calls 2 s n in (a, b)

  -- If no wait is cut short and the result is a transient failure, the call was made exactly three
  -- times.
  pub retry_transient-GivesUp :
      ((t : S) → cancelled t ≡ false)
      → (s : S) (n : ℕ)
      → GivesUp (retry_transient errors counted counted_cancelled context_error (s, n)).0
      → (retry_transient errors counted counted_cancelled context_error (s, n)).1.1 ≡ n + 3
  unfolding retry_transient
  retry_transient-GivesUp waits s n g = (retry_loop-calls 2 s n).2 waits g
