-- ===== src/Outbound/Laws.antt =====
-- What forwardWithRetry promises (internal/adapters/outbound.go).
use mathlib.Core.Path.{subst}
use edge_gw_project.Prelude.{
  ℕ, zero, suc, ◌+◌, ◌-◌, ◌*◌, ◌^◌, ◌≤◌, ◌≡◌, refl, sym, Bool, true, false, Option, none, some,
}
use edge_gw_project.Prelude.{Bool-cases, inl, inr, arith}
use edge_gw_project.Outbound.{
  ForwardError, all_attempts_failed, cancelled_before_retry, is_permanent, backoff_before, Tried,
  after_attempt, retry_from, forward_with_retry,
}

module _ {S : Type 0} (attempt : S → Option ForwardError × S) (is_cancelled : ℕ → Bool) where
  -- `k` attempts lead from one state to another, and each fails with an error that is not
  -- permanent, the last with the named one.
  pub data HasFailed (s : S) : ℕ → Option ForwardError → S → Type 0 where
    start : HasFailed s 0 none s
    more :
        {k : ℕ} {last : Option ForwardError} {u u' : S} {e : ForwardError}
        → HasFailed s k last u
        → attempt u ≡ (some e, u')
        → is_permanent e ≡ false
        → HasFailed s (suc k) (some e) u'

  -- How a run of at most `max + 1` attempts ends, with its error, its state and its attempts.
  pub data EndsWith (max : ℕ) (s : S) : Option ForwardError → S → ℕ → Type 0 where
    delivered :
        {k : ℕ} {last : Option ForwardError} {u u' : S}
        → k ≤ max
        → HasFailed s k last u
        → attempt u ≡ (none, u')
        → EndsWith max s none u' (suc k)
    refused :
        {k : ℕ} {last : Option ForwardError} {u u' : S} {e : ForwardError}
        → k ≤ max
        → HasFailed s k last u
        → attempt u ≡ (some e, u')
        → is_permanent e ≡ true
        → EndsWith max s (some e) u' (suc k)
    exhausted :
        {u : S} {e : ForwardError}
        → HasFailed s (max + 1) (some e) u
        → EndsWith max s (some (all_attempts_failed (max + 1) e)) u (max + 1)
    cancelled :
        {k : ℕ} {last : Option ForwardError} {u : S}
        → suc k ≤ max
        → HasFailed s (suc k) last u
        → is_cancelled (suc k) ≡ true
        → EndsWith max s (some (cancelled_before_retry (suc k))) u (suc k)

  -- The end of a run with the time it waited.
  abbrev pub IsRun : ℕ → S → Tried S → Type 0
  IsRun max s t =
      EndsWith max s t.error t.state t.attempts × (t.waited + 250 ≡ 250 * 2 ^ (t.attempts - 1))

  less : {a : ℕ} (k : ℕ) → a ≡ 250 * 2 ^ k → a ≡ 250 * 2 ^ (suc k - 1)
  less k h = let p : suc k - 1 ≡ k = omega arith in rw p h

  doubled : (a k : ℕ) → a + 250 ≡ 250 * 2 ^ k → (a + backoff_before (suc k)) + 250 ≡ 250 * 2 ^ suc k
  unfolding backoff_before
  doubled a k h = let p : suc k - 1 ≡ k = omega arith in rw p (omega (arith, h))

  after_attempt-IsRun :
      (max k waited : ℕ) (s u : S) (last : Option ForwardError) (rest : ForwardError → S → Tried S)
      → k ≤ max
      → HasFailed s k last u
      → waited + 250 ≡ 250 * 2 ^ k
      → ((e : ForwardError) (u' : S) → HasFailed s (suc k) (some e) u' → IsRun max s (rest e u'))
      → IsRun max s (after_attempt attempt is_cancelled k (attempt u) k waited rest)
  unfolding after_attempt
  after_attempt-IsRun max k waited s u last rest h failed w go = by_answer (attempt u) refl
    where
      by_answer :
          (a : Option ForwardError × S)
          → attempt u ≡ a
          → IsRun max s (after_attempt attempt is_cancelled k a k waited rest)
      by_answer (none, u') q = (delivered h failed q, less k w)
      by_answer (some e, u') q = elim (Bool-cases (is_permanent e)) [
        | inl p ↦ rw (p, after_attempt) (refused h failed q p, less k w)
        | inr p ↦ rw (p, after_attempt) (go e u' (more failed q p))
      ]

  retry_from-IsRun :
      (max k left waited : ℕ) (s u : S) (last : ForwardError)
      → suc k + left ≡ max + 1
      → HasFailed s (suc k) (some last) u
      → waited + 250 ≡ 250 * 2 ^ k
      → IsRun max s (retry_from attempt is_cancelled max (suc k) left last u waited)
  unfolding retry_from
  retry_from-IsRun max k zero waited s u last h failed w = (
    subst (λ n. EndsWith max s (some (all_attempts_failed (max + 1) last)) u n) full
        (exhausted (subst (λ n. HasFailed s n (some last) u) (sym full) failed)),
    less k w,
  )
    where
      full : max + 1 ≡ suc k
      full = omega (arith, h)
  retry_from-IsRun max k (suc left) waited s u last h failed w =
      elim (Bool-cases (is_cancelled (suc k))) [
        | inl c ↦ rw (c, retry_from) (cancelled (omega arith) failed c, less k w)
        | inr c ↦
            rw (c, retry_from)
              (after_attempt-IsRun max (suc k) (waited + backoff_before (suc k)) s u (some last) _
                (omega arith) failed (doubled waited k w)
                (λ e u' again.
                  retry_from-IsRun max (suc k) left (waited + backoff_before (suc k)) s u' e
                    (omega arith) again (doubled waited k w)))
      ]

  -- Of at most `max + 1` attempts, all but the last failed with an error that is not permanent.
  -- The run ends with the first attempt that succeeds and without an error, with the first
  -- permanent error and that error, with a cancellation before a retry, or after `max + 1`
  -- failures with the error that wraps the last one. It has waited 250, 500, 1000, …
  -- milliseconds between the attempts.
  pub forward_with_retry-IsRun :
      (max : ℕ) (s : S) → IsRun max s (forward_with_retry attempt is_cancelled max s)
  unfolding forward_with_retry
  forward_with_retry-IsRun max s =
      after_attempt-IsRun max 0 0 s s none _ (omega arith) start refl
        (λ e u failed. retry_from-IsRun max 0 max 0 s u e (omega arith) failed refl)
