-- ===== src/Pipeline/Retry/Calls.antt =====
-- How often a phase is tried.
use hermes_agora.Base.{
  ℕ, zero, suc, ◌+◌, ◌≤◌, ◌≡◌, refl, inl, inr, true, some, arith, ltb, Bool-cases,
}
use hermes_agora.Pipeline.Types.{
  PipelinePhase, PipelineRetryPolicy, Outcome, returns, raises, Services, State, Act,
}
use hermes_agora.Pipeline.Retry.{is_retryable, or_again, pause, attempts, retry_with_backoff}

-- At most so many calls, and as many where it raises.
abbrev pub Within : {W A : Type 0} → (W → ℕ) → PipelinePhase → ℕ → Outcome A × State W → Type 0
Within calls phase n (returns a, s) = calls s.world ≤ n
Within calls phase n (raises e, s) =
    (calls s.world ≡ n) × (e ≡ record { phase = some phase; retryable = true })

module _ {W : Type 0} (sv : Services W) (policy : PipelineRetryPolicy) (calls : W → ℕ)
    (silent : (n : ℕ) (w : W) → calls (sv.sleep n w) ≡ calls w) where
  pause-calls :
      (attempt : ℕ) (s : State W) → calls (pause sv policy attempt s).world ≡ calls s.world
  unfolding pause
  pause-calls attempt s = elim (Bool-cases (ltb attempt policy.max_retries)) [
    | inl e ↦ rw (pause, e) (silent _ s.world)
    | inr e ↦ rw (pause, e) refl
  ]

  module _ {A : Type 0} (m : Act W A) (phase : PipelinePhase)
      (counted : (s : State W) → calls (m s).1.world ≡ suc (calls s.world)) where
    or_again-Within :
        (n : ℕ) (o : Outcome A × State W) (again : State W → Outcome A × State W)
        → calls o.1.world ≤ n
        → ((t : State W) → calls t.world ≡ calls o.1.world → Within calls phase n (again t))
        → Within calls phase n (or_again o again)
    or_again-Within n (returns a, s) again h k = h
    or_again-Within n (raises e, s) again h k = k s refl

    attempts-Within :
        (left attempt n : ℕ) (s : State W)
        → calls s.world + left ≡ n
        → Within calls phase n (attempts sv m phase policy left attempt s)
    unfolding attempts
    attempts-Within zero attempt n s e = (omega (arith, e), refl)
    attempts-Within (suc left) attempt n s e =
        or_again-Within n (m s) _ (omega (arith, e, counted s)) λ t same.
          attempts-Within left (suc attempt) n (pause sv policy attempt t)
            (omega (arith, pause-calls attempt t, same, counted s, e))

    -- Where each try of a retryable phase makes one call and the pauses make none, the phase is
    -- tried at most as often as the policy allows, and where it raises, just as often, with an
    -- error that names the phase and is retryable.
    pub retry_with_backoff-Within :
        (s : State W)
        → is_retryable phase ≡ true
        → Within calls phase
            (calls s.world + policy.max_retries)
            (retry_with_backoff sv m phase policy s)
    unfolding retry_with_backoff
    retry_with_backoff-Within s h =
        rw (retry_with_backoff, h) (attempts-Within policy.max_retries 1 _ s refl)
