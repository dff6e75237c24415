-- ===== src/Pipeline/Retry.antt =====
-- agora/coordinator/pipeline_retry.py: the retries of a phase, with a delay that doubles.
pub mod Calls
use hermes_agora.Base.{
  ℕ, zero, suc, ◌-◌, ◌*◌, ◌^◌, ◌≡◌, Bool, true, false, not, some, ltb, if◌then◌else◌,
}
use hermes_agora.Pipeline.Types.{
  PipelinePhase, executing, reviewing, releasing, Raised, PipelineRetryPolicy, Outcome, returns,
  raises, Services, State, Act, throw,
}

-- `is_retryable`, by the default policy
abbrev pub is_retryable : PipelinePhase → Bool
is_retryable executing = true
is_retryable reviewing = true
is_retryable releasing = true
is_retryable _ = false

-- `except Exception`, which goes on
abbrev pub or_again :
    {W A : Type 0} → Outcome A × State W → (State W → Outcome A × State W) → Outcome A × State W
or_again (returns a, after) again = (returns a, after)
or_again (raises e, after) again = again after

module _ {W : Type 0} (sv : Services W) where
  -- the pause after a failed attempt, but for the last
  unfoldable pub pause : PipelineRetryPolicy → ℕ → State W → State W
  pause policy attempt s =
      if ltb attempt policy.max_retries
      then record s { world = sv.sleep (policy.retry_delay * 2 ^ (attempt - 1)) s.world }
      else s

  -- the loop over the attempts that are left
  unfoldable pub attempts :
      {A : Type 0} → Act W A → PipelinePhase → PipelineRetryPolicy → (left attempt : ℕ) → Act W A
  unfolding pause
  attempts m phase policy zero attempt s =
      (raises (record { phase = some phase; retryable = true }), s)
  attempts m phase policy (suc left) attempt s =
      or_again (m s)
        (λ after. attempts m phase policy left (suc attempt) (pause policy attempt after))

  unfoldable pub retry_with_backoff :
      {A : Type 0} → Act W A → PipelinePhase → PipelineRetryPolicy → Act W A
  unfolding attempts
  retry_with_backoff m phase policy s =
      if not (is_retryable phase)
      then throw (record { phase = some phase; retryable = false }) s
      else attempts m phase policy policy.max_retries 1 s

  -- `_retryable` of the executor
  unfoldable pub retryable : {A : Type 0} → Act W A → PipelineRetryPolicy → Act W A
  unfolding retry_with_backoff
  retryable m policy s =
      if is_retryable s.run.phase then retry_with_backoff m s.run.phase policy s else m s
