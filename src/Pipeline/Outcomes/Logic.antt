-- ===== src/Pipeline/Outcomes/Logic.antt =====
-- What a coroutine ensures where it returns, and that it leaves the run alone.
use hermes_agora.Base.{ℕ, zero, suc, ◌≡◌, refl, sym, ◌∙◌, subst, inl, inr, Bool, ltb, Bool-cases}
use hermes_agora.Pipeline.Types.{
  PipelinePhase, PipelineRun, PipelineRetryPolicy, Outcome, returns, raises, Services, State, Act,
  bind, and_go, call, as_error,
}
use hermes_agora.Pipeline.Retry.{
  is_retryable, attempts, retry_with_backoff, retryable, or_again, pause,
}

module _ {W : Type 0} where
  -- What holds where it returns.
  abbrev pub Ensures : {A : Type 0} → (A → State W → Type 0) → Outcome A × State W → Type 0
  Ensures Q (returns a, s) = Q a s
  Ensures Q (raises e, s) = Unit

  and_go-Ensures :
      {A B : Type 0} (P : A → State W → Type 0) (Q : B → State W → Type 0)
      → (o : Outcome A × State W) (f : A → Act W B) → Ensures P o
      → ((a : A) (s : State W) → P a s → Ensures Q (f a s))
      → Ensures Q (and_go o f)
  and_go-Ensures P Q (returns a, s) f p h = h a s p
  and_go-Ensures P Q (raises e, s) f p h = tt

  pub bind-Ensures :
      {A B : Type 0} (P : A → State W → Type 0) (Q : B → State W → Type 0)
      → (m : Act W A) (f : A → Act W B) (s : State W) → Ensures P (m s)
      → ((a : A) (t : State W) → P a t → Ensures Q (f a t))
      → Ensures Q (bind m f s)
  bind-Ensures P Q m f s p h = and_go-Ensures P Q (m s) f p h

  trivial : {A : Type 0} (o : Outcome A × State W) → Ensures (λ _ _. Unit) o
  trivial (returns a, s) = tt
  trivial (raises e, s) = tt

  pub any-Ensures :
      {A B : Type 0} (Q : B → State W → Type 0) (m : Act W A) (f : A → Act W B) (s : State W)
      → ((a : A) (t : State W) → Ensures Q (f a t))
      → Ensures Q (bind m f s)
  any-Ensures Q m f s h = and_go-Ensures (λ _ _. Unit) Q (m s) f (trivial (m s)) (λ a t _. h a t)

  pub as_error-Ensures :
      {A : Type 0} (Q : A → State W → Type 0) (phase : PipelinePhase) (b : Bool)
      → (o : Outcome A × State W) → Ensures Q o
      → Ensures Q (as_error phase b o)
  as_error-Ensures Q phase b (returns a, s) h = h
  as_error-Ensures Q phase b (raises e, s) h = tt

  -- The run is the same after it, whether it returns or raises.
  abbrev pub Steady : {A : Type 0} → Act W A → Type 0
  Steady m = (s : State W) → (m s).1.run ≡ s.run

  and_go-Steady :
      {A B : Type 0} (o : Outcome A × State W) (f : A → Act W B)
      → ((a : A) → Steady (f a))
      → (and_go o f).1.run ≡ o.1.run
  and_go-Steady (returns a, s) f h = h a s
  and_go-Steady (raises e, s) f h = refl

  pub bind-Steady :
      {A B : Type 0} (m : Act W A) (f : A → Act W B)
      → Steady m
      → ((a : A) → Steady (f a))
      → Steady (bind m f)
  bind-Steady m f h k s = and_go-Steady (m s) f k ∙ h s

  pub call-Steady : {A : Type 0} (op : W → Outcome A × W) → Steady (call op)
  call-Steady op s = refl

  pub as_error-Steady :
      {A : Type 0} (phase : PipelinePhase) (b : Bool) (o : Outcome A × State W)
      → (as_error phase b o).1.run ≡ o.1.run
  as_error-Steady phase b (returns a, s) = refl
  as_error-Steady phase b (raises e, s) = refl

  -- What holds of the run before holds of it where nothing changes it.
  pub same_run-Ensures :
      {A : Type 0} (R : PipelineRun → Type 0) (o : Outcome A × State W) (r : PipelineRun)
      → o.1.run ≡ r
      → R r
      → Ensures (λ _ t. R t.run) o
  same_run-Ensures R (returns a, s) r e h = subst R (sym e) h
  same_run-Ensures R (raises x, s) r e h = tt

  or_again-Ensures :
      {A : Type 0} (Q : A → State W → Type 0) (o : Outcome A × State W)
      → (again : State W → Outcome A × State W) → Ensures Q o
      → ((t : State W) → Ensures Q (again t))
      → Ensures Q (or_again o again)
  or_again-Ensures Q (returns a, s) again h k = h
  or_again-Ensures Q (raises e, s) again h k = k s

  or_again-run :
      {A : Type 0} (r : PipelineRun) (o : Outcome A × State W)
      → (again : State W → Outcome A × State W) → o.1.run ≡ r
      → ((t : State W) → (again t).1.run ≡ t.run)
      → (or_again o again).1.run ≡ r
  or_again-run r (returns a, s) again h k = h
  or_again-run r (raises e, s) again h k = k s ∙ h

  pause-run :
      (sv : Services W) (policy : PipelineRetryPolicy) (attempt : ℕ) (s : State W)
      → (pause sv policy attempt s).run ≡ s.run
  unfolding pause
  pause-run sv policy attempt s = elim (Bool-cases (ltb attempt policy.max_retries)) [
    | inl e ↦ rw (pause, e) refl
    | inr e ↦ rw (pause, e) refl
  ]

  module _ (sv : Services W) (policy : PipelineRetryPolicy) {A : Type 0} (m : Act W A) where
    attempts-Ensures :
        (Q : A → State W → Type 0) (phase : PipelinePhase) (left attempt : ℕ) (s : State W)
        → ((t : State W) → Ensures Q (m t))
        → Ensures Q (attempts sv m phase policy left attempt s)
    unfolding attempts
    attempts-Ensures Q phase zero attempt s h = tt
    attempts-Ensures Q phase (suc left) attempt s h =
        or_again-Ensures Q (m s) _ (h s)
          (λ t. attempts-Ensures Q phase left (suc attempt) (pause sv policy attempt t) h)

    attempts-run :
        (phase : PipelinePhase) (left attempt : ℕ) (s : State W)
        → Steady m
        → (attempts sv m phase policy left attempt s).1.run ≡ s.run
    unfolding attempts
    attempts-run phase zero attempt s h = refl
    attempts-run phase (suc left) attempt s h = or_again-run s.run (m s) _ (h s) (λ t.
        attempts-run phase left (suc attempt) (pause sv policy attempt t) h
        ∙ pause-run sv policy attempt t)

    pub retryable-Ensures :
        (Q : A → State W → Type 0) (s : State W)
        → ((t : State W) → Ensures Q (m t))
        → Ensures Q (retryable sv m policy s)
    unfolding retryable retry_with_backoff
    retryable-Ensures Q s h = elim (Bool-cases (is_retryable s.run.phase)) [
      | inl e ↦
          rw (retryable, retry_with_backoff, e)
            (attempts-Ensures Q s.run.phase policy.max_retries 1 s h)
      | inr e ↦ rw (retryable, e) (h s)
    ]

    pub retryable-Steady : Steady m → Steady (retryable sv m policy)
    unfolding retryable retry_with_backoff
    retryable-Steady h s = elim (Bool-cases (is_retryable s.run.phase)) [
      | inl e ↦
          rw (retryable, retry_with_backoff, e) (attempts-run s.run.phase policy.max_retries 1 s h)
      | inr e ↦ rw (retryable, e) (h s)
    ]
