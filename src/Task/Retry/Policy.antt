-- ===== src/Task/Retry/Policy.antt =====
-- How often and after what delay a failed task is tried again.
use hermes_agora.Base.{◌<◌, ◌↔◌, true, ℕ, suc, ◌*◌, ◌^◌, ◌≤◌, min, max, ◌≡◌, refl, arith}
use hermes_agora.Base.Int.{pos, negsuc}
use hermes_agora.Task.Retry.{RetryPolicy, BackoffStrategy, fixed, exponential, get_delay, can_retry}
use native.Mathlib.Nat.{pow-suc}

-- The delay before a retry never falls from one attempt to the next and never exceeds the larger
-- of one minute and the initial delay; an exponential delay doubles until it reaches a minute.
pub get_delay_bounds :
    (policy : RetryPolicy) (attempt : ℕ)
    → (get_delay policy attempt ≤ get_delay policy (suc attempt))
      × (get_delay policy attempt ≤ max policy.initial_delay 60000)
      × (policy.backoff_strategy ≡ exponential
          → get_delay policy (suc attempt) ≡ min (2 * get_delay policy attempt) 60000)
unfolding get_delay
get_delay_bounds policy attempt = go policy.backoff_strategy refl
  where
    doubled : policy.initial_delay * 2 ^ suc attempt ≡ 2 * (policy.initial_delay * 2 ^ attempt)
    doubled = rw pow-suc (omega arith)

    go :
        (b : BackoffStrategy)
        → policy.backoff_strategy ≡ b
        → (get_delay policy attempt ≤ get_delay policy (suc attempt))
          × (get_delay policy attempt ≤ max policy.initial_delay 60000)
          × (policy.backoff_strategy ≡ exponential
              → get_delay policy (suc attempt) ≡ min (2 * get_delay policy attempt) 60000)
    go fixed e = ground (arith, e)
    go exponential e = ground (arith, e, doubled)

-- A policy with a maximum allows a retry exactly while fewer retries were made; a policy with a
-- negative maximum always allows it.
pub can_retry_exact :
    (strategy : BackoffStrategy) (delay most retries : ℕ)
    → ((can_retry
            (record { max_retries = pos most; backoff_strategy = strategy; initial_delay = delay })
            retries
          ≡ true)
        ↔ (retries < most))
      × (can_retry
            (record {
              max_retries = negsuc most;
              backoff_strategy = strategy;
              initial_delay = delay;
            })
            retries
          ≡ true)
unfolding can_retry
can_retry_exact strategy delay most retries = ground arith
