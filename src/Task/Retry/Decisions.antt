-- ===== src/Task/Retry/Decisions.antt =====
-- What the handling of a failure decides, and what a retry writes.
use hermes_agora.Base.{ℕ, ◌*◌, ◌^◌, ◌<◌, min, String, ◌≡◌, ◌≢◌, ◌⊎◌, some}
use hermes_agora.Base.Int.{ℤ, pos, negsuc}
use hermes_agora.Task.Store.{Task, get_task}
use hermes_agora.Task.World.{World}
use hermes_agora.Task.Retry.{fixed, exponential, RetryPolicy}

-- A negative maximum is no limit; else fewer retries than the maximum were made.
abbrev pub IsRetriable : ℕ → ℤ → Type 0
IsRetriable retries (pos most) = retries < most
IsRetriable retries (negsuc n) = Unit

-- The delay in milliseconds before a retry: the initial one, or the initial one doubled with each
-- retry made, up to a minute.
abbrev pub IsDelay : RetryPolicy → ℕ → ℕ → Type 0
IsDelay policy retries delay =
    ((policy.backoff_strategy ≡ fixed) × (delay ≡ policy.initial_delay))
    ⊎ ((policy.backoff_strategy ≡ exponential)
        × (delay ≡ min (policy.initial_delay * 2 ^ retries) 60000))

-- The task is in the table, and has a graph.
abbrev pub HasGraph : String → World → Type 0
HasGraph k w = (t : Task) × (get_task k w.tasks ≡ some t) × (t.graph_id ≢ "")
