-- ===== src/RateLimit.antt =====
-- agora/coordinator/rate_limiter.py, class RateLimiter: how many actions of an agent one minute
-- allows. A time is a number of microseconds, read from the clock by the caller.
pub mod Stamps
pub mod Window
pub mod Quota
pub mod Bucket
pub mod Tokens
use hermes_agora.Base.{
  ℕ, ◌+◌, ◌-◌, String, ◌≡◌, Bool, true, false, Option, none, some, List, [], ◌∷◌, ◌++◌, ◌==◌, ltb,
  leb, if◌then◌else◌, length, keep,
}
use hermes_agora.Base.Dict
use hermes_agora.Base.Dict.{Dict}

pub record RateLimiter : Type 0 where
  pub rate_limit_speak : ℕ
  pub rate_limit_vote : ℕ
  pub counts : Dict (Dict (List ℕ))

-- `self._limits.get(action)`
abbrev pub limit_of : String → RateLimiter → Option ℕ
limit_of action l =
    if action == "speak"
    then some l.rate_limit_speak
    else if action == "vote"
    then some l.rate_limit_vote
    else none

abbrev pub minute : ℕ
minute = 60000000

-- `t > cutoff`, with the cutoff one minute before `now`
abbrev pub is_recent : ℕ → ℕ → Bool
is_recent now t = ltb now (t + minute)

-- `self._counts[agent_id][action]`, where both levels start empty
unfoldable pub stamps : String → String → RateLimiter → List ℕ
unfolding Dict.get
stamps agent action l = Dict.get_or action [] (Dict.get_or agent [] l.counts)

unfoldable pub set_stamps : String → String → List ℕ → RateLimiter → RateLimiter
unfolding Dict.get Dict.put
set_stamps agent action ts l = record l {
  counts = Dict.put agent (Dict.put action ts (Dict.get_or agent [] l.counts)) l.counts;
}

-- The clock is read at the start, for the window, and again for the stamp of an allowed action.
unfoldable pub check_rate : ℕ → ℕ → String → String → RateLimiter → RateLimiter × Bool
unfolding stamps set_stamps
check_rate now later agent action l = elim (limit_of action l) [
  | none ↦ (l, true)
  | some limit ↦
      let timestamps = keep (is_recent now) (stamps agent action l) in
      if leb limit (length timestamps)
      then (set_stamps agent action timestamps l, false)
      else (set_stamps agent action (timestamps ++ later ∷ []) l, true)
]

abbrev limit_or_zero : Option ℕ → ℕ
limit_or_zero none = 0
limit_or_zero (some limit) = limit

unfoldable pub get_remaining : ℕ → String → String → RateLimiter → RateLimiter × ℕ
unfolding stamps set_stamps
get_remaining now agent action l =
    let timestamps = keep (is_recent now) (stamps agent action l) in
    (set_stamps agent action timestamps l, limit_or_zero (limit_of action l) - length timestamps)

unfoldable pub reset : String → RateLimiter → RateLimiter
unfolding Dict.del
reset agent l = record l { counts = Dict.del agent l.counts }
