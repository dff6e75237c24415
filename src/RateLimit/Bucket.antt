-- ===== src/RateLimit/Bucket.antt =====
-- agora/coordinator/rate_limiter.py, class TokenBucket. A time is a number of microseconds. An
-- amount of tokens is counted in units of one 60,000,000th of a token, so that the refill rate of a
-- limit of n tokens in a minute is n units in a microsecond. The lock of the class is left out: a
-- call runs to its end.
pub mod Spending
pub mod Waiting
use hermes_agora.Base.{ℕ, suc, ◌+◌, ◌-◌, ◌*◌, min, ◌≡◌, Bool, true, false, leb, if◌then◌else◌}
use hermes_agora.Base.Int.{ℤ, pos, negsuc}

pub record TokenBucket : Type 0 where
  pub capacity : ℕ
  pub refill_rate : ℕ
  pub tokens : ℕ
  pub last_refill : ℕ

abbrev pub token : ℕ
token = 60000000

-- the constructor, with `__post_init__`
unfoldable pub new_bucket : ℕ → ℕ → ℕ → TokenBucket
new_bucket now capacity refill_rate = record {
  capacity = capacity;
  refill_rate = refill_rate;
  tokens = capacity;
  last_refill = now;
}

unfoldable pub refill : ℕ → TokenBucket → TokenBucket
refill now b = record b {
  tokens = min b.capacity (b.tokens + (now - b.last_refill) * b.refill_rate);
  last_refill = now;
}

-- `if self._tokens >= count: self._tokens -= count`; a negative count is always granted, and adds
-- to the tokens
abbrev pub take_out : ℤ → TokenBucket → TokenBucket × Bool
take_out (pos count) b =
    if leb (count * token) b.tokens
    then (record b { tokens = b.tokens - count * token }, true)
    else (b, false)
take_out (negsuc count) b = (record b { tokens = b.tokens + suc count * token }, true)

unfoldable pub consume : ℕ → ℤ → TokenBucket → TokenBucket × Bool
unfolding refill
consume now count b = take_out count (refill now b)

unfoldable pub available : ℕ → TokenBucket → TokenBucket × ℕ
unfolding refill
available now b = (refill now b, (refill now b).tokens)

-- The seconds until enough tokens are there; a quotient is the pair of its parts, the missing units
-- and the units in a microsecond.
pub data Wait : Type 0 where
  none_at_all : Wait
  forever : Wait
  quotient : (missing rate : ℕ) → Wait

unfoldable pub time_until_available : ℕ → ℕ → TokenBucket → TokenBucket × Wait
unfolding available
time_until_available now needed b =
    let (after, there) = available now b in
    if leb (needed * token) there
    then (after, none_at_all)
    else if leb after.refill_rate 0
    then (after, forever)
    else (after, quotient (needed * token - there) after.refill_rate)
