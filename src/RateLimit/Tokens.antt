-- ===== src/RateLimit/Tokens.antt =====
-- agora/coordinator/token_rate_limiter.py: a bucket for each agent with a limit. A limit is a number
-- of tokens in a minute, zero for none; a burst factor is a number of millionths. The status report
-- of an agent, which formats quotients, is left out.
pub mod Shares
use hermes_agora.Base.{
  ℕ, zero, ◌*◌, String, ◌≡◌, Bool, true, Option, none, some, leb, if◌then◌else◌,
}
use hermes_agora.Base.Dict
use hermes_agora.Base.Int.{ℤ}
use hermes_agora.Base.Dict.{Dict}
use hermes_agora.RateLimit.Bucket.{
  TokenBucket, new_bucket, consume, Wait, none_at_all, time_until_available,
}

-- `self._buckets`
abbrev pub Buckets : Type 0
Buckets = Dict TokenBucket

unfoldable pub remove : String → Buckets → Buckets
unfolding Dict.del
remove agent buckets = Dict.del agent buckets

-- the tokens of a minute, times the burst factor, in units of a bucket
abbrev pub capacity_of : ℕ → ℕ → ℕ
capacity_of tpm_limit burst_factor = tpm_limit * burst_factor * 60

abbrev pub configured : ℕ → ℕ → ℕ → Option TokenBucket → TokenBucket
unfolding new_bucket
configured now tpm_limit burst_factor none =
    new_bucket now (capacity_of tpm_limit burst_factor) tpm_limit
configured now tpm_limit burst_factor (some existing) = record existing {
  capacity = capacity_of tpm_limit burst_factor;
  refill_rate = tpm_limit;
}

unfoldable pub configure : ℕ → String → ℕ → ℕ → Buckets → Buckets
unfolding remove configured Dict.put Dict.get
configure now agent tpm_limit burst_factor buckets =
    if leb tpm_limit 0
    then remove agent buckets
    else Dict.put agent (configured now tpm_limit burst_factor (Dict.get agent buckets)) buckets

unfoldable pub consume_tokens : ℕ → String → ℤ → Buckets → Buckets × Bool
unfolding consume Dict.get Dict.put
consume_tokens now agent tokens buckets = elim (Dict.get agent buckets) [
  | none ↦ (buckets, true)
  | some bucket ↦
      let (after, granted) = consume now tokens bucket in (Dict.put agent after buckets, granted)
]

unfoldable pub wait_for : ℕ → String → ℕ → Buckets → Buckets × Wait
unfolding time_until_available Dict.get Dict.put
wait_for now agent needed buckets = elim (Dict.get agent buckets) [
  | none ↦ (buckets, none_at_all)
  | some bucket ↦
      let (after, wait) = time_until_available now needed bucket in
      (Dict.put agent after buckets, wait)
]
