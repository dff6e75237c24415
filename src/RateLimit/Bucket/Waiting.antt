-- ===== src/RateLimit/Bucket/Waiting.antt =====
-- Whether the waiting time that a bucket names is enough.
use hermes_agora.Base.{
  inr, inl, leb, Bool-cases, ℕ, ◌-◌, ◌*◌, ◌≤◌, ◌<◌, ◌≡◌, ◌↔◌, true, false, arith,
}
use hermes_agora.Base.Int.{pos}
use hermes_agora.RateLimit.Bucket.{
  TokenBucket, token, refill, consume, none_at_all, forever, quotient, time_until_available,
}

-- The wait that a bucket names for what fits into it is enough, and not more than that.
pub waiting_exact :
    (now later needed : ℕ) (b : TokenBucket)
    → needed * token ≤ b.capacity
    → let (after, wait) = time_until_available now needed b in
      (wait ≡ none_at_all → (consume now (pos needed) after).1 ≡ true)
      × (wait ≡ forever → (consume later (pos needed) after).1 ≡ false)
      × ((missing rate : ℕ)
          → wait ≡ quotient missing rate
          → ((consume later (pos needed) after).1 ≡ true) ↔ (missing ≤ (later - now) * rate))
unfolding time_until_available consume
waiting_exact now later needed b fits = elim (Bool-cases (leb (needed * token) there)) [
  | inl e ↦
      rw (time_until_available, e)
        (λ _. ground (arith, e), λ h. absurd (cc h), λ m r h. absurd (cc h))
  | inr e ↦ elim (Bool-cases (leb b.refill_rate 0)) [
    | inl f ↦
        rw (time_until_available, e, f)
          (λ h. absurd (cc h), λ _. ground (arith, e, f), λ m r h. absurd (cc h))
    | inr f ↦
        rw (time_until_available, e, f)
          (
            λ h. absurd (cc h),
            λ h. absurd (cc h),
            λ m r h.
                let p : needed * token - there ≡ m = cc h in
                let q : b.refill_rate ≡ r = cc h in rw (← p, ← q) (ground (arith, e, fits)),
          )
  ]
]
  where
    there : ℕ
    there = (refill now b).tokens

-- What exceeds the capacity is never granted, though a finite wait is named for it.
pub oversized_never_granted :
    (now needed : ℕ) (b : TokenBucket)
    → b.capacity < needed * token
    → (consume now (pos needed) b).1 ≡ false
unfolding consume
oversized_never_granted now needed b h = ground arith
