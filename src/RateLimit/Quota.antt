-- ===== src/RateLimit/Quota.antt =====
-- The remaining quota against the check.
use hermes_agora.Base.{
  ℕ, ◌-◌, String, ◌≡◌, refl, sym, ap, ◌∙◌, ◌↔◌, inl, inr, true, false, false≢true, some, List,
  arith, leb, Bool-cases, length, keep,
}
use hermes_agora.RateLimit.{RateLimiter, limit_of, is_recent, stamps, check_rate, get_remaining}
use hermes_agora.RateLimit.Stamps.{check-full, check-open}

remaining-zero : (n m : ℕ) → (n - m ≡ 0) ↔ (leb n m ≡ true)
remaining-zero n m = ground arith

get_remaining_limit :
    (now n : ℕ) (a y : String) (l : RateLimiter)
    → limit_of y l ≡ some n
    → (get_remaining now a y l).1 ≡ n - length (keep (is_recent now) (stamps a y l))
unfolding get_remaining
get_remaining_limit now n a y l e = rw (get_remaining, e) refl

-- For an action with a limit, the remaining quota is zero exactly where a check at the same time
-- is refused.
pub get_remaining_exact :
    (now later n : ℕ) (a y : String) (l : RateLimiter)
    → limit_of y l ≡ some n
    → ((get_remaining now a y l).1 ≡ 0) ↔ ((check_rate now later a y l).1 ≡ false)
get_remaining_exact now later n a y l e =
    let r = get_remaining_limit now n a y l e in
    elim (Bool-cases (leb n (length kept))) [
      | inl f ↦ (
        λ _. ap (λ x. x.1) (check-full now later a y l n e f),
        λ _. r ∙ (remaining-zero n (length kept)).1 f,
      )
      | inr f ↦ (
        λ h. absurd (false≢true (sym f ∙ (remaining-zero n (length kept)).0 (sym r ∙ h))),
        λ h. absurd (false≢true (sym h ∙ ap (λ x. x.1) (check-open now later a y l n e f))),
      )
    ]
  where
    kept : List ℕ
    kept = keep (is_recent now) (stamps a y l)
