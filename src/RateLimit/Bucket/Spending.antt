-- ===== src/RateLimit/Bucket/Spending.antt =====
-- How much a bucket gives out over time.
use hermes_agora.Base.{
  suc, refl, sym, subst, inr, inl, leb, Bool-cases, ℕ, ◌+◌, ◌-◌, ◌*◌, ◌≤◌, ◌≡◌, List, [], ◌∷◌,
  arith, if◌then◌else◌,
}
use hermes_agora.Base.Int.{ℤ, pos, negsuc}
use hermes_agora.RateLimit.Bucket.{TokenBucket, token, new_bucket, refill, consume}

-- Calls of `consume`, each with its time and the tokens that it asks for.
abbrev pub Requests : Type 0
Requests = List (ℕ × ℤ)

-- the units that a request asks for, and the units that a request for a negative count puts in
abbrev pub asked : ℤ → ℕ
asked (pos count) = count * token
asked (negsuc count) = 0

abbrev pub put_in : ℤ → ℕ
put_in (pos count) = 0
put_in (negsuc count) = suc count * token

abbrev pub all_put_in : Requests → ℕ
all_put_in [] = 0
all_put_in ((now, count) ∷ calls) = put_in count + all_put_in calls

-- The bucket after the calls, and the units that they were given.
unfoldable pub spend : Requests → TokenBucket → ℕ → TokenBucket × ℕ
unfolding consume
spend [] b given = (b, given)
spend ((now, count) ∷ calls) b given =
    let (after, granted) = consume now count b in
    spend calls after (if granted then given + asked count else given)

-- The clock does not run backwards, up to the time `c`.
abbrev pub IsOrdered : ℕ → ℕ → Requests → Type 0
IsOrdered c t [] = t ≤ c
IsOrdered c t ((now, _) ∷ calls) = (t ≤ now) × IsOrdered c now calls

refill-le :
    (now : ℕ) (b : TokenBucket)
    → ((refill now b).tokens ≤ b.tokens + (now - b.last_refill) * b.refill_rate)
      × ((refill now b).tokens ≤ b.capacity)
unfolding refill
refill-le now b = omega arith

consume-le :
    (now : ℕ) (count : ℤ) (b : TokenBucket)
    → let (after, granted) = consume now count b in
      ((if granted then asked count else 0) + after.tokens
        ≤ put_in count + b.tokens + (now - b.last_refill) * b.refill_rate)
      × (after.refill_rate ≡ b.refill_rate)
      × (after.last_refill ≡ now)
unfolding consume
consume-le now (negsuc count) b = unfold consume in (omega (arith, refill-le now b), refl, refl)
consume-le now (pos count) b = elim (Bool-cases (leb (count * token) (refill now b).tokens)) [
  | inl e ↦ rw (consume, e) (ground (arith, e, refill-le now b))
  | inr e ↦ rw (consume, e) (ground (arith, refill-le now b))
]

-- Two spans of time one after the other refill as much as the whole.
spans : (a b c r : ℕ) → a ≤ b → b ≤ c → (b - a) * r + (c - b) * r ≡ (c - a) * r
spans a b c r h k = grind arith

ends-le : (c t : ℕ) (calls : Requests) → IsOrdered c t calls → t ≤ c
ends-le c t [] h = h
ends-le c t ((now, _) ∷ calls) h = omega (arith, ends-le c now calls h.1)

pub spend-le :
    (c : ℕ) (calls : Requests) (b : TokenBucket) (given : ℕ)
    → IsOrdered c b.last_refill calls
    → (spend calls b given).1
      ≤ given + b.tokens + (c - b.last_refill) * b.refill_rate + all_put_in calls
unfolding spend
spend-le c [] b given h = omega arith
spend-le c ((now, count) ∷ calls) b given h =
    let (paid, rate, at) = consume-le now count b in
    let after = (consume now count b).0 in
    let granted = (consume now count b).1 in
    let rest =
      spend-le c calls after (if granted then given + asked count else given)
        (subst (λ x. IsOrdered c x calls) (sym at) h.1) in
    let same : (c - after.last_refill) * after.refill_rate ≡ (c - now) * b.refill_rate =
      rw (at, rate) refl in
    ground (arith, paid, rest, same, spans b.last_refill now c b.refill_rate, ends-le c now calls)

-- A fresh bucket gives out at most its capacity, what the rate refills, and what requests for
-- negative counts put in.
pub spending_bound :
    (t c capacity rate : ℕ) (calls : Requests)
    → IsOrdered c t calls
    → (spend calls (new_bucket t capacity rate) 0).1 ≤ capacity + rate * (c - t) + all_put_in calls
unfolding new_bucket
spending_bound t c capacity rate calls h =
    grind (arith, spend-le c calls (new_bucket t capacity rate) 0 h)
