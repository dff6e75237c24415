-- ===== src/RateLimit/Tokens/Shares.antt =====
-- What one agent is given while all agents consume.
use hermes_agora.Base.{
  eq_refl, Bool, arith, leb, ap, ℕ, ◌+◌, ◌-◌, ◌*◌, ◌≤◌, ◌<◌, String, ◌≡◌, refl, ◌∙◌, inl, inr,
  false, none, some, List, [], ◌∷◌, ◌==◌, if◌then◌else◌, Option-cases, text-cases,
}
use hermes_agora.Base.Dict
use hermes_agora.Base.Int.{ℤ}
use hermes_agora.RateLimit.Bucket.{TokenBucket, new_bucket, consume}
use hermes_agora.RateLimit.Bucket.Spending.{asked, all_put_in, Requests, spend, IsOrdered, spend-le}
use hermes_agora.RateLimit.Tokens.{Buckets, capacity_of, configure, consume_tokens}

-- Calls of `consume`, each with its time, its agent and the tokens that it asks for.
abbrev pub Calls : Type 0
Calls = List (ℕ × String × ℤ)

-- what a call adds to the units of the agent `k`
unfoldable pub given_to : String → String → ℤ → Bool → ℕ
given_to k agent count granted = if agent == k then (if granted then asked count else 0) else 0

-- A run of calls, with the units that the agent `k` was given.
unfoldable pub serve : String → Calls → Buckets → ℕ → Buckets × ℕ
unfolding consume_tokens given_to
serve k [] buckets given = (buckets, given)
serve k ((now, agent, count) ∷ calls) buckets given =
    let (after, granted) = consume_tokens now agent count buckets in
    serve k calls after (given + given_to k agent count granted)

abbrev pub calls_of : String → Calls → Requests
calls_of k [] = []
calls_of k ((now, agent, count) ∷ calls) =
    let rest = calls_of k calls in if agent == k then (now, count) ∷ rest else rest

consume_tokens-found :
    (now : ℕ) (count : ℤ) (k : String) (b : TokenBucket) (buckets : Buckets)
    → Dict.get k buckets ≡ some b
    → consume_tokens now k count buckets
      ≡ (Dict.put k (consume now count b).0 buckets, (consume now count b).1)
unfolding consume_tokens
consume_tokens-found now count k b buckets e = rw (consume_tokens, e) refl

consume_tokens-other :
    (now : ℕ) (count : ℤ) (k j : String) (buckets : Buckets)
    → (j == k) ≡ false
    → Dict.get k (consume_tokens now j count buckets).0 ≡ Dict.get k buckets
unfolding consume_tokens
consume_tokens-other now count k j buckets h = elim (Option-cases (Dict.get j buckets)) [
  | inl e ↦ rw (consume_tokens, e) refl
  | inr (b, e) ↦ rw (consume_tokens, e, Dict.get-put j k (consume now count b).0 buckets, h) refl
]

-- For its agent the limiter is the bucket of the agent alone.
serve-spend :
    (k : String) (calls : Calls) (b : TokenBucket) (buckets : Buckets) (given : ℕ)
    → Dict.get k buckets ≡ some b
    → (serve k calls buckets given).1 ≡ (spend (calls_of k calls) b given).1
unfolding serve spend
serve-spend k [] b buckets given e = refl
serve-spend k ((now, agent, count) ∷ calls) b buckets given e = elim (text-cases agent k) [
  | inl (t, same) ↦
      let found : Dict.get agent buckets ≡ some b = rw same e in
      let after = (consume now count b).0 in
      let granted = (consume now count b).1 in
      let paid : given + given_to k agent count granted
          ≡ (if granted then given + asked count else given) =
        unfold given_to in ground (arith, t) in
      rw t (
        ap (λ (r : Buckets × Bool). (serve k calls r.0 (given + given_to k agent count r.1)).1)
          (consume_tokens-found now count agent b buckets found)
        ∙ rw paid (
            serve-spend k calls after (Dict.put agent after buckets)
              (if granted then given + asked count else given)
              (rw (Dict.get-put agent k after buckets, t) refl)))
  | inr (t, _) ↦
      let (after, granted) = consume_tokens now agent count buckets in
      let paid : given + given_to k agent count granted ≡ given =
        unfold given_to in ground (arith, t) in
      rw t (
        ap (λ (n : ℕ). (serve k calls after n).1) paid
        ∙ serve-spend k calls b after given (consume_tokens-other now count k agent buckets t ∙ e))
]

-- From the time at which an agent without a bucket is given a limit, and while the clock never
-- runs backwards up to some time, the tokens that the agent is granted are at most the capacity,
-- what the rate refills in that span, and what the negative counts that the agent itself reports
-- put in, whatever other agents consume.
pub share_bound :
    (k : String) (t c tpm_limit burst_factor : ℕ) (buckets : Buckets) (calls : Calls)
    → 0 < tpm_limit
    → Dict.get k buckets ≡ none
    → IsOrdered c t (calls_of k calls)
    → (serve k calls (configure t k tpm_limit burst_factor buckets) 0).1
      ≤ tpm_limit * burst_factor * 60 + tpm_limit * (c - t) + all_put_in (calls_of k calls)
unfolding configure new_bucket
share_bound k t c tpm_limit burst_factor buckets calls h free o =
    let b = new_bucket t (capacity_of tpm_limit burst_factor) tpm_limit in
    let fresh : configure t k tpm_limit burst_factor buckets ≡ Dict.put k b buckets =
      let positive : leb tpm_limit 0 ≡ false = ground arith in
      rw (configure, positive, free) refl in
    let found : Dict.get k (Dict.put k b buckets) ≡ some b =
      rw (Dict.get-put k k b buckets, eq_refl k) refl in
    let same = serve-spend k calls b (Dict.put k b buckets) 0 found in
    let bound = spend-le c (calls_of k calls) b 0 o in rw (fresh, same) (grind (arith, bound))
