-- ===== src/RateLimit/Window.antt =====
-- The sliding window: what a run of calls grants in one minute.
use hermes_agora.Base.{
  count_if-le-length, Option, Bool, Option-cases, eq_iff, none, sym, ap, ◌∙◌, subst, length-append,
  false, true, length-keep-le, Bool-cases, leb, inr, length, inl, some, ℕ, ◌+◌, ◌≤◌, String, ◌≡◌,
  refl, ◌&&◌, List, [], ◌∷◌, ◌++◌, arith, ◌==◌, if◌then◌else◌, keep,
}
use hermes_agora.RateLimit.Stamps.{
  stamps-set_stamps, in_window, in_window-keep, in_window-append, check-free, check-full,
  check-open,
}
use hermes_agora.RateLimit.{
  RateLimiter, limit_of, is_recent, stamps, set_stamps, check_rate, get_remaining,
}

pub data Call : Type 0 where
  check : (now later : ℕ) (agent action : String) → Call
  remaining : (now : ℕ) (agent action : String) → Call

module _ (a x : String) where
  -- A run of calls, with the stamps of the actions `x` of the agent `a` that it allowed.
  unfoldable pub run : List Call → RateLimiter → List ℕ → RateLimiter × List ℕ
  unfolding check_rate get_remaining
  run [] l log = (l, log)
  run (check now later b y ∷ calls) l log =
      let (after, allowed) = check_rate now later b y l in
      run calls after (if allowed && (b == a && y == x) then log ++ later ∷ [] else log)
  run (remaining now b y ∷ calls) l log = run calls (get_remaining now b y l).0 log

-- The clock does not run backwards: every reading is at least the one before it, up to `c`.
abbrev pub IsOrdered : ℕ → ℕ → List Call → Type 0
IsOrdered c t [] = t ≤ c
IsOrdered c t (check now later b y ∷ calls) = (t ≤ now) × (now ≤ later) × IsOrdered c later calls
IsOrdered c t (remaining now b y ∷ calls) = (t ≤ now) × IsOrdered c now calls

some_not_none : {o : Option ℕ} {n : ℕ} → o ≡ some n → o ≡ none → ⊥
some_not_none f g = cc (f, g)

module _ (a x : String) (n : ℕ) where
  -- Stamps stand for the log in every window from `t` on, and are within the limit.
  abbrev Fits : ℕ → List ℕ → List ℕ → Type 0
  Fits t log ts = (length ts ≤ n) × ((c : ℕ) → t ≤ c → in_window c log ≡ in_window c ts)

  abbrev pub Stands : ℕ → List ℕ → RateLimiter → Type 0
  Stands t log l = (limit_of x l ≡ some n) × Fits t log (stamps a x l)

  Fits-keep :
      (t now : ℕ) (log ts : List ℕ)
      → t ≤ now
      → Fits t log ts
      → Fits now log (keep (is_recent now) ts)
  Fits-keep t now log ts h (bound, same) = (
    omega (arith, length-keep-le (is_recent now) ts),
    λ c le. same c (omega arith) ∙ sym (in_window-keep now c ts le),
  )

  Fits-append :
      (now later : ℕ) (log ts : List ℕ)
      → now ≤ later
      → leb n (length ts) ≡ false
      → Fits now log ts
      → Fits later (log ++ later ∷ []) (ts ++ later ∷ [])
  Fits-append now later log ts h free (bound, same) = (
    ground (arith, length-append ts (later ∷ [])),
    λ c le.
        in_window-append c later log
        ∙ (ap (λ k. k + in_window c (later ∷ [])) (same c (omega arith))
            ∙ sym (in_window-append c later ts)),
  )

  -- What a call stores for the agent and the action, and for another pair.
  Stands-hit :
      (t : ℕ) (b y : String) (log ts : List ℕ) (l : RateLimiter)
      → (b == a && y == x) ≡ true
      → limit_of x l ≡ some n
      → Fits t log ts
      → Stands t log (set_stamps b y ts l)
  unfolding set_stamps
  Stands-hit t b y log ts l hit limit fits =
      (limit, subst (Fits t log) (sym (stamps-set_stamps b a y x ts l ∙ rw hit refl)) fits)

  Stands-miss :
      (t now : ℕ) (b y : String) (log ts : List ℕ) (l : RateLimiter)
      → t ≤ now
      → (b == a && y == x) ≡ false
      → Stands t log l
      → Stands now log (set_stamps b y ts l)
  unfolding set_stamps
  Stands-miss t now b y log ts l h miss (limit, (bound, same)) = (
    limit,
    subst (Fits now log) (sym (stamps-set_stamps b a y x ts l ∙ rw miss refl))
        (bound, λ c le. same c (omega arith)),
  )

  hit_pair : (b y : String) → (b == a && y == x) ≡ true → (b ≡ a) × (y ≡ x)
  hit_pair b y h = ground (arith, h, eq_iff b a, eq_iff y x)

  Fits-hit :
      (t now : ℕ) (b y : String) (log : List ℕ) (l : RateLimiter)
      → t ≤ now
      → (b == a && y == x) ≡ true
      → Stands t log l
      → Fits now log (keep (is_recent now) (stamps b y l))
  Fits-hit t now b y log l h hit (_, fits) =
      let (same_agent, same_action) = hit_pair b y hit in
      rw (same_agent, same_action) (Fits-keep t now log (stamps a x l) h fits)

  Stands-kept :
      (t now : ℕ) (b y : String) (log : List ℕ) (l : RateLimiter)
      → t ≤ now
      → Stands t log l
      → Stands now log (set_stamps b y (keep (is_recent now) (stamps b y l)) l)
  Stands-kept t now b y log l h s = elim (Bool-cases (b == a && y == x)) [
    | inl hit ↦
        Stands-hit now b y log (keep (is_recent now) (stamps b y l)) l hit s.0
          (Fits-hit t now b y log l h hit s)
    | inr miss ↦ Stands-miss t now b y log (keep (is_recent now) (stamps b y l)) l h miss s
  ]

  -- What a check leaves, and the log after it.
  abbrev After : ℕ → String → String → List ℕ → RateLimiter × Bool → Type 0
  After later b y log r =
      Stands later (if r.1 && (b == a && y == x) then log ++ later ∷ [] else log) r.0

  Stands-later :
      (t now : ℕ) (log : List ℕ) (l : RateLimiter) → t ≤ now → Stands t log l → Stands now log l
  Stands-later t now log l h (limit, (bound, same)) = (limit, (bound, λ c le. same c (omega arith)))

  Stands-check_rate :
      (t now later : ℕ) (b y : String) (log : List ℕ) (l : RateLimiter)
      → t ≤ now
      → now ≤ later
      → Stands t log l
      → After later b y log (check_rate now later b y l)
  Stands-check_rate t now later b y log l h i s = elim (Option-cases (limit_of y l)) [
    | inl e ↦
        subst (After later b y log) (sym (check-free now later b y l e))
          (elim (Bool-cases (b == a && y == x)) [
            | inl hit ↦ absurd (
                some_not_none (subst (λ z. limit_of z l ≡ some n) (sym (hit_pair b y hit).1) s.0) e)
            | inr miss ↦ rw miss (Stands-later t later log l (omega arith) s)
          ])
    | inr (m, e) ↦ elim (Bool-cases (leb m (length kept))) [
      | inl f ↦
          subst (After later b y log) (sym (check-full now later b y l m e f))
            (Stands-later now later log _ i (Stands-kept t now b y log l h s))
      | inr f ↦
          subst (After later b y log) (sym (check-open now later b y l m e f))
            (elim (Bool-cases (b == a && y == x)) [
              | inl hit ↦ rw hit (
                  Stands-hit later b y (log ++ later ∷ []) (kept ++ later ∷ []) l hit s.0 (
                    Fits-append now later log kept i
                      (subst (λ z. leb z (length kept) ≡ false) (limit_is m e hit) f)
                      (Fits-hit t now b y log l h hit s)))
              | inr miss ↦
                  rw miss (Stands-miss t later b y log (kept ++ later ∷ []) l (omega arith) miss s)
            ])
    ]
  ]
    where
      kept : List ℕ
      kept = keep (is_recent now) (stamps b y l)

      limit_is : (m : ℕ) → limit_of y l ≡ some m → (b == a && y == x) ≡ true → m ≡ n
      limit_is m e hit =
          let here : limit_of y l ≡ some n =
            subst (λ z. limit_of z l ≡ some n) (sym (hit_pair b y hit).1) s.0 in
          cc (here, e)

  run-Stands :
      (t c : ℕ) (calls : List Call) (log : List ℕ) (l : RateLimiter)
      → IsOrdered c t calls
      → Stands t log l
      → Stands c (run a x calls l log).1 (run a x calls l log).0
  unfolding run
  run-Stands t c [] log l h s = Stands-later t c log l h s
  run-Stands t c (check now later b y ∷ calls) log l (h, i, o) s =
      run-Stands later c calls _ _ o (Stands-check_rate t now later b y log l h i s)
  run-Stands t c (remaining now b y ∷ calls) log l (h, o) s =
      run-Stands now c calls log _ o (unfold get_remaining in Stands-kept t now b y log l h s)

  -- Start from a limiter without stamps and let any agents check or query any actions, while the
  -- clock never runs backwards: at no later time does the minute before it hold more allowed
  -- actions of one limited kind of an agent than the limit of the kind.
  pub window_within_limit :
      (c : ℕ) (calls : List Call) (speak vote : ℕ)
      → limit_of x (record { rate_limit_speak = speak; rate_limit_vote = vote; counts = [] })
        ≡ some n
      → IsOrdered c 0 calls
      → in_window c
          (run a x calls
            (record { rate_limit_speak = speak; rate_limit_vote = vote; counts = [] })
            []).1
        ≤ n
  unfolding stamps
  window_within_limit c calls speak vote limit o =
      let start : RateLimiter = record {
        rate_limit_speak = speak;
        rate_limit_vote = vote;
        counts = [];
      } in
      let (_, (bound, same)) =
        run-Stands 0 c calls [] start o (limit, (omega arith, λ _ _. refl)) in
      omega (
        arith,
        same c (omega arith),
        count_if-le-length (is_recent c) (stamps a x (run a x calls start []).0),
      )
