-- ===== src/RateLimit/Stamps.antt =====
-- What a call stores, and how a window counts the stored stamps.
use hermes_agora.Base.{
  ℕ, ◌+◌, ◌≤◌, String, ◌≡◌, refl, inl, inr, true, false, ◌&&◌, none, some, List, [], ◌∷◌, ◌++◌,
  arith, ◌==◌, eq_refl, leb, if◌then◌else◌, text-cases, length, keep, count_if,
}
use hermes_agora.Base.Dict
use hermes_agora.RateLimit.{RateLimiter, limit_of, is_recent, stamps, set_stamps, check_rate}

-- Stamps that are set are read back, and those of another agent or action are kept.
pub stamps-set_stamps :
    (a b x y : String) (ts : List ℕ) (l : RateLimiter)
    → stamps b y (set_stamps a x ts l) ≡ (if a == b && x == y then ts else stamps b y l)
unfolding stamps set_stamps
stamps-set_stamps a b x y ts l = elim (text-cases a b) [
  | inl (_, same) ↦
      rw
        (
          same,
          Dict.get_or-put b b (Dict.put x ts (Dict.get_or b [] l.counts)) [] l.counts,
          eq_refl b,
        )
        (Dict.get_or-put x y ts [] (Dict.get_or b [] l.counts))
  | inr (t, _) ↦
      rw (Dict.get_or-put a b (Dict.put x ts (Dict.get_or a [] l.counts)) [] l.counts, t) refl
]

-- How many stamps lie in the minute before a time.
abbrev pub in_window : ℕ → List ℕ → ℕ
in_window c ts = count_if (is_recent c) ts

-- What one minute no longer sees, a later one does not see either.
pub in_window-keep :
    (now c : ℕ) (ts : List ℕ) → now ≤ c → in_window c (keep (is_recent now) ts) ≡ in_window c ts
in_window-keep now c [] h = refl
in_window-keep now c (t ∷ ts) h = ground (arith, in_window-keep now c ts h)

pub in_window-append :
    (c t : ℕ) (ts : List ℕ) → in_window c (ts ++ t ∷ []) ≡ in_window c ts + in_window c (t ∷ [])
in_window-append c t [] = ground arith
in_window-append c t (s ∷ ts) = ground (arith, in_window-append c t ts)

module _ (now later : ℕ) (b y : String) (l : RateLimiter) where
  pub check-free : limit_of y l ≡ none → check_rate now later b y l ≡ (l, true)
  unfolding check_rate
  check-free e = rw (check_rate, e) refl

  pub check-full :
      (m : ℕ)
      → limit_of y l ≡ some m
      → leb m (length (keep (is_recent now) (stamps b y l))) ≡ true
      → check_rate now later b y l ≡ (set_stamps b y (keep (is_recent now) (stamps b y l)) l, false)
  unfolding check_rate
  check-full m e f = rw (check_rate, e, f) refl

  pub check-open :
      (m : ℕ)
      → limit_of y l ≡ some m
      → leb m (length (keep (is_recent now) (stamps b y l))) ≡ false
      → check_rate now later b y l
        ≡ (set_stamps b y (keep (is_recent now) (stamps b y l) ++ later ∷ []) l, true)
  unfolding check_rate
  check-open m e f = rw (check_rate, e, f) refl
