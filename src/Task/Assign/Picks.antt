-- ===== src/Task/Assign/Picks.antt =====
-- Whom the round robin picks.
use hermes_agora.Base.{
  ◌↔◌, ℕ, zero, suc, ◌+◌, ◌-◌, ◌%◌, ◌≤◌, ◌<◌, String, ◌≡◌, refl, sym, subst, inl, inr, true, none,
  some, List, [], ◌∷◌, arith, eq_refl, ltb, leb, ltb→lt, Bool-cases, Option-cases, text-cases,
  length, get_elem?, All, mem,
}
use hermes_agora.Base.Dict
use hermes_agora.Base.Dict.{Dict}
use hermes_agora.Task.Assign.{default_max_concurrent, pick_from, round_robin_pick}

elem-lt : (xs : List String) (i : ℕ) (a : String) → get_elem? xs i ≡ some a → i < length xs
elem-lt [] i a h = cc
elem-lt (x ∷ xs) zero a h = omega arith
elem-lt (x ∷ xs) (suc i) a h = omega (arith, elem-lt xs i a h)

elem-mem : (xs : List String) (i : ℕ) (a : String) → get_elem? xs i ≡ some a → mem a xs ≡ true
elem-mem [] i a h = cc
elem-mem (x ∷ xs) zero a h = let same : x ≡ a = cc in rw same (rw (eq_refl a) refl)
elem-mem (x ∷ xs) (suc i) a h = ground (arith, elem-mem xs i a h)

all_elems :
    (P : String → Type 0) (xs : List String)
    → ((i : ℕ) (a : String) → get_elem? xs i ≡ some a → P a)
    → All P xs
all_elems P [] h = tt
all_elems P (x ∷ xs) h = (h 0 x refl, all_elems P xs (λ i a e. h (suc i) a e))

all_at : (P : String → Type 0) (xs : List String) (a : String) → All P xs → mem a xs ≡ true → P a
all_at P [] a h m = cc
all_at P (x ∷ xs) a h m = elim (text-cases a x) [
  | inl (_, same) ↦ subst P (sym same) h.0
  | inr (e, _) ↦ all_at P xs a h.1 (rw e at m)
]

turn_low : (n rr i j : ℕ) → i < n → rr % n + j ≡ i → (rr + j) % n ≡ i
turn_low n rr i j h e = grind (arith, h, e)

turn_high : (n rr i j : ℕ) → i < n → rr % n + j ≡ i + n → (rr + j) % n ≡ i
turn_high n rr i j h e = grind (arith, h, e)

plus_zero : (n : ℕ) → n + 0 ≡ n
plus_zero n = omega arith

-- Of `n` indices in a row one is each remainder.
turn : (n rr i : ℕ) → i < n → (j : ℕ) × (j < n) × ((rr + j) % n ≡ i)
turn n rr i h =
    let below : rr % n < n = grind (arith, h) in
    elim (Bool-cases (leb (rr % n) i)) [
      | inl e ↦ (i - rr % n, omega (arith, h), turn_low n rr i (i - rr % n) h (ground (arith, e)))
      | inr e ↦ (
        i + n - rr % n,
        ground (arith, e, below),
        turn_high n rr i (i + n - rr % n) h (ground (arith, e, below)),
      )
    ]

shift : (rr j : ℕ) → rr + suc j ≡ suc rr + j
shift rr j = omega arith

module _ (candidates : List String) (loads caps : Dict ℕ) where
  abbrev load : String → ℕ
  load a = Dict.get_or a 0 loads

  abbrev cap : String → ℕ
  cap a = Dict.get_or a default_max_concurrent caps

  pick_from-some :
      (k rr : ℕ) (a : String)
      → (pick_from candidates loads caps k rr).0 ≡ some a
      → (mem a candidates ≡ true) × (load a < cap a)
  unfolding pick_from
  pick_from-some zero rr a h = cc
  pick_from-some (suc k) rr a h =
      elim (Option-cases (get_elem? candidates (rr % length candidates))) [
        | inl e ↦ pick_from-some k (suc rr) a (rw (pick_from, e) at h)
        | inr (b, e) ↦ elim (Bool-cases (ltb (load b) (cap b))) [
          | inl f ↦
              let same : b ≡ a = cc (rw (pick_from, e, f) at h) in
              subst (λ x. (mem x candidates ≡ true) × (load x < cap x)) same
                (elem-mem candidates (rr % length candidates) b e, ltb→lt (load b) (cap b) f)
          | inr f ↦ pick_from-some k (suc rr) a (rw (pick_from, e, f) at h)
        ]
      ]

  pick_from-none :
      (k rr j : ℕ) (a : String)
      → (pick_from candidates loads caps k rr).0 ≡ none
      → j < k
      → get_elem? candidates ((rr + j) % length candidates) ≡ some a
      → cap a ≤ load a
  unfolding pick_from
  pick_from-none zero rr j a h l e = absurd (omega (arith, l))
  pick_from-none (suc k) rr zero a h l e =
      let here : get_elem? candidates (rr % length candidates) ≡ some a = rw (plus_zero rr) at e in
      elim (Bool-cases (ltb (load a) (cap a))) [
        | inl f ↦ absurd (cc (rw (pick_from, here, f) at h))
        | inr f ↦ ground (arith, f)
      ]
  pick_from-none (suc k) rr (suc j) a h l e =
      let next : get_elem? candidates ((suc rr + j) % length candidates) ≡ some a =
        rw (shift rr j) at e in
      let smaller : j < k = omega (arith, l) in
      elim (Option-cases (get_elem? candidates (rr % length candidates))) [
        | inl f ↦ pick_from-none k (suc rr) j a (rw (pick_from, f) at h) smaller next
        | inr (b, f) ↦ elim (Bool-cases (ltb (load b) (cap b))) [
          | inl g ↦ absurd (cc (rw (pick_from, f, g) at h))
          | inr g ↦ pick_from-none k (suc rr) j a (rw (pick_from, f, g) at h) smaller next
        ]
      ]

  -- The round robin picks nobody exactly when every candidate has reached its capacity, from
  -- whatever index it starts; whom it picks is a candidate below its capacity.
  pub round_robin_pick_exact :
      (rr_index : ℕ)
      → let picked = (round_robin_pick candidates loads caps rr_index).0 in
        ((picked ≡ none) ↔ All (λ a. cap a ≤ load a) candidates)
        × ((a : String) → picked ≡ some a → (mem a candidates ≡ true) × (load a < cap a))
  unfolding round_robin_pick
  round_robin_pick_exact rr = (
    (
      λ h.
          all_elems (λ a. cap a ≤ load a) candidates
            (λ i a e.
              let (j, small, same) = turn (length candidates) rr i (elem-lt candidates i a e) in
              pick_from-none (length candidates) rr j a h small (rw same e)),
      λ h. elim (Option-cases (pick_from candidates loads caps (length candidates) rr).0) [
        | inl e ↦ e
        | inr (a, e) ↦
            let (m, l) = pick_from-some (length candidates) rr a e in
            let full = all_at (λ a. cap a ≤ load a) candidates a h m in
            absurd (omega (arith, l, full))
      ],
    ),
    λ a h. pick_from-some (length candidates) rr a h,
  )
