-- ===== src/Motion/State/Lifecycle.antt =====
-- The transitions of a motion against its life as a step relation, and what no run of events does.
use hermes_agora.Base.{
  leb→le, if◌then◌else◌, refl, le→leb, subst, leb, ◌↔◌, eq_iff, true, ◌≤◌, ◌<◌, String, ◌≡◌, ◌⊎◌,
  inl, inr, false, ◌&&◌, some, List, [], ◌∷◌, arith, ◌==◌, Bool-cases, All,
}
use hermes_agora.Motion.Store.{
  MotionStatus, draft, discussing, assessing, devils_advocate, voting, closed, value, Motion,
}
use hermes_agora.Motion.State.{Row, transitions, lookup, next_status}

-- The life of a motion, as its class documents it: the rounds are discussed until they are used up,
-- and only a vote closes a motion.
pub data Step : Motion → String → MotionStatus → Type 0 where
  begin : {m : Motion} {e : String} → m.status ≡ value draft → e ≡ "start" → Step m e discussing
  another_round :
      {m : Motion} {e : String}
      → m.status ≡ value discussing
      → e ≡ "round_complete"
      → m.current_round < m.rounds
      → Step m e discussing
  last_round :
      {m : Motion} {e : String}
      → m.status ≡ value discussing
      → e ≡ "round_complete"
      → m.rounds ≤ m.current_round
      → Step m e voting
  call_vote :
      {m : Motion} {e : String}
      → (m.status ≡ value discussing)
        ⊎ ((m.status ≡ value assessing) ⊎ (m.status ≡ value devils_advocate))
      → e ≡ "start_voting"
      → Step m e voting
  assess :
      {m : Motion} {e : String} → m.status ≡ value discussing → e ≡ "assess" → Step m e assessing
  challenge :
      {m : Motion} {e : String}
      → m.status ≡ value assessing
      → e ≡ "needs_devils_advocate"
      → Step m e devils_advocate
  resume :
      {m : Motion} {e : String}
      → m.status ≡ value assessing
      → (e ≡ "continue_discussion") ⊎ (e ≡ "assessment_done")
      → Step m e discussing
  challenged :
      {m : Motion} {e : String}
      → m.status ≡ value devils_advocate
      → e ≡ "devils_advocate_done"
      → Step m e discussing
  close :
      {m : Motion} {e : String}
      → m.status ≡ value voting
      → (e ≡ "all_voted") ⊎ (e ≡ "force_close")
      → Step m e closed

-- What a row of the table stands for, beside the rows of a completed round.
abbrev RowStep : Motion → String → Row → Type 0
RowStep m e r =
    m.status ≡ value r.0
    → e ≡ r.1
    → (m.status == "discussing" && e == "round_complete") ≡ false
    → Step m e r.2

discussed :
    (m : Motion) (e : String)
    → m.status ≡ "discussing"
    → e ≡ "round_complete"
    → (m.status == "discussing" && e == "round_complete") ≡ true
discussed m e s f = rw (s, f) refl

rows : (m : Motion) (e : String) → All (RowStep m e) transitions
rows m e = (
  λ s f _. begin s f,
  (
    λ s f h. absurd (cc (h, discussed m e s f)),
    (
      λ s f _. call_vote (inl s) f,
      (
        λ s f _. assess s f,
        (
          λ s f _. challenge s f,
          (
            λ s f _. call_vote (inr (inl s)) f,
            (
              λ s f _. resume s (inl f),
              (
                λ s f _. resume s (inr f),
                (
                  λ s f _. challenged s f,
                  (
                    λ s f _. call_vote (inr (inr s)) f,
                    (λ s f _. close s (inl f), (λ s f _. close s (inr f), tt)),
                  ),
                ),
              ),
            ),
          ),
        ),
      ),
    ),
  ),
)

lookup-All :
    (m : Motion) (e : String) (s : MotionStatus) (table : List Row)
    → All (RowStep m e) table
    → (m.status == "discussing" && e == "round_complete") ≡ false
    → lookup m.status e table ≡ some s
    → Step m e s
lookup-All m e s [] all free h = absurd (ground (arith, h))
lookup-All m e s (r ∷ table) all free h = elim (Bool-cases (value r.0 == m.status && r.1 == e)) [
  | inl t ↦
      let same : r.2 ≡ s = found t h in
      let at : m.status ≡ value r.0 = ground (arith, t, eq_iff (value r.0) m.status) in
      let on : e ≡ r.1 = ground (arith, t, eq_iff r.1 e) in subst (Step m e) same (all.0 at on free)
  | inr f ↦ lookup-All m e s table all.1 free (ground (arith, f, h))
]
  where
    found :
        (value r.0 == m.status && r.1 == e) ≡ true
        → lookup m.status e (r ∷ table) ≡ some s
        → r.2 ≡ s
    found t h = cc (subst (λ b. (if b then some r.2 else lookup m.status e table) ≡ some s) t h)

lt→not_leb : (m : Motion) → m.current_round < m.rounds → leb m.rounds m.current_round ≡ false
lt→not_leb m h = ground arith

next_status_complete :
    {m : Motion} {e : String} {s : MotionStatus} → Step m e s → next_status m e ≡ some s
unfolding next_status
next_status_complete (begin s e) = rw (next_status, s, e) refl
next_status_complete {m = m} (another_round s e r) = rw (next_status, s, e, lt→not_leb m r) refl
next_status_complete {m = m} (last_round s e r) =
    rw (next_status, s, e, le→leb m.rounds m.current_round r) refl
next_status_complete (call_vote (inl s) e) = rw (next_status, s, e) refl
next_status_complete (call_vote (inr (inl s)) e) = rw (next_status, s, e) refl
next_status_complete (call_vote (inr (inr s)) e) = rw (next_status, s, e) refl
next_status_complete (assess s e) = rw (next_status, s, e) refl
next_status_complete (challenge s e) = rw (next_status, s, e) refl
next_status_complete (resume s (inl e)) = rw (next_status, s, e) refl
next_status_complete (resume s (inr e)) = rw (next_status, s, e) refl
next_status_complete (challenged s e) = rw (next_status, s, e) refl
next_status_complete (close s (inl e)) = rw (next_status, s, e) refl
next_status_complete (close s (inr e)) = rw (next_status, s, e) refl

not_leb→lt : (m : Motion) → leb m.rounds m.current_round ≡ false → m.current_round < m.rounds
not_leb→lt m h = ground (arith, h)

next_status_sound :
    (m : Motion) (e : String) (s : MotionStatus) → next_status m e ≡ some s → Step m e s
unfolding next_status
next_status_sound m e s h = elim (Bool-cases (m.status == "discussing" && e == "round_complete")) [
  | inr f ↦ lookup-All m e s transitions (rows m e) f (ground (arith, f, h))
  | inl t ↦
      let at : m.status ≡ "discussing" = ground (arith, t, eq_iff m.status "discussing") in
      let on : e ≡ "round_complete" = ground (arith, t, eq_iff e "round_complete") in
      elim (Bool-cases (leb m.rounds m.current_round)) [
        | inl f ↦ determined (last_round at on (leb→le m.rounds m.current_round f))
        | inr f ↦ determined (another_round at on (not_leb→lt m f))
      ]
]
  where
    determined : {n : MotionStatus} → Step m e n → Step m e s
    determined step = subst (Step m e) (cc (next_status_complete step, h)) step

-- A motion moves to a status on an event exactly when the life of a motion, stated as a step
-- relation, has that step: rounds are discussed until they are used up, and only a motion that is
-- being voted on is closed.
pub next_status_exact :
    (m : Motion) (e : String) (s : MotionStatus) → (next_status m e ≡ some s) ↔ Step m e s
next_status_exact m e s = (next_status_sound m e s, next_status_complete)
