-- ===== src/Smart/Speaking/Unassessed.antt =====
-- The rounds of the motions that the coordinator creates.
use hermes_agora.Base.{
  ℕ, String, ◌≡◌, refl, sym, ap, ◌∙◌, subst, inl, inr, Option, none, some, List, [], ◌∷◌, ◌==◌,
  Bool-cases, Option-cases, All,
}
use hermes_agora.Motion.Store.{
  value, Motion, get_motion, create_motion, update_motion_status, set_status,
}
use hermes_agora.Motion.State.{Outcome, not_found, invalid_transition, moved, transition, can_speak}
use hermes_agora.Motion.State.Effects.{transition-moved}
use hermes_agora.Motion.State.Runs.{rows_after}
use hermes_agora.Smart.Rounds.{Room, maybe_assess_round}
use hermes_agora.Smart.Speaking.{Speech, or_else, detect_deadlocks, speak, handle_speak}

-- What happens to the motions of a coordinator: they are created, moved by an event, and spoken on.
pub data Happening (E : Type 0) : Type 0 where
  created : (now : ℕ) (id : String) (rounds : ℕ) (method : String) → Happening E
  event : (now : ℕ) (k event : String) → Happening E
  speech : (now : ℕ) (agent : String) → Speech E → Happening E

-- No round of a motion has begun.
abbrev pub IsAtZero : Motion → Type 0
IsAtZero m = m.current_round ≡ 0

IsAtZero-update :
    (now : ℕ) (k s : String) (motions : List Motion)
    → All IsAtZero motions
    → All IsAtZero (update_motion_status now k s none none motions)
unfolding update_motion_status set_status
IsAtZero-update now k s [] h = tt
IsAtZero-update now k s (m ∷ motions) h = elim (Bool-cases (m.id == k)) [
  | inl e ↦ rw e (h.0, IsAtZero-update now k s motions h.1)
  | inr e ↦ rw e (h.0, IsAtZero-update now k s motions h.1)
]

IsAtZero-create :
    (now : ℕ) (id : String) (rounds : ℕ) (method : String) (motions : List Motion)
    → All IsAtZero motions
    → All IsAtZero (create_motion now id rounds method motions)
unfolding create_motion
IsAtZero-create now id rounds method [] h = (refl, tt)
IsAtZero-create now id rounds method (m ∷ motions) h =
    (h.0, IsAtZero-create now id rounds method motions h.1)

get_motion-IsAtZero :
    (k : String) (motions : List Motion) (m : Motion)
    → All IsAtZero motions
    → get_motion k motions ≡ some m
    → IsAtZero m
unfolding get_motion
get_motion-IsAtZero k [] m h e = cc e
get_motion-IsAtZero k (n ∷ motions) m h e = elim (Bool-cases (n.id == k)) [
  | inl t ↦ let same : n ≡ m = cc (rw t at e) in subst IsAtZero same h.0
  | inr t ↦ get_motion-IsAtZero k motions m h.1 (rw t at e)
]

module _ {E : Type 0} (dumps : List E → String) (str : ℕ → String) (hash : String → ℕ)
    (strip : String → String) (first : List String → Option String) where
  unfoldable pub happens : Happening E → Room → Room
  unfolding create_motion transition handle_speak
  happens (created now id rounds method) room = record room {
    motions = create_motion now id rounds method room.motions;
  }
  happens (event now k e) room = record room {
    motions = rows_after (transition now k e room.motions) room.motions;
  }
  happens (speech now agent p) room = handle_speak dumps str hash strip first now agent p room

  unfoldable pub all_happen : List (Happening E) → Room → Room
  unfolding happens
  all_happen [] room = room
  all_happen (h ∷ hs) room = all_happen hs (happens h room)

  -- Nothing is assessed before the first round.
  maybe_assess_round-zero :
      (now : ℕ) (k : String) (room : Room)
      → All IsAtZero room.motions
      → maybe_assess_round hash strip first now k room ≡ room
  unfolding maybe_assess_round
  maybe_assess_round-zero now k room h = elim (Option-cases (get_motion k room.motions)) [
    | inl e ↦ rw (maybe_assess_round, e) refl
    | inr (m, e) ↦
        let zero_round = get_motion-IsAtZero k room.motions m h e in
        elim (Bool-cases (m.status == "discussing")) [
          | inl t ↦ rw (maybe_assess_round, e, t, zero_round) refl
          | inr t ↦ rw (maybe_assess_round, e, t) refl
        ]
  ]

  speak-zero :
      (now : ℕ) (agent k : String) (p : Speech E) (room : Room)
      → All IsAtZero room.motions
      → let after = speak dumps str hash strip first now agent k p room in
        (after.motions ≡ room.motions) × (after.assessments ≡ room.assessments)
  unfolding speak detect_deadlocks
  speak-zero now agent k p room h = (
    ap (λ r. r.motions) (maybe_assess_round-zero now k _ h),
    ap (λ r. r.assessments) (maybe_assess_round-zero now k _ h),
  )

  handle_speak-zero :
      (now : ℕ) (agent : String) (p : Speech E) (room : Room)
      → All IsAtZero room.motions
      → let after = handle_speak dumps str hash strip first now agent p room in
        (after.motions ≡ room.motions) × (after.assessments ≡ room.assessments)
  unfolding handle_speak
  handle_speak-zero now agent p room h =
      let k = or_else "" p.motion_id in
      elim (Bool-cases (k == "")) [
        | inl e ↦ rw (handle_speak, e) (refl, refl)
        | inr e ↦ elim (Bool-cases (can_speak k agent room.motions room.agents)) [
          | inl t ↦ rw (handle_speak, e, t) (speak-zero now agent k p room h)
          | inr t ↦ rw (handle_speak, e, t) (refl, refl)
        ]
      ]

  happens-zero :
      (h : Happening E) (room : Room)
      → All IsAtZero room.motions
      → let after = happens h room in
        All IsAtZero after.motions × (after.assessments ≡ room.assessments)
  unfolding happens
  happens-zero (created now id rounds method) room z =
      (IsAtZero-create now id rounds method room.motions z, refl)
  happens-zero (event now k e) room z = (moved_zero (transition now k e room.motions) refl, refl)
    where
      moved_zero :
          (o : Outcome)
          → transition now k e room.motions ≡ o
          → All IsAtZero (rows_after o room.motions)
      moved_zero not_found t = z
      moved_zero invalid_transition t = z
      moved_zero (moved s after) t =
          subst (All IsAtZero) (sym (transition-moved now k e s room.motions after t).1)
            (IsAtZero-update now k (value s) room.motions z)
  happens-zero (speech now agent p) room z =
      let (motions, assessments) = handle_speak-zero now agent p room z in
      (subst (All IsAtZero) (sym motions) z, assessments)

  -- From motions that are at round zero, as they are created, no sequence of creations, events of
  -- the state machine and speeches takes a motion out of round zero or stores an assessment.
  pub rounds_never_begin :
      (hs : List (Happening E)) (room : Room)
      → All IsAtZero room.motions
      → All IsAtZero (all_happen hs room).motions
        × ((all_happen hs room).assessments ≡ room.assessments)
  unfolding all_happen
  rounds_never_begin [] room z = (z, refl)
  rounds_never_begin (h ∷ hs) room z =
      let (zero_after, same) = happens-zero h room z in
      let (zero_end, same_end) = rounds_never_begin hs (happens h room) zero_after in
      (zero_end, same_end ∙ same)
