-- ===== src/Task/Status/Diagram.antt =====
-- The transition table against the life cycle of a task as a step relation.
use hermes_agora.Base.{
  String, refl, [], ◌∷◌, ◌⊎◌, inl, inr, mem, text-cases, subst, arith, eq_iff, false, true,
  false≢true, ◌≡◌, ◌↔◌,
}
use hermes_agora.Task.Status.{
  TaskStatus, pending, assigned, running, done, accepted, rejected, failed, value,
  valid_transitions, is_valid_transition,
}

pub data Step : TaskStatus → TaskStatus → Type 0 where
  assign : Step pending assigned
  start : Step assigned running
  finish : Step running done
  accept : Step done accepted
  reject : Step done rejected
  requeue : Step rejected pending
  drop_assigned : Step assigned failed
  break_down : Step running failed
  retry : Step failed pending

-- Two statuses one step apart, with their texts.
abbrev pub StepBetween : String → String → Type 0
StepBetween current next =
    (a : TaskStatus) × (b : TaskStatus) × Step a b × (current ≡ value a) × (next ≡ value b)

one_of : (n x : String) → mem n (x ∷ []) ≡ true → n ≡ x
one_of n x h = ground (arith, eq_iff n x)

two_of : (n x y : String) → mem n (x ∷ y ∷ []) ≡ true → (n ≡ x) ⊎ (n ≡ y)
two_of n x y h = ground (arith, eq_iff n x, eq_iff n y)

-- The row of the table that a status is looked up in.
row_cases :
    (current : String) → ((a : TaskStatus) × (current ≡ value a)) ⊎ (valid_transitions current ≡ [])
unfolding valid_transitions
row_cases c = elim (text-cases c "pending") [
  | inl (_, e) ↦ inl (pending, e)
  | inr (t₁, _) ↦ elim (text-cases c "assigned") [
    | inl (_, e) ↦ inl (assigned, e)
    | inr (t₂, _) ↦ elim (text-cases c "running") [
      | inl (_, e) ↦ inl (running, e)
      | inr (t₃, _) ↦ elim (text-cases c "done") [
        | inl (_, e) ↦ inl (done, e)
        | inr (t₄, _) ↦ elim (text-cases c "rejected") [
          | inl (_, e) ↦ inl (rejected, e)
          | inr (t₅, _) ↦ elim (text-cases c "failed") [
            | inl (_, e) ↦ inl (failed, e)
            | inr (t₆, _) ↦ inr (rw (t₁, t₂, t₃, t₄, t₅, t₆))
          ]
        ]
      ]
    ]
  ]
]

next_of :
    (a : TaskStatus) (next : String)
    → is_valid_transition (value a) next ≡ true
    → (b : TaskStatus) × Step a b × (next ≡ value b)
unfolding is_valid_transition
next_of pending n h = (assigned, assign, one_of n "assigned" h)
next_of assigned n h = elim (two_of n "running" "failed" h) [
  | inl e ↦ (running, start, e)
  | inr e ↦ (failed, drop_assigned, e)
]
next_of running n h = elim (two_of n "done" "failed" h) [
  | inl e ↦ (done, finish, e)
  | inr e ↦ (failed, break_down, e)
]
next_of done n h = elim (two_of n "accepted" "rejected" h) [
  | inl e ↦ (accepted, accept, e)
  | inr e ↦ (rejected, reject, e)
]
next_of rejected n h = (pending, requeue, one_of n "pending" h)
next_of failed n h = (pending, retry, one_of n "pending" h)
next_of accepted n h = absurd (false≢true h)

pub is_valid_transition_sound :
    (current next : String) → is_valid_transition current next ≡ true → StepBetween current next
is_valid_transition_sound c n h = elim (row_cases c) [
  | inl (a, e) ↦
      let (b, s, f) = next_of a n (subst (λ x. is_valid_transition x n ≡ true) e h) in
      (a, b, s, e, f)
  | inr e ↦ absurd (false≢true (empty_row e))
]
  where
    empty_row : valid_transitions c ≡ [] → false ≡ true
    empty_row e = unfold is_valid_transition in ground (arith, e, h)

is_valid_transition_complete :
    {a b : TaskStatus} → Step a b → is_valid_transition (value a) (value b) ≡ true
unfolding is_valid_transition
is_valid_transition_complete assign = refl
is_valid_transition_complete start = refl
is_valid_transition_complete finish = refl
is_valid_transition_complete accept = refl
is_valid_transition_complete reject = refl
is_valid_transition_complete requeue = refl
is_valid_transition_complete drop_assigned = refl
is_valid_transition_complete break_down = refl
is_valid_transition_complete retry = refl

-- The transition table allows two status texts exactly when they are the values of two statuses
-- that are one step apart in the life cycle of a task.
pub is_valid_transition_exact :
    (current next : String) → (is_valid_transition current next ≡ true) ↔ StepBetween current next
is_valid_transition_exact current next = (
  is_valid_transition_sound current next,
  λ (a, b, s, e, f). rw (e, f) (is_valid_transition_complete s),
)
