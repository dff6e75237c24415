-- ===== src/Smart/Advocate/Triggers.antt =====
-- When the quality alerts ask for another side, on the rows of the table.
use Prim.Native.String.{count}
use hermes_agora.Base.{
  ℕ, ◌*◌, String, ◌≡◌, refl, ◌∙◌, inl, inr, Bool, true, false, not, ◌&&◌, ◌||◌, Option, none, some,
  List, [], ◌∷◌, ◌++◌, arith, ltb, leb, eqb, if◌then◌else◌, Bool-cases, text-cases, length,
  is_empty, All, keep, count_if, sum_by, keep-append, keep-keep,
}
use hermes_agora.Motion.Store.{AgentRow}
use hermes_agora.Smart.Messages.{MessageRow, get_messages}
use hermes_agora.Smart.Messages.Order.{All-get_messages}
use hermes_agora.Smart.Assess.{has_evidence, has_reply, stances}
use hermes_agora.Smart.Assess.Decision.{HasText}
use hermes_agora.Smart.Guard.{
  content_hashes, repetitive_arguments, weak_rebuttal, is_trivial, QualityAlert, default_config,
  check_argument_quality, check_evidence_sparsity, check_repetitive, check_perspective_diversity,
  check_rebuttal_strength, run_all_checks, check_quality,
}
use hermes_agora.Smart.Advocate.{
  default_advocate, is_trigger_issue, agent_ids, check_quality_triggers,
}

-- An alert that asks for another side at the severity of the defaults.
abbrev is_strong : QualityAlert → Bool
is_strong a = leb 7 a.severity && is_trigger_issue a.issue

evident : (m : MessageRow) → HasText m → has_evidence m ≡ true
evident m h = elim (text-cases m.evidence "") [
  | inl (t, e) ↦ absurd (omega (arith, rw e at h))
  | inr (t, _) ↦ rw t refl
]

none_bare : (ms : List MessageRow) → All HasText ms → keep (λ m. not (has_evidence m)) ms ≡ []
none_bare [] h = refl
none_bare (m ∷ ms) h = rw (evident m h.0) (none_bare ms h.1)

keep_single :
    (b : Bool) (a : QualityAlert)
    → is_strong a ≡ false
    → keep is_strong (if b then a ∷ [] else []) ≡ []
keep_single true a h = rw h refl
keep_single false a h = refl

-- A filter of a filter is empty where the first is.
if_any :
    {A : Type 0} (alerts : List QualityAlert) (p : QualityAlert → Bool) (o : Option A)
    → (if is_empty alerts then none else if is_empty (keep p alerts) then none else o)
      ≡ (if is_empty (keep p alerts) then none else o)
if_any [] p o = refl
if_any (a ∷ alerts) p o = refl

module _ (hash : String → ℕ) (strip : String → String) where
  no_strong_argument :
      (ms : List MessageRow)
      → keep is_strong (check_argument_quality hash strip default_config ms) ≡ []
  unfolding check_argument_quality
  no_strong_argument [] = refl
  no_strong_argument (m ∷ ms) =
      elim (Bool-cases
        (ltb (count m.content) 50 || is_trivial hash strip default_config m.content)) [
          | inl e ↦ rw (check_argument_quality, e) (no_strong_argument ms)
          | inr e ↦ rw (check_argument_quality, e) (no_strong_argument ms)
        ]

  no_sparsity :
      (ms : List MessageRow)
      → All HasText ms
      → check_evidence_sparsity hash strip default_config ms ≡ []
  unfolding check_evidence_sparsity
  no_sparsity ms h = rw (check_evidence_sparsity, none_bare ms h) (ground arith)

  no_repetition :
      (ms : List MessageRow) → keep is_strong (check_repetitive hash strip default_config ms) ≡ []
  unfolding check_repetitive
  no_repetition ms =
      keep_single
        (ltb (length ms * 3) (
          10
          * sum_by (λ e. e.1)
              (keep (λ e. ltb 1 e.1) (content_hashes hash strip default_config [] ms))))
        (record { issue = repetitive_arguments; severity = 6; affected_agents = [] }) refl

  no_rebuttal :
      (ms : List MessageRow)
      → keep is_strong (check_rebuttal_strength hash strip default_config ms) ≡ []
  unfolding check_rebuttal_strength
  no_rebuttal ms =
      keep_single (leb 4 (length ms) && eqb (count_if has_reply ms) 0)
        (record { issue = weak_rebuttal; severity = 5; affected_agents = [] }) refl

  strong-checks :
      (ms : List MessageRow)
      → All HasText ms
      → keep is_strong (run_all_checks hash strip default_config ms)
        ≡ keep is_strong (check_perspective_diversity hash strip default_config ms) ++ []
  unfolding run_all_checks
  strong-checks ms h =
      let arguments = check_argument_quality hash strip default_config ms in
      let sparse = check_evidence_sparsity hash strip default_config ms in
      let repeated = check_repetitive hash strip default_config ms in
      let one_sided = check_perspective_diversity hash strip default_config ms in
      let lonely = check_rebuttal_strength hash strip default_config ms in
      keep-append is_strong (arguments ++ sparse ++ repeated ++ one_sided) lonely
      ∙ rw
          (
            no_rebuttal ms,
            keep-append is_strong (arguments ++ sparse ++ repeated) one_sided,
            keep-append is_strong (arguments ++ sparse) repeated,
            no_repetition ms,
            keep-append is_strong arguments sparse,
            no_strong_argument ms,
            no_sparsity ms h,
          )
          refl

-- What the alerts of the checks that remain come to.
one_sided_only :
    {A : Type 0} (hash : String → ℕ) (strip : String → String) (ms : List MessageRow) (o : Option A)
    → All HasText ms
    → (if is_empty (keep is_strong (run_all_checks hash strip default_config ms)) then none else o)
      ≡ (if leb 2 (length (stances ms)) then none else o)
unfolding check_perspective_diversity
one_sided_only hash strip ms o h =
    rw (strong-checks hash strip ms h) elim (Bool-cases (leb 2 (length (stances ms)))) [
      | inl e ↦
          let f : ltb (length (stances ms)) 2 ≡ false = ground (arith, e) in
          rw (check_perspective_diversity, e, f) refl
      | inr e ↦
          let f : ltb (length (stances ms)) 2 ≡ true = ground (arith, e) in
          rw (check_perspective_diversity, e, f) refl
    ]

-- Under the default settings, where the column of the evidence is never empty, the quality alerts
-- ask for the other side exactly where there are messages with fewer than two stances in all, of
-- the first agent in the set of the agents if there is one.
pub check_quality_triggers_exact :
    (hash : String → ℕ) (strip : String → String) (first : List String → Option String)
    → (k : String) (rows : List MessageRow) (agents : List AgentRow) → All HasText rows
    → let messages = get_messages k none none rows in
      check_quality_triggers hash strip first default_config default_advocate k rows agents ≡ (
        if is_empty messages || leb 2 (length (stances messages))
        then none
        else elim (first (agent_ids agents)) [ none ↦ none | some a ↦ some (true, some a) ])
unfolding check_quality_triggers check_quality check_perspective_diversity
check_quality_triggers_exact hash strip first k rows agents texts =
    elim (Bool-cases (is_empty (get_messages k none none rows))) [
      | inl e ↦ rw (check_quality_triggers, check_quality, e) refl
      | inr e ↦
          rw (check_quality_triggers, check_quality, e)
            (let ms = get_messages k none none rows in
              let alerts = run_all_checks hash strip default_config ms in
              if_any (keep (λ a. leb 7 a.severity) alerts) (λ a. is_trigger_issue a.issue) _
              ∙ rw (keep-keep (λ a. leb 7 a.severity) (λ a. is_trigger_issue a.issue) alerts) (
                  one_sided_only hash strip ms _ (All-get_messages HasText k none none rows texts)))
    ]
