-- ===== src/Smart/Guard.antt =====
-- agora/coordinator/quality_guard.py, quality_guard_checks.py and quality_guard_models.py: the alerts on
-- the quality of a discussion. A severity and a threshold is a number of tenths; the texts of the
-- details are left out. `hash` and `str.strip` of Python are parameters.
use Prim.Native.String.{count, ◌∷◌ as ◌▹◌, [] as nothing}
use hermes_agora.Base.{
  ℕ, zero, suc, ◌*◌, max, String, Bool, not, ◌&&◌, ◌||◌, none, List, [], ◌∷◌, ◌++◌, map, ltb, leb,
  eqb, if◌then◌else◌, length, is_empty, keep, count_if, sum_by, mem,
}
use hermes_agora.Smart.Messages.{MessageRow, get_messages}
use hermes_agora.Smart.Assess.{has_evidence, has_reply, stances}

pub data QualityIssue : Type 0 where
  low_argument_quality evidence_sparse repetitive_arguments : QualityIssue
  single_perspective weak_rebuttal : QualityIssue

pub record QualityAlert : Type 0 where
  pub issue : QualityIssue
  pub severity : ℕ
  pub affected_agents : List String

pub record QualityGuardConfig : Type 0 where
  pub min_content_length : ℕ
  pub evidence_sparse_threshold : ℕ
  pub repetitive_threshold : ℕ
  pub trivial_phrases : List String

abbrev pub default_config : QualityGuardConfig
default_config = record {
  min_content_length = 50;
  evidence_sparse_threshold = 6;
  repetitive_threshold = 3;
  trivial_phrases = "同意" ∷ "支持" ∷ "反对" ∷ "没意见" ∷ "是的" ∷ [];
}

-- `content[:n]`
abbrev pub prefix : ℕ → String → String
prefix zero s = ""
prefix (suc n) nothing = ""
prefix (suc n) (c ▹ s) = c ▹ prefix n s

-- `hashes[h] = hashes.get(h, 0) + 1`
abbrev pub bump_hash : ℕ → List (ℕ × ℕ) → List (ℕ × ℕ)
bump_hash h [] = (h, 1) ∷ []
bump_hash h ((g, n) ∷ hashes) =
    let rest = bump_hash h hashes in if eqb g h then (g, suc n) ∷ hashes else (g, n) ∷ rest

abbrev pub agent_of : MessageRow → String
agent_of m = m.agent_id

module _ (hash : String → ℕ) (strip : String → String) (config : QualityGuardConfig) where
  unfoldable pub is_trivial : String → Bool
  is_trivial content = mem (strip content) config.trivial_phrases

  unfoldable pub check_argument_quality : List MessageRow → List QualityAlert
  unfolding is_trivial
  check_argument_quality [] = []
  check_argument_quality (m ∷ ms) =
      let rest = check_argument_quality ms in
      if ltb (count m.content) config.min_content_length || is_trivial m.content
      then record { issue = low_argument_quality; severity = 7; affected_agents = m.agent_id ∷ [] }
        ∷ rest
      else rest

  unfoldable pub check_evidence_sparsity : List MessageRow → List QualityAlert
  check_evidence_sparsity messages =
      let no_evidence = keep (λ m. not (has_evidence m)) messages in
      if ltb (config.evidence_sparse_threshold * max (length messages) 1) (10 * length no_evidence)
      then record {
        issue = evidence_sparse;
        severity = 8;
        affected_agents = map agent_of no_evidence;
      }
        ∷ []
      else []

  unfoldable pub content_hashes : List (ℕ × ℕ) → List MessageRow → List (ℕ × ℕ)
  content_hashes hashes [] = hashes
  content_hashes hashes (m ∷ ms) =
      content_hashes (bump_hash (hash (prefix 100 m.content)) hashes) ms

  unfoldable pub check_repetitive : List MessageRow → List QualityAlert
  unfolding content_hashes
  check_repetitive messages =
      let repeated = keep (λ e. ltb 1 e.1) (content_hashes [] messages) in
      let duplicate_count = sum_by (λ e. e.1) repeated in
      if ltb (length messages * config.repetitive_threshold) (10 * duplicate_count)
      then record { issue = repetitive_arguments; severity = 6; affected_agents = [] } ∷ []
      else []

  unfoldable pub check_perspective_diversity : List MessageRow → List QualityAlert
  unfolding stances
  check_perspective_diversity messages =
      if ltb (length (stances messages)) 2
      then record { issue = single_perspective; severity = 9; affected_agents = [] } ∷ []
      else []

  unfoldable pub check_rebuttal_strength : List MessageRow → List QualityAlert
  check_rebuttal_strength messages =
      if leb 4 (length messages) && eqb (count_if has_reply messages) 0
      then record { issue = weak_rebuttal; severity = 5; affected_agents = [] } ∷ []
      else []

  unfoldable pub run_all_checks : List MessageRow → List QualityAlert
  unfolding check_argument_quality check_evidence_sparsity check_repetitive
      check_perspective_diversity check_rebuttal_strength
  run_all_checks messages =
      check_argument_quality messages
      ++ check_evidence_sparsity messages
      ++ check_repetitive messages
      ++ check_perspective_diversity messages
      ++ check_rebuttal_strength messages

  unfoldable pub check_quality : String → List MessageRow → List QualityAlert
  unfolding get_messages run_all_checks
  check_quality k rows =
      let messages = get_messages k none none rows in
      if is_empty messages then [] else run_all_checks messages
