-- ===== src/Smart/Assess.antt =====
-- agora/coordinator/assessment.py and agora/coordinator/quality_scorer.py. A ratio is an exact fraction,
-- where the source rounds to floats: tests against a threshold may differ where a score lies within a
-- rounding error of it. `len` counts characters.
pub mod Decision
use Prim.Native.String.{count}
use hermes_agora.Base.{
  refl, refl, refl, refl, refl, refl, refl, refl, ℕ, zero, ◌+◌, ◌*◌, ◌<◌, min, String, ◌≡◌, Bool,
  true, false, not, ◌&&◌, ◌||◌, Option, none, some, List, [], ◌∷◌, map, ◌==◌, ltb, leb, eqb,
  if◌then◌else◌, length, keep, count_if, sum_by, to_set,
}
use hermes_agora.Base.Dict
use hermes_agora.Base.Dict.{Dict}
use hermes_agora.Base.Counter.{count_by, sum_values}
use hermes_agora.Smart.Messages.{MessageRow, get_messages}
use hermes_agora.Motion.Store.{Motion, get_motion}

pub data ConsensusLevel : Type 0 where
  high moderate low fractured : ConsensusLevel

pub data AssessmentResult : Type 0 where
  consensus_reached sufficient needs_more off_topic devils_advocate : AssessmentResult

-- A quotient of two numbers.
pub record Ratio : Type 0 where
  pub num : ℕ
  pub den : ℕ

-- `score < 0.5`
abbrev pub below_half : Ratio → Bool
below_half r = ltb (2 * r.num) r.den

pub record QualityScore : Type 0 where
  pub evidence_sufficiency : Ratio
  pub argument_logic : Ratio
  pub perspective_diversity : Ratio
  pub rebuttal_strength : Ratio
  pub overall : Ratio

pub record Metrics : Type 0 where
  pub total_messages : ℕ
  pub stance_distribution : Dict ℕ
  pub argument_quality_score : Ratio
  pub topic_relevance_score : Ratio
  pub quality_score : QualityScore
  pub key_points_identified : List String
  pub unresolved_points : List String

pub record Assessment : Type 0 where
  pub result : AssessmentResult
  pub consensus_level : ConsensusLevel
  pub metrics : Metrics
  pub rationale : String
  pub recommendations : List String

-- `msg.get("stance")`, where it is not empty
abbrev pub stance_of : MessageRow → Option String
stance_of m = if m.stance == "" then none else some m.stance

-- the thresholds on the support and the opposition among the stances
unfoldable pub level_of : (total support oppose : ℕ) → ConsensusLevel
level_of total support oppose =
    if leb (7 * total) (10 * support)
    then high
    else if leb total (2 * support) || leb total (2 * oppose)
    then moderate
    else if ltb (3 * total) (10 * support) && ltb (3 * total) (10 * oppose)
    then fractured
    else low

unfoldable pub detect : List MessageRow → ConsensusLevel × Dict ℕ
unfolding level_of count_by Dict.get
detect messages =
    let stance_counts = count_by stance_of messages in
    let total = sum_values stance_counts in
    if eqb total 0 then (low, []) else (
      level_of total (Dict.get_or "support" 0 stance_counts) (Dict.get_or "oppose" 0 stance_counts),
      stance_counts,
    )

abbrev pub total_length : List MessageRow → ℕ
total_length messages = sum_by (λ m. count m.content) messages

-- `m.get("evidence")` and `m.get("reply_to")` as conditions; the table has no column `reply_to`
abbrev pub has_evidence : MessageRow → Bool
has_evidence m = not (m.evidence == "")

abbrev pub has_reply : MessageRow → Bool
has_reply m = false

abbrev pub or_zero : {A : Type 0} → List A → Ratio → Ratio
or_zero [] r = record { num = 0; den = 1 }
or_zero (x ∷ xs) r = r

unfoldable pub assess_argument_quality : List MessageRow → Ratio
assess_argument_quality messages =
    let n = length messages in
    let total_evidence = sum_by (λ m. count m.evidence) messages in
    or_zero messages (record {
      num = 1200 * min total_evidence n + 4 * min (total_length messages) (200 * n);
      den = 2000 * n;
    })

abbrev pub score_evidence : List MessageRow → Ratio
score_evidence messages =
    or_zero messages (record {
      num = min (count_if has_evidence messages) (length messages);
      den = length messages;
    })

abbrev pub score_logic : List MessageRow → Ratio
score_logic messages =
    let n = length messages in
    or_zero messages (record { num = min (total_length messages) (200 * n); den = 200 * n })

abbrev pub stance_or_empty : MessageRow → String
stance_or_empty m = m.stance

-- the set of the stances that are not empty
unfoldable pub stances : List MessageRow → List String
stances messages = to_set (keep (λ s. not (s == "")) (map stance_or_empty messages))

abbrev pub score_diversity : List MessageRow → Ratio
unfolding stances
score_diversity messages = record { num = min (length (stances messages)) 3; den = 3 }

abbrev pub score_rebuttal : List MessageRow → Ratio
score_rebuttal messages =
    or_zero messages
      (record { num = min (count_if has_reply messages) (length messages); den = length messages })

-- a weighted sum of ratios whose denominators are not zero
abbrev pub plus : Ratio → Ratio → Ratio
plus a b = record { num = a.num * b.den + b.num * a.den; den = a.den * b.den }

abbrev pub tenths : ℕ → Ratio → Ratio
tenths w r = record { num = w * r.num; den = 10 * r.den }

unfoldable pub score : List MessageRow → QualityScore
unfolding stances
score messages =
    let evidence = score_evidence messages in
    let logic = score_logic messages in
    let diversity = score_diversity messages in
    let rebuttal = score_rebuttal messages in
    record {
      evidence_sufficiency = evidence;
      argument_logic = logic;
      perspective_diversity = diversity;
      rebuttal_strength = rebuttal;
      overall =
          plus (plus (plus (tenths 3 evidence) (tenths 3 logic)) (tenths 2 diversity))
            (tenths 2 rebuttal);
    }

-- a placeholder in the source, as are the two lists of points
abbrev pub assess_topic_relevance : List MessageRow → Ratio
assess_topic_relevance messages = record { num = 8; den = 10 }

abbrev pub extract_key_points : List MessageRow → List String
extract_key_points messages = []

abbrev pub identify_unresolved : List MessageRow → List String
identify_unresolved messages = []

abbrev pub is_high : ConsensusLevel → Bool
is_high high = true
is_high _ = false

abbrev pub is_fractured : ConsensusLevel → Bool
is_fractured fractured = true
is_fractured _ = false

unfoldable pub make_decision : ConsensusLevel → Metrics → ℕ → Assessment
make_decision level metrics n =
    let answer : AssessmentResult → String → List String → Assessment =
      λ result rationale recommendations. record {
        result = result;
        consensus_level = level;
        metrics = metrics;
        rationale = rationale;
        recommendations = recommendations;
      } in
    let weak = below_half metrics.argument_quality_score in
    if is_high level
    then answer consensus_reached "High consensus detected" ("Proceed to voting" ∷ [])
    else if is_fractured level && weak
    then answer needs_more "Severe disagreement with weak arguments"
        ("Continue discussion" ∷ "Add more evidence" ∷ [])
    else if below_half metrics.topic_relevance_score
    then answer off_topic "Discussion off topic" ("Refocus on topic" ∷ [])
    else if leb 6 n && not weak
    then answer sufficient "Discussion sufficient" ("Proceed to voting" ∷ [])
    else answer needs_more "Discussion not yet sufficient" ("Continue next round" ∷ [])

-- what `assess` does with the messages that it has read; the title of the motion is not looked at
unfoldable pub assess_messages : List MessageRow → Assessment
unfolding detect assess_argument_quality score make_decision
assess_messages messages =
    let (level, stance_counts) = detect messages in
    make_decision level
      (record {
        total_messages = length messages;
        stance_distribution = stance_counts;
        argument_quality_score = assess_argument_quality messages;
        topic_relevance_score = assess_topic_relevance messages;
        quality_score = score messages;
        key_points_identified = extract_key_points messages;
        unresolved_points = identify_unresolved messages;
      })
      (length messages)

unfoldable pub assess : String → List MessageRow → Assessment
unfolding get_messages assess_messages
assess k rows = assess_messages (get_messages k none none rows)
