-- ===== src/Smart/Assess/Decision.antt =====
-- The result of the assessment against the numbers of messages and stances.
use Prim.Native.String.{count}
use hermes_agora.Base.{
  ap, inr, inl, none, keep, text-cases, refl, ℕ, ◌*◌, ◌≤◌, ◌<◌, String, ◌≡◌, sym, ◌∙◌, Bool, false,
  not, ◌&&◌, List, [], ◌∷◌, arith, ◌==◌, ltb, leb, if◌then◌else◌, length, All, count_if, sum_by,
  count_if_congr,
}
use hermes_agora.Base.Dict
use hermes_agora.Base.Counter.{count_by, sum_values, picks, is_some, get-count_by, sum-count_by}
use hermes_agora.Smart.Messages.{MessageRow, by_time, get_messages}
use hermes_agora.Smart.Messages.Order.{
  count_if-by_time, get_messages_all, length-by_time, All-get_messages,
}
use hermes_agora.Smart.Assess.{
  AssessmentResult, consensus_reached, sufficient, needs_more, stance_of, detect, level_of,
  assess_argument_quality, is_high, below_half, assess_messages, assess, ConsensusLevel, Metrics,
  make_decision,
}

-- A message with a stance, and one that supports.
abbrev pub takes_side : MessageRow → Bool
takes_side m = not (m.stance == "")

abbrev pub supports : MessageRow → Bool
supports m = m.stance == "support"

-- At least seven tenths of the messages with a stance support, of which there is one.
abbrev pub is_agreed : List MessageRow → Bool
is_agreed ms =
    ltb 0 (count_if takes_side ms) && leb (7 * count_if takes_side ms) (10 * count_if supports ms)

abbrev pub expected : List MessageRow → AssessmentResult
expected ms =
    if is_agreed ms then consensus_reached else if leb 6 (length ms) then sufficient else needs_more

-- The column `evidence` holds a text, be it that of an empty list.
abbrev pub HasText : MessageRow → Type 0
HasText m = 0 < count m.evidence

is_high-level_of : (t s o : ℕ) → is_high (level_of t s o) ≡ leb (7 * t) (10 * s)
unfolding level_of
is_high-level_of t s o = ground arith

picks-stance_of : (m : MessageRow) → picks "support" (stance_of m) ≡ supports m
picks-stance_of m = elim (text-cases m.stance "") [
  | inl (h, e) ↦ rw (h, e) refl
  | inr (h, e) ↦ rw h refl
]

is_some-stance_of : (m : MessageRow) → is_some (stance_of m) ≡ takes_side m
is_some-stance_of m = ground arith

support_count :
    (ms : List MessageRow) → Dict.get_or "support" 0 (count_by stance_of ms) ≡ count_if supports ms
support_count ms =
    get-count_by stance_of "support" ms ∙ count_if_congr _ supports ms picks-stance_of

stance_count : (ms : List MessageRow) → sum_values (count_by stance_of ms) ≡ count_if takes_side ms
stance_count ms = sum-count_by stance_of ms ∙ count_if_congr _ takes_side ms is_some-stance_of

pub is_high-detect : (ms : List MessageRow) → is_high (detect ms).0 ≡ is_agreed ms
unfolding detect
is_high-detect ms =
    rw (stance_count ms, support_count ms)
      (ground (
        arith,
        is_high-level_of (count_if takes_side ms) (count_if supports ms)
            (Dict.get_or "oppose" 0 (count_by stance_of ms)),
      ))

length-le-evidence :
    (ms : List MessageRow) → All HasText ms → length ms ≤ sum_by (λ m. count m.evidence) ms
length-le-evidence [] h = omega arith
length-le-evidence (m ∷ ms) h = omega (arith, h.0, length-le-evidence ms h.1)

quality_half :
    (m : MessageRow) (ms : List MessageRow)
    → All HasText (m ∷ ms)
    → below_half (assess_argument_quality (m ∷ ms)) ≡ false
unfolding assess_argument_quality
quality_half m ms h = ground (arith, length-le-evidence (m ∷ ms) h)

-- The decision on metrics that are neither weak nor off the topic.
decision_result :
    (level : ConsensusLevel) (metrics : Metrics) (n : ℕ)
    → below_half metrics.argument_quality_score ≡ false
    → below_half metrics.topic_relevance_score ≡ false
    → (make_decision level metrics n).result
      ≡ (if is_high level then consensus_reached else if leb 6 n then sufficient else needs_more)
unfolding make_decision
decision_result level metrics n strong near = rw (strong, near) (ground arith)

pub result-assess_messages :
    (ms : List MessageRow) → All HasText ms → (assess_messages ms).result ≡ expected ms
unfolding assess_messages
result-assess_messages [] h = refl
result-assess_messages (m ∷ ms) h =
    rw (sym (is_high-detect (m ∷ ms)))
      (decision_result (detect (m ∷ ms)).0 _ (length (m ∷ ms)) (quality_half m ms h) refl)

expected-by_time : (ms : List MessageRow) → expected (by_time ms) ≡ expected ms
expected-by_time ms =
    rw (count_if-by_time takes_side ms, count_if-by_time supports ms, length-by_time ms) refl

-- Where the column of the evidence is never empty, the assessment of a motion is a consensus if
-- seven tenths of its messages with a stance support it, of which there is one, else it is
-- sufficient if there are six messages, and else more discussion is needed: no other result
-- occurs.
pub assess_exact :
    (k : String) (rows : List MessageRow)
    → All HasText rows
    → (assess k rows).result ≡ expected (keep (λ m. m.motion_id == k) rows)
unfolding assess
assess_exact k rows h =
    result-assess_messages (get_messages k none none rows)
      (All-get_messages HasText k none none rows h)
    ∙ ap expected (get_messages_all k rows)
    ∙ expected-by_time (keep (λ m. m.motion_id == k) rows)
