-- ===== src/Smart/Realtime.antt =====
-- agora/coordinator/realtime_evaluator.py: the test after each message. What it reads of a message, from
-- the table or from the sender, is its stance, its content and whether it has evidence.
-- Where the minimum of messages is zero and no message has a stance, the source divides by zero, and
-- the model finds a consensus.
use Prim.Native.String.{count}
use hermes_agora.Base.{
  ℕ, ◌*◌, String, Bool, false, not, ◌||◌, Option, none, some, List, [], ◌∷◌, ◌++◌, map, ◌==◌, ltb,
  leb, if◌then◌else◌, length, keep, count_if, sum_by,
}
use hermes_agora.Smart.Messages.{MessageRow, get_messages}
use hermes_agora.Smart.Assess.{Ratio, has_evidence}

pub record Heard : Type 0 where
  pub stance : Option String
  pub content : String
  pub evident : Bool

abbrev pub heard_row : MessageRow → Heard
heard_row m = record { stance = some m.stance; content = m.content; evident = has_evidence m }

-- The results that are not `None`.
pub data EvalResult : Type 0 where
  instant_consensus early_termination : EvalResult

-- `m.get("stance")`, where it is not empty
abbrev pub is_stated : Heard → Bool
is_stated m = elim m.stance [ none ↦ false | some s ↦ not (s == "") ]

abbrev pub takes : String → Heard → Bool
takes stance m = elim m.stance [ none ↦ false | some s ↦ s == stance ]

module _ (consensus_threshold : Ratio) (min_messages : ℕ) where
  unfoldable pub detect_instant_consensus : List Heard → Bool
  detect_instant_consensus messages =
      let stances = keep is_stated messages in
      let total = length stances in
      let enough : ℕ → Bool =
        λ n. leb (consensus_threshold.num * total) (n * consensus_threshold.den) in
      if ltb total min_messages
      then false
      else enough (count_if (takes "support") stances) || enough (count_if (takes "oppose") stances)

  unfoldable pub should_end_early : List Heard → Bool
  should_end_early messages =
      let n = length messages in
      if ltb n 6
      then false
      else if ltb (10 * count_if (λ m. m.evident) messages) (3 * n)
      then false
      else not (ltb (sum_by (λ m. count m.content) messages) (100 * n))

  unfoldable pub evaluate : String → Heard → List MessageRow → Option EvalResult
  unfolding get_messages detect_instant_consensus should_end_early
  evaluate k message rows =
      let messages = map heard_row (get_messages k none none rows) ++ message ∷ [] in
      if detect_instant_consensus messages
      then some instant_consensus
      else if should_end_early messages
      then some early_termination
      else none
