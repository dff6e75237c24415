-- ===== src/Smart/Jump.antt =====
-- agora/coordinator/consensus_jump.py: the stances on which enough agents agree.
use hermes_agora.Base.{
  ℕ, ◌+◌, ◌*◌, String, Bool, not, ◌&&◌, Option, none, some, List, [], ◌∷◌, ◌++◌, map, ◌==◌, leb,
  eqb, if◌then◌else◌, length, keep,
}
use hermes_agora.Base.Dict
use hermes_agora.Base.Dict.{Dict}
use hermes_agora.Smart.Messages.{MessageRow, get_messages}
use hermes_agora.Smart.Assess.{Ratio}
use hermes_agora.Smart.Guard.{agent_of}

pub record SubTopicConsensus : Type 0 where
  pub topic : String
  pub is_reached : Bool
  pub supporting_agents : List String
  pub support_ratio : Ratio

abbrev pub Cache : Type 0
Cache = Dict (List SubTopicConsensus)

abbrev pub agents_for : String → List MessageRow → List String
agents_for stance messages = map agent_of (keep (λ m. m.stance == stance) messages)

-- the topic of one stance; a stance that nobody takes is skipped
abbrev pub sub_topic : Ratio → ℕ → String → List String → List SubTopicConsensus
sub_topic consensus_ratio total topic [] = []
sub_topic consensus_ratio total topic (a ∷ agents) =
    let n = length (a ∷ agents) in
    record {
      topic = topic;
      is_reached = leb (consensus_ratio.num * total) (n * consensus_ratio.den) && leb 2 n;
      supporting_agents = a ∷ agents;
      support_ratio = record { num = n; den = total };
    }
    ∷ []

unfoldable pub analyze_sub_topics :
    Ratio → String → List MessageRow → Cache → List SubTopicConsensus × Cache
unfolding get_messages Dict.put
analyze_sub_topics consensus_ratio k rows cache =
    let messages = get_messages k none none rows in
    let support = agents_for "support" messages in
    let oppose = agents_for "oppose" messages in
    let neutral = agents_for "neutral" messages in
    let total = length support + length oppose + length neutral in
    let results =
      sub_topic consensus_ratio total "stance_support" support
      ++ sub_topic consensus_ratio total "stance_oppose" oppose
      ++ sub_topic consensus_ratio total "stance_neutral" neutral in
    if eqb total 0 then ([], cache) else (results, Dict.put k results cache)

unfoldable pub get_focus_topics : Ratio → String → List MessageRow → Cache → List String × Cache
unfolding analyze_sub_topics
get_focus_topics consensus_ratio k rows cache =
    let (topics, after) = analyze_sub_topics consensus_ratio k rows cache in
    (map (λ s. s.topic) (keep (λ s. not s.is_reached) topics), after)

unfoldable pub get_consensus_topics : Ratio → String → List MessageRow → Cache → List String × Cache
unfolding analyze_sub_topics
get_consensus_topics consensus_ratio k rows cache =
    let (topics, after) = analyze_sub_topics consensus_ratio k rows cache in
    (map (λ s. s.topic) (keep (λ s. s.is_reached) topics), after)

-- An empty id clears everything, as a missing one does.
unfoldable pub clear_cache : Option String → Cache → Cache
unfolding Dict.del
clear_cache none cache = []
clear_cache (some k) cache = if k == "" then [] else Dict.del k cache
