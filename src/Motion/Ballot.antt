-- ===== src/Motion/Ballot.antt =====
-- agora/coordinator/ws_vote.py: the handler of a vote that arrives on a socket.
pub mod Recording
use hermes_agora.Base.{
  ℕ, String, ◌≡◌, Bool, true, false, not, ◌&&◌, Option, none, some, List, [], ◌∷◌, ◌++◌, ◌==◌,
  if◌then◌else◌, is_empty, keep, all_of,
}
use hermes_agora.Voting.Types.{
  VotingMethod, of_value, simple_majority, supermajority, unanimous, weighted, borda_count,
  ranked_choice, approval, range, instant_runoff,
}
use hermes_agora.Motion.Store.{
  Motion, VoteRow, AgentRow, VoteData, ranking_data, approved_data, scores_data, type_data, Summary,
  get_motion, has_voted, add_vote, get_vote_summary,
}
use hermes_agora.Motion.State.{Outcome, not_found, invalid_transition, moved, transition, can_vote}

-- The payload of VOTE; a field is none where the key is missing.
pub record Payload : Type 0 where
  pub motion_id : Option String
  pub kind : Option String
  pub vote : Option String
  pub ranking : Option (List String)
  pub approved : Option (List String)
  pub scores : Option (List (String × ℕ))
  pub confidence : Option ℕ
  pub reason : Option String

pub data Message : Type 0 where
  error : (agent code : String) → Message
  vote_confirmed : (agent motion vote : String) → Message
  result : (motion : String) → Summary → Message

-- The tables, what was sent (a result goes to every connection), what was published to the
-- dashboard, and the motions that were handed to the review after a vote.
pub record Floor : Type 0 where
  pub motions : List Motion
  pub votes : List VoteRow
  pub agents : List AgentRow
  pub sent : List Message
  pub votes_cast : List (String × String × String)
  pub reviewed : List String

abbrev pub send : Message → Floor → Floor
send m f = record f { sent = f.sent ++ m ∷ [] }

-- `payload.get(key, default)`
abbrev pub get_or {ℓ} : {A : Type ℓ} → A → Option A → A
get_or d none = d
get_or d (some a) = a

abbrev pub is_some {ℓ} : {A : Type ℓ} → Option A → Bool
is_some none = false
is_some (some _) = true

abbrev pub fits : VotingMethod → String → Payload → Bool
fits simple_majority kind p = kind == "binary" && is_some p.vote
fits supermajority kind p = kind == "binary" && is_some p.vote
fits unanimous kind p = kind == "binary" && is_some p.vote
fits weighted kind p = kind == "binary" && is_some p.vote
fits ranked_choice kind p = kind == "ranking" && is_some p.ranking
fits approval kind p = kind == "approval" && is_some p.approved
fits range kind p = kind == "range" && is_some p.scores
fits borda_count kind p = kind == "ranking" && is_some p.ranking
fits instant_runoff kind p = kind == "ranking" && is_some p.ranking

unfoldable pub validate_vote_format : String → String → Payload → Bool
unfolding of_value
validate_vote_format method kind p = elim (of_value method) [ none ↦ true | some m ↦ fits m kind p ]

unfoldable pub extract_vote_data : String → Payload → String × Option VoteData
extract_vote_data kind p =
    if kind == "binary"
    then (get_or "abstain" p.vote, none)
    else if kind == "ranking"
    then ("ranking", some (ranking_data (get_or [] p.ranking)))
    else if kind == "approval"
    then ("approval", some (approved_data (get_or [] p.approved)))
    else if kind == "range"
    then ("range", some (scores_data (get_or [] p.scores)))
    else if kind == "multiple_choice"
    then (get_or "" p.vote, some (type_data "multiple_choice"))
    else (get_or "abstain" p.vote, none)

-- `list_agents(online_only=True)`
abbrev pub online_agents : List AgentRow → List AgentRow
online_agents agents = keep (λ a. a.is_online) agents

unfoldable pub everyone_voted : String → Floor → Bool
unfolding has_voted
everyone_voted k f =
    all_of (λ a. has_voted k a.agent_id f.votes) (online_agents f.agents)
    && not (is_empty (online_agents f.agents))

unfoldable pub after_vote : String → Floor → Outcome → Floor
unfolding get_vote_summary
after_vote k f not_found = f
after_vote k f invalid_transition = f
after_vote k f (moved _ motions) = record f {
  motions = motions;
  sent = f.sent ++ result k (get_vote_summary k f.votes) ∷ [];
  reviewed = f.reviewed ++ k ∷ [];
}

unfoldable pub check_all_voted : ℕ → String → Floor → Floor
unfolding transition
check_all_voted now k f =
    if everyone_voted k f then after_vote k f (transition now k "all_voted" f.motions) else f

unfoldable pub vote_row : String → String → String → Payload → VoteRow
unfolding extract_vote_data
vote_row k agent kind p =
    let (text, contents) = extract_vote_data kind p in
    record {
      motion_id = k;
      agent_id = agent;
      vote = text;
      vote_type = kind;
      vote_data = contents;
      confidence = get_or 1000000 p.confidence;
      reason = p.reason;
    }

-- What the handler does once the vote is in the table; none stands for the error that the INSERT
-- of a second vote raises.
unfoldable pub stored : ℕ → VoteRow → Floor → Option (List VoteRow) → Option Floor
unfolding check_all_voted
stored now v f none = none
stored now v f (some votes) = some (
    check_all_voted now v.motion_id (record f {
      votes = votes;
      sent = f.sent ++ vote_confirmed v.agent_id v.motion_id v.vote ∷ [];
      votes_cast = f.votes_cast ++ (v.motion_id, v.agent_id, v.vote) ∷ [];
    }))

unfoldable pub on_motion : ℕ → String → String → Payload → Floor → Option Motion → Option Floor
unfolding validate_vote_format add_vote
on_motion now agent k p f none = some (send (error agent "not_found") f)
on_motion now agent k p f (some m) =
    let kind = get_or "binary" p.kind in
    if not (validate_vote_format m.voting_method kind p)
    then some (send (error agent "invalid_vote_format") f)
    else let v = vote_row k agent kind p in stored now v f (add_vote v f.votes)

unfoldable pub handle_vote : ℕ → String → Payload → Floor → Option Floor
unfolding can_vote get_motion
handle_vote now agent p f =
    let k = get_or "" p.motion_id in
    if k == ""
    then some (send (error agent "missing_motion_id") f)
    else if not (can_vote k agent f.motions f.agents f.votes)
    then some (send (error agent "cannot_vote") f)
    else on_motion now agent k p f (get_motion k f.motions)
