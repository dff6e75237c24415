-- ===== src/Examples/Discussion.antt =====
-- A motion, its votes and the limits of its speakers, on concrete rows.
use hermes_agora.Base.{◌≤◌, String, ◌≡◌, refl, true, none, some, [], ◌∷◌, arith}
use hermes_agora.Motion.Store.{Motion, VoteRow, get_motion}
use hermes_agora.Motion.State.Runs.{IsCalled, closed_is_final}
use hermes_agora.Motion.Ballot.{Payload, Message, Floor, validate_vote_format}
use hermes_agora.Motion.Ballot
use hermes_agora.Motion.State.Runs
use hermes_agora.RateLimit.{RateLimiter}
use hermes_agora.RateLimit.Window
use hermes_agora.RateLimit.Stamps.{in_window}
use hermes_agora.RateLimit.Window.{Call, check, window_within_limit}

abbrev motion_in : String → Motion
motion_in status = record {
  id = "m1";
  rounds = 3;
  voting_method = "simple_majority";
  smart_mode = true;
  status = status;
  current_round = 3;
  decision = none;
  rationale = none;
  updated_at = 0;
  closed_at = none;
}

abbrev vote_by : String → String → VoteRow
vote_by agent choice = record {
  motion_id = "m1";
  agent_id = agent;
  vote = choice;
  vote_type = "binary";
  vote_data = none;
  confidence = 1000000;
  reason = none;
}

abbrev ballot : Payload
ballot = record {
  motion_id = some "m1";
  kind = none;
  vote = some "yes";
  ranking = none;
  approved = none;
  scores = none;
  confidence = none;
  reason = none;
}

abbrev floor : Floor
floor = record {
  motions = motion_in "voting" ∷ [];
  votes = vote_by "ann" "no" ∷ [];
  agents =
      record { agent_id = "ann"; is_online = true }
      ∷ record { agent_id = "bob"; is_online = true }
      ∷ [];
  sent = [];
  votes_cast = [];
  reviewed = [];
}

closed_is_final_example :
    get_motion "m1"
      (Runs.run "m1" ((7, "start") ∷ (8, "force_close") ∷ []) (motion_in "closed" ∷ []))
    ≡ some (motion_in "closed")
unfolding get_motion
closed_is_final_example =
    closed_is_final "m1" ((7, "start") ∷ (8, "force_close") ∷ []) (motion_in "closed" ∷ [])
      (motion_in "closed") refl refl

window_within_limit_example :
    in_window 60000005
      (Window.run "ann" "speak"
        (check 1 2 "ann" "speak" ∷ check 3 4 "ann" "speak" ∷ [])
        (record { rate_limit_speak = 1; rate_limit_vote = 5; counts = [] })
        []).1
    ≤ 1
window_within_limit_example =
    window_within_limit "ann" "speak" 1 60000005
      (check 1 2 "ann" "speak" ∷ check 3 4 "ann" "speak" ∷ []) 1 5 refl
      (omega arith, omega arith, (omega arith, omega arith, omega arith))

abbrev quiet : RateLimiter
quiet = record { rate_limit_speak = 0; rate_limit_vote = 5; counts = [] }
