-- ===== src/Examples/Smart.antt =====
-- A discussion of two agents, its rounds and its alerts, on concrete rows.
use Prim.Native.String.{count}
use hermes_agora.Base.{
  ◌<◌, ◌⊎◌, ℕ, zero, suc, ◌≤◌, max, String, ◌≡◌, refl, true, false, Option, none, some, List, [],
  ◌∷◌, arith, All, to_set,
}
use hermes_agora.Motion.Store.{Motion, get_motion}
use hermes_agora.Smart.Messages.{MessageRow, get_messages}
use hermes_agora.Smart.Assess.{stances, Ratio, assess}
use hermes_agora.Smart.Assess.Decision.{HasText, expected, assess_exact}
use hermes_agora.Smart.Guard.{default_config}
use hermes_agora.Smart.Advocate.{default_advocate, check_quality_triggers}
use hermes_agora.Smart.Advocate.Triggers.{check_quality_triggers_exact}
use hermes_agora.Smart.Deadlock.{ref_count_of, Detector, new_detector, get_deadlock_risk}
use hermes_agora.Smart.Deadlock.Risks.{reports, get_deadlock_risk_exact}
use hermes_agora.Smart.Rounds.{Room, round_done, maybe_assess_round}
use hermes_agora.Smart.Rounds.Steps.{IsComplete, IsIdle, Moved, assessed_round}
use hermes_agora.Smart.Rounds.Ending.{assess_at, rounds_end_in_vote}
use hermes_agora.Smart.Speaking.{Speech}
use hermes_agora.Smart.Speaking.Unassessed.{
  Happening, created, event, speech, IsAtZero, all_happen, rounds_never_begin,
}
use hermes_agora.Smart.Dynamic.{RoundConfig}
use hermes_agora.Smart.Scheduler.{Settings, Desk, returned}
use hermes_agora.Smart.Scheduler.Turns.{last_round}
use hermes_agora.Smart.Scheduler.Ending.{assess_while, scheduled_ends_in_vote}

abbrev debate : Motion
debate = record {
  id = "m1";
  rounds = 2;
  voting_method = "simple_majority";
  smart_mode = false;
  status = "discussing";
  current_round = 1;
  decision = none;
  rationale = none;
  updated_at = 0;
  closed_at = none;
}

abbrev said : String → ℕ → String → MessageRow
said agent round stance = record {
  motion_id = "m1";
  agent_id = agent;
  round_num = round;
  stance = stance;
  content = "because";
  evidence = "[]";
  timestamp = round;
}

abbrev rows : List MessageRow
rows =
    said "ann" 1 "support"
    ∷ said "bob" 1 "oppose"
    ∷ said "ann" 2 "neutral"
    ∷ said "bob" 2 "oppose"
    ∷ []

abbrev hall : Room
hall = record {
  motions = debate ∷ [];
  messages = rows;
  agents =
      record { agent_id = "ann"; is_online = true }
      ∷ record { agent_id = "bob"; is_online = true }
      ∷ [];
  assessments = [];
  detector = new_detector;
  sent = [];
}

abbrev hash_of : String → ℕ
hash_of s = count s

abbrev same_text : String → String
same_text s = s

abbrev first_of : List String → Option String
first_of [] = none
first_of (x ∷ xs) = some x

abbrev written : List String → String
written xs = "[]"

rows-HasText : All HasText rows
rows-HasText = ground arith

found : get_motion "m1" hall.motions ≡ some debate
unfolding get_motion
found = refl

done_in : (r : ℕ) → 1 ≤ r → r ≤ max 1 2 → round_done "m1" r hall ≡ true
unfolding round_done get_messages to_set
done_in zero from to = absurd (omega (arith, from))
done_in (suc zero) from to = refl
done_in (suc (suc zero)) from to = refl
done_in (suc (suc (suc r))) from to = absurd (omega (arith, to))

assess_exact_example : (assess "m1" rows).result ≡ expected rows
assess_exact_example = assess_exact "m1" rows rows-HasText

assessed_round_example :
    (IsIdle "m1" debate hall × (maybe_assess_round hash_of same_text first_of 7 "m1" hall ≡ hall))
    ⊎ (IsComplete "m1" debate hall
        × Moved "m1" debate false hall (maybe_assess_round hash_of same_text first_of 7 "m1" hall))
assessed_round_example =
    assessed_round hash_of same_text first_of 7 "m1" hall debate found rows-HasText

rounds_end_in_vote_example :
    ((debate.current_round ≡ 0)
      × (assess_at hash_of same_text first_of "m1" (7 ∷ 8 ∷ []) hall ≡ hall))
    ⊎ ((0 < debate.current_round)
        × (n : Motion) × (get_motion "m1"
              (assess_at hash_of same_text first_of "m1" (7 ∷ 8 ∷ []) hall).motions
            ≡ some n)
        × (n.status ≡ "voting"))
rounds_end_in_vote_example =
    rounds_end_in_vote hash_of same_text first_of "m1" (7 ∷ 8 ∷ []) hall debate found refl refl
      rows-HasText done_in (omega arith) (omega arith)

abbrev opening : Speech String
opening = record {
  motion_id = some "m1";
  round = none;
  stance = some "support";
  content = some "because";
  evidence = none;
}

abbrev happenings : List (Happening String)
happenings =
    created 1 "m1" 2 "simple_majority"
    ∷ event 2 "m1" "start"
    ∷ speech 3 "ann" opening
    ∷ speech 4 "bob" opening
    ∷ []

abbrev empty_hall : Room
empty_hall = record hall { motions = []; messages = [] }

rounds_never_begin_example :
    let after = all_happen written (λ n. "1") hash_of same_text first_of happenings empty_hall in
    All IsAtZero after.motions × (after.assessments ≡ [])
rounds_never_begin_example =
    rounds_never_begin written (λ n. "1") hash_of same_text first_of happenings empty_hall tt

abbrev rounds_config : RoundConfig
rounds_config = record {
  min_rounds = 2;
  max_rounds = 5;
  adaptive = true;
  quality_threshold = record { num = 7; den = 10 };
  low_quality_threshold = record { num = 4; den = 10 };
}

abbrev half : Ratio
half = record { num = 1; den = 2 }

abbrev settings : Settings
settings = record {
  smart_discussion_enabled = true;
  dynamic_rounds_enabled = true;
  max_rounds = 5;
  consensus_jump_ratio = record { num = 7; den = 10 };
  realtime_consensus_threshold = record { num = 8; den = 10 };
  realtime_min_messages = 3;
  rounds = rounds_config;
}

abbrev desk : Desk
desk = record { room = hall; cache = []; trigger_count = [] }

abbrev clock : List ℕ
clock = 1 ∷ 2 ∷ 3 ∷ 4 ∷ 5 ∷ []

last_is_five : last_round settings ≡ 5
unfolding last_round
last_is_five = refl

scheduled_ends_in_vote_example :
    (after : Desk) × (assess_while settings hash_of same_text first_of "m1" clock desk
      ≡ returned after)
    × (n : Motion) × (get_motion "m1" after.room.motions ≡ some n)
    × (n.status ≡ "voting")
scheduled_ends_in_vote_example =
    scheduled_ends_in_vote settings hash_of same_text first_of "m1" clock desk debate found refl
      rows-HasText (omega arith) (omega (arith, last_is_five))

abbrev talked : Detector
talked = record new_detector { ref_count = (("ann", "m1"), 10) ∷ [] }

get_deadlock_risk_exact_example : reports "ann" "m1" (get_deadlock_risk talked) ≡ true
unfolding ref_count_of
get_deadlock_risk_exact_example = get_deadlock_risk_exact talked "ann" "m1" (omega arith)

check_quality_triggers_exact_example :
    check_quality_triggers hash_of same_text first_of default_config default_advocate "m1"
      (said "ann" 1 "support" ∷ [])
      hall.agents
    ≡ some (true, some "ann")
unfolding get_messages stances to_set
check_quality_triggers_exact_example =
    check_quality_triggers_exact hash_of same_text first_of "m1" (said "ann" 1 "support" ∷ [])
      hall.agents (ground arith)
