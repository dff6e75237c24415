-- ===== src/Smart/Speaking.antt =====
-- agora/coordinator/ws_handlers.py: `handle_speak`. The broadcasts and the errors are a log; the push to
-- the dashboard is left out. The text of a number, Python's `str`, is a parameter.
pub mod Unassessed
use hermes_agora.Base.{
  ℕ, String, ◌≡◌, Bool, true, false, not, Option, none, some, List, [], ◌++◌, map, ◌==◌,
  if◌then◌else◌, keep,
}
use hermes_agora.Motion.State.{can_speak}
use hermes_agora.Smart.Deadlock.{is_dead, track_reference, get_deadlock_risk}
use hermes_agora.Smart.Messages.{add_message}
use hermes_agora.Smart.Rounds.{Room, refused, break_signal, speech_added, send, maybe_assess_round}

-- The payload of SPEAK; a key may be missing.
pub record Speech (E : Type 0) : Type 0 where
  pub motion_id : Option String
  pub round : Option ℕ
  pub stance : Option String
  pub content : Option String
  pub evidence : Option (List E)

abbrev pub or_else {ℓ} : {A : Type ℓ} → A → Option A → A
or_else d none = d
or_else d (some a) = a

module _ {E : Type 0} (dumps : List E → String) (str : ℕ → String) (hash : String → ℕ)
    (strip : String → String) (first : List String → Option String) where
  -- the reference from the agent to the motion, and a signal for each deadlock
  unfoldable pub detect_deadlocks : String → String → ℕ → Room → Room
  unfolding track_reference get_deadlock_risk
  detect_deadlocks agent k round room =
      let detector = track_reference agent k (str round) room.detector in
      let dead = keep (λ r. is_dead r.status) (get_deadlock_risk detector) in
      record room {
        detector = detector;
        sent = room.sent ++ map (λ r. break_signal r.one r.other) dead;
      }

  -- the handler for a motion that the agent may speak on
  unfoldable pub speak : ℕ → String → String → Speech E → Room → Room
  unfolding add_message maybe_assess_round detect_deadlocks
  speak now agent k p room =
      let round = or_else 1 p.round in
      let stored = record room {
        messages =
            add_message dumps now k agent round (or_else "neutral" p.stance) (or_else "" p.content)
              (or_else [] p.evidence) room.messages;
      } in
      detect_deadlocks agent k round
        (maybe_assess_round hash strip first now k (send (speech_added k agent) stored))

  unfoldable pub handle_speak : ℕ → String → Speech E → Room → Room
  unfolding can_speak speak
  handle_speak now agent p room =
      let k = or_else "" p.motion_id in
      if k == ""
      then send (refused agent "missing_motion_id") room
      else if not (can_speak k agent room.motions room.agents)
      then send (refused agent "cannot_speak") room
      else speak now agent k p room
