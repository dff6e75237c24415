-- ===== src/Smart/Dynamic.antt =====
-- agora/coordinator/dynamic_rounds.py: whether a discussion goes on. The scores are exact fractions.
use hermes_agora.Base.{
  ℕ, ◌*◌, ◌<◌, String, ◌≡◌, ◌↔◌, ◌⊎◌, Bool, true, false, not, ◌&&◌, none, some, List, arith, ltb,
  leb, if◌then◌else◌,
}
use hermes_agora.Motion.Store.{Motion, get_motion}
use hermes_agora.Smart.Assess.{ConsensusLevel, is_high, Ratio}

pub record RoundConfig : Type 0 where
  pub min_rounds : ℕ
  pub max_rounds : ℕ
  pub adaptive : Bool
  pub quality_threshold : Ratio
  pub low_quality_threshold : Ratio

-- `a < b`
abbrev pub is_lower : Ratio → Ratio → Bool
is_lower a b = ltb (a.num * b.den) (b.num * a.den)

-- the tests on a motion that was found
unfoldable pub decide_round : RoundConfig → ℕ → Ratio → ConsensusLevel → Bool × String
decide_round config current_round quality level =
    if ltb current_round config.min_rounds
    then (true, "min_rounds_not_met")
    else if is_high level
    then (false, "consensus_reached")
    else if not (is_lower quality config.quality_threshold)
    then (false, "quality_sufficient")
    else if leb config.max_rounds current_round
    then (false, "max_rounds_reached")
    else if config.adaptive && is_lower quality config.low_quality_threshold
    then (true, "quality_low_extend")
    else (true, "continue")

unfoldable pub should_continue :
    RoundConfig → String → List Motion → Ratio → ConsensusLevel → Bool × String
unfolding get_motion decide_round
should_continue config k motions quality level = elim (get_motion k motions) [
  | none ↦ (false, "motion_not_found")
  | some m ↦ decide_round config m.current_round quality level
]

decide_round_exact :
    (config : RoundConfig) (c : ℕ) (quality : Ratio) (level : ConsensusLevel)
    → ((decide_round config c quality level).0 ≡ true) ↔ (
        (c < config.min_rounds)
        ⊎ ((is_high level ≡ false)
            × (is_lower quality config.quality_threshold ≡ true)
            × (c < config.max_rounds)))
unfolding decide_round
decide_round_exact config c quality level = ground arith

-- For a motion that exists the dynamic rounds go on exactly where the least number of rounds is
-- not reached, or the consensus is not high, the quality is below its threshold and the greatest
-- number of rounds is not reached; the adaptive setting and the lower threshold make no
-- difference.
pub should_continue_exact :
    (config : RoundConfig) (k : String) (motions : List Motion) (quality : Ratio)
    → (level : ConsensusLevel) (m : Motion) → get_motion k motions ≡ some m
    → ((should_continue config k motions quality level).0 ≡ true) ↔ (
        (m.current_round < config.min_rounds)
        ⊎ ((is_high level ≡ false)
            × (is_lower quality config.quality_threshold ≡ true)
            × (m.current_round < config.max_rounds)))
unfolding should_continue
should_continue_exact config k motions quality level m at =
    rw (should_continue, at) (decide_round_exact config m.current_round quality level)
