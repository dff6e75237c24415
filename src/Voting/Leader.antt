-- ===== src/Voting/Leader.antt =====
-- `max(counts.items(), key=lambda x: x[1])`: the first entry with the highest count.
use hermes_agora.Base.{
  ℕ, ◌≤◌, String, inl, inr, [], ◌∷◌, arith, ltb, if◌then◌else◌, Bool-cases, All,
}
use hermes_agora.Base.Dict.{Dict}

abbrev higher : String × ℕ → String × ℕ → String × ℕ
higher best e = if ltb best.1 e.1 then e else best

unfoldable pub leader : String × ℕ → Dict ℕ → String × ℕ
leader best [] = best
leader best (e ∷ l) = leader (higher best e) l

higher_bounds : (best e : String × ℕ) → (best.1 ≤ (higher best e).1) × (e.1 ≤ (higher best e).1)
higher_bounds best e = ground arith

All-higher {κ} : (P : String × ℕ → Type κ) (best e : String × ℕ) → P best → P e → P (higher best e)
All-higher P best e p q = elim (Bool-cases (ltb best.1 e.1)) [ inl h ↦ rw h q | inr h ↦ rw h p ]

-- What holds of every entry holds of the leader.
pub All-leader {κ} :
    (P : String × ℕ → Type κ) (best : String × ℕ) (l : Dict ℕ)
    → P best
    → All P l
    → P (leader best l)
unfolding leader
All-leader P best [] p h = p
All-leader P best (e ∷ l) p h = All-leader P (higher best e) l (All-higher P best e p h.0) h.1

pub le-leader : (best : String × ℕ) (l : Dict ℕ) → best.1 ≤ (leader best l).1
unfolding leader
le-leader best [] = omega arith
le-leader best (e ∷ l) = omega (arith, (higher_bounds best e).0, le-leader (higher best e) l)

-- No entry has a higher count than the leader.
pub leader-max : (best : String × ℕ) (l : Dict ℕ) → All (λ e. e.1 ≤ (leader best l).1) l
unfolding leader
leader-max best [] = tt
leader-max best (e ∷ l) = (
  omega (arith, (higher_bounds best e).1, le-leader (higher best e) l),
  leader-max (higher best e) l,
)
