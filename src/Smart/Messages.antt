-- ===== src/Smart/Messages.antt =====
-- agora/coordinator/storage/messages.py: the rows of the table `messages`. The generated id is left
-- out, since no code reads it. A time stamp is a number, given by the caller. `json.dumps` is a
-- parameter; the column `evidence` holds its text, which no reader decodes.
pub mod Order
use Prim.Native.String.{count}
use hermes_agora.Base.{
  ℕ, String, ◌≡◌, Bool, true, ◌&&◌, Option, none, some, List, [], ◌∷◌, ◌++◌, ◌==◌, leb, eqb,
  if◌then◌else◌, keep, count_if,
}

pub record MessageRow : Type 0 where
  pub motion_id : String
  pub agent_id : String
  pub round_num : ℕ
  pub stance : String
  pub content : String
  pub evidence : String
  pub timestamp : ℕ

-- ORDER BY timestamp ASC, as a stable insertion sort
unfoldable pub insert : MessageRow → List MessageRow → List MessageRow
insert m [] = m ∷ []
insert m (x ∷ xs) =
    let rest = insert m xs in if leb m.timestamp x.timestamp then m ∷ x ∷ xs else x ∷ rest

unfoldable pub by_time : List MessageRow → List MessageRow
unfolding insert
by_time [] = []
by_time (m ∷ ms) = insert m (by_time ms)

-- the WHERE clause
abbrev pub selects : String → Option ℕ → Option String → MessageRow → Bool
selects k round agent m =
    m.motion_id == k
    && (elim round [ none ↦ true | some r ↦ eqb m.round_num r ])
    && (elim agent [ none ↦ true | some a ↦ m.agent_id == a ])

unfoldable pub get_messages : String → Option ℕ → Option String → List MessageRow → List MessageRow
unfolding by_time
get_messages k round agent rows = by_time (keep (selects k round agent) rows)

unfoldable pub count_messages_by_round : String → ℕ → List MessageRow → ℕ
count_messages_by_round k round rows = count_if (selects k (some round) none) rows

module _ {E : Type 0} (dumps : List E → String) where
  unfoldable pub add_message :
      ℕ → String → String → ℕ → String → String → List E → List MessageRow → List MessageRow
  add_message now k a round stance content evidence rows =
      rows
      ++ record {
        motion_id = k;
        agent_id = a;
        round_num = round;
        stance = stance;
        content = content;
        evidence = dumps evidence;
        timestamp = now;
      }
        ∷ []
