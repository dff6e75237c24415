-- ===== src/Smart/Messages/Order.antt =====
-- What the order by time leaves alone: the counts, sums and tests over the rows.
use hermes_agora.Base.{
  sym, ap, ◌∙◌, length, length-count_if, keep_congr, String, none, ◌==◌, true, ℕ, ◌≡◌, refl, inl,
  inr, Bool, Option, List, [], ◌∷◌, arith, leb, Bool-cases, All, keep, count_if, any_of, sum_by,
}
use hermes_agora.Smart.Messages.{MessageRow, insert, by_time, get_messages, selects}

module _ (p : MessageRow → Bool) where
  count_if-insert :
      (m : MessageRow) (xs : List MessageRow) → count_if p (insert m xs) ≡ count_if p (m ∷ xs)
  unfolding insert
  count_if-insert m [] = refl
  count_if-insert m (x ∷ xs) = ground (arith, count_if-insert m xs)

  pub count_if-by_time : (xs : List MessageRow) → count_if p (by_time xs) ≡ count_if p xs
  unfolding by_time
  count_if-by_time [] = refl
  count_if-by_time (x ∷ xs) = ground (arith, count_if-insert x (by_time xs), count_if-by_time xs)

  any_of-insert :
      (m : MessageRow) (xs : List MessageRow) → any_of p (insert m xs) ≡ any_of p (m ∷ xs)
  unfolding insert
  any_of-insert m [] = refl
  any_of-insert m (x ∷ xs) = ground (arith, any_of-insert m xs)

  pub any_of-by_time : (xs : List MessageRow) → any_of p (by_time xs) ≡ any_of p xs
  unfolding by_time
  any_of-by_time [] = refl
  any_of-by_time (x ∷ xs) = ground (arith, any_of-insert x (by_time xs), any_of-by_time xs)

module _ (f : MessageRow → ℕ) where
  sum_by-insert :
      (m : MessageRow) (xs : List MessageRow) → sum_by f (insert m xs) ≡ sum_by f (m ∷ xs)
  unfolding insert
  sum_by-insert m [] = refl
  sum_by-insert m (x ∷ xs) = ground (arith, sum_by-insert m xs)

  pub sum_by-by_time : (xs : List MessageRow) → sum_by f (by_time xs) ≡ sum_by f xs
  unfolding by_time
  sum_by-by_time [] = refl
  sum_by-by_time (x ∷ xs) = ground (arith, sum_by-insert x (by_time xs), sum_by-by_time xs)

pub length-by_time : (xs : List MessageRow) → length (by_time xs) ≡ length xs
length-by_time xs =
    sym (length-count_if (by_time xs)) ∙ count_if-by_time (λ m. true) xs ∙ length-count_if xs

-- The messages of a motion are those with its id, by time.
pub get_messages_all :
    (k : String) (rows : List MessageRow)
    → get_messages k none none rows ≡ by_time (keep (λ m. m.motion_id == k) rows)
unfolding get_messages
get_messages_all k rows = ap by_time (keep_congr (selects k none none) _ rows (λ m. ground arith))

module _ {κ} (P : MessageRow → Type κ) where
  All-insert : (m : MessageRow) (xs : List MessageRow) → P m → All P xs → All P (insert m xs)
  unfolding insert
  All-insert m [] p h = (p, tt)
  All-insert m (x ∷ xs) p h = elim (Bool-cases (leb m.timestamp x.timestamp)) [
    | inl e ↦ rw e (p, h)
    | inr e ↦ rw e (h.0, All-insert m xs p h.1)
  ]

  pub All-by_time : (xs : List MessageRow) → All P xs → All P (by_time xs)
  unfolding by_time
  All-by_time [] h = tt
  All-by_time (x ∷ xs) h = All-insert x (by_time xs) h.0 (All-by_time xs h.1)

  All-keep : (p : MessageRow → Bool) (xs : List MessageRow) → All P xs → All P (keep p xs)
  All-keep p [] h = tt
  All-keep p (x ∷ xs) h = elim (Bool-cases (p x)) [
    | inl e ↦ rw e (h.0, All-keep p xs h.1)
    | inr e ↦ rw e (All-keep p xs h.1)
  ]

  -- What holds of every row holds of the rows that are read.
  pub All-get_messages :
      (k : String) (round : Option ℕ) (agent : Option String) (rows : List MessageRow)
      → All P rows
      → All P (get_messages k round agent rows)
  unfolding get_messages
  All-get_messages k round agent rows h =
      All-by_time (keep (selects k round agent) rows) (All-keep (selects k round agent) rows h)
