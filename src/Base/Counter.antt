-- ===== src/Base/Counter.antt =====
-- `collections.Counter` with string keys: a dict from each key to the times it was counted.
use Prim.Native.Nat.{ℕ, suc, ◌+◌}
use Prim.Native.String.{String}
use mathlib.Core.Path.{◌≡◌, refl}
use mathlib.Core.Bool.{Bool, true, false, ◌||◌}
use mathlib.Core.Option.{Option, none, some}
use mathlib.Core.List.{List, [], ◌∷◌}
use native.Mathlib.Omega.{arith}
use text.Mathlib.Text.{◌==◌}
use text.Mathlib.TextEquality.{eq_iff}
use hermes_agora.Base.Tests.{if◌then◌else◌}
use hermes_agora.Base.Lists.{count_if}
use hermes_agora.Base.Sets.{mem}
use hermes_agora.Base.Dict
use hermes_agora.Base.Dict.{Dict}

-- `tally[k] += 1`
unfoldable pub bump : String → Dict ℕ → Dict ℕ
bump k tally = Dict.put k (Dict.get_or k 0 tally + 1) tally

-- `sum(tally.values())`
abbrev pub sum_values : Dict ℕ → ℕ
sum_values [] = 0
sum_values ((k, n) ∷ tally) = n + sum_values tally

abbrev pub keys {ℓ} : {V : Type ℓ} → Dict V → List String
keys [] = []
keys ((k, v) ∷ d) = k ∷ keys d

pub get-bump :
    (k j : String) (tally : Dict ℕ)
    → Dict.get_or j 0 (bump k tally)
      ≡ (if k == j then suc (Dict.get_or j 0 tally) else Dict.get_or j 0 tally)
unfolding bump
get-bump k j tally =
    ground (arith, Dict.get_or-put k j (Dict.get_or k 0 tally + 1) 0 tally, eq_iff k j)

pub sum-bump : (k : String) (tally : Dict ℕ) → sum_values (bump k tally) ≡ suc (sum_values tally)
unfolding bump Dict.get Dict.put
sum-bump k [] = refl
sum-bump k ((j, n) ∷ tally) = ground (arith, sum-bump k tally)

pub mem-keys-put {ℓ} :
    {V : Type ℓ} (j k : String) (v : V) (d : Dict V)
    → mem j (keys (Dict.put k v d)) ≡ (j == k || mem j (keys d))
unfolding Dict.put
mem-keys-put j k v [] = refl
mem-keys-put j k v ((i, w) ∷ d) =
    ground (arith, eq_iff i k, eq_iff j k, eq_iff j i, mem-keys-put j k v d)

pub mem-keys-bump :
    (j k : String) (tally : Dict ℕ) → mem j (keys (bump k tally)) ≡ (j == k || mem j (keys tally))
unfolding bump
mem-keys-bump j k tally = mem-keys-put j k (Dict.get_or k 0 tally + 1) tally

-- whether an element is counted under `k`
abbrev pub picks : String → Option String → Bool
picks k none = false
picks k (some c) = c == k

abbrev pub is_some : Option String → Bool
is_some none = false
is_some (some c) = true

abbrev pub bump_opt : Option String → Dict ℕ → Dict ℕ
bump_opt none tally = tally
bump_opt (some c) tally = bump c tally

module _ {ℓ} {A : Type ℓ} (key : A → Option String) where
  unfoldable pub count_from : Dict ℕ → List A → Dict ℕ
  count_from tally [] = tally
  count_from tally (x ∷ xs) = count_from (bump_opt (key x) tally) xs

  -- Counts the elements under their keys, those that have one.
  unfoldable pub count_by : List A → Dict ℕ
  unfolding count_from bump
  count_by = count_from []

  get-bump_opt :
      (k : String) (o : Option String) (tally : Dict ℕ)
      → Dict.get_or k 0 (bump_opt o tally)
        ≡ (if picks k o then suc (Dict.get_or k 0 tally) else Dict.get_or k 0 tally)
  get-bump_opt k none tally = refl
  get-bump_opt k (some c) tally = get-bump c k tally

  get-count_from :
      (k : String) (tally : Dict ℕ) (xs : List A)
      → Dict.get_or k 0 (count_from tally xs)
        ≡ Dict.get_or k 0 tally + count_if (λ x. picks k (key x)) xs
  unfolding count_from
  get-count_from k tally [] = omega arith
  get-count_from k tally (x ∷ xs) =
      ground (arith, get-bump_opt k (key x) tally, get-count_from k (bump_opt (key x) tally) xs)

  sum-bump_opt :
      (o : Option String) (tally : Dict ℕ)
      → sum_values (bump_opt o tally)
        ≡ (if is_some o then suc (sum_values tally) else sum_values tally)
  sum-bump_opt none tally = refl
  sum-bump_opt (some c) tally = sum-bump c tally

  sum-count_from :
      (tally : Dict ℕ) (xs : List A)
      → sum_values (count_from tally xs) ≡ sum_values tally + count_if (λ x. is_some (key x)) xs
  unfolding count_from
  sum-count_from tally [] = omega arith
  sum-count_from tally (x ∷ xs) =
      ground (arith, sum-bump_opt (key x) tally, sum-count_from (bump_opt (key x) tally) xs)

  -- The counter holds for each key the number of elements that have it.
  pub get-count_by :
      (k : String) (xs : List A)
      → Dict.get_or k 0 (count_by xs) ≡ count_if (λ x. picks k (key x)) xs
  unfolding count_by Dict.get
  get-count_by k xs = omega (arith, get-count_from k [] xs)

  -- The counts add up to the number of elements that have a key.
  pub sum-count_by : (xs : List A) → sum_values (count_by xs) ≡ count_if (λ x. is_some (key x)) xs
  unfolding count_by
  sum-count_by xs = omega (arith, sum-count_from [] xs)
