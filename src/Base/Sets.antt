-- ===== src/Base/Sets.antt =====
-- Lists and sets of strings: membership, and the list of the distinct members.
use Prim.Native.String.{String}
use mathlib.Core.Path.{◌≡◌, refl}
use mathlib.Core.Logic.{inl, inr}
use mathlib.Core.Bool.{Bool, false, ◌||◌}
use mathlib.Core.List.{List, [], ◌∷◌, ◌++◌}
use native.Mathlib.Omega.{arith}
use text.Mathlib.Text.{◌==◌}
use text.Mathlib.TextEquality.{eq_iff}
use hermes_agora.Base.Tests.{if◌then◌else◌, Bool-cases}

-- `x in xs`
abbrev pub mem : String → List String → Bool
mem x [] = false
mem x (y ∷ ys) = x == y || mem x ys

-- `s.add(x)`, the members in the order in which they came
unfoldable pub set_add : String → List String → List String
set_add x s = if mem x s then s else s ++ x ∷ []

-- `s.update(xs)`
unfoldable pub set_update : List String → List String → List String
unfolding set_add
set_update s [] = s
set_update s (x ∷ xs) = set_update (set_add x s) xs

-- `set(xs)`
unfoldable pub to_set : List String → List String
unfolding set_update
to_set = set_update []

pub mem-append : (x : String) (xs ys : List String) → mem x (xs ++ ys) ≡ (mem x xs || mem x ys)
mem-append x [] ys = refl
mem-append x (y ∷ xs) ys = ground (arith, mem-append x xs ys)

pub mem-set_add : (x y : String) (s : List String) → mem x (set_add y s) ≡ (x == y || mem x s)
unfolding set_add
mem-set_add x y s = elim (Bool-cases (mem y s)) [
  | inl old ↦ rw old (ground (arith, old, eq_iff x y))
  | inr new ↦ rw new (ground (arith, mem-append x s (y ∷ [])))
]

pub mem-set_update :
    (x : String) (s xs : List String) → mem x (set_update s xs) ≡ (mem x s || mem x xs)
unfolding set_update
mem-set_update x s [] = ground arith
mem-set_update x s (y ∷ ys) = ground (arith, mem-set_update x (set_add y s) ys, mem-set_add x y s)

pub mem-to_set : (x : String) (xs : List String) → mem x (to_set xs) ≡ mem x xs
unfolding to_set
mem-to_set x xs = mem-set_update x [] xs

-- `xs.remove(x)`: the first occurrence goes
abbrev pub remove_first : String → List String → List String
remove_first x [] = []
remove_first x (y ∷ ys) = let rest = remove_first x ys in if x == y then ys else y ∷ rest
