-- ===== src/Base/Entries.antt =====
-- The items of a dict: their keys are distinct, and each is what a lookup of its key finds.
use hermes_agora.Base.Tests.{text-cases}
use hermes_agora.Base.Lists.{All}
use hermes_agora.Base.Sets.{mem}
use hermes_agora.Base.Dict
use hermes_agora.Base.Dict.{Dict}
use hermes_agora.Base.Counter.{keys, bump, bump_opt, count_from, count_by, mem-keys-put}
use Prim.Native.Nat.{ℕ, ◌+◌}
use Prim.Native.String.{String}
use mathlib.Core.Path.{◌≡◌, refl, subst}
use mathlib.Core.Logic.{inl, inr}
use mathlib.Core.Bool.{false}
use mathlib.Core.Option.{Option, none, some}
use mathlib.Core.List.{List, [], ◌∷◌}
use native.Mathlib.Omega.{arith}
use text.Mathlib.TextEquality.{eq_iff}

abbrev pub Distinct {ℓ} : {V : Type ℓ} → Dict V → Type 0
Distinct [] = Unit
Distinct ((k, v) ∷ d) = (mem k (keys d) ≡ false) × Distinct d

pub Distinct-put {ℓ} :
    {V : Type ℓ} (k : String) (v : V) (d : Dict V) → Distinct d → Distinct (Dict.put k v d)
unfolding Dict.put
Distinct-put k v [] h = (refl, tt)
Distinct-put k v ((j, w) ∷ d) h =
    ground (arith, eq_iff j k, mem-keys-put j k v d, Distinct-put k v d h.1)

mem-keys-del {ℓ} :
    {V : Type ℓ} (i k : String) (d : Dict V)
    → mem i (keys d) ≡ false
    → mem i (keys (Dict.del k d)) ≡ false
unfolding Dict.del
mem-keys-del i k [] h = h
mem-keys-del i k ((j, w) ∷ d) h = ground (arith, mem-keys-del i k d)

pub Distinct-del {ℓ} : {V : Type ℓ} (k : String) (d : Dict V) → Distinct d → Distinct (Dict.del k d)
unfolding Dict.del
Distinct-del k [] h = tt
Distinct-del k ((j, w) ∷ d) h = ground (arith, mem-keys-del j k d, Distinct-del k d h.1)

Distinct-bump_opt : (o : Option String) (d : Dict ℕ) → Distinct d → Distinct (bump_opt o d)
unfolding bump
Distinct-bump_opt none d h = h
Distinct-bump_opt (some k) d h = Distinct-put k (Dict.get_or k 0 d + 1) d h

module _ {ℓ} {A : Type ℓ} (key : A → Option String) where
  Distinct-count_from : (d : Dict ℕ) (xs : List A) → Distinct d → Distinct (count_from key d xs)
  unfolding count_from
  Distinct-count_from d [] h = h
  Distinct-count_from d (x ∷ xs) h =
      Distinct-count_from (bump_opt (key x) d) xs (Distinct-bump_opt (key x) d h)

  pub Distinct-count_by : (xs : List A) → Distinct (count_by key xs)
  unfolding count_by
  Distinct-count_by xs = Distinct-count_from [] xs tt

module _ {ℓ} {V : Type ℓ} where
  -- the entries of `e` have keys in `d` that are found there
  abbrev FoundIn : Dict V → Dict V → Type ℓ
  FoundIn d e = All (λ x. Dict.get x.0 d ≡ some x.1) e

  FoundIn-cons :
      (k : String) (v : V) (d e : Dict V)
      → mem k (keys e) ≡ false
      → FoundIn d e
      → FoundIn ((k, v) ∷ d) e
  unfolding Dict.get
  FoundIn-cons k v d [] h f = tt
  FoundIn-cons k v d ((j, w) ∷ e) h f =
      (ground (arith, eq_iff k j, f.0), FoundIn-cons k v d e (ground arith) f.1)

  -- In a dict with distinct keys each item is found under its key.
  pub get-Distinct : (d : Dict V) → Distinct d → All (λ x. Dict.get x.0 d ≡ some x.1) d
  unfolding Dict.get
  get-Distinct [] h = tt
  get-Distinct ((k, v) ∷ d) h =
      (ground (arith, eq_iff k k), FoundIn-cons k v d d h.0 (get-Distinct d h.1))

  -- What holds of every item holds of what a lookup finds.
  pub All-get {κ} :
      (P : String × V → Type κ) (k : String) (v : V) (d : Dict V)
      → All P d
      → Dict.get k d ≡ some v
      → P (k, v)
  unfolding Dict.get
  All-get P k v [] h e = cc
  All-get P k v ((j, w) ∷ d) h e = elim (text-cases j k) [
    | inl (same, p) ↦
        let q : w ≡ v = ground (arith, same) in
        subst (λ x. P (x, v)) p (subst (λ x. P (j, x)) q h.0)
    | inr (other, _) ↦ All-get P k v d h.1 (rw other at e)
  ]
