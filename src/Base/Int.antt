-- ===== src/Base/Int.antt =====
-- Python's signed integers over the native numbers: `negsuc n` is -(n + 1).
use Prim.Native.Nat.{ℕ, suc, ◌-◌}
use mathlib.Core.Bool.{Bool, true, false}
use hermes_agora.Base.Tests.{ltb, leb, if◌then◌else◌}

pub data ℤ : Type 0 where
  pos : ℕ → ℤ
  negsuc : ℕ → ℤ

abbrev pub is_negative : ℤ → Bool
is_negative (pos n) = false
is_negative (negsuc n) = true

-- whether `n < z`, for a natural number `n`
abbrev pub nat_ltb : ℕ → ℤ → Bool
nat_ltb n (pos m) = ltb n m
nat_ltb n (negsuc m) = false

-- a - b
abbrev pub sub_ℕ : ℕ → ℕ → ℤ
sub_ℕ a b = if leb b a then pos (a - b) else negsuc (b - a - 1)

abbrev pub inc : ℤ → ℤ
inc (pos n) = pos (suc n)
inc (negsuc n) = if leb n 0 then pos 0 else negsuc (n - 1)

abbrev pub dec : ℤ → ℤ
dec (pos n) = if leb n 0 then negsuc 0 else pos (n - 1)
dec (negsuc n) = negsuc (suc n)
