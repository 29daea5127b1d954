-- ===== src/Base/Integers.antt =====
-- Signed integers and the 64-bit arithmetic of `i64`: what saturates, and what wraps around.
use Prim.Native.Nat.{ℕ, zero, suc, ◌+◌, ◌-◌, ◌*◌, ◌%◌}
use mathlib.Core.Bool.{Bool, true, false}
use codex_proxy_rs.Base.Tests.{leb, ltb, if◌then◌else◌}

-- `negsuc n` is -(n + 1).
pub data ℤ : Type 0 where
  pos : ℕ → ℤ
  negsuc : ℕ → ℤ

-- The opposite of a natural number.
unfoldable pub neg : ℕ → ℤ
neg zero = pos 0
neg (suc n) = negsuc n

infixl 40 ◌+ℤ◌ ◌-ℤ◌
unfoldable pub ◌+ℤ◌ : ℤ → ℤ → ℤ
pos a +ℤ pos b = pos (a + b)
pos a +ℤ negsuc b = if ltb b a then pos (a - suc b) else negsuc (b - a)
negsuc a +ℤ pos b = if ltb a b then pos (b - suc a) else negsuc (a - b)
negsuc a +ℤ negsuc b = negsuc (suc (a + b))

unfoldable pub opposite : ℤ → ℤ
unfolding neg
opposite (pos a) = neg a
opposite (negsuc a) = pos (suc a)

unfoldable pub ◌-ℤ◌ : ℤ → ℤ → ℤ
unfolding ◌+ℤ◌ opposite
x -ℤ y = x +ℤ opposite y

-- The product with a natural number.
unfoldable pub scale : ℤ → ℕ → ℤ
unfolding neg
scale (pos a) k = pos (a * k)
scale (negsuc a) k = neg (suc a * k)

unfoldable pub leb_ℤ : ℤ → ℤ → Bool
leb_ℤ (pos a) (pos b) = leb a b
leb_ℤ (pos a) (negsuc b) = false
leb_ℤ (negsuc a) (pos b) = true
leb_ℤ (negsuc a) (negsuc b) = leb b a

-- `i64::MAX`; `i64::MIN` is `negsuc i64_max`.
abbrev pub i64_max : ℕ
i64_max = 9223372036854775807

-- The nearest number of 64 bits: what `saturating_add` and `saturating_mul` return.
unfoldable pub saturate : ℤ → ℤ
saturate (pos a) = if leb a i64_max then pos a else pos i64_max
saturate (negsuc a) = if leb a i64_max then negsuc a else negsuc i64_max

-- A word of 64 bits read as a signed number.
unfoldable pub of_word : ℕ → ℤ
of_word w = if leb w i64_max then pos w else negsuc (18446744073709551615 - w)

-- What `-` and `+` of `i64` return without overflow checks.
unfoldable pub wrap : ℤ → ℤ
unfolding of_word
wrap (pos a) = of_word (a % 18446744073709551616)
wrap (negsuc a) = of_word (18446744073709551615 - a % 18446744073709551616)

abbrev pub is_zero : ℤ → Bool
is_zero (pos zero) = true
is_zero _ = false
