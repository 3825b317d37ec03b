-- ===== src/Prelude/Int.antt =====
-- Signed integers over the native numbers. Sums and orders go through the two parts of an integer.
use Prim.Native.Nat.{ℕ, suc, ◌+◌, ◌-◌, ◌≤◌, min}
use mathlib.Core.Path.{◌≡◌}
use mathlib.Core.Bool.{Bool}
use native.Mathlib.Omega.{arith}
use aiya_cms.Prelude.Tests.{ltb, leb, if◌then◌else◌}

-- `negsuc n` is -(n + 1).
pub data ℤ : Type 0 where
  pos : ℕ → ℤ
  negsuc : ℕ → ℤ

-- `max(0, a)`
abbrev pub pos_part : ℤ → ℕ
pos_part (pos n) = n
pos_part (negsuc n) = 0

-- `max(0, -a)`
abbrev pub neg_part : ℤ → ℕ
neg_part (pos n) = 0
neg_part (negsuc n) = suc n

abbrev pub sub_ℕ : ℕ → ℕ → ℤ
sub_ℕ a b = if leb b a then pos (a - b) else negsuc (b - a - 1)

infixl 65 ◌+ℤ◌ ◌-ℤ◌
infix 50 ◌≤ℤ◌
unfoldable pub ◌+ℤ◌ : ℤ → ℤ → ℤ
a +ℤ b = sub_ℕ (pos_part a + pos_part b) (neg_part a + neg_part b)

unfoldable pub ◌-ℤ◌ : ℤ → ℤ → ℤ
a -ℤ b = sub_ℕ (pos_part a + neg_part b) (neg_part a + pos_part b)

abbrev pub neg : ℤ → ℤ
neg a = sub_ℕ (neg_part a) (pos_part a)

abbrev pub ◌≤ℤ◌ : ℤ → ℤ → Type 0
a ≤ℤ b = pos_part a + neg_part b ≤ pos_part b + neg_part a

abbrev pub ltb_ℤ : ℤ → ℤ → Bool
ltb_ℤ a b = ltb (pos_part a + neg_part b) (pos_part b + neg_part a)

pub +ℤ_parts :
    (a b : ℤ)
    → pos_part (a +ℤ b) + neg_part a + neg_part b ≡ neg_part (a +ℤ b) + pos_part a + pos_part b
unfolding ◌+ℤ◌
+ℤ_parts a b = ground arith

pub -ℤ_parts :
    (a b : ℤ)
    → pos_part (a -ℤ b) + neg_part a + pos_part b ≡ neg_part (a -ℤ b) + pos_part a + neg_part b
unfolding ◌-ℤ◌
-ℤ_parts a b = ground arith

pub eq_of_parts : (a b : ℤ) → pos_part a + neg_part b ≡ pos_part b + neg_part a → a ≡ b
eq_of_parts a b h = ground arith

pub ruleset int_laws = (arith, +ℤ_parts, -ℤ_parts, eq_of_parts)

pub +ℤ_zero : (a : ℤ) → a +ℤ pos 0 ≡ a
+ℤ_zero a = omega int_laws

pub -ℤ_zero : (a : ℤ) → a -ℤ pos 0 ≡ a
-ℤ_zero a = omega int_laws

pub zero-+ℤ : (a : ℤ) → pos 0 +ℤ a ≡ a
zero-+ℤ a = omega int_laws

pub +ℤ_assoc : (a b c : ℤ) → a +ℤ (b +ℤ c) ≡ a +ℤ b +ℤ c
+ℤ_assoc a b c = omega int_laws

pub +ℤ_swap : (l o e : ℤ) → l +ℤ (o +ℤ e) ≡ l +ℤ e +ℤ o
+ℤ_swap l o e = omega int_laws

-- Two sums that meet in the middle.
pub +ℤ_shift : (l o d o' : ℤ) → o' ≡ o +ℤ d → l +ℤ o +ℤ d ≡ l +ℤ o'
+ℤ_shift l o d o' e = rw e (omega int_laws)

pub -ℤ_shift : (b u d u' : ℤ) → u' ≡ u +ℤ d → b +ℤ d -ℤ u' ≡ b -ℤ u
-ℤ_shift b u d u' e = rw e (omega int_laws)

pub minus-neg : (b : ℤ) (k : ℕ) → b -ℤ pos k ≡ b +ℤ neg (pos k)
unfolding ◌+ℤ◌ ◌-ℤ◌
minus-neg b k = ground arith

pub plus-neg : (k : ℕ) → pos 0 ≡ pos k +ℤ neg (pos k)
unfolding ◌+ℤ◌
plus-neg k = ground arith

pub neg-plus : (k : ℕ) → pos 0 ≡ neg (pos k) +ℤ pos k
unfolding ◌+ℤ◌
neg-plus k = ground arith

pub pos_part-minus_back : (b : ℤ) (n : ℕ) → pos_part (b -ℤ (b -ℤ pos n)) ≡ n
unfolding ◌-ℤ◌
pos_part-minus_back b n = ground arith

-- A debt is paid down first: `k` less the debt is what enters the buckets.
pub debt_first :
    (b : ℤ) (k : ℕ) → pos_part b + (k - min (neg_part b) k) ≡ pos_part (b -ℤ neg (pos k))
unfolding ◌-ℤ◌
debt_first b k = ground arith
