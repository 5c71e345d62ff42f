-- ===== src/Int.antt =====
-- Signed integers over the native numbers, and the machine integers of the code: an `i64` or
-- `i128` is the integer that it stands for, a `u64` the number. Checked operations return an
-- option; plain ones wrap around, as a release build does.
use kusd.Base.{
  ℕ, suc, ◌+◌, ◌-◌, ◌*◌, ◌/◌, ◌%◌, ◌≤◌, ◌<◌, ◌≡◌, refl, Bool, ◌&&◌, Option, none, some, arith, ltb,
  leb, if◌then◌else◌,
}

-- `negsuc n` is -(n + 1).
pub data ℤ : Type 0 where
  pos : ℕ → ℤ
  negsuc : ℕ → ℤ

abbrev pub pos_part : ℤ → ℕ
pos_part (pos n) = n
pos_part (negsuc n) = 0

abbrev pub neg_part : ℤ → ℕ
neg_part (pos n) = 0
neg_part (negsuc n) = suc n

-- a - b, as an integer.
abbrev pub sub_ℕ : ℕ → ℕ → ℤ
sub_ℕ a b = if leb b a then pos (a - b) else negsuc (b - a - 1)

infixl 65 ◌+ℤ◌ ◌-ℤ◌
infixl 70 ◌*ℤ◌ ◌/ℤ◌ ◌%ℤ◌
infix 50 ◌≤ℤ◌
unfoldable pub ◌+ℤ◌ : ℤ → ℤ → ℤ
a +ℤ b = sub_ℕ (pos_part a + pos_part b) (neg_part a + neg_part b)

unfoldable pub ◌-ℤ◌ : ℤ → ℤ → ℤ
a -ℤ b = sub_ℕ (pos_part a + neg_part b) (neg_part a + pos_part b)

unfoldable pub ◌*ℤ◌ : ℤ → ℤ → ℤ
a *ℤ b =
    sub_ℕ (pos_part a * pos_part b + neg_part a * neg_part b)
      (pos_part a * neg_part b + neg_part a * pos_part b)

-- Division and remainder round towards zero; the code divides by no zero.
unfoldable pub ◌/ℤ◌ : ℤ → ℤ → ℤ
pos a /ℤ b = sub_ℕ (a / pos_part b) (a / neg_part b)
negsuc a /ℤ b = sub_ℕ (suc a / neg_part b) (suc a / pos_part b)

unfoldable pub ◌%ℤ◌ : ℤ → ℤ → ℤ
pos a %ℤ b = pos (a % (pos_part b + neg_part b))
negsuc a %ℤ b = sub_ℕ 0 (suc a % (pos_part b + neg_part b))

abbrev pub ◌≤ℤ◌ : ℤ → ℤ → Type 0
a ≤ℤ b = pos_part a + neg_part b ≤ pos_part b + neg_part a

abbrev pub ltb_ℤ : ℤ → ℤ → Bool
ltb_ℤ a b = ltb (pos_part a + neg_part b) (pos_part b + neg_part a)

abbrev pub leb_ℤ : ℤ → ℤ → Bool
leb_ℤ a b = leb (pos_part a + neg_part b) (pos_part b + neg_part a)

abbrev pub eqb_ℤ : ℤ → ℤ → Bool
eqb_ℤ a b = leb_ℤ a b && leb_ℤ b a

-- `(lo..=hi).contains(&x)`
abbrev pub within : ℤ → ℤ → ℤ → Bool
within lo hi x = leb_ℤ lo x && leb_ℤ x hi

-- With these `omega` works with the operations shut.
pub +ℤ_parts :
    (a b : ℤ)
    → pos_part (a +ℤ b) + neg_part a + neg_part b ≡ neg_part (a +ℤ b) + pos_part a + pos_part b
unfolding ◌+ℤ◌
+ℤ_parts a b = ground arith

pub -ℤ_parts :
    (a b : ℤ)
    → pos_part (a -ℤ b) + neg_part a + pos_part b ≡ neg_part (a -ℤ b) + pos_part a + neg_part b
unfolding ◌-ℤ◌
-ℤ_parts a b = ground arith

pub eq_of_parts : (a b : ℤ) → pos_part a + neg_part b ≡ pos_part b + neg_part a → a ≡ b
eq_of_parts a b h = ground arith

pub ruleset int_laws = (arith, +ℤ_parts, -ℤ_parts, eq_of_parts)

pub +ℤ_assoc : (a b c : ℤ) → a +ℤ b +ℤ c ≡ a +ℤ (b +ℤ c)
unfolding ◌+ℤ◌
+ℤ_assoc a b c = ground arith

pub +ℤ_comm : (a b : ℤ) → a +ℤ b ≡ b +ℤ a
unfolding ◌+ℤ◌
+ℤ_comm a b = ground arith

pub +ℤ_cancel : (a b c : ℤ) → a +ℤ b ≡ a +ℤ c → b ≡ c
unfolding ◌+ℤ◌
+ℤ_cancel a b c h = ground arith

pub +ℤ_zero : (a : ℤ) → a +ℤ pos 0 ≡ a
unfolding ◌+ℤ◌
+ℤ_zero a = ground arith

pub zero_+ℤ : (a : ℤ) → pos 0 +ℤ a ≡ a
unfolding ◌+ℤ◌
zero_+ℤ a = ground arith

pub pos-+ℤ : (a b : ℕ) → pos a +ℤ pos b ≡ pos (a + b)
unfolding ◌+ℤ◌
pos-+ℤ a b = ground arith

pub sub_pos : (a b : ℕ) → b ≤ a → pos a -ℤ pos b ≡ pos (a - b)
unfolding ◌-ℤ◌
sub_pos a b h = ground arith

pub pos-*ℤ : (a b : ℕ) → pos a *ℤ pos b ≡ pos (a * b)
unfolding ◌*ℤ◌
pos-*ℤ a b = ground arith

pub pos-/ℤ : (a b : ℕ) → pos a /ℤ pos b ≡ pos (a / b)
unfolding ◌/ℤ◌
pos-/ℤ a b = ground arith

pub pos-%ℤ : (a b : ℕ) → pos a %ℤ pos b ≡ pos (a % b)
unfolding ◌%ℤ◌
pos-%ℤ a b = ground arith

abbrev pub i64_max : ℕ
i64_max = 9223372036854775807

abbrev pub u64_mod : ℕ
u64_mod = 18446744073709551616

abbrev pub i128_max : ℕ
i128_max = 170141183460469231731687303715884105727

abbrev pub IsI64 : ℤ → Type 0
IsI64 z = (pos_part z ≤ i64_max) × (neg_part z ≤ i64_max + 1)

abbrev pub in_i64 : ℤ → Bool
in_i64 z = leb (pos_part z) i64_max && leb (neg_part z) (i64_max + 1)

abbrev pub in_i128 : ℤ → Bool
in_i128 z = leb (pos_part z) i128_max && leb (neg_part z) (i128_max + 1)

-- `i64::try_from`
abbrev pub try_i64 : ℤ → Option ℤ
try_i64 z = if in_i64 z then some z else none

unfoldable pub checked_add : ℤ → ℤ → Option ℤ
checked_add a b = try_i64 (a +ℤ b)

unfoldable pub checked_sub : ℤ → ℤ → Option ℤ
checked_sub a b = try_i64 (a -ℤ b)

unfoldable pub checked_mul : ℤ → ℤ → Option ℤ
checked_mul a b = try_i64 (a *ℤ b)

unfoldable pub checked_mul_i128 : ℤ → ℤ → Option ℤ
checked_mul_i128 a b = let c = a *ℤ b in if in_i128 c then some c else none

-- `u64::checked_add`
unfoldable pub checked_add_u64 : ℕ → ℕ → Option ℕ
checked_add_u64 a b = if ltb (a + b) u64_mod then some (a + b) else none

-- The `i64` with the low 64 bits of an integer.
abbrev pub of_bits : ℕ → ℤ
of_bits m = if leb m i64_max then pos m else negsuc (u64_mod - m - 1)

unfoldable pub wrap_i64 : ℤ → ℤ
wrap_i64 (pos n) = of_bits (n % u64_mod)
wrap_i64 (negsuc n) = of_bits (u64_mod - 1 - n % u64_mod)

-- `as u64` of an `i128`
unfoldable pub wrap_u64 : ℤ → ℕ
wrap_u64 (pos n) = n % u64_mod
wrap_u64 (negsuc n) = u64_mod - 1 - n % u64_mod

-- `a - b` on `u64`, which wraps around
unfoldable pub sub_u64 : ℕ → ℕ → ℕ
sub_u64 a b = (a + u64_mod - b) % u64_mod

pub wrap_i64_self : (z : ℤ) → IsI64 z → wrap_i64 z ≡ z
unfolding wrap_i64
wrap_i64_self z h = ground arith

pub wrap_u64_self : (n : ℕ) → n < u64_mod → wrap_u64 (pos n) ≡ n
unfolding wrap_u64
wrap_u64_self n h = omega arith

pub sub_u64_self : (a b : ℕ) → b ≤ a → a < u64_mod → sub_u64 a b ≡ a - b
unfolding sub_u64
sub_u64_self a b h k = omega arith

pub checked_add_eq : {c : ℤ} (a b : ℤ) → checked_add a b ≡ some c → (c ≡ a +ℤ b) × IsI64 c
unfolding checked_add
checked_add_eq a b h = ground arith

pub checked_sub_eq : {c : ℤ} (a b : ℤ) → checked_sub a b ≡ some c → (c ≡ a -ℤ b) × IsI64 c
unfolding checked_sub
checked_sub_eq a b h = ground arith

pub checked_mul_eq : {c : ℤ} (a b : ℤ) → checked_mul a b ≡ some c → (c ≡ a *ℤ b) × IsI64 c
unfolding checked_mul
checked_mul_eq a b h = ground arith

tests :
    (pos 3 -ℤ pos 10 *ℤ negsuc 1 ≡ pos 23)
    × (negsuc 6 /ℤ pos 2 ≡ negsuc 2)
    × (negsuc 6 %ℤ pos 2 ≡ negsuc 0)
    × (wrap_i64 (pos 9223372036854775808) ≡ negsuc 9223372036854775807)
    × (wrap_i64 (negsuc 9223372036854775808) ≡ pos 9223372036854775807)
    × (checked_add (pos 9223372036854775807) (pos 1) ≡ none)
unfolding ◌-ℤ◌ ◌*ℤ◌ ◌/ℤ◌ ◌%ℤ◌ wrap_i64 checked_add ◌+ℤ◌
tests = (refl, refl, refl, refl, refl, refl)
