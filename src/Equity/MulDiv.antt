-- ===== src/Equity/MulDiv.antt =====
-- `mul_div_floor` of src/equity.rs, the rounding division of every amount, with the errors of that
-- file.
use native.Mathlib.Nat.{div-mul-le_self, lt-mul-div-succ, div-eq_of_lt-le, mul_comm}
use kusd.Base.{
  ℕ, ◌+◌, ◌*◌, ◌/◌, ◌≤◌, ◌<◌, ◌≡◌, refl, ◌||◌, Result, ok, ◌>>=◌, ◌>>◌, reject_if, ok_or, arith,
}
use kusd.Int.{
  ℤ, pos, pos_part, neg_part, ◌/ℤ◌, ltb_ℤ, leb_ℤ, checked_mul_i128, try_i64, i64_max, i128_max,
  IsI64, eq_of_parts, pos-*ℤ, pos-/ℤ,
}

-- The messages of src/equity.rs.
pub data Error : Type 0 where
  invalid_deposit reserve_without_shares insolvable deposit_too_small reserve_overflow : Error
  shares_overflow invalid_redemption redemption_zero invalid_auction invalid_assigned : Error
  payment_overflow insufficient_reserve collateral_overflow : Error
  invalid_mul_div mul_div_overflow exceeds_i64 : Error

unfoldable pub mul_div_floor : ℤ → ℤ → ℤ → Result Error ℤ
mul_div_floor a b denominator = do
  reject_if (ltb_ℤ a (pos 0) || ltb_ℤ b (pos 0) || leb_ℤ denominator (pos 0)) Error.invalid_mul_div
  product ← ok_or (checked_mul_i128 a b) Error.mul_div_overflow
  ok_or (try_i64 (product /ℤ denominator)) Error.exceeds_i64

-- The operands are not negative, the divisor is positive, and `r` is the quotient rounded down,
-- in the range of an `i64`.
pub record IsFloor (a b d r : ℤ) : Type 0 where
  pub left : neg_part a ≡ 0
  pub right : neg_part b ≡ 0
  pub divisor : 0 < pos_part d
  pub natural : neg_part r ≡ 0
  pub fits : pos_part r ≤ i64_max
  pub low : pos_part r * pos_part d ≤ pos_part a * pos_part b
  pub high : pos_part a * pos_part b < (pos_part r + 1) * pos_part d

product_fits : (a b : ℕ) → a ≤ i64_max → b ≤ i64_max → a * b ≤ i128_max
product_fits a b h k = grind arith

module _ (a b d : ℤ) where
  pub mul_div_floor_parts :
      {r : ℤ}
      → mul_div_floor a b d ≡ ok r
      → (neg_part a ≡ 0)
        × (neg_part b ≡ 0)
        × (0 < pos_part d)
        × (r ≡ pos (pos_part a * pos_part b / pos_part d))
        × (pos_part a * pos_part b / pos_part d ≤ i64_max)
  unfolding mul_div_floor checked_mul_i128
  mul_div_floor_parts h =
      ground
        (arith, pos-*ℤ (pos_part a) (pos_part b), pos-/ℤ (pos_part a * pos_part b) (pos_part d))

  pub mul_div_floor-IsFloor : {r : ℤ} → mul_div_floor a b d ≡ ok r → IsFloor a b d r
  mul_div_floor-IsFloor h =
      let (na, nb, dp, e, fits) = mul_div_floor_parts h in
      rw e (record {
        left = na;
        right = nb;
        divisor = dp;
        natural = refl;
        fits = fits;
        low = div-mul-le_self (pos_part a * pos_part b) (pos_part d);
        high = omega (arith, lt-mul-div-succ (pos_part a * pos_part b) dp, mul_comm (pos_part d));
      })

  pub IsFloor-mul_div_floor :
      {r : ℤ} → IsI64 a → IsI64 b → IsFloor a b d r → mul_div_floor a b d ≡ ok r
  unfolding mul_div_floor checked_mul_i128
  IsFloor-mul_div_floor {r} ia ib h = ground (
    arith,
    pos-*ℤ (pos_part a) (pos_part b),
    pos-/ℤ (pos_part a * pos_part b) (pos_part d),
    product_fits (pos_part a) (pos_part b),
    h.left,
    h.right,
    h.divisor,
    h.natural,
    h.fits,
    div-eq_of_lt-le {k = pos_part r} (pos_part d) h.low h.high,
  )

-- On numbers it is the division.
pub mul_div_floor_pos :
    (a b d : ℕ)
    → a ≤ i64_max
    → b ≤ i64_max
    → d ≤ i64_max
    → 0 < d
    → a * b / d ≤ i64_max
    → mul_div_floor (pos a) (pos b) (pos d) ≡ ok (pos (a * b / d))
mul_div_floor_pos a b d ha hb hd positive fits =
    IsFloor-mul_div_floor (pos a) (pos b) (pos d) (ha, omega arith) (hb, omega arith)
      (record {
        left = refl;
        right = refl;
        divisor = positive;
        natural = refl;
        fits = fits;
        low = div-mul-le_self (a * b) d;
        high = omega (arith, lt-mul-div-succ (a * b) positive, mul_comm d);
      })

floor_mono : (n m d q r : ℕ) → n ≤ m → q * d ≤ n → m < (r + 1) * d → 0 < d → q ≤ r
floor_mono n m d q r le low high positive = grind arith

mul_mono : (a b c : ℕ) → b ≤ c → a * b ≤ a * c
mul_mono a b c le = grind arith

-- The rounded product is monotone in its second operand.
pub IsFloor-mono :
    {a b c d q r : ℤ}
    → IsFloor a b d q
    → IsFloor a c d r
    → pos_part b ≤ pos_part c
    → pos_part q ≤ pos_part r
IsFloor-mono {a} {b} {c} {d} {q} {r} f g le =
    floor_mono (pos_part a * pos_part b) (pos_part a * pos_part c) (pos_part d) (pos_part q)
      (pos_part r) (mul_mono (pos_part a) (pos_part b) (pos_part c) le) f.low g.high f.divisor

pub IsFloor-comm : {a b d q : ℤ} → IsFloor a b d q → IsFloor b a d q
IsFloor-comm {a} {b} f = record {
  left = f.right;
  right = f.left;
  divisor = f.divisor;
  natural = f.natural;
  fits = f.fits;
  low = omega (arith, f.low, mul_comm (pos_part a) (pos_part b));
  high = omega (arith, f.high, mul_comm (pos_part a) (pos_part b));
}

-- The quotient is determined by the operands.
pub IsFloor-unique : {a b d q r : ℤ} → IsFloor a b d q → IsFloor a b d r → q ≡ r
IsFloor-unique {q} {r} f g =
    let le = IsFloor-mono f g (omega arith) in
    let ge = IsFloor-mono g f (omega arith) in eq_of_parts q r (omega (arith, f.natural, g.natural))
