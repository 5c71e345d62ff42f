-- ===== src/SavingsProtocol/Repaid.antt =====
-- What a repayment of src/savings_protocol.rs does to the debt of a Position and to the reserve that is
-- assigned to it.
use kusd.Base.{
  ℕ, ◌+◌, ◌-◌, ◌*◌, ◌/◌, ◌%◌, ◌≤◌, ◌<◌, ◌≡◌, refl, ◌∙◌, ap, ◌⊎◌, inl, inr, some, ok, arith,
}
use kusd.Int.{
  pos, ◌+ℤ◌, ◌*ℤ◌, ◌/ℤ◌, ◌%ℤ◌, wrap_i64, wrap_i64_self, i64_max, pos-+ℤ, sub_pos, pos-*ℤ, pos-/ℤ,
  pos-%ℤ, checked_sub,
}
use kusd.SavingsProtocol.{ProtocolParams}
use kusd.SavingsProtocol.Repayment.{assigned_burn, repaid}

-- A rate's part of an amount, rounded down.
abbrev pub part_of : ℕ → ℕ → ℕ
part_of amount rate = amount * rate / 1000000

distribute : (q m r : ℕ) → (1000000 * q + m) * r ≡ 1000000 * (q * r) + m * r
distribute q m r = grind arith

product_parts : (a r : ℕ) → a * r ≡ 1000000 * (a / 1000000 * r) + a % 1000000 * r
product_parts a r =
    let e : a ≡ 1000000 * (a / 1000000) + a % 1000000 = omega arith in
    ap (λ x. x * r) e ∙ distribute (a / 1000000) (a % 1000000) r

-- The code's sum of two parts is the part of the whole.
split_part : (a r : ℕ) → a / 1000000 * r + a % 1000000 * r / 1000000 ≡ part_of a r
split_part a r = omega (arith, product_parts a r)

pub part_le : (a r : ℕ) → r ≤ 1000000 → part_of a r ≤ a
part_le a r h = let e : a * r ≤ a * 1000000 = grind arith in omega (arith, e)

-- Parts of two amounts are at most the part of their sum.
sum_product : (a b w r : ℕ) → w ≡ a + b → w * r ≡ a * r + b * r
sum_product a b w r h = ap (λ x. x * r) h ∙ grind arith

parts_le : (a b w r : ℕ) → w ≡ a + b → part_of a r + part_of b r ≤ part_of w r
parts_le a b w r h = omega (arith, sum_product a b w r h)

-- The numbers of a Position with debt `d`, assigned reserve `s` and rate `r`.
pub record Numbers (base : ProtocolParams) (d s r : ℕ) : Type 0 where
  pub debt : base.debt ≡ pos d
  pub assigned : base.assigned_reserve ≡ pos s
  pub rate : base.reserve_contribution_ppm ≡ pos r
  pub rate_below : r < 1000000
  pub debt_fits : d ≤ i64_max
  pub assigned_fits : s ≤ i64_max

parts_ge : (a b w r : ℕ) → w ≡ a + b → part_of w r ≤ part_of a r + part_of b r + 1
parts_ge a b w r h = omega (arith, sum_product a b w r h)

no_part : (a r : ℕ) → a ≡ 0 → part_of a r ≡ 0
no_part a r h = let e : a * r ≡ 0 * r = ap (λ x. x * r) h in omega (arith, e)

pub wrap_pos : (n : ℕ) → n ≤ i64_max → wrap_i64 (pos n) ≡ pos n
wrap_pos n h = wrap_i64_self (pos n) (h, omega arith)

part_lt : (a r : ℕ) → 0 < a → r < 1000000 → part_of a r < a
part_lt a r h k = let e : a * r < a * 1000000 = grind arith in omega (arith, e)

pub burn_terms :
    (a r : ℕ)
    → a ≤ i64_max
    → r < 1000000
    → wrap_i64 (
        wrap_i64 (pos a /ℤ pos 1000000 *ℤ pos r)
        +ℤ wrap_i64 (pos a %ℤ pos 1000000 *ℤ pos r) /ℤ pos 1000000)
      ≡ pos (part_of a r)
burn_terms a r h k =
    let split = split_part a r in
    let small : a % 1000000 * r ≤ 1000000 * 1000000 = grind arith in
    let le = part_le a r (omega arith) in
    rw
      (
        pos-/ℤ a 1000000,
        pos-%ℤ a 1000000,
        pos-*ℤ (a / 1000000) r,
        pos-*ℤ (a % 1000000) r,
        wrap_pos (a / 1000000 * r) (omega arith),
        wrap_pos (a % 1000000 * r) (omega arith),
        pos-/ℤ (a % 1000000 * r) 1000000,
        pos-+ℤ (a / 1000000 * r) (a % 1000000 * r / 1000000),
        split,
      )
      (wrap_pos (part_of a r) (omega arith))

checked_sub_pos : (a b : ℕ) → a ≤ i64_max → b ≤ a → checked_sub (pos a) (pos b) ≡ some (pos (a - b))
unfolding checked_sub
checked_sub_pos a b h k = rw (sub_pos a b k) (ground arith)

module _ (base : ProtocolParams) (d s r a : ℕ) (n : Numbers base d s r) where
  pub part_burn : a < d → assigned_burn base (pos a) ≡ pos (part_of a r)
  unfolding assigned_burn
  part_burn less =
      let e = burn_terms a r (omega (arith, n.debt_fits)) n.rate_below in
      rw (n.debt, n.rate) (ground (arith, e))

  whole_burn : a ≡ d → assigned_burn base (pos a) ≡ pos s
  unfolding assigned_burn
  whole_burn e = rw (n.debt, n.assigned, e) (ground arith)

  pub repaid_by :
      (burn : ℕ)
      → assigned_burn base (pos a) ≡ pos burn
      → a ≤ d
      → burn ≤ s
      → repaid base (pos a)
        ≡ ok (record base { debt = pos (d - a); assigned_reserve = pos (s - burn) })
  unfolding repaid
  repaid_by burn e le burn_le =
      rw
        (
          e,
          n.debt,
          n.assigned,
          checked_sub_pos d a n.debt_fits le,
          checked_sub_pos s burn n.assigned_fits burn_le,
        )
        refl

split_le : (a b : ℕ) → a ≤ b → (a < b) ⊎ (a ≡ b)
split_le a b h = ground arith

-- The Position after a repayment.
pub record Repaid (d s r a : ℕ) (next : ProtocolParams) (kept : ℕ) : Type 0 where
  pub numbers : Numbers next (d - a) kept r
  -- It covers the rate's part of the debt that is left, and exceeds it by at most one atom more than
  -- before.
  pub covers : part_of (d - a) r ≤ kept
  pub excess : kept + part_of d r ≤ part_of (d - a) r + s + 1
  pub partly : a < d → kept + part_of a r ≡ s
  pub wholly : a ≡ d → kept ≡ 0
  -- The owner burns at least one atom too, unless the reserve is the whole debt that is repaid.
  pub own : (a < d) ⊎ (s < d) → s < a + kept
  -- An exact reserve is still at most the debt that is left.
  pub in_debt : s ≡ part_of d r → kept ≤ d - a

pub repaid_keeps :
    (base : ProtocolParams) (d s r a : ℕ)
    → Numbers base d s r
    → 0 < a
    → a ≤ d
    → part_of d r ≤ s
    → (next : ProtocolParams) × (kept : ℕ) × (repaid base (pos a) ≡ ok next)
      × Repaid d s r a next kept
repaid_keeps base d s r a n positive le covered = elim (split_le a d le) [
  | inl less ↦
      let low : part_of a r + part_of (d - a) r ≤ part_of d r =
        parts_le a (d - a) d r (omega arith) in
      let high : part_of d r ≤ part_of a r + part_of (d - a) r + 1 =
        parts_ge a (d - a) d r (omega arith) in
      (
        record base { debt = pos (d - a); assigned_reserve = pos (s - part_of a r) },
        s - part_of a r,
        repaid_by base d s r a n (part_of a r) (part_burn base d s r a n less) le (omega arith),
        record {
          numbers = record {
            debt = refl;
            assigned = refl;
            rate = n.rate;
            rate_below = n.rate_below;
            debt_fits = omega (arith, n.debt_fits);
            assigned_fits = omega (arith, n.assigned_fits);
          };
          covers = omega arith;
          excess = omega arith;
          partly = λ _. omega arith;
          wholly = λ e. absurd (omega arith);
          own = λ _. omega (arith, part_lt a r positive n.rate_below);
          in_debt = λ exact. omega (arith, part_lt (d - a) r (omega arith) n.rate_below);
        },
      )
  | inr whole ↦ (
    record base { debt = pos (d - a); assigned_reserve = pos (s - s) },
    s - s,
    repaid_by base d s r a n s (whole_burn base d s r a n whole) le (omega arith),
    record {
      numbers = record {
        debt = refl;
        assigned = refl;
        rate = n.rate;
        rate_below = n.rate_below;
        debt_fits = omega (arith, n.debt_fits);
        assigned_fits = omega arith;
      };
      covers = omega (arith, no_part (d - a) r (omega arith));
      excess = omega (arith, no_part (d - a) r (omega arith));
      partly = λ e. absurd (omega arith);
      wholly = λ _. omega arith;
      own =
          λ some_left. elim some_left [ inl less ↦ absurd (omega arith) | inr less ↦ omega arith ];
      in_debt = λ _. omega arith;
    },
  )
]
