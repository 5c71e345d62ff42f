-- ===== src/Equity/Backstop.antt =====
-- `backstop` and `backstop_with_assigned` of src/equity.rs: the Reserve pays for an Auction that found
-- no bidder.
use kusd.Base.{
  ℕ, ◌+◌, ◌-◌, ◌*◌, ◌/◌, ◌≤◌, ◌<◌, ◌≡◌, refl, refl, ok, err, if◌then◌else◌, ltb, some, and_then,
  Option-cases, inl, inr, arith,
}
use kusd.Int.{
  ℤ, pos, pos_part, neg_part, ◌+ℤ◌, ◌-ℤ◌, i64_max, u64_mod, -ℤ_parts, ◌≤ℤ◌, eq_of_parts,
  checked_add, checked_add_eq, checked_sub, checked_sub_eq, checked_add_u64, +ℤ_parts,
  wrap_i64_self,
}
use kusd.Equity.MulDiv.{Error, mul_div_floor, IsFloor-mul_div_floor, mul_div_floor-IsFloor}
use kusd.Equity.{EquityState, backstop_with_assigned}
use kusd.Equity.Effects.{IsValid, Floors}

pub record Backstopped (s : EquityState) (debt assigned reward_ppm : ℤ) (collateral : ℕ)
    (s' : EquityState) (reward : ℤ) : Type 0 where
  pub debt_natural : neg_part debt ≡ 0
  pub debt_positive : 0 < pos_part debt
  pub assigned_natural : neg_part assigned ≡ 0
  pub assigned_bounded : pos_part assigned ≤ pos_part debt
  pub reward_natural : neg_part reward ≡ 0
  pub reward_floor : Floors (pos_part debt * pos_part reward_ppm) 1000000 (pos_part reward)
  pub rate : (0 < pos_part reward_ppm) × (pos_part reward_ppm ≤ 100000)
  pub covered :
      pos_part s'.reserve_kusd + (pos_part debt - pos_part assigned) + pos_part reward
      ≡ pos_part s.reserve_kusd
  pub reserve_natural : neg_part s'.reserve_kusd ≡ 0
  pub total : s'.total_kps ≡ s.total_kps
  pub collateral_added : s'.collateral_sompi ≡ s.collateral_sompi + collateral
  pub collateral_fits : s'.collateral_sompi < u64_mod

payment-eq :
    (debt assigned reward payment : ℤ)
    → and_then (checked_sub debt assigned) (λ value. checked_add value reward) ≡ some payment
    → payment ≡ debt -ℤ assigned +ℤ reward
payment-eq debt assigned reward payment h = elim (Option-cases (checked_sub debt assigned)) [
  | inl e ↦ cc
  | inr (v, e) ↦
      ground (arith, checked_sub_eq {c = v} debt assigned, checked_add_eq {c = payment} v reward)
]

pub backstop-Backstopped :
    (s s' : EquityState) (debt assigned reward_ppm reward : ℤ) (collateral : ℕ)
    → IsValid s
    → backstop_with_assigned s debt assigned reward_ppm collateral ≡ ok (s', reward)
    → Backstopped s debt assigned reward_ppm collateral s' reward
unfolding backstop_with_assigned checked_add_u64
backstop-Backstopped s s' debt assigned reward_ppm reward collateral v h =
    elim (Option-cases (and_then (checked_sub debt assigned) (λ value. checked_add value reward))) [
      | inl e ↦ ground arith
      | inr (payment, e) ↦ ground (
        arith,
        mul_div_floor-IsFloor debt reward_ppm (pos 1000000) {r = reward},
        payment-eq debt assigned reward payment,
        wrap_i64_self (s.reserve_kusd -ℤ payment),
        -ℤ_parts s.reserve_kusd payment,
        -ℤ_parts debt assigned,
        +ℤ_parts (debt -ℤ assigned) reward,
      )
    ]

-- A successful backstop from a valid state keeps the state valid and is exact: the debt that the
-- assigned reserve does not cover and the reward leave the Reserve, the shares stay, and the
-- collateral is added. The reward is the rate's share of the debt, rounded down.
pub backstop_covers :
    (s s' : EquityState) (debt assigned reward_ppm reward : ℤ) (collateral : ℕ)
    → IsValid s
    → backstop_with_assigned s debt assigned reward_ppm collateral ≡ ok (s', reward)
    → IsValid s'
      × (s'.reserve_kusd +ℤ (debt -ℤ assigned) +ℤ reward ≡ s.reserve_kusd)
      × (s'.total_kps ≡ s.total_kps)
      × (s'.collateral_sompi ≡ s.collateral_sompi + collateral)
      × (assigned ≤ℤ debt)
      × Floors (pos_part debt * pos_part reward_ppm) 1000000 (pos_part reward)
backstop_covers s s' debt assigned reward_ppm reward collateral v h =
    let b = backstop-Backstopped s s' debt assigned reward_ppm reward collateral v h in
    ground (
      arith,
      -ℤ_parts debt assigned,
      +ℤ_parts s'.reserve_kusd (debt -ℤ assigned),
      +ℤ_parts (s'.reserve_kusd +ℤ (debt -ℤ assigned)) reward,
      eq_of_parts (s'.reserve_kusd +ℤ (debt -ℤ assigned) +ℤ reward) s.reserve_kusd,
    )

reward-eq :
    (debt rate : ℕ)
    → debt ≤ i64_max
    → rate ≤ 100000
    → mul_div_floor (pos debt) (pos rate) (pos 1000000) ≡ ok (pos (debt * rate / 1000000))
reward-eq debt rate fits le =
    let small : debt * rate ≤ debt * 100000 = grind arith in
    IsFloor-mul_div_floor (pos debt) (pos rate) (pos 1000000) (omega arith) (omega arith) (record {
      left = refl;
      right = refl;
      divisor = omega arith;
      natural = refl;
      fits = omega arith;
      low = omega arith;
      high = omega arith;
    })

payment-some :
    (debt assigned reward : ℕ)
    → assigned ≤ debt
    → debt ≤ i64_max
    → debt - assigned + reward ≤ i64_max
    → and_then (checked_sub (pos debt) (pos assigned)) (λ value. checked_add value (pos reward))
      ≡ some (pos (debt - assigned + reward))
unfolding checked_sub checked_add ◌+ℤ◌ ◌-ℤ◌
payment-some debt assigned reward le fits sum_fits = ground arith

-- The threshold is exact. With a positive debt, a rate of one to 100000 ppm, an assigned reserve of
-- at most the debt, a sum that fits an `i64` and collateral that fits a `u64`, the backstop
-- succeeds exactly when the Reserve holds the payment; below that it is refused with
-- `insufficient_reserve`.
pub backstop_threshold :
    (s : EquityState) (debt assigned rate collateral : ℕ)
    → IsValid s
    → 0 < debt
    → 0 < rate
    → rate ≤ 100000
    → assigned ≤ debt
    → debt - assigned + debt * rate / 1000000 ≤ i64_max
    → debt ≤ i64_max
    → s.collateral_sompi + collateral < u64_mod
    → let reward = debt * rate / 1000000 in
      let payment = debt - assigned + reward in
      backstop_with_assigned s (pos debt) (pos assigned) (pos rate) collateral ≡ (
        if ltb (pos_part s.reserve_kusd) payment
        then err Error.insufficient_reserve
        else ok (
          record {
            reserve_kusd = pos (pos_part s.reserve_kusd - payment);
            total_kps = s.total_kps;
            collateral_sompi = s.collateral_sompi + collateral;
          },
          pos reward,
        ))
unfolding backstop_with_assigned checked_add_u64
backstop_threshold s debt assigned rate collateral v p q r le fits dfits cfits = ground (
  arith,
  reward-eq debt rate,
  payment-some debt assigned (debt * rate / 1000000),
  wrap_i64_self (s.reserve_kusd -ℤ pos (debt - assigned + debt * rate / 1000000)),
  -ℤ_parts s.reserve_kusd (pos (debt - assigned + debt * rate / 1000000)),
  eq_of_parts (s.reserve_kusd -ℤ pos (debt - assigned + debt * rate / 1000000))
      (pos (pos_part s.reserve_kusd - (debt - assigned + debt * rate / 1000000))),
)
