-- ===== src/SavingsProtocol/Redeemed.antt =====
-- The redemption that src/savings_protocol.rs computes for the call is that of src/equity.rs.
use native.Mathlib.Nat.{div-mul-le_self}
use kusd.Base.{
  ℕ, ◌-◌, ◌*◌, ◌/◌, ◌≤◌, ◌<◌, ◌≡◌, refl, ◌∙◌, ap, ◌⊎◌, inl, inr, false, ◌&&◌, ◌||◌, ◌==◌, ok, err,
  arith,
}
use kusd.Int.{
  pos, pos_part, ltb_ℤ, leb_ℤ, eqb_ℤ, i64_max, pos-*ℤ, pos-/ℤ, checked_mul_i128, sub_u64_self,
}
use kusd.Order.{text}
use kusd.Equity.{EquityState, kusd_share, collateral_share, redeem}
use kusd.Equity.MulDiv
use kusd.Equity.MulDiv.{mul_div_floor_pos}
use kusd.Equity.Effects.{share-le, kas-eq}
use kusd.Protocol.Validate.{Error}
use kusd.SavingsProtocol.{ProtocolParams}
use kusd.SavingsProtocol.Redemption.{redeemed_part, Redemption, redeemed}
use kusd.SavingsProtocol.Settled.{product_fits, share_none, wrap_sub}

-- The Reserve of the parameters as a state of src/equity.rs.
abbrev pub equity_of : ProtocolParams → EquityState
equity_of p = record {
  reserve_kusd = p.reserve_kusd;
  total_kps = p.total_kps;
  collateral_sompi = pos_part p.reserve_collateral_sompi;
}

-- The numbers of the Reserve.
pub record Reserved (p : ProtocolParams) (r t k : ℕ) : Type 0 where
  pub reserve : p.reserve_kusd ≡ pos r
  pub total : p.total_kps ≡ pos t
  pub collateral : p.reserve_collateral_sompi ≡ pos k
  pub reserve_fits : r ≤ i64_max
  pub total_fits : t ≤ i64_max
  pub collateral_fits : k ≤ i64_max

some_payment :
    (x y : ℕ) → (0 < x) ⊎ (0 < y) → (eqb_ℤ (pos x) (pos 0) && eqb_ℤ (pos y) (pos 0)) ≡ false
some_payment x y h = ground arith

pays_something : (x y : ℕ) → (0 < x) ⊎ (0 < y) → (leb_ℤ (pos x) (pos 0) && y == 0) ≡ false
pays_something x y h = ground arith

module _ (p : ProtocolParams) (r t k b : ℕ) (n : Reserved p r t k) (positive : 0 < b)
    (le : b ≤ t) where
  part_exact :
      (value : ℕ) → value ≤ i64_max → redeemed_part p (pos b) (pos value) ≡ ok (pos (b * value / t))
  unfolding redeemed_part checked_mul_i128
  part_exact value fits =
      let whole = product_fits b value (omega (arith, n.total_fits)) fits in
      let less =
        share-le b value t (b * value / t) le (omega arith) (div-mul-le_self (b * value) t) in
      rw (n.total, pos-*ℤ b value) (ground (arith, pos-/ℤ (b * value) t))

  share_exact : kusd_share (equity_of p) (pos b) ≡ ok (pos (b * r / t))
  unfolding kusd_share
  share_exact =
      let less = share-le b r t (b * r / t) le (omega arith) (div-mul-le_self (b * r) t) in
      let made =
        mul_div_floor_pos b r t (omega (arith, n.total_fits)) n.reserve_fits n.total_fits
          (omega arith) (omega (arith, n.reserve_fits)) in
      rw (n.reserve, n.total) (ground (arith, made, share_none b r t))

  kas_exact : collateral_share (equity_of p) (pos b) ≡ b * k / t
  unfolding collateral_share
  kas_exact =
      rw (n.collateral, n.total) (kas-eq b k t le (omega arith) (omega (arith, n.collateral_fits)))

  part_le : (value : ℕ) → b * value / t ≤ value
  part_le value =
      share-le b value t (b * value / t) le (omega arith) (div-mul-le_self (b * value) t)

  reserve_exact : redeemed_part p (pos b) p.reserve_kusd ≡ ok (pos (b * r / t))
  reserve_exact = ap (redeemed_part p (pos b)) n.reserve ∙ part_exact r n.reserve_fits

  collateral_exact : redeemed_part p (pos b) p.reserve_collateral_sompi ≡ ok (pos (b * k / t))
  collateral_exact = ap (redeemed_part p (pos b)) n.collateral ∙ part_exact k n.collateral_fits

  -- The guard of `redeem`.
  accepted : (leb_ℤ (pos b) (pos 0) || ltb_ℤ p.total_kps (pos b)) ≡ false
  accepted = rw n.total (ground arith)

  -- Where one of the payments is positive, both succeed.
  paid :
      (0 < b * r / t) ⊎ (0 < b * k / t)
      → (result : Redemption) × (redeemed p (pos b) ≡ ok result)
        × (redeem (equity_of p) (pos b)
            ≡ ok (equity_of result.next, result.payout, pos_part result.payout_kas))
  unfolding redeemed redeem
  paid pays = (
    record {
      next = record p {
        reserve_kusd = pos (r - b * r / t);
        total_kps = pos (t - b);
        reserve_collateral_sompi = pos (k - b * k / t);
      };
      payout = pos (b * r / t);
      payout_kas = pos (b * k / t);
    },
    rw
        (
          reserve_exact,
          collateral_exact,
          n.reserve,
          n.collateral,
          some_payment (b * r / t) (b * k / t) pays,
          n.total,
          wrap_sub r (b * r / t) (r - b * r / t) n.reserve_fits (part_le r) refl,
          wrap_sub t b (t - b) n.total_fits le refl,
          wrap_sub k (b * k / t) (k - b * k / t) n.collateral_fits (part_le k) refl,
        )
        refl,
    rw
        (
          share_exact,
          kas_exact,
          accepted,
          pays_something (b * r / t) (b * k / t) pays,
          n.reserve,
          n.total,
          n.collateral,
          wrap_sub r (b * r / t) (r - b * r / t) n.reserve_fits (part_le r) refl,
          wrap_sub t b (t - b) n.total_fits le refl,
          sub_u64_self k (b * k / t) (part_le k) (omega (arith, n.collateral_fits)),
        )
        refl,
  )

  -- Where none is, both refuse.
  unpaid :
      b * r / t ≡ 0
      → b * k / t ≡ 0
      → (redeemed p (pos b) ≡ err (Error.refused (text "redeem without payment")))
        × (redeem (equity_of p) (pos b) ≡ err MulDiv.Error.redemption_zero)
  unfolding redeemed redeem
  unpaid none_kusd none_kas = (
    rw (reserve_exact, collateral_exact, none_kusd, none_kas) refl,
    rw (share_exact, kas_exact, accepted, none_kusd, none_kas) refl,
  )

any_payment : (x y : ℕ) → ((0 < x) ⊎ (0 < y)) ⊎ ((x ≡ 0) × (y ≡ 0))
any_payment x y = ground arith

-- The redemption of the call is that of the accounting. For any part of the shares of a Reserve whose
-- amounts fit an `i64`, both succeed, with the same payments and the same Reserve after, or both refuse
-- to pay nothing: no amount overflows.
pub redeemed_refines :
    (p : ProtocolParams) (r t k b : ℕ)
    → Reserved p r t k
    → 0 < b
    → b ≤ t
    → ((result : Redemption) × (redeemed p (pos b) ≡ ok result)
        × (redeem (equity_of p) (pos b)
            ≡ ok (equity_of result.next, result.payout, pos_part result.payout_kas)))
      ⊎ ((redeemed p (pos b) ≡ err (Error.refused (text "redeem without payment")))
          × (redeem (equity_of p) (pos b) ≡ err MulDiv.Error.redemption_zero))
redeemed_refines p r t k b n positive le = elim (any_payment (b * r / t) (b * k / t)) [
  | inl pays ↦ inl (paid p r t k b n positive le pays)
  | inr none ↦ inr (unpaid p r t k b n positive le none.0 none.1)
]
