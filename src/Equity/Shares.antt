-- ===== src/Equity/Shares.antt =====
-- What a holder of KPS is promised: deposits and redemptions in src/equity.rs never lower the value of the
-- shares that stay.
use native.Mathlib.Nat.{mul-div_cancel_left, le_of_mul-le-mul_right}
use kusd.Base.{ℕ, ◌+◌, ◌*◌, ◌≤◌, ◌<◌, ◌≡◌, ok, ◌⊎◌, ◌∙◌, arith}
use kusd.Int.{
  ℤ, pos, pos_part, ◌+ℤ◌, ◌-ℤ◌, ◌≤ℤ◌, eq_of_parts, wrap_i64_self, sub_u64_self, +ℤ_parts, -ℤ_parts,
}
use kusd.Equity.MulDiv.{mul_div_floor, IsFloor-mul_div_floor}
use kusd.Equity.{EquityState, empty, kusd_share, collateral_share, deposit, redeem}
use kusd.Equity.Effects.{IsValid, collateral_share-eq, deposit-Deposited, redeem-Redeemed, share-le}

-- The KUSD behind a share does not fall: `s.reserve / s.total ≤ s'.reserve / s'.total`.
abbrev pub KeepsPrice : EquityState → EquityState → Type 0
KeepsPrice s s' =
    pos_part s.reserve_kusd * pos_part s'.total_kps
    ≤ pos_part s'.reserve_kusd * pos_part s.total_kps

-- Nor does the KAS behind a share.
abbrev pub KeepsCollateral : EquityState → EquityState → Type 0
KeepsCollateral s s' =
    s.collateral_sompi * pos_part s'.total_kps ≤ s'.collateral_sompi * pos_part s.total_kps

dilute : (r t a m r' t' : ℕ) → m * r ≤ a * t → r' ≡ r + a → t' ≡ t + m → r * t' ≤ r' * t
dilute r t a m r' t' h e f = rw (e, f) (omega arith)

retire : (r t k p r' t' : ℕ) → p * t ≤ k * r → r ≡ r' + p → t ≡ t' + k → r * t' ≤ r' * t
retire r t k p r' t' h e f =
    let g : p * (t' + k) ≤ k * (r' + p) = rw (e, f) at h in rw (e, f) (omega arith)

-- A successful deposit into a valid state adds exactly the amount and the new shares, leaves a valid
-- state, and does not dilute the holders.
pub deposit-KeepsPrice :
    (s s' : EquityState) (amount minted : ℤ)
    → IsValid s
    → deposit s amount ≡ ok (s', minted)
    → IsValid s'
      × KeepsPrice s s'
      × (s'.reserve_kusd ≡ s.reserve_kusd +ℤ amount)
      × (s'.total_kps ≡ s.total_kps +ℤ minted)
      × (pos 1 ≤ℤ minted)
deposit-KeepsPrice s s' amount minted v h =
    let d = deposit-Deposited s s' amount minted v h in
    ground (
      arith,
      +ℤ_parts s.reserve_kusd amount,
      +ℤ_parts s.total_kps minted,
      dilute (pos_part s.reserve_kusd) (pos_part s.total_kps) (pos_part amount) (pos_part minted)
          (pos_part s'.reserve_kusd) (pos_part s'.total_kps),
    )

-- A successful redemption from a valid state pays at most the shares' part of the KUSD and of the
-- KAS, leaves a valid state, and the shares that stay lose no value.
pub redeem-KeepsPrice :
    (s s' : EquityState) (shares payout : ℤ) (payout_kas : ℕ)
    → IsValid s
    → redeem s shares ≡ ok (s', payout, payout_kas)
    → IsValid s'
      × KeepsPrice s s'
      × KeepsCollateral s s'
      × (s'.reserve_kusd +ℤ payout ≡ s.reserve_kusd)
      × (s'.total_kps +ℤ shares ≡ s.total_kps)
      × (s'.collateral_sompi + payout_kas ≡ s.collateral_sompi)
redeem-KeepsPrice s s' shares payout payout_kas v h =
    let d = redeem-Redeemed s s' shares payout payout_kas v h in
    ground (
      arith,
      -ℤ_parts s.reserve_kusd payout,
      -ℤ_parts s.total_kps shares,
      +ℤ_parts s'.reserve_kusd payout,
      +ℤ_parts s'.total_kps shares,
      eq_of_parts (s'.reserve_kusd +ℤ payout) s.reserve_kusd,
      eq_of_parts (s'.total_kps +ℤ shares) s.total_kps,
      retire (pos_part s.reserve_kusd) (pos_part s.total_kps) (pos_part shares) (pos_part payout)
          (pos_part s'.reserve_kusd) (pos_part s'.total_kps),
      retire s.collateral_sompi (pos_part s.total_kps) (pos_part shares) payout_kas
          s'.collateral_sompi (pos_part s'.total_kps),
      share-le (pos_part shares) (pos_part s.reserve_kusd) (pos_part s.total_kps) (pos_part payout),
      share-le (pos_part shares) s.collateral_sompi (pos_part s.total_kps) payout_kas,
    )

-- What was deposited: the shares are worth at most the deposit, also after it.
round_trip :
    (r t a m p : ℕ)
    → m * r ≤ a * t
    → (t ≡ 0 → (m ≡ a) × (r ≡ 0))
    → 0 < t + m
    → p * (t + m) ≤ m * (r + a)
    → p ≤ a
round_trip r t a m p h first positive paid =
    le_of_mul-le-mul_right {k = t + m} (omega arith) positive

-- Rounding gives no profit: the shares that a deposit into a valid state mints redeem at once for
-- at most the deposit and for no KAS, and the Reserve has then at least the KUSD, and exactly the
-- shares, that it had before.
pub deposit_then_redeem :
    (s s' s'' : EquityState) (amount minted payout : ℤ) (payout_kas : ℕ)
    → IsValid s
    → deposit s amount ≡ ok (s', minted)
    → redeem s' minted ≡ ok (s'', payout, payout_kas)
    → (payout ≤ℤ amount)
      × (payout_kas ≡ 0)
      × (s.reserve_kusd ≤ℤ s''.reserve_kusd)
      × (s''.total_kps ≡ s.total_kps)
deposit_then_redeem s s' s'' amount minted payout payout_kas v h k =
    let d = deposit-Deposited s s' amount minted v h in
    let u = deposit-KeepsPrice s s' amount minted v h in
    let w = redeem-Redeemed s' s'' minted payout payout_kas u.0 k in
    ground (
      arith,
      +ℤ_parts s.reserve_kusd amount,
      +ℤ_parts s.total_kps minted,
      -ℤ_parts s'.reserve_kusd payout,
      -ℤ_parts s'.total_kps minted,
      eq_of_parts s''.total_kps s.total_kps,
      share-le (pos_part minted) s'.collateral_sompi (pos_part s'.total_kps) payout_kas,
      round_trip (pos_part s.reserve_kusd) (pos_part s.total_kps) (pos_part amount)
          (pos_part minted) (pos_part payout),
    )

kusd_share_all :
    (s : EquityState)
    → IsValid s
    → 0 < pos_part s.total_kps
    → kusd_share s s.total_kps ≡ ok s.reserve_kusd
unfolding kusd_share
kusd_share_all s v positive =
    let floor : mul_div_floor s.total_kps s.reserve_kusd s.total_kps ≡ ok s.reserve_kusd =
      IsFloor-mul_div_floor s.total_kps s.reserve_kusd s.total_kps (omega arith) (omega arith)
        (record {
          left = v.kps_natural;
          right = v.reserve_natural;
          divisor = positive;
          natural = v.reserve_natural;
          fits = v.reserve_fits;
          low = omega arith;
          high = omega arith;
        }) in
    ground (arith, eq_of_parts s.reserve_kusd (pos 0))

collateral_share_all :
    (s : EquityState)
    → IsValid s
    → 0 < pos_part s.total_kps
    → collateral_share s s.total_kps ≡ s.collateral_sompi
collateral_share_all s v positive =
    collateral_share-eq s s.total_kps v v.kps_natural positive (omega arith)
    ∙ mul-div_cancel_left s.collateral_sompi positive

-- Redeeming every share of a valid state that holds KUSD or KAS pays out all of both and leaves the
-- default state.
pub redeem_all :
    (s : EquityState)
    → IsValid s
    → 0 < pos_part s.total_kps
    → (0 < pos_part s.reserve_kusd) ⊎ (0 < s.collateral_sompi)
    → redeem s s.total_kps ≡ ok (empty, s.reserve_kusd, s.collateral_sompi)
unfolding redeem
redeem_all s v positive holds = ground (
  arith,
  kusd_share_all s v positive,
  collateral_share_all s v positive,
  -ℤ_parts s.reserve_kusd s.reserve_kusd,
  -ℤ_parts s.total_kps s.total_kps,
  eq_of_parts (s.reserve_kusd -ℤ s.reserve_kusd) (pos 0),
  eq_of_parts (s.total_kps -ℤ s.total_kps) (pos 0),
  wrap_i64_self (pos 0),
  sub_u64_self s.collateral_sompi s.collateral_sompi,
)
