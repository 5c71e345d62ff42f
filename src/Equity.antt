-- ===== src/Equity.antt =====
-- src/equity.rs: the KPS Reserve. Amounts are `i64` integers, the collateral is a `u64` number.
pub mod MulDiv
pub mod Effects
pub mod Orphans
pub mod Shares
pub mod Backstop
mod Tests
use kusd.Base.{
  ℕ, ◌≡◌, refl, Bool, ◌||◌, ◌&&◌, not, Option, none, some, ok_or, and_then, Result, ok, err, ◌>>=◌,
  ◌>>◌, reject_if, ◌==◌, if◌then◌else◌,
}
use kusd.Int.{
  ℤ, pos, ◌*ℤ◌, ◌/ℤ◌, ltb_ℤ, leb_ℤ, eqb_ℤ, within, checked_add, checked_sub, checked_add_u64, ◌-ℤ◌,
  wrap_i64, wrap_u64, sub_u64,
}
use MulDiv.{mul_div_floor, Error}

pub record EquityState : Type 0 where
  pub reserve_kusd : ℤ
  pub total_kps : ℤ
  pub collateral_sompi : ℕ

-- `EquityState::default()`
abbrev pub empty : EquityState
empty = record { reserve_kusd = pos 0; total_kps = pos 0; collateral_sompi = 0 }

-- The shares that `deposit` mints.
unfoldable pub minted_shares : EquityState → ℤ → Result Error ℤ
minted_shares s amount =
    if eqb_ℤ s.total_kps (pos 0)
    then (if not (eqb_ℤ s.reserve_kusd (pos 0))
        then err Error.reserve_without_shares
        else ok amount)
    else (if leb_ℤ s.reserve_kusd (pos 0)
        then err Error.insolvable
        else mul_div_floor amount s.total_kps s.reserve_kusd)

pub deposit : EquityState → ℤ → Result Error (EquityState × ℤ)
deposit s amount = do
  reject_if
      (leb_ℤ amount (pos 0)
        || ltb_ℤ s.reserve_kusd (pos 0)
        || ltb_ℤ s.total_kps (pos 0)
        || not (s.collateral_sompi == 0))
      Error.invalid_deposit
  minted ← minted_shares s amount
  reject_if (leb_ℤ minted (pos 0)) Error.deposit_too_small
  reserve ← ok_or (checked_add s.reserve_kusd amount) Error.reserve_overflow
  total ← ok_or (checked_add s.total_kps minted) Error.shares_overflow
  ok (record s { reserve_kusd = reserve; total_kps = total }, minted)

-- `((shares as i128) * (collateral as i128) / total_kps as i128) as u64`
unfoldable pub collateral_share : EquityState → ℤ → ℕ
collateral_share s shares = wrap_u64 (shares *ℤ pos s.collateral_sompi /ℤ s.total_kps)

-- The payout in KUSD of `redeem`.
unfoldable pub kusd_share : EquityState → ℤ → Result Error ℤ
kusd_share s shares =
    if eqb_ℤ s.reserve_kusd (pos 0)
    then ok (pos 0)
    else mul_div_floor shares s.reserve_kusd s.total_kps

unfoldable pub redeem : EquityState → ℤ → Result Error (EquityState × ℤ × ℕ)
redeem s shares = do
  reject_if (leb_ℤ shares (pos 0) || ltb_ℤ s.total_kps shares) Error.invalid_redemption
  payout ← kusd_share s shares
  let payout_kas = collateral_share s shares
  reject_if (leb_ℤ payout (pos 0) && payout_kas == 0) Error.redemption_zero
  ok (
    record {
      reserve_kusd = wrap_i64 (s.reserve_kusd -ℤ payout);
      total_kps = wrap_i64 (s.total_kps -ℤ shares);
      collateral_sompi = sub_u64 s.collateral_sompi payout_kas;
    },
    payout,
    payout_kas,
  )

pub backstop_with_assigned : EquityState → ℤ → ℤ → ℤ → ℕ → Result Error (EquityState × ℤ)
backstop_with_assigned s debt assigned_reserve reward_ppm collateral = do
  reject_if (leb_ℤ debt (pos 0) || not (within (pos 1) (pos 100000) reward_ppm))
      Error.invalid_auction
  reject_if (ltb_ℤ assigned_reserve (pos 0) || ltb_ℤ debt assigned_reserve) Error.invalid_assigned
  reward ← mul_div_floor debt reward_ppm (pos 1000000)
  payment ←
      ok_or (and_then (checked_sub debt assigned_reserve) (λ value. checked_add value reward))
        Error.payment_overflow
  reject_if (ltb_ℤ s.reserve_kusd payment) Error.insufficient_reserve
  total ← ok_or (checked_add_u64 s.collateral_sompi collateral) Error.collateral_overflow
  ok (
    record s { reserve_kusd = wrap_i64 (s.reserve_kusd -ℤ payment); collateral_sompi = total },
    reward,
  )

pub backstop : EquityState → ℤ → ℤ → ℕ → Result Error (EquityState × ℤ)
backstop s debt reward_ppm collateral = backstop_with_assigned s debt (pos 0) reward_ppm collateral
