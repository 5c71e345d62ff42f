-- ===== src/Protocol/Votes.antt =====
-- The KPS voting arithmetic of src/protocol.rs.
use kusd.Base.{Bool, true, false, not, ◌||◌, ok_or, and_then, Result, ok, ◌>>=◌, ◌>>◌, reject_if}
use kusd.Int.{
  ℤ, pos, ◌+ℤ◌, ◌*ℤ◌, ◌/ℤ◌, ◌%ℤ◌, ltb_ℤ, leb_ℤ, eqb_ℤ, within, checked_add, checked_mul, wrap_i64,
}

pub data Error : Type 0 where
  invalid_weight power_overflow invalid_threshold supply_overflow threshold_overflow : Error

unfoldable pub weighted_kps_votes : ℤ → ℤ → ℤ → Result Error ℤ
weighted_kps_votes amount weight max_weight = do
  reject_if
      (leb_ℤ amount (pos 0)
        || leb_ℤ weight (pos 0)
        || leb_ℤ max_weight (pos 0)
        || ltb_ℤ max_weight weight
        || ltb_ℤ (pos 16) max_weight)
      Error.invalid_weight
  ok_or (checked_mul amount weight) Error.power_overflow

-- `i64::from(bool)`
abbrev pub from_bool : Bool → ℤ
from_bool true = pos 1
from_bool false = pos 0

unfoldable pub required_weighted_kps_votes : ℤ → ℤ → ℤ → Result Error ℤ
required_weighted_kps_votes total_kps max_weight threshold_ppm = do
  reject_if
      (leb_ℤ total_kps (pos 0)
        || not (within (pos 1) (pos 16) max_weight)
        || not (within (pos 1) (pos 1000000) threshold_ppm))
      Error.invalid_threshold
  weighted_supply ← ok_or (checked_mul total_kps max_weight) Error.supply_overflow
  let quotient = weighted_supply /ℤ pos 1000000
  let remainder = weighted_supply %ℤ pos 1000000
  let part = wrap_i64 (remainder *ℤ threshold_ppm)
  floor ←
      ok_or
        (and_then (checked_mul quotient threshold_ppm) (λ v. checked_add v (part /ℤ pos 1000000)))
        Error.threshold_overflow
  ok (wrap_i64 (floor +ℤ from_bool (not (eqb_ℤ (part %ℤ pos 1000000) (pos 0)))))
