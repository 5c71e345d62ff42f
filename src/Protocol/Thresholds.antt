-- ===== src/Protocol/Thresholds.antt =====
-- The voting threshold of src/protocol.rs is exact.
use kusd.Base.{
  ℕ, ◌+◌, ◌*◌, ◌/◌, ◌%◌, ◌≤◌, ◌<◌, ◌≡◌, refl, ◌∙◌, ap, not, ok, some, arith, ◌==◌, if◌then◌else◌,
}
use kusd.Int.{
  pos, ◌+ℤ◌, i64_max, eqb_ℤ, wrap_i64, wrap_i64_self, checked_add, checked_mul, pos-*ℤ, pos-/ℤ,
  pos-%ℤ,
}
use kusd.Protocol.Votes.{weighted_kps_votes, from_bool, required_weighted_kps_votes}

-- The reference: the weighted supply's part, rounded up.
abbrev pub part_rounded_up : ℕ → ℕ → ℕ
part_rounded_up supply threshold = (supply * threshold + 999999) / 1000000

-- The source never forms the product of the supply and the threshold.
split_product : (n t : ℕ) → n * t ≡ 1000000 * (n / 1000000 * t) + n % 1000000 * t
split_product n t =
    let whole : n ≡ 1000000 * (n / 1000000) + n % 1000000 = omega arith in
    ap (λ k. k * t) whole ∙ omega arith

rounded :
    (n t : ℕ)
    → n / 1000000 * t
        + n % 1000000 * t / 1000000
        + (if n % 1000000 * t % 1000000 == 0 then 0 else 1)
      ≡ part_rounded_up n t
rounded n t = ground (arith, split_product n t)

bounded : (n t : ℕ) → t ≤ 1000000 → part_rounded_up n t ≤ n
bounded n t h = let most : n * t ≤ n * 1000000 = grind arith in omega (arith, most)

checked_mul-pos : (a b : ℕ) → a * b ≤ i64_max → checked_mul (pos a) (pos b) ≡ some (pos (a * b))
unfolding checked_mul
checked_mul-pos a b h = rw (pos-*ℤ a b) (ground (arith, h))

checked_add-pos : (a b : ℕ) → a + b ≤ i64_max → checked_add (pos a) (pos b) ≡ some (pos (a + b))
unfolding checked_add ◌+ℤ◌
checked_add-pos a b h = ground (arith, h)

wrap-pos : (a : ℕ) → a ≤ i64_max → wrap_i64 (pos a) ≡ pos a
wrap-pos a h = wrap_i64_self (pos a) (ground (arith, h))

pos-+ℤ : (a b : ℕ) → pos a +ℤ pos b ≡ pos (a + b)
unfolding ◌+ℤ◌
pos-+ℤ a b = ground arith

from_bool-pos : (x : ℕ) → from_bool (not (eqb_ℤ (pos x) (pos 0))) ≡ pos (if x == 0 then 0 else 1)
from_bool-pos x = ground arith

at_least : (n t : ℕ) → 0 < t → n ≤ n * t
at_least n t h = grind arith

small : (r t : ℕ) → r < 1000000 → t ≤ 1000000 → r * t ≤ 1000000 * 1000000
small r t h k = let step : r * t ≤ r * 1000000 = grind arith in omega (arith, step)

-- The arithmetic of the call, for a supply that fits.
computed :
    (total max n threshold : ℕ)
    → total * max ≡ n
    → 0 < total
    → 0 < max
    → max ≤ 16
    → 0 < threshold
    → threshold ≤ 1000000
    → n ≤ i64_max
    → required_weighted_kps_votes (pos total) (pos max) (pos threshold)
      ≡ ok (pos (part_rounded_up n threshold))
unfolding required_weighted_kps_votes
computed total max n threshold e p q r s t fits =
    let high = n / 1000000 * threshold in
    let low = n % 1000000 * threshold in
    let top = bounded n threshold t in
    let sum = rounded n threshold in
    let less = small (n % 1000000) threshold (omega arith) t in
    let product = checked_mul-pos total max (omega arith) in
    let both_fit : high + low / 1000000 ≤ i64_max = ground (arith, sum, top, fits) in
    let high_fits : high ≤ i64_max = omega (arith, both_fit) in
    ground (
      arith,
      product,
      top,
      sum,
      pos-/ℤ n 1000000,
      pos-%ℤ n 1000000,
      pos-*ℤ (n % 1000000) threshold,
      wrap-pos low (omega (arith, less)),
      checked_mul-pos (n / 1000000) threshold high_fits,
      pos-/ℤ low 1000000,
      pos-%ℤ low 1000000,
      checked_add-pos high (low / 1000000) both_fit,
      from_bool-pos (low % 1000000),
      pos-+ℤ (high + low / 1000000) (if low % 1000000 == 0 then 0 else 1),
      wrap-pos (part_rounded_up n threshold) (omega (arith, top, fits)),
    )

-- The number of votes needed is exact: for a positive supply, a weight limit of 1 to 16, a
-- threshold of 1 to 1000000 ppm and a weighted supply that fits an `i64`, the call succeeds, without
-- any overflow on the way, with the threshold's part of the weighted supply, rounded up. That is
-- at least one vote and at most all of them.
pub required_votes_exact :
    (total max threshold : ℕ)
    → 0 < total
    → 0 < max
    → max ≤ 16
    → 0 < threshold
    → threshold ≤ 1000000
    → total * max ≤ i64_max
    → let votes = part_rounded_up (total * max) threshold in
      (required_weighted_kps_votes (pos total) (pos max) (pos threshold) ≡ ok (pos votes))
      × (0 < votes)
      × (votes ≤ total * max)
required_votes_exact total max threshold p q r s t fits =
    let some_supply : 0 < total * max = grind arith in
    (
      computed total max (total * max) threshold refl p q r s t fits,
      omega (arith, at_least (total * max) threshold s, some_supply),
      bounded (total * max) threshold t,
    )

-- The threshold can be met: with the same parameters, one holder of the whole supply at the full
-- weight has a voting power that is computed without overflow, the number of votes needed is
-- computed too, and the power reaches it.
pub quorum_reachable :
    (total max threshold : ℕ)
    → 0 < total
    → 0 < max
    → max ≤ 16
    → 0 < threshold
    → threshold ≤ 1000000
    → total * max ≤ i64_max
    → (power : ℕ) × (needed : ℕ) × (weighted_kps_votes (pos total) (pos max) (pos max)
        ≡ ok (pos power))
      × (required_weighted_kps_votes (pos total) (pos max) (pos threshold) ≡ ok (pos needed))
      × (needed ≤ power)
unfolding weighted_kps_votes
quorum_reachable total max threshold p q r s t fits =
    let (computes, _, most) = required_votes_exact total max threshold p q r s t fits in
    (
      total * max,
      part_rounded_up (total * max) threshold,
      ground (arith, checked_mul-pos total max fits),
      computes,
      most,
    )
