-- ===== src/SavingsProtocol/Settled.antt =====
-- The amounts of an Auction in src/savings_protocol.rs: what the owner has of the payment while the
-- price falls, and the reward of the challenger.
use native.Mathlib.Nat.{lt-mul-div-succ, le_of_mul-le-mul_right, div-mul-le_self}
use kusd.Base.{ℕ, ◌+◌, ◌-◌, ◌*◌, ◌/◌, ◌≤◌, ◌<◌, ◌≡◌, ◌≢◌, refl, sym, ◌∙◌, ap, false, not, ok, arith}
use kusd.Int.{
  pos, pos_part, ◌-ℤ◌, ◌/ℤ◌, wrap_i64, i64_max, i128_max, u64_mod, pos-+ℤ, sub_pos, pos-*ℤ, pos-/ℤ,
  checked_mul_i128, within,
}
use kusd.Order.{Text, text}
use kusd.Equity.MulDiv.{mul_div_floor_pos}
use kusd.SavingsProtocol.{ProtocolParams}
use kusd.SavingsProtocol.Settlement.{settle_reward, collateral_price, max_ℤ, owner_surplus}
use kusd.SavingsProtocol.AuctionCalls.{backstop_reward}
use kusd.SavingsProtocol.Repaid.{part_of, burn_terms, wrap_pos}

-- The numbers of an Auction: the debt, the assigned reserve, the rate of the reward, the collateral, its
-- price, and the duration.
pub record Auctioned (base : ProtocolParams) (d s w k l t : ℕ) : Type 0 where
  pub debt : base.debt ≡ pos d
  pub assigned : base.assigned_reserve ≡ pos s
  pub rate : base.challenge_reward_ppm ≡ pos w
  pub collateral : base.collateral_sompi ≡ pos k
  pub price : base.liquidation_price ≡ pos l
  pub duration : base.auction_duration_daa ≡ pos t
  pub assigned_le : s ≤ d
  pub rate_below : w < 1000000
  pub duration_positive : 0 < t
  pub debt_fits : d ≤ i64_max
  pub collateral_fits : k ≤ i64_max
  pub price_fits : l ≤ i64_max
  pub duration_fits : t ≤ i64_max

-- What the burnt debt and the reward cost, and the value of the collateral.
abbrev pub floor_of : ℕ → ℕ → ℕ → ℕ
floor_of d s w = d - s + part_of d w

abbrev pub value_of : ℕ → ℕ → ℕ
value_of k l = k * l / 100000000

pub product_fits : (k l : ℕ) → k ≤ i64_max → l ≤ i64_max → k * l ≤ i128_max
product_fits k l h g = grind arith

pub share_le : (x e t : ℕ) → e ≤ t → 0 < t → x * e / t ≤ x
share_le x e t le positive =
    le_of_mul-le-mul_right {k = t}
      (let low = div-mul-le_self (x * e) t in let up : x * e ≤ x * t = grind arith in omega arith)
      positive

between : (a b t p q : ℕ) → p * t ≤ a → a ≤ b → b < t * (q + 1) → p ≤ q
between a b t p q low le high = grind arith

max_pos : (v f : ℕ) → max_ℤ (pos v) (pos f) ≡ pos (v - f + f)
max_pos v f = ground arith

-- Wrapping does nothing to a difference of numbers in range.
pub wrap_sub : (a b c : ℕ) → a ≤ i64_max → b ≤ a → a - b ≡ c → wrap_i64 (pos a -ℤ pos b) ≡ pos c
wrap_sub a b c fits le e = ap wrap_i64 (sub_pos a b le) ∙ wrap_pos (a - b) (omega arith) ∙ ap pos e

share_mono : (x e f t : ℕ) → e ≤ f → 0 < t → x * e / t ≤ x * f / t
share_mono x e f t le positive =
    let low = div-mul-le_self (x * e) t in
    let high = lt-mul-div-succ (x * f) positive in
    let up : x * e ≤ x * f = grind arith in
    between (x * e) (x * f) t (x * e / t) (x * f / t) low up high

share_whole : (x f t : ℕ) → f ≡ t → 0 < t → x * f / t ≡ x
share_whole x f t e positive =
    let high = lt-mul-div-succ (x * f) positive in
    let up : x * t ≤ x * f = omega (arith, ap (λ y. x * y) e) in
    let le = share_le x f t (omega arith) positive in
    let ge = between (x * t) (x * f) t x (x * f / t) (omega arith) up high in omega arith

pub share_none : (x e t : ℕ) → e ≡ 0 → 0 < t → x * e / t ≡ 0
share_none x e t h positive =
    let low = div-mul-le_self (x * e) t in
    let none : x * e ≡ x * 0 = ap (λ y. x * y) h in
    let le = between (x * e) (x * e) t (x * e / t) 0 low (omega arith) (omega arith) in omega arith

wrapped_part : (n : ℕ) → i64_max < n → n < u64_mod → pos_part (wrap_i64 (pos n) /ℤ pos 1000000) ≡ 0
unfolding wrap_i64 ◌/ℤ◌
wrapped_part n over below = ground arith

module _ (base : ProtocolParams) (d s w k l t : ℕ) (n : Auctioned base d s w k l t) where
  reward_part : settle_reward base ≡ pos (part_of d w)
  unfolding settle_reward
  reward_part = rw (n.debt, n.rate) (burn_terms d w n.debt_fits n.rate_below)

  price_value :
      (overflow range : Text)
      → value_of k l ≤ i64_max
      → collateral_price overflow range base ≡ ok (pos (value_of k l))
  unfolding collateral_price checked_mul_i128
  price_value overflow range fits =
      let whole = product_fits k l n.collateral_fits n.price_fits in
      rw (n.collateral, n.price, pos-*ℤ k l) (ground (arith, pos-/ℤ (k * l) 100000000))

  surplus_exact :
      (e : ℕ)
      → floor_of d s w ≤ i64_max
      → value_of k l ≤ i64_max
      → e ≤ t
      → let x = value_of k l - floor_of d s w in
        owner_surplus base (pos e) ≡ ok (pos (x - x * e / t))
  unfolding owner_surplus
  surplus_exact e floor_fits value_fits le =
      let v = value_of k l in
      let f = floor_of d s w in
      let x = v - f in
      let inside : not (within (pos 0) (pos t) (pos e)) ≡ false = ground arith in
      let discount_le = share_le x e t le n.duration_positive in
      rw
        (
          reward_part,
          price_value (text "overflow prix Auction") (text "prix Auction hors i64") value_fits,
          n.duration,
          inside,
          n.debt,
          n.assigned,
          wrap_sub d s (d - s) n.debt_fits n.assigned_le refl,
          pos-+ℤ (d - s) (part_of d w),
          wrap_pos f floor_fits,
          max_pos v f,
          wrap_sub (x + f) f x (omega arith) (omega arith) (omega arith),
          mul_div_floor_pos x e t (omega arith) (omega (arith, n.duration_fits)) n.duration_fits
              n.duration_positive (omega arith),
          wrap_sub (x + f) (x * e / t) (x + f - x * e / t) (omega arith) (omega arith) refl,
          wrap_sub (x + f - x * e / t) f (x - x * e / t) (omega arith) (omega arith) (omega arith),
        )
        refl

  -- The price of an Auction falls to its floor. Of two elapsed times within the duration the later one
  -- leaves the owner at most as much of the payment. At the start the owner has what the collateral is
  -- worth over the floor, the debt that the assigned reserve does not cover and the reward, and at the
  -- end nothing. No amount overflows where the floor and the value of the collateral fit an `i64`.
  pub surplus_declines :
      (e f : ℕ)
      → floor_of d s w ≤ i64_max
      → value_of k l ≤ i64_max
      → e ≤ f
      → f ≤ t
      → (x : ℕ) × (y : ℕ) × (owner_surplus base (pos e) ≡ ok (pos x))
        × (owner_surplus base (pos f) ≡ ok (pos y))
        × (y ≤ x)
        × (e ≡ 0 → x ≡ value_of k l - floor_of d s w)
        × (f ≡ t → y ≡ 0)
  surplus_declines e f floor_fits value_fits le last =
      let z = value_of k l - floor_of d s w in
      let falls = share_mono z e f t le n.duration_positive in
      (
        z - z * e / t,
        z - z * f / t,
        surplus_exact e floor_fits value_fits (omega arith),
        surplus_exact f floor_fits value_fits last,
        omega arith,
        λ h. omega (arith, share_none z e t h n.duration_positive),
        λ h. omega (arith, share_whole z f t h n.duration_positive),
      )

  -- The reward that the backstop calls pay is that of a settlement where the debt times the rate fits an
  -- `i64`. Beyond that, up to 64 bits, the product wraps around: the reward is not positive, and is
  -- not that of a settlement.
  pub backstop_reward_wraps :
      (d * w ≤ i64_max → backstop_reward base ≡ settle_reward base)
      × (i64_max < d * w
          → d * w < u64_mod
          → (pos_part (backstop_reward base) ≡ 0) × (backstop_reward base ≢ settle_reward base))
  unfolding backstop_reward
  backstop_reward_wraps = (
    λ fits.
        rw (reward_part, n.debt, n.rate, pos-*ℤ d w, wrap_pos (d * w) fits)
          (pos-/ℤ (d * w) 1000000),
    λ over below.
        let gone : pos_part (backstop_reward base) ≡ 0 =
          rw (n.debt, n.rate, pos-*ℤ d w) (wrapped_part (d * w) over below) in
        (gone, λ same. omega (arith, gone, ap pos_part (sym reward_part ∙ sym same))),
  )
