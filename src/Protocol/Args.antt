-- ===== src/Protocol/Args.antt =====
-- The constructor arguments of the contracts in src/protocol.rs. A size is that of a `Vec`, which fits
-- an `i64`.
pub use kusd.Base.{length}
use kusd.Base.{ℕ, zero, suc, Bool, List, [], ◌∷◌, ◌++◌}
use kusd.Int.{ℤ, pos}
use kusd.Protocol.{Bytes, ProtocolParams, Artifact, ProtocolStack, Compiler}

-- `bytes.len() as i64`
abbrev pub size : Bytes → ℤ
size bytes = pos (length bytes)

-- `vec![0; n]`
unfoldable pub zeros : ℕ → Bytes
zeros zero = []
zeros (suc n) = 0 ∷ zeros n

-- `Vec::truncate`
unfoldable pub truncate {ℓ} : {A : Type ℓ} → ℕ → List A → List A
truncate zero xs = []
truncate (suc n) [] = []
truncate (suc n) (x ∷ xs) = x ∷ truncate n xs

module _ (c : Compiler) where
  unfoldable pub kcc_args : (owner : Bytes) (amount : ℤ) (kind : ℕ) (minter : Bool) → List c.Expr
  kcc_args owner amount kind minter =
      c.bytes owner
      ∷ c.int amount
      ∷ c.byte kind
      ∷ c.bool minter
      ∷ c.int (pos 8)
      ∷ c.int (pos 8)
      ∷ []

  unfoldable pub kps_args :
      (p : ProtocolParams) (delegation : Artifact) (owner : Bytes) (amount : ℤ) (kind : ℕ)
      (minter : Bool)
      → List c.Expr
  kps_args p delegation owner amount kind minter =
      c.bytes owner
      ∷ c.int amount
      ∷ c.byte kind
      ∷ c.bool minter
      ∷ c.int (pos 8)
      ∷ c.int (pos 8)
      ∷ c.int p.minimum_kps_holding_daa
      ∷ c.dynamic_bytes delegation.prefix
      ∷ c.dynamic_bytes delegation.suffix
      ∷ c.bytes delegation.template_hash
      ∷ []

  unfoldable pub delegation_args :
      (p : ProtocolParams) (owner : Bytes) (delegate : Bytes) (amount : ℤ) (weight : ℤ)
      → List c.Expr
  delegation_args p owner delegate amount weight =
      c.bytes owner
      ∷ c.bytes delegate
      ∷ c.bytes p.kps_id
      ∷ c.int amount
      ∷ c.int weight
      ∷ c.int p.minimum_kps_holding_daa
      ∷ c.int p.max_kps_vote_weight
      ∷ []

  unfoldable pub reserve_args :
      (p : ProtocolParams) (stack : ProtocolStack) (reserve_kusd : ℤ) (total_kps : ℤ)
      (collateral_sompi : ℤ)
      → List c.Expr
  reserve_args p stack reserve_kusd total_kps collateral_sompi =
      c.bytes p.asset_id
      ∷ c.bytes p.kps_id
      ∷ c.int reserve_kusd
      ∷ c.int total_kps
      ∷ c.int collateral_sompi
      ∷ c.int (size stack.kcc.prefix)
      ∷ c.int (size stack.kcc.suffix)
      ∷ c.bytes stack.kcc.template_hash
      ∷ c.int (size stack.kps.prefix)
      ∷ c.int (size stack.kps.suffix)
      ∷ c.bytes stack.kps.template_hash
      ∷ c.int (size stack.auction.prefix)
      ∷ c.int (size stack.auction.suffix)
      ∷ c.bytes stack.auction.template_hash
      ∷ []

  unfoldable pub auction_args : (p : ProtocolParams) (stack : ProtocolStack) → List c.Expr
  auction_args p stack =
      c.bytes p.owner
      ∷ c.bytes p.challenger
      ∷ c.bytes p.position_id
      ∷ c.bytes p.asset_id
      ∷ c.int p.debt
      ∷ c.int p.assigned_reserve
      ∷ c.bytes p.reserve_id
      ∷ c.int p.liquidation_price
      ∷ c.int p.challenge_reward_ppm
      ∷ c.int p.auction_duration_daa
      ∷ c.int p.collateral_sompi
      ∷ c.int (size stack.kcc.prefix)
      ∷ c.int (size stack.kcc.suffix)
      ∷ c.bytes stack.kcc.template_hash
      ∷ c.int (size stack.reserve.prefix)
      ∷ c.int (size stack.reserve.suffix)
      ∷ c.bytes stack.reserve.template_hash
      ∷ []

  unfoldable pub challenge_args : (p : ProtocolParams) (stack : ProtocolStack) → List c.Expr
  challenge_args p stack =
      c.bytes p.owner
      ∷ c.bytes p.challenger
      ∷ c.bytes p.position_id
      ∷ c.bytes p.asset_id
      ∷ c.int p.debt
      ∷ c.int p.assigned_reserve
      ∷ c.bytes p.reserve_id
      ∷ c.int p.liquidation_price
      ∷ c.int p.challenge_reward_ppm
      ∷ c.int p.challenge_period_daa
      ∷ c.int p.auction_duration_daa
      ∷ c.int p.collateral_sompi
      ∷ c.int (size stack.kcc.prefix)
      ∷ c.int (size stack.kcc.suffix)
      ∷ c.bytes stack.kcc.template_hash
      ∷ c.dynamic_bytes stack.auction.prefix
      ∷ c.dynamic_bytes stack.auction.suffix
      ∷ c.bytes stack.auction.template_hash
      ∷ []

  unfoldable pub anchor_args : (p : ProtocolParams) (stack : ProtocolStack) → List c.Expr
  anchor_args p stack =
      truncate 15 (challenge_args p stack)
      ++ (c.dynamic_bytes stack.challenge.prefix
          ∷ c.dynamic_bytes stack.challenge.suffix
          ∷ c.bytes stack.challenge.template_hash
          ∷ [])

  unfoldable pub position_args :
      (p : ProtocolParams) (stack : ProtocolStack) (challenge_id : Bytes) → List c.Expr
  position_args p stack challenge_id =
      c.bytes p.owner
      ∷ c.bytes p.asset_id
      ∷ c.int p.debt
      ∷ c.int p.assigned_reserve
      ∷ c.bytes p.reserve_id
      ∷ c.int p.reserve_contribution_ppm
      ∷ c.int p.liquidation_price
      ∷ c.int p.challenge_period_daa
      ∷ c.int p.auction_duration_daa
      ∷ c.int p.challenge_reward_ppm
      ∷ c.bytes challenge_id
      ∷ c.int (size stack.kcc.prefix)
      ∷ c.int (size stack.kcc.suffix)
      ∷ c.bytes stack.kcc.template_hash
      ∷ c.int (size stack.position.prefix)
      ∷ c.int (size stack.position.suffix)
      ∷ c.bytes stack.position.template_hash
      ∷ c.dynamic_bytes stack.anchor.prefix
      ∷ c.dynamic_bytes stack.anchor.suffix
      ∷ c.bytes stack.anchor.template_hash
      ∷ c.dynamic_bytes stack.challenged_position.prefix
      ∷ c.dynamic_bytes stack.challenged_position.suffix
      ∷ c.bytes stack.challenged_position.template_hash
      ∷ []

  unfoldable pub challenged_position_args :
      (p : ProtocolParams) (stack : ProtocolStack) (challenge_id : Bytes) → List c.Expr
  challenged_position_args p stack challenge_id =
      c.bytes p.owner
      ∷ c.bytes p.asset_id
      ∷ c.int p.debt
      ∷ c.int p.assigned_reserve
      ∷ c.bytes p.reserve_id
      ∷ c.int p.reserve_contribution_ppm
      ∷ c.int p.liquidation_price
      ∷ c.int p.challenge_period_daa
      ∷ c.int p.auction_duration_daa
      ∷ c.int p.challenge_reward_ppm
      ∷ c.bytes challenge_id
      ∷ c.int (size stack.kcc.prefix)
      ∷ c.int (size stack.kcc.suffix)
      ∷ c.bytes stack.kcc.template_hash
      ∷ c.int (size stack.position.prefix)
      ∷ c.int (size stack.position.suffix)
      ∷ c.bytes stack.position.template_hash
      ∷ c.int (size stack.challenge.prefix)
      ∷ c.int (size stack.challenge.suffix)
      ∷ c.bytes stack.challenge.template_hash
      ∷ c.int (size stack.auction.prefix)
      ∷ c.int (size stack.auction.suffix)
      ∷ c.bytes stack.auction.template_hash
      ∷ []

  unfoldable pub module_args : (p : ProtocolParams) (stack : ProtocolStack) → List c.Expr
  module_args p stack =
      c.bytes p.asset_id
      ∷ c.int p.module_remaining_mint
      ∷ c.int p.max_debt_per_position
      ∷ c.int p.minimum_collateral_sompi
      ∷ c.int p.liquidation_price
      ∷ c.int p.module_expiration_daa
      ∷ c.int p.challenge_period_daa
      ∷ c.int p.auction_duration_daa
      ∷ c.int p.challenge_reward_ppm
      ∷ c.int p.position_nonce
      ∷ c.bytes p.reserve_id
      ∷ c.int p.reserve_contribution_ppm
      ∷ c.int p.risk_premium_ppm
      ∷ c.int (size stack.kcc.prefix)
      ∷ c.int (size stack.kcc.suffix)
      ∷ c.bytes stack.kcc.template_hash
      ∷ c.bytes stack.position.template_hash
      ∷ []
