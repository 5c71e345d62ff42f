-- ===== src/Indexer/Escrow.antt =====
-- The proposal fee of src/indexer.rs: the governed actions that move it neither mint nor burn KUSD.
use kusd.Base.{
  ℕ, suc, ◌≡◌, inl, inr, refl, sym, ap, ◌∙◌, Bool, true, false, ◌==◌, ◌&&◌, ltb, Option, some,
  Option-cases, List, [], ◌∷◌, ok, arith,
}
use kusd.Int.{
  ℤ, pos, ◌+ℤ◌, IsI64, +ℤ_cancel, +ℤ_assoc, +ℤ_zero, zero_+ℤ, checked_add, checked_add_eq,
}
use kusd.OrderedMap.{values}
use kusd.Indexer.Data.{Entity, Snapshot, Indexer}
use kusd.Indexer.Ledger.{apply}
use kusd.Indexer.Aggregates.{sum, supply_of}
use kusd.Indexer.Manifest.{
  GovernanceAction, ManifestCreated, ManifestTransaction, outputs, created_entities,
}
use kusd.Indexer.Governed.{
  looked_up, count, is_governance, is_token, fold_balance, token_balance, proposal_fee,
  same_balance, is_proposal, is_reserve, is_delegation, is_kps, credits_fee, reserve_balance,
}
use kusd.Indexer.Shapes.{valid_shape, validate_governance_action}
use kusd.Indexer.Consistency.{IsConsistent}
use kusd.Indexer.Conserve.{apply_balances}

fold_balance-sum :
    (es : List Entity) (total t : ℤ)
    → fold_balance total es ≡ some t
    → t ≡ total +ℤ sum supply_of es
unfolding fold_balance
fold_balance-sum [] total t h = ground (arith, +ℤ_zero total)
fold_balance-sum (Entity.token amount false ∷ es) total t h =
    elim (Option-cases (checked_add total amount)) [
      | inl q ↦ absurd (ground arith)
      | inr (next, q) ↦
          fold_balance-sum es next t (ground arith)
          ∙ ap (λ z. z +ℤ sum supply_of es) (checked_add_eq {c = next} total amount q).0
          ∙ +ℤ_assoc total amount (sum supply_of es)
    ]
fold_balance-sum (e ∷ es) total t h =
    fold_balance-sum es total t h ∙ ap (λ z. total +ℤ z) (sym (zero_+ℤ (sum supply_of es)))

token_balance-sum : (es : List Entity) (t : ℤ) → token_balance es ≡ some t → sum supply_of es ≡ t
token_balance-sum es t h = sym (fold_balance-sum es (pos 0) t h ∙ zero_+ℤ (sum supply_of es))

-- Equal balances that are there are equal sums.
balanced :
    (es fs : List Entity) (t : ℤ)
    → token_balance es ≡ some t
    → token_balance fs ≡ some t
    → sum supply_of es ≡ sum supply_of fs
balanced es fs t h k = token_balance-sum es t h ∙ sym (token_balance-sum fs t k)

governance-fee :
    (es : List Entity) (n : ℕ)
    → count es is_governance ≡ suc n
    → (fee : ℤ) × (proposal_fee es ≡ some fee)
unfolding count proposal_fee
governance-fee [] n h = absurd (omega (arith, h))
governance-fee (Entity.governance g ∷ es) n h = (g.proposal_fee_kusd, refl)
governance-fee (e ∷ es) n h = governance-fee es n h

-- The token amounts are `i64`, as the type of the field has it.
abbrev pub Fits : Entity → Type 0
Fits (Entity.token amount is_minter) = IsI64 amount
Fits _ = Unit

abbrev pub AllFit : List Entity → Type 0
AllFit [] = Unit
AllFit (e ∷ es) = Fits e × AllFit es

no_token : (es : List Entity) (t : ℤ) → count es is_token ≡ 0 → fold_balance t es ≡ some t
unfolding count fold_balance
no_token [] t h = refl
no_token (Entity.token amount is_minter ∷ es) t h = absurd (omega (arith, h))
no_token (e ∷ es) t h = no_token es t h

one_token :
    (es : List Entity) → count es is_token ≡ 1 → AllFit es → (t : ℤ) × (token_balance es ≡ some t)
unfolding count fold_balance checked_add
one_token [] h fits = absurd (omega (arith, h))
one_token (Entity.token amount true ∷ es) h fits = (pos 0, no_token es (pos 0) (omega (arith, h)))
one_token (Entity.token amount false ∷ es) h fits =
    (amount, ground (arith, no_token es amount, zero_+ℤ amount, fits.0, h))
one_token (e ∷ es) h fits = one_token es h fits.1

-- The actions that move the fee: it goes into escrow, back, or to the Reserve.
abbrev pub MovesFee : GovernanceAction → Type 0
MovesFee GovernanceAction.propose_module = Unit
MovesFee GovernanceAction.execute_module = Unit
MovesFee GovernanceAction.veto_proposal = Unit
MovesFee GovernanceAction.cancel_expired_proposal = Unit
MovesFee _ = ⊥

-- The conjuncts that a proof reads, with the tests as variables.
execute_tests :
    (a b c d e f g i j k l : Bool)
    → (a && b && c && d && e && f && g && i && j && k && l) ≡ true
    → (a ≡ true) × (k ≡ true) × (l ≡ true)
execute_tests a b c d e f g i j k l h = ground arith

cancel_tests :
    (a b c d e f g i : Bool)
    → (a && b && c && d && e && f && g && i) ≡ true
    → (a ≡ true) × (g ≡ true) × (i ≡ true)
cancel_tests a b c d e f g i h = ground arith

one : (n : ℕ) → (n == 1) ≡ true → n ≡ 1
one n h = ground arith

veto_tests :
    (a b c d e f g i j k l n : Bool)
    → (a && b && c && d && e && f && g && i && j && k && l && n) ≡ true
    → (c ≡ true) × (j ≡ true) × (k ≡ true) × (l ≡ true) × (n ≡ true)
veto_tests a b c d e f g i j k l n h = ground arith

-- What a veto's shape says of the Reserve and of the tokens.
pub record VetoShape (consumed created : List Entity) : Type 0 where
  pub reserve_in : count consumed is_reserve ≡ 1
  pub reserve_out : count created is_reserve ≡ 1
  pub token_out : count created is_token ≡ 1
  pub credits :
      credits_fee (reserve_balance consumed) (reserve_balance created) (proposal_fee consumed)
      ≡ true
  pub balances : same_balance (token_balance consumed) (token_balance created) ≡ true

pub veto-VetoShape :
    (consumed created : List Entity)
    → valid_shape GovernanceAction.veto_proposal consumed created ≡ true
    → VetoShape consumed created
unfolding valid_shape
veto-VetoShape consumed created h =
    let (a, b, x, y, z) =
      veto_tests (count consumed is_governance == 1) (count consumed is_proposal == 1)
        (count consumed is_reserve == 1) (count consumed is_token == 2)
        (ltb 0 (count consumed is_delegation))
        (count consumed is_delegation == count created is_delegation)
        (count consumed is_kps == count created is_kps) (count created is_governance == 1)
        (count created is_reserve == 1) (count created is_token == 1)
        (credits_fee (reserve_balance consumed) (reserve_balance created) (proposal_fee consumed))
        (same_balance (token_balance consumed) (token_balance created)) h in
    record {
      reserve_in = one (count consumed is_reserve) a;
      reserve_out = one (count created is_reserve) b;
      token_out = one (count created is_token) x;
      credits = y;
      balances = z;
    }

same_balance-eq : (a b : Option ℤ) (fee : ℤ) → same_balance a b ≡ true → b ≡ some fee → a ≡ some fee
same_balance-eq a b fee h e = ground arith

shape-sum :
    (action : GovernanceAction) (consumed created : List Entity)
    → MovesFee action
    → AllFit created
    → valid_shape action consumed created ≡ true
    → sum supply_of consumed ≡ sum supply_of created
unfolding valid_shape
shape-sum GovernanceAction.propose_module consumed created m fits h =
    elim (Option-cases (token_balance consumed)) [
      | inl q ↦ absurd (ground (arith))
      | inr (t, q) ↦ balanced consumed created t q (ground arith)
    ]
shape-sum GovernanceAction.execute_module consumed created m fits h =
    let (x, y, z) = execute_tests _ _ _ _ _ _ _ _ _ _ _ h in
    let (fee, q) = governance-fee consumed 0 (one (count consumed is_governance) x) in
    balanced consumed created fee
      (same_balance-eq (token_balance consumed) (proposal_fee consumed) fee y q)
      (same_balance-eq (token_balance created) (proposal_fee consumed) fee z q)
shape-sum GovernanceAction.cancel_expired_proposal consumed created m fits h =
    let (x, y, z) = cancel_tests _ _ _ _ _ _ _ _ h in
    let (fee, q) = governance-fee consumed 0 (one (count consumed is_governance) x) in
    balanced consumed created fee
      (same_balance-eq (token_balance consumed) (proposal_fee consumed) fee y q)
      (same_balance-eq (token_balance created) (proposal_fee consumed) fee z q)
shape-sum GovernanceAction.veto_proposal consumed created m fits h =
    let v = veto-VetoShape consumed created h in
    let (t, q) = one_token created v.token_out fits in
    balanced consumed created t
      (same_balance-eq (token_balance consumed) (token_balance created) t v.balances q) q
shape-sum _ consumed created m fits h = absurd m

pub validated :
    (tx : ManifestTransaction) (action : GovernanceAction) (s : Snapshot)
    → tx.governance_action ≡ some action
    → validate_governance_action tx s ≡ ok tt
    → valid_shape action (looked_up tx.consumed s.entities) (created_entities tx.created) ≡ true
unfolding validate_governance_action
validated tx action s e h = ground arith

pub outputs-values : (cs : List ManifestCreated) → values (outputs cs) ≡ created_entities cs
outputs-values [] = refl
outputs-values (c ∷ cs) = ap (λ es. c.entity ∷ es) (outputs-values cs)

-- A proposal, execution, veto or cancellation that passes the validation and is applied to an
-- indexer with a consistent snapshot neither mints nor burns KUSD, where the token amounts it
-- creates are `i64`: the circulating supply stays.
pub governed_action_keeps_supply :
    (tx : ManifestTransaction) (action : GovernanceAction) (ix ix' : Indexer)
    → tx.governance_action ≡ some action
    → MovesFee action
    → AllFit (created_entities tx.created)
    → IsConsistent ix.snapshot
    → validate_governance_action tx ix.snapshot ≡ ok tt
    → apply tx.transaction_id tx.consumed (outputs tx.created) ix ≡ (ok tt, ix')
    → ix'.snapshot.circulating_supply ≡ ix.snapshot.circulating_supply
governed_action_keeps_supply tx action ix ix' e m fits c v h =
    let held = looked_up tx.consumed ix.snapshot.entities in
    let same =
      shape-sum action held (created_entities tx.created) m fits
        (validated tx action ix.snapshot e v) in
    let b = (apply_balances tx.transaction_id tx.consumed (outputs tx.created) ix ix' c h).0 in
    +ℤ_cancel (sum supply_of held) ix'.snapshot.circulating_supply ix.snapshot.circulating_supply (
      b
      ∙ ap (λ es. sum supply_of es +ℤ ix.snapshot.circulating_supply) (outputs-values tx.created)
      ∙ ap (λ z. z +ℤ ix.snapshot.circulating_supply) (sym same))
