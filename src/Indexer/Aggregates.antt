-- ===== src/Indexer/Aggregates.antt =====
-- What the aggregates of src/indexer.rs mean: sums and counts over the entities, stated without the
-- loop of `recalculate`.
use kusd.Base.{
  ◌≡◌, sym, ap, ◌∙◌, false, List, [], ◌∷◌, ok, Option-cases, Result-cases, inl, inr, arith,
}
use kusd.Int.{ℤ, pos, ◌+ℤ◌, ◌*ℤ◌, +ℤ_assoc, +ℤ_zero, checked_add_eq, checked_mul, checked_mul_eq}
use kusd.Indexer.Data.{Entity}
use kusd.Indexer.Recalculate.{Totals, tally, scan}

-- What an entity adds to each aggregate.
abbrev pub supply_of : Entity → ℤ
supply_of (Entity.token amount false) = amount
supply_of _ = pos 0

abbrev pub debt_of : Entity → ℤ
debt_of (Entity.position collateral debt challenge) = debt
debt_of (Entity.challenged_position collateral debt challenge) = debt
debt_of _ = pos 0

abbrev pub kps_of : Entity → ℤ
kps_of (Entity.equity_token amount false) = amount
kps_of _ = pos 0

abbrev pub allocation_of : Entity → ℤ
allocation_of (Entity.module_proposal p) = p.allocation
allocation_of _ = pos 0

abbrev pub delegated_of : Entity → ℤ
delegated_of (Entity.kps_delegation owner delegate amount weight) = amount
delegated_of _ = pos 0

abbrev pub votes_of : Entity → ℤ
votes_of (Entity.kps_delegation owner delegate amount weight) = amount *ℤ weight
votes_of _ = pos 0

abbrev pub saved_of : Entity → ℤ
saved_of (Entity.savings_account a) = a.saved
saved_of _ = pos 0

abbrev pub sum {ℓ} : {A : Type ℓ} → (A → ℤ) → List A → ℤ
sum f [] = pos 0
sum f (x ∷ xs) = f x +ℤ sum f xs

module _ (field : Totals → ℤ) (part : Entity → ℤ)
    (law : (t t' : Totals) (e : Entity) → tally t e ≡ ok t' → field t' ≡ field t +ℤ part e) where
  pub scan-sum :
      (es : List Entity) (t t' : Totals) → scan t es ≡ ok t' → field t' ≡ field t +ℤ sum part es
  unfolding scan
  scan-sum [] t t' h = let same : t' ≡ t = ground arith in ap field same ∙ sym (+ℤ_zero (field t))
  scan-sum (e ∷ es) t t' h = elim (Result-cases (tally t e)) [
    | inr (x, q) ↦ absurd (ground arith)
    | inl (next, q) ↦
        scan-sum es next t' (ground arith)
        ∙ ap (λ z. z +ℤ sum part es) (law t next e q)
        ∙ +ℤ_assoc (field t) (part e) (sum part es)
  ]

pub supply_law :
    (t t' : Totals) (e : Entity) → tally t e ≡ ok t' → t'.supply ≡ t.supply +ℤ supply_of e
unfolding tally
supply_law t t' (Entity.token amount false) h =
    ground (arith, checked_add_eq {c = t'.supply} t.supply amount)
supply_law t t' _ h = ground (arith, +ℤ_zero t.supply)

pub debt_law : (t t' : Totals) (e : Entity) → tally t e ≡ ok t' → t'.debt ≡ t.debt +ℤ debt_of e
unfolding tally
debt_law t t' (Entity.position collateral debt challenge) h =
    ground (arith, checked_add_eq {c = t'.debt} t.debt debt)
debt_law t t' (Entity.challenged_position collateral debt challenge) h =
    ground (arith, checked_add_eq {c = t'.debt} t.debt debt)
debt_law t t' _ h = ground (arith, +ℤ_zero t.debt)

pub kps_law :
    (t t' : Totals) (e : Entity) → tally t e ≡ ok t' → t'.kps_supply ≡ t.kps_supply +ℤ kps_of e
unfolding tally
kps_law t t' (Entity.equity_token amount false) h =
    ground (arith, checked_add_eq {c = t'.kps_supply} t.kps_supply amount)
kps_law t t' _ h = ground (arith, +ℤ_zero t.kps_supply)

pub allocation_law :
    (t t' : Totals) (e : Entity)
    → tally t e ≡ ok t'
    → t'.proposed_module_allocation ≡ t.proposed_module_allocation +ℤ allocation_of e
unfolding tally
allocation_law t t' (Entity.module_proposal p) h = ground (
  arith,
  checked_add_eq {c = t'.proposed_module_allocation} t.proposed_module_allocation p.allocation,
)
allocation_law t t' _ h = ground (arith, +ℤ_zero t.proposed_module_allocation)

pub delegated_law :
    (t t' : Totals) (e : Entity)
    → tally t e ≡ ok t'
    → t'.delegated_kps ≡ t.delegated_kps +ℤ delegated_of e
unfolding tally
delegated_law t t' (Entity.kps_delegation owner delegate amount weight) h =
    ground (arith, checked_add_eq {c = t'.delegated_kps} t.delegated_kps amount)
delegated_law t t' _ h = ground (arith, +ℤ_zero t.delegated_kps)

pub votes_law :
    (t t' : Totals) (e : Entity)
    → tally t e ≡ ok t'
    → t'.weighted_kps_votes ≡ t.weighted_kps_votes +ℤ votes_of e
unfolding tally
votes_law t t' (Entity.kps_delegation owner delegate amount weight) h =
    elim (Option-cases (checked_mul amount weight)) [
      | inl q ↦ absurd (ground arith)
      | inr (votes, q) ↦ ground (
        arith,
        checked_mul_eq {c = votes} amount weight,
        checked_add_eq {c = t'.weighted_kps_votes} t.weighted_kps_votes votes,
      )
    ]
votes_law t t' _ h = ground (arith, +ℤ_zero t.weighted_kps_votes)

pub saved_law :
    (t t' : Totals) (e : Entity)
    → tally t e ≡ ok t'
    → t'.savings_balance ≡ t.savings_balance +ℤ saved_of e
unfolding tally
saved_law t t' (Entity.savings_account a) h =
    ground (arith, checked_add_eq {c = t'.savings_balance} t.savings_balance a.saved)
saved_law t t' _ h = ground (arith, +ℤ_zero t.savings_balance)
