-- ===== src/Indexer/Veto.antt =====
-- A veto in src/indexer.rs pays the proposal fee to the Reserve.
use kusd.Base.{
  ℕ, ◌≡◌, refl, sym, ap, ◌∙◌, true, Option, none, some, Option-cases, inl, inr, List, [], ◌∷◌, ok,
  arith,
}
use kusd.Int.{
  ℤ, pos, ◌+ℤ◌, ◌≤ℤ◌, +ℤ_assoc, +ℤ_comm, +ℤ_zero, zero_+ℤ, +ℤ_cancel, checked_add, checked_add_eq,
}
use kusd.OrderedMap.{values}
use kusd.Indexer.Data.{Entity, Snapshot, Indexer}
use kusd.Indexer.Recalculate.{reserve_or_default}
use kusd.Indexer.Ledger.{apply}
use kusd.Indexer.Aggregates.{sum}
use kusd.Indexer.Counts.{collect, to_list, reserve_of}
use kusd.Indexer.Refinement.{Summary}
use kusd.Indexer.Consistency.{IsConsistent}
use kusd.Indexer.RoundTrip.{apply-Undoable}
use kusd.Indexer.Conserve.{balance, IsConsistent-Summary}
use kusd.Indexer.Manifest.{GovernanceAction, ManifestTransaction, outputs, created_entities}
use kusd.Indexer.Governed.{looked_up, count, is_reserve, reserve_balance, proposal_fee, credits_fee}
use kusd.Indexer.Shapes.{validate_governance_action}
use kusd.Indexer.Escrow.{veto-VetoShape, validated, outputs-values}

abbrev pub reserve_kusd_of : Entity → ℤ
reserve_kusd_of (Entity.reserve kusd total_kps collateral) = kusd
reserve_kusd_of _ = pos 0

-- The KUSD of the reserves that were collected.
sum-collect :
    (es : List Entity)
    → sum (λ (r : ℤ × ℤ × ℕ). r.0) (collect reserve_of es) ≡ sum reserve_kusd_of es
sum-collect [] = refl
sum-collect (Entity.reserve kusd total_kps collateral ∷ es) = ap (λ z. kusd +ℤ z) (sum-collect es)
sum-collect (e ∷ es) = sum-collect es ∙ sym (zero_+ℤ (sum reserve_kusd_of es))

default-sum :
    (o : Option (ℤ × ℤ × ℕ)) → (reserve_or_default o).0 ≡ sum (λ (r : ℤ × ℤ × ℕ). r.0) (to_list o)
default-sum none = refl
default-sum (some r) = sym (+ℤ_zero r.0)

Summary-reserve_kusd :
    (es : List Entity) (s : Snapshot) → Summary es s → s.reserve_kusd ≡ sum reserve_kusd_of es
Summary-reserve_kusd es s k =
    k.reserve_fields.0
    ∙ default-sum k.reserve
    ∙ ap (sum (λ (r : ℤ × ℤ × ℕ). r.0)) (sym k.one_reserve)
    ∙ sum-collect es

no_reserve : (es : List Entity) → count es is_reserve ≡ 0 → sum reserve_kusd_of es ≡ pos 0
unfolding count
no_reserve [] h = refl
no_reserve (Entity.reserve kusd total_kps collateral ∷ es) h = absurd (omega (arith, h))
no_reserve (e ∷ es) h = zero_+ℤ (sum reserve_kusd_of es) ∙ no_reserve es h

one_reserve :
    (es : List Entity) (b : ℤ)
    → count es is_reserve ≡ 1
    → reserve_balance es ≡ some b
    → sum reserve_kusd_of es ≡ b
unfolding count reserve_balance
one_reserve [] b h e = absurd (omega (arith, h))
one_reserve (Entity.reserve kusd total_kps collateral ∷ es) b h e =
    ap (λ z. kusd +ℤ z) (no_reserve es (omega (arith, h))) ∙ +ℤ_zero kusd ∙ ground (arith, e)
one_reserve (e ∷ es) b h k = zero_+ℤ (sum reserve_kusd_of es) ∙ one_reserve es b h k

record Credits (a b f : Option ℤ) : Type 0 where
  before : ℤ
  after : ℤ
  fee : ℤ
  had : a ≡ some before
  has : b ≡ some after
  paid : f ≡ some fee
  positive : pos 1 ≤ℤ fee
  sum_is : after ≡ before +ℤ fee

credits_fee-Credits : (a b f : Option ℤ) → credits_fee a b f ≡ true → Credits a b f
credits_fee-Credits (some before) (some after) (some fee) h =
    elim (Option-cases (checked_add before fee)) [
      | inl q ↦ absurd (ground arith)
      | inr (c, q) ↦ record {
        before = before;
        after = after;
        fee = fee;
        had = refl;
        has = refl;
        paid = refl;
        positive = ground arith;
        sum_is = ground (arith, checked_add_eq {c = c} before fee);
      }
    ]
credits_fee-Credits (some before) (some after) none h = absurd (ground arith)
credits_fee-Credits (some before) none f h = absurd (ground arith)
credits_fee-Credits none b f h = absurd (ground arith)

-- A veto that passes the validation and is applied to an indexer with a consistent snapshot pays the
-- fee of the Governance to the Reserve: the consumed Governance has a positive fee, and the
-- snapshot's Reserve has that much more KUSD after.
pub veto_pays_reserve :
    (tx : ManifestTransaction) (ix ix' : Indexer)
    → tx.governance_action ≡ some GovernanceAction.veto_proposal
    → IsConsistent ix.snapshot
    → validate_governance_action tx ix.snapshot ≡ ok tt
    → apply tx.transaction_id tx.consumed (outputs tx.created) ix ≡ (ok tt, ix')
    → (fee : ℤ) × (proposal_fee (looked_up tx.consumed ix.snapshot.entities) ≡ some fee)
      × (pos 1 ≤ℤ fee)
      × (ix'.snapshot.reserve_kusd ≡ ix.snapshot.reserve_kusd +ℤ fee)
veto_pays_reserve tx ix ix' e c v h =
    let held = looked_up tx.consumed ix.snapshot.entities in
    let made = created_entities tx.created in
    let shape =
      veto-VetoShape held made (validated tx GovernanceAction.veto_proposal ix.snapshot e v) in
    let k =
      credits_fee-Credits (reserve_balance held) (reserve_balance made) (proposal_fee held)
        shape.credits in
    let b =
      Summary-reserve_kusd (values ix.snapshot.entities) ix.snapshot
        (IsConsistent-Summary ix.snapshot c) in
    let a = Summary-reserve_kusd (values ix'.snapshot.entities) ix'.snapshot (
      IsConsistent-Summary ix'.snapshot
        (apply-Undoable tx.transaction_id tx.consumed (outputs tx.created) ix ix' c
          h).consistent) in
    let before = one_reserve held k.before shape.reserve_in k.had in
    let after = one_reserve made k.after shape.reserve_out k.has in
    let moved =
      balance reserve_kusd_of tx.transaction_id tx.consumed (outputs tx.created) ix ix' c h in
    (
      k.fee,
      k.paid,
      k.positive,
      +ℤ_cancel k.before ix'.snapshot.reserve_kusd (ix.snapshot.reserve_kusd +ℤ k.fee) (
          ap (λ z. k.before +ℤ z) a
          ∙ ap (λ z. z +ℤ sum reserve_kusd_of (values ix'.snapshot.entities)) (sym before)
          ∙ moved
          ∙ ap (λ es. sum reserve_kusd_of es +ℤ sum reserve_kusd_of (values ix.snapshot.entities))
              (outputs-values tx.created)
          ∙ ap (λ z. z +ℤ sum reserve_kusd_of (values ix.snapshot.entities)) (after ∙ k.sum_is)
          ∙ ap (λ z. k.before +ℤ k.fee +ℤ z) (sym b)
          ∙ +ℤ_assoc k.before k.fee ix.snapshot.reserve_kusd
          ∙ ap (λ z. k.before +ℤ z) (+ℤ_comm k.fee ix.snapshot.reserve_kusd)),
    )
