-- ===== src/Indexer/Counts.antt =====
-- The counters of `recalculate` in src/indexer.rs, and the entities of which there is one at most.
use native.Mathlib.Nat.{add_assoc}
use mathlib.Core.List.{append_assoc, append-nil}
use kusd.Base.{
  ℕ, ◌+◌, ◌≡◌, sym, ap, ◌∙◌, Bool, Option, none, some, List, [], ◌∷◌, ◌++◌, ok, Result-cases, inl,
  inr, arith, if◌then◌else◌,
}
use kusd.Int.{ℤ, checked_add_u64}
use kusd.Indexer.Data.{Entity}
use kusd.Indexer.Recalculate.{Totals, tally, scan}

abbrev pub challenged_of : Entity → ℕ
challenged_of (Entity.challenged_position collateral debt challenge) = 1
challenged_of _ = 0

abbrev pub challenge_of : Entity → ℕ
challenge_of (Entity.challenge collateral debt) = 1
challenge_of _ = 0

abbrev pub auction_of : Entity → ℕ
auction_of (Entity.auction collateral debt reward) = 1
auction_of _ = 0

abbrev pub account_of : Entity → ℕ
account_of (Entity.savings_account a) = 1
account_of _ = 0

abbrev pub activated_of : Entity → ℕ
activated_of (Entity.module_proposal p) = if p.activated then 1 else 0
activated_of _ = 0

abbrev pub count_of {ℓ} : {A : Type ℓ} → (A → ℕ) → List A → ℕ
count_of f [] = 0
count_of f (x ∷ xs) = f x + count_of f xs

-- The Reserve and the controller of an entity, as lists of at most one.
abbrev pub reserve_of : Entity → List (ℤ × ℤ × ℕ)
reserve_of (Entity.reserve kusd kps collateral) = (kusd, kps, collateral) ∷ []
reserve_of _ = []

abbrev pub controller_of : Entity → List (Bool × ℤ × ℤ)
controller_of (Entity.savings_controller c) = (c.enabled, c.total_saved, c.current_rate_ppm) ∷ []
controller_of _ = []

abbrev pub collect {ℓ κ} : {A : Type ℓ} {B : Type κ} → (A → List B) → List A → List B
collect f [] = []
collect f (x ∷ xs) = f x ++ collect f xs

abbrev pub to_list {ℓ} : {A : Type ℓ} → Option A → List A
to_list none = []
to_list (some a) = a ∷ []

module _ (field : Totals → ℕ) (part : Entity → ℕ)
    (law : (t t' : Totals) (e : Entity) → tally t e ≡ ok t' → field t' ≡ field t + part e) where
  pub scan-count :
      (es : List Entity) (t t' : Totals) → scan t es ≡ ok t' → field t' ≡ field t + count_of part es
  unfolding scan
  scan-count [] t t' h = let same : t' ≡ t = ground arith in ap field same ∙ omega arith
  scan-count (e ∷ es) t t' h = elim (Result-cases (tally t e)) [
    | inr (x, q) ↦ absurd (ground arith)
    | inl (next, q) ↦
        scan-count es next t' (ground arith)
        ∙ ap (λ z. z + count_of part es) (law t next e q)
        ∙ add_assoc (field t) (part e) (count_of part es)
  ]

module _ {B : Type 0} (field : Totals → Option B) (part : Entity → List B)
    (law : (t t' : Totals) (e : Entity)
      → tally t e ≡ ok t'
      → to_list (field t') ≡ to_list (field t) ++ part e) where
  pub scan-collect :
      (es : List Entity) (t t' : Totals)
      → scan t es ≡ ok t'
      → to_list (field t') ≡ to_list (field t) ++ collect part es
  unfolding scan
  scan-collect [] t t' h =
      let same : t' ≡ t = ground arith in
      ap (λ x. to_list (field x)) same ∙ sym (append-nil (to_list (field t)))
  scan-collect (e ∷ es) t t' h = elim (Result-cases (tally t e)) [
    | inr (x, q) ↦ absurd (ground arith)
    | inl (next, q) ↦
        scan-collect es next t' (ground arith)
        ∙ ap (λ z. z ++ collect part es) (law t next e q)
        ∙ append_assoc (to_list (field t)) (part e) (collect part es)
  ]

pub challenged_law :
    (t t' : Totals) (e : Entity)
    → tally t e ≡ ok t'
    → t'.challenged_positions ≡ t.challenged_positions + challenged_of e
unfolding tally checked_add_u64
challenged_law t t' (Entity.challenged_position collateral debt challenge) h = ground arith
challenged_law t t' _ h = ground arith

pub challenge_law :
    (t t' : Totals) (e : Entity)
    → tally t e ≡ ok t'
    → t'.active_challenges ≡ t.active_challenges + challenge_of e
unfolding tally checked_add_u64
challenge_law t t' (Entity.challenge collateral debt) h = ground arith
challenge_law t t' _ h = ground arith

pub auction_law :
    (t t' : Totals) (e : Entity)
    → tally t e ≡ ok t'
    → t'.active_auctions ≡ t.active_auctions + auction_of e
unfolding tally checked_add_u64
auction_law t t' (Entity.auction collateral debt reward) h = ground arith
auction_law t t' _ h = ground arith

pub account_law :
    (t t' : Totals) (e : Entity)
    → tally t e ≡ ok t'
    → t'.savings_accounts ≡ t.savings_accounts + account_of e
unfolding tally checked_add_u64
account_law t t' (Entity.savings_account a) h = ground arith
account_law t t' _ h = ground arith

pub activated_law :
    (t t' : Totals) (e : Entity)
    → tally t e ≡ ok t'
    → t'.active_governance_proposals ≡ t.active_governance_proposals + activated_of e
unfolding tally checked_add_u64
activated_law t t' (Entity.module_proposal p) h = ground arith
activated_law t t' _ h = ground arith

pub reserve_law :
    (t t' : Totals) (e : Entity)
    → tally t e ≡ ok t'
    → to_list t'.reserve ≡ to_list t.reserve ++ reserve_of e
unfolding tally
reserve_law t t' (Entity.reserve kusd kps collateral) h = ground arith
reserve_law t t' _ h =
    let same : t'.reserve ≡ t.reserve = ground arith in
    ap to_list same ∙ sym (append-nil (to_list t.reserve))

pub controller_law :
    (t t' : Totals) (e : Entity)
    → tally t e ≡ ok t'
    → to_list t'.savings_controller ≡ to_list t.savings_controller ++ controller_of e
unfolding tally
controller_law t t' (Entity.savings_controller c) h = ground arith
controller_law t t' _ h =
    let same : t'.savings_controller ≡ t.savings_controller = ground arith in
    ap to_list same ∙ sym (append-nil (to_list t.savings_controller))
