-- ===== src/Protocol/Opened.antt =====
-- What opening a Position in src/protocol.rs mints.
use kusd.Base.{
  ◌≡◌, subst, not, ◌||◌, Option-cases, inl, inr, Result, ok, err, ok_or, and_then, map_err, bind-ok,
  ok_inj, reject_if, reject_if-ok, arith,
}
use kusd.Int.{
  ℤ, pos, ◌+ℤ◌, ◌-ℤ◌, ◌≤ℤ◌, leb_ℤ, eqb_ℤ, IsI64, wrap_i64, checked_sub, checked_sub_eq, eq_of_parts,
  +ℤ_parts, -ℤ_parts,
}
use kusd.Order.{Text, text}
use kusd.Fees.{MintTerms, quote}
use kusd.Fees.Split.{quote_splits}
use kusd.Equity.MulDiv.{IsFloor}
use kusd.Protocol.{ProtocolParams}
use kusd.Protocol.Validate.{Error}
use kusd.Protocol.Opening.{OpenTerms, open_terms}

abbrev terms_of : ProtocolParams → MintTerms
terms_of p = record {
  reserve_contribution_ppm = p.reserve_contribution_ppm;
  annual_interest_ppm = p.risk_premium_ppm;
  daa_per_year = p.daa_per_year;
}

map_err-ok :
    {E F : Type 0} {A : Type 0} (f : E → F) (r : Result E A) {a : A} → map_err f r ≡ ok a → r ≡ ok a
map_err-ok f (ok x) h = ground (arith, h)
map_err-ok f (err e) h = absurd (ground (arith, h))

usable_eq :
    (debt a f : ℤ) (e : Error) {u : ℤ}
    → ok_or (and_then (checked_sub debt a) (λ value. checked_sub value f)) e ≡ ok u
    → u ≡ debt -ℤ a -ℤ f
usable_eq debt a f e {u} h = elim (Option-cases (checked_sub debt a)) [
  | inl gone ↦ absurd (ground (arith, h))
  | inr (v, p) ↦ elim (Option-cases (checked_sub v f)) [
    | inl gone ↦ absurd (ground (arith, h))
    | inr (w, q) ↦ ground (arith, h, (checked_sub_eq debt a p).0, (checked_sub_eq v f q).0)
  ]
]

parts_add : (d a f u : ℤ) → u ≡ d -ℤ a -ℤ f → u +ℤ a +ℤ f ≡ d
parts_add d a f u h = ground (
  arith,
  h,
  -ℤ_parts d a,
  -ℤ_parts (d -ℤ a) f,
  +ℤ_parts u a,
  +ℤ_parts (u +ℤ a) f,
  eq_of_parts (u +ℤ a +ℤ f) d,
)

-- A Position that is opened splits its debt without loss: what the owner can use, the contribution and
-- the fee add up to the debt. The owner has at least one atom. The contribution is the declared
-- assigned reserve, and that is the rate's part of the debt, rounded down.
pub open_splits :
    (incompatible : Text) (p : ProtocolParams) (terms : OpenTerms)
    → IsI64 p.debt
    → open_terms incompatible p ≡ ok terms
    → (terms.usable +ℤ terms.contribution +ℤ terms.fee ≡ p.debt)
      × (pos 1 ≤ℤ terms.usable)
      × (terms.contribution ≡ p.assigned_reserve)
      × IsFloor p.debt p.reserve_contribution_ppm (pos 1000000) p.assigned_reserve
unfolding open_terms
open_splits incompatible p terms range h =
    let lifetime = wrap_i64 (p.module_expiration_daa -ℤ p.current_daa) in
    bind-ok (map_err Error.mint_quote (quote (terms_of p) p.debt lifetime)) h λ q e h1.
      let quoted =
        quote_splits (terms_of p) p.debt lifetime q range
          (map_err-ok Error.mint_quote (quote (terms_of p) p.debt lifetime) e) in
      bind-ok
        (ok_or
          (and_then (checked_sub p.debt q.assigned_reserve_kusd)
            (λ value. checked_sub value q.equity_fee_kusd))
          (Error.refused (text "underflow mint utilisable")))
        h1
        λ usable f h2.
          bind-ok
            (reject_if
              (not (eqb_ℤ q.assigned_reserve_kusd p.assigned_reserve) || leb_ℤ usable (pos 0))
              (Error.refused incompatible))
            h2
            λ _ g h3.
              let kept =
                reject_if-ok
                  (not (eqb_ℤ q.assigned_reserve_kusd p.assigned_reserve) || leb_ℤ usable (pos 0))
                  (Error.refused incompatible) g in
              let left = usable_eq p.debt q.assigned_reserve_kusd q.equity_fee_kusd _ f in
              let same : q.assigned_reserve_kusd ≡ p.assigned_reserve = ground (arith, kept) in
              subst
                (λ (x : OpenTerms).
                  (x.usable +ℤ x.contribution +ℤ x.fee ≡ p.debt)
                  × (pos 1 ≤ℤ x.usable)
                  × (x.contribution ≡ p.assigned_reserve)
                  × IsFloor p.debt p.reserve_contribution_ppm (pos 1000000) p.assigned_reserve)
                (ok_inj h3)
                (
                  parts_add p.debt q.assigned_reserve_kusd q.equity_fee_kusd usable left,
                  ground (arith, kept),
                  same,
                  subst (IsFloor p.debt p.reserve_contribution_ppm (pos 1000000)) same quoted.2,
                )
