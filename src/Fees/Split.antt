-- ===== src/Fees/Split.antt =====
-- The split of a mint in src/fees.rs loses no atom, and the close burns exactly the debt.
use kusd.Base.{◌+◌, ◌≤◌, ◌<◌, ◌≡◌, ◌≢◌, inl, inr, none, some, Option-cases, and_then, ok, arith}
use kusd.Int.{
  ℤ, pos, pos_part, ◌+ℤ◌, ◌-ℤ◌, ◌≤ℤ◌, IsI64, i64_max, +ℤ_parts, -ℤ_parts, eq_of_parts, checked_add,
  checked_sub, checked_add_eq, checked_sub_eq,
}
use kusd.Equity.MulDiv.{mul_div_floor, IsFloor, IsFloor-mono, mul_div_floor-IsFloor}
use kusd.Fees.{ppm, MintTerms, MintQuote, quote, reserve_credit, close_quote}

-- What a quote satisfies.
pub record Quoted (terms : MintTerms) (gross lifetime : ℤ) (q : MintQuote) : Type 0 where
  pub debt : q.gross_debt ≡ gross
  pub gross_positive : pos 1 ≤ℤ gross
  pub gross_range : pos_part gross ≤ i64_max
  pub user_positive : pos 1 ≤ℤ q.user_kusd
  pub fee_rate : IsFloor terms.annual_interest_ppm lifetime terms.daa_per_year q.current_fee_ppm
  pub rates : pos_part terms.reserve_contribution_ppm + pos_part q.current_fee_ppm < 1000000
  pub assigned : IsFloor gross terms.reserve_contribution_ppm ppm q.assigned_reserve_kusd
  pub fee : IsFloor gross q.current_fee_ppm ppm q.equity_fee_kusd
  pub split :
      pos_part q.user_kusd + pos_part q.assigned_reserve_kusd + pos_part q.equity_fee_kusd
      ≡ pos_part gross

distribution-eq :
    (gross assigned fee user : ℤ)
    → and_then (checked_sub gross assigned) (λ value. checked_sub value fee) ≡ some user
    → user ≡ gross -ℤ assigned -ℤ fee
distribution-eq gross assigned fee user h = elim (Option-cases (checked_sub gross assigned)) [
  | inl e ↦ cc
  | inr (v, e) ↦
      ground (arith, checked_sub_eq {c = v} gross assigned, checked_sub_eq {c = user} v fee)
]

-- The calls on the way to a quote, and their results.
record Calls (terms : MintTerms) (gross lifetime total : ℤ) (q : MintQuote) : Type 0 where
  debt : q.gross_debt ≡ gross
  positive : pos 1 ≤ℤ gross
  rate : mul_div_floor terms.annual_interest_ppm lifetime terms.daa_per_year ≡ ok q.current_fee_ppm
  rates : checked_add terms.reserve_contribution_ppm q.current_fee_ppm ≡ some total
  below : total +ℤ pos 1 ≤ℤ ppm
  assigned : mul_div_floor gross terms.reserve_contribution_ppm ppm ≡ ok q.assigned_reserve_kusd
  fee : mul_div_floor gross q.current_fee_ppm ppm ≡ ok q.equity_fee_kusd
  user :
      and_then
        (checked_sub gross q.assigned_reserve_kusd)
        (λ value. checked_sub value q.equity_fee_kusd)
      ≡ some q.user_kusd
  user_positive : pos 1 ≤ℤ q.user_kusd

quote-Calls :
    (terms : MintTerms) (gross lifetime total : ℤ) (q : MintQuote)
    → checked_add terms.reserve_contribution_ppm q.current_fee_ppm ≡ some total
    → quote terms gross lifetime ≡ ok q
    → Calls terms gross lifetime total q
unfolding quote
quote-Calls terms gross lifetime total q e h = ground (arith, +ℤ_parts total (pos 1))

rates_known :
    (terms : MintTerms) (gross lifetime : ℤ) (q : MintQuote)
    → quote terms gross lifetime ≡ ok q
    → checked_add terms.reserve_contribution_ppm q.current_fee_ppm ≢ none
unfolding quote
rates_known terms gross lifetime q h e = ground arith

pub quote-Quoted :
    (terms : MintTerms) (gross lifetime : ℤ) (q : MintQuote)
    → IsI64 gross
    → quote terms gross lifetime ≡ ok q
    → Quoted terms gross lifetime q
quote-Quoted terms gross lifetime q range h =
    elim (Option-cases (checked_add terms.reserve_contribution_ppm q.current_fee_ppm)) [
      | inl e ↦ absurd (rates_known terms gross lifetime q h e)
      | inr (total, e) ↦
          let c = quote-Calls terms gross lifetime total q e h in
          let rate =
            mul_div_floor-IsFloor terms.annual_interest_ppm lifetime terms.daa_per_year c.rate in
          let assigned =
            mul_div_floor-IsFloor gross terms.reserve_contribution_ppm ppm c.assigned in
          let fee = mul_div_floor-IsFloor gross q.current_fee_ppm ppm c.fee in
          let user =
            distribution-eq gross q.assigned_reserve_kusd q.equity_fee_kusd q.user_kusd c.user in
          let sum = checked_add_eq terms.reserve_contribution_ppm q.current_fee_ppm e in
          record {
            debt = c.debt;
            gross_positive = c.positive;
            gross_range = range.0;
            user_positive = c.user_positive;
            fee_rate = rate;
            rates = ground (
              arith,
              c.below,
              +ℤ_parts total (pos 1),
              +ℤ_parts terms.reserve_contribution_ppm q.current_fee_ppm,
            );
            assigned = assigned;
            fee = fee;
            split = ground (
              arith,
              c.positive,
              c.user_positive,
              -ℤ_parts gross q.assigned_reserve_kusd,
              -ℤ_parts (gross -ℤ q.assigned_reserve_kusd) q.equity_fee_kusd,
            );
          }
    ]

-- A quote of an `i64` debt splits it without loss: the owner's, the assigned and the fee parts add
-- up to the debt. The owner's part is positive, and the other two are the rates' parts of the debt,
-- rounded down.
pub quote_splits :
    (terms : MintTerms) (gross lifetime : ℤ) (q : MintQuote)
    → IsI64 gross
    → quote terms gross lifetime ≡ ok q
    → (q.user_kusd +ℤ q.assigned_reserve_kusd +ℤ q.equity_fee_kusd ≡ gross)
      × (pos 1 ≤ℤ q.user_kusd)
      × IsFloor gross terms.reserve_contribution_ppm ppm q.assigned_reserve_kusd
      × IsFloor gross q.current_fee_ppm ppm q.equity_fee_kusd
quote_splits terms gross lifetime q range h =
    let d = quote-Quoted terms gross lifetime q range h in
    ground (
      arith,
      d.assigned,
      d.fee,
      +ℤ_parts q.user_kusd q.assigned_reserve_kusd,
      +ℤ_parts (q.user_kusd +ℤ q.assigned_reserve_kusd) q.equity_fee_kusd,
      eq_of_parts (q.user_kusd +ℤ q.assigned_reserve_kusd +ℤ q.equity_fee_kusd) gross,
    )

-- Closing a quoted Position succeeds and burns exactly its debt; what the owner burns is what was
-- minted to the owner and the fee, so the fee is not refunded. The credit of the Reserve succeeds
-- too, and is the debt less the owner's part.
pub close_burns_debt :
    (terms : MintTerms) (gross lifetime : ℤ) (q : MintQuote)
    → IsI64 gross
    → quote terms gross lifetime ≡ ok q
    → (close_quote q
        ≡ ok (record {
          user_burn_kusd = q.user_kusd +ℤ q.equity_fee_kusd;
          assigned_reserve_burn_kusd = q.assigned_reserve_kusd;
        }))
      × (q.user_kusd +ℤ q.equity_fee_kusd +ℤ q.assigned_reserve_kusd ≡ gross)
      × (reserve_credit q ≡ ok (gross -ℤ q.user_kusd))
unfolding close_quote reserve_credit checked_sub checked_add
close_burns_debt terms gross lifetime q range h =
    let d = quote-Quoted terms gross lifetime q range h in
    let whole = quote_splits terms gross lifetime q range h in
    ground (
      arith,
      d.assigned,
      d.fee,
      whole.0,
      -ℤ_parts q.gross_debt q.assigned_reserve_kusd,
      -ℤ_parts gross q.user_kusd,
      +ℤ_parts q.assigned_reserve_kusd q.equity_fee_kusd,
      +ℤ_parts q.user_kusd q.equity_fee_kusd,
      +ℤ_parts (q.user_kusd +ℤ q.equity_fee_kusd) q.assigned_reserve_kusd,
      eq_of_parts (q.user_kusd +ℤ q.equity_fee_kusd +ℤ q.assigned_reserve_kusd) gross,
      eq_of_parts (q.user_kusd +ℤ q.equity_fee_kusd) (q.gross_debt -ℤ q.assigned_reserve_kusd),
      eq_of_parts (gross -ℤ q.user_kusd) (q.assigned_reserve_kusd +ℤ q.equity_fee_kusd),
    )

-- The fee falls with the lifetime: for the same terms and debt, a shorter remaining lifetime gives a
-- fee rate and a fee that are at most those of the longer one, and the owner at least as much.
pub fee_falls_with_lifetime :
    (terms : MintTerms) (gross short long : ℤ) (q r : MintQuote)
    → IsI64 gross
    → short ≤ℤ long
    → quote terms gross short ≡ ok q
    → quote terms gross long ≡ ok r
    → (q.current_fee_ppm ≤ℤ r.current_fee_ppm)
      × (q.equity_fee_kusd ≤ℤ r.equity_fee_kusd)
      × (q.assigned_reserve_kusd ≡ r.assigned_reserve_kusd)
      × (r.user_kusd ≤ℤ q.user_kusd)
fee_falls_with_lifetime terms gross short long q r range le hq hr =
    let d = quote-Quoted terms gross short q range hq in
    let e = quote-Quoted terms gross long r range hr in
    let rate = IsFloor-mono d.fee_rate e.fee_rate (omega arith) in
    let fee = IsFloor-mono d.fee e.fee rate in
    let less = IsFloor-mono d.assigned e.assigned (omega arith) in
    let more = IsFloor-mono e.assigned d.assigned (omega arith) in
    ground (
      arith,
      d.split,
      e.split,
      d.fee_rate.natural,
      e.fee_rate.natural,
      d.fee.natural,
      e.fee.natural,
      d.assigned.natural,
      e.assigned.natural,
      d.user_positive,
      e.user_positive,
      eq_of_parts q.assigned_reserve_kusd r.assigned_reserve_kusd,
    )
