-- ===== src/Equity/Effects.antt =====
-- What each operation of the Reserve does to its state when it succeeds.
use native.Mathlib.Nat.{div-mul-le_self, lt-mul-div-succ, mul_comm, le_of_mul-le-mul_right}
use kusd.Base.{ℕ, ◌+◌, ◌-◌, ◌*◌, ◌/◌, ◌≤◌, ◌<◌, ◌≡◌, ◌⊎◌, ok, arith}
use kusd.Int.{
  ℤ, pos, pos_part, neg_part, ◌+ℤ◌, ◌-ℤ◌, ◌*ℤ◌, ◌/ℤ◌, i64_max, u64_mod, IsI64, pos-*ℤ, pos-/ℤ,
  wrap_u64, -ℤ_parts, checked_add_eq, wrap_i64_self, wrap_u64_self, sub_u64_self,
}
use kusd.Equity.MulDiv.{mul_div_floor-IsFloor}
use kusd.Equity.{EquityState, minted_shares, collateral_share, kusd_share, deposit, redeem}

-- The ranges of the machine integers, and no negative amount.
pub record IsValid (s : EquityState) : Type 0 where
  pub reserve_natural : neg_part s.reserve_kusd ≡ 0
  pub reserve_fits : pos_part s.reserve_kusd ≤ i64_max
  pub kps_natural : neg_part s.total_kps ≡ 0
  pub kps_fits : pos_part s.total_kps ≤ i64_max
  pub collateral_fits : s.collateral_sompi < u64_mod

pub record Deposited (s : EquityState) (amount : ℤ) (s' : EquityState) (minted : ℤ) : Type 0 where
  pub amount_natural : neg_part amount ≡ 0
  pub amount_positive : 0 < pos_part amount
  pub minted_natural : neg_part minted ≡ 0
  pub minted_positive : 0 < pos_part minted
  pub reserve : s'.reserve_kusd ≡ s.reserve_kusd +ℤ amount
  pub reserve_range : IsI64 s'.reserve_kusd
  pub total : s'.total_kps ≡ s.total_kps +ℤ minted
  pub total_range : IsI64 s'.total_kps
  pub collateral_before : s.collateral_sompi ≡ 0
  pub collateral : s'.collateral_sompi ≡ 0
  pub price : pos_part minted * pos_part s.reserve_kusd ≤ pos_part amount * pos_part s.total_kps
  pub first :
      pos_part s.total_kps ≡ 0 → (pos_part minted ≡ pos_part amount) × (pos_part s.reserve_kusd ≡ 0)

record Minted (s : EquityState) (amount minted : ℤ) : Type 0 where
  minted_natural : neg_part amount ≡ 0 → neg_part minted ≡ 0
  price : pos_part minted * pos_part s.reserve_kusd ≤ pos_part amount * pos_part s.total_kps
  first :
      pos_part s.total_kps ≡ 0 → (pos_part minted ≡ pos_part amount) × (pos_part s.reserve_kusd ≡ 0)

minted_shares-Minted :
    (s : EquityState) (amount minted : ℤ)
    → IsValid s
    → minted_shares s amount ≡ ok minted
    → Minted s amount minted
unfolding minted_shares
minted_shares-Minted s amount minted v h =
    ground (arith, mul_div_floor-IsFloor amount s.total_kps s.reserve_kusd {r = minted})

pub deposit-Deposited :
    (s s' : EquityState) (amount minted : ℤ)
    → IsValid s
    → deposit s amount ≡ ok (s', minted)
    → Deposited s amount s' minted
unfolding deposit
deposit-Deposited s s' amount minted v h = ground (
  arith,
  minted_shares-Minted s amount minted v,
  checked_add_eq {c = s'.reserve_kusd} s.reserve_kusd amount,
  checked_add_eq {c = s'.total_kps} s.total_kps minted,
)

-- `q` is `n` divided by `d`, rounded down.
abbrev pub Floors : ℕ → ℕ → ℕ → Type 0
Floors n d q = (q * d ≤ n) × (n < (q + 1) * d)

pub record Redeemed (s : EquityState) (shares : ℤ) (s' : EquityState) (payout : ℤ) (payout_kas : ℕ)
    : Type 0 where
  pub shares_natural : neg_part shares ≡ 0
  pub shares_positive : 0 < pos_part shares
  pub shares_bounded : pos_part shares ≤ pos_part s.total_kps
  pub payout_natural : neg_part payout ≡ 0
  pub payout_floor :
      Floors (pos_part shares * pos_part s.reserve_kusd) (pos_part s.total_kps) (pos_part payout)
  pub kas_floor : Floors (pos_part shares * s.collateral_sompi) (pos_part s.total_kps) payout_kas
  pub pays : (0 < pos_part payout) ⊎ (0 < payout_kas)
  pub reserve : s'.reserve_kusd ≡ s.reserve_kusd -ℤ payout
  pub total : s'.total_kps ≡ s.total_kps -ℤ shares
  pub collateral : s'.collateral_sompi ≡ s.collateral_sompi - payout_kas

-- A fraction of at most one takes at most the whole.
pub share-le : (k n t q : ℕ) → k ≤ t → 0 < t → q * t ≤ k * n → q ≤ n
share-le k n t q le pos_t h = le_of_mul-le-mul_right {k = t} (grind arith) pos_t

pub kas-eq :
    (k c t : ℕ) → k ≤ t → 0 < t → c < u64_mod → wrap_u64 (pos k *ℤ pos c /ℤ pos t) ≡ k * c / t
kas-eq k c t le pos_t fits =
    rw (pos-*ℤ, pos-/ℤ)
      (wrap_u64_self (k * c / t)
        (omega (arith, share-le k c t (k * c / t) le pos_t (div-mul-le_self (k * c) t))))

pub collateral_share-eq :
    (s : EquityState) (shares : ℤ)
    → IsValid s
    → neg_part shares ≡ 0
    → 0 < pos_part shares
    → pos_part shares ≤ pos_part s.total_kps
    → collateral_share s shares ≡ pos_part shares * s.collateral_sompi / pos_part s.total_kps
unfolding collateral_share
collateral_share-eq s shares v n p le =
    ground (arith, kas-eq (pos_part shares) s.collateral_sompi (pos_part s.total_kps))

div-Floors : (n d : ℕ) → 0 < d → Floors n d (n / d)
div-Floors n d h = (div-mul-le_self n d, omega (arith, lt-mul-div-succ n h, mul_comm d (n / d + 1)))

zero-Floors : (n d : ℕ) → n ≡ 0 → 0 < d → Floors n d 0
zero-Floors n d e h = omega arith

-- The payout in KUSD, as `redeem` computes it.
payout-Floors :
    (s : EquityState) (shares payout : ℤ)
    → IsValid s
    → 0 < pos_part s.total_kps
    → kusd_share s shares ≡ ok payout
    → (neg_part payout ≡ 0)
      × Floors (pos_part shares * pos_part s.reserve_kusd) (pos_part s.total_kps) (pos_part payout)
unfolding kusd_share
payout-Floors s shares payout v h e = ground (
  arith,
  mul_div_floor-IsFloor shares s.reserve_kusd s.total_kps {r = payout},
  zero-Floors (pos_part shares * pos_part s.reserve_kusd) (pos_part s.total_kps),
)

pub redeem-Redeemed :
    (s s' : EquityState) (shares payout : ℤ) (payout_kas : ℕ)
    → IsValid s
    → redeem s shares ≡ ok (s', payout, payout_kas)
    → Redeemed s shares s' payout payout_kas
unfolding redeem
redeem-Redeemed s s' shares payout payout_kas v h = ground (
  arith,
  payout-Floors s shares payout v,
  collateral_share-eq s shares v,
  div-Floors (pos_part shares * s.collateral_sompi) (pos_part s.total_kps),
  share-le (pos_part shares) (pos_part s.reserve_kusd) (pos_part s.total_kps) (pos_part payout),
  share-le (pos_part shares) s.collateral_sompi (pos_part s.total_kps) payout_kas,
  wrap_i64_self (s.reserve_kusd -ℤ payout),
  wrap_i64_self (s.total_kps -ℤ shares),
  sub_u64_self s.collateral_sompi payout_kas,
  -ℤ_parts s.reserve_kusd payout,
  -ℤ_parts s.total_kps shares,
)
