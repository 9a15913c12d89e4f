-- ===== src/Billing/Exact.antt =====
-- libs/billing/rate.go, ledger.go: what a usage costs, and the sign of each kind of transaction.
use native.Mathlib.Omega.{div_any}
use native.Mathlib.Nat.{mul_comm}
use sshai.Base.{
  bind_ok, ℕ, ◌*◌, ◌/◌, ◌≤◌, String, true, false, Option, none, some, ◌≡◌, refl, arith, ℤ, IsInt64,
  neg, below_one, is_negative, is_nat, max_int64, Time, before, to_canonical, is_empty, ok,
}
use sshai.Billing.Rate.{Rational, CreditRate, whole_credits, decimal, parse_decimal, convert}
use sshai.Billing.Transaction.{
  TransactionKind, grant, debit, adjustment, refund, unknown_kind, DebitMeasurement,
  CreditTransaction, new_credit_transaction, new_grant, new_adjustment, new_refund, new_debit,
}

-- n is exactly the quantity of the text times the rate.
abbrev pub Costs : CreditRate → String → ℕ → Type 0
Costs rate text n =
    (price quantity : Rational) × (rate.credits_per_unit ≡ some price)
    × (decimal text ≡ some quantity)
    × (n * (quantity.denominator * price.denominator) ≡ quantity.numerator * price.numerator)

whole-exact :
    (numerator denominator : ℕ) {v : ℤ}
    → whole_credits numerator denominator ≡ ok v
    → (v ≡ ℤ.pos (numerator / denominator))
      × (numerator / denominator ≤ max_int64)
      × (numerator / denominator * denominator ≡ numerator)
unfolding whole_credits
whole-exact n d h = let q = div_any n d in ground (arith, mul_comm d (n / d))

-- A conversion that succeeds is exact: no credit is lost or won by rounding, and none overflows.
pub convert-Costs :
    (rate : CreditRate) (text : String) {v : ℤ}
    → convert rate text ≡ ok v
    → (n : ℕ) × (v ≡ ℤ.pos n) × (n ≤ max_int64) × Costs rate text n
unfolding convert parse_decimal
convert-Costs rate text {v} h = go rate.credits_per_unit (decimal text) refl refl
  where
    go :
        (p q : Option Rational)
        → rate.credits_per_unit ≡ p
        → decimal text ≡ q
        → (n : ℕ) × (v ≡ ℤ.pos n) × (n ≤ max_int64) × Costs rate text n
    go none q e f = absurd (ground arith)
    go (some p) none e f = absurd (ground arith)
    go (some p) (some q) e f =
        let n = q.numerator * p.numerator in
        let d = q.denominator * p.denominator in
        let w = whole-exact n d (ground (arith, e, f)) in (n / d, w.0, w.1, (p, q, e, f, w.2))

-- The transactions that the package makes.
pub data Made : CreditTransaction → Type 0 where
  granted :
      (id user : String) (credits : ℤ) (key : String) (occurred created : Time)
      {t : CreditTransaction}
      → IsInt64 credits
      → new_grant id user credits key occurred created ≡ ok t
      → Made t
  adjusted :
      (id user : String) (credits : ℤ) (key : String) (occurred created : Time)
      {t : CreditTransaction}
      → IsInt64 credits
      → new_adjustment id user credits key occurred created ≡ ok t
      → Made t
  refunded :
      (id user : String) (credits : ℤ) (key : String) (occurred created : Time)
      {t : CreditTransaction}
      → IsInt64 credits
      → new_refund id user credits key occurred created ≡ ok t
      → Made t
  debited :
      (id user key : String) (m : DebitMeasurement) (rate : CreditRate) (occurred created : Time)
      {t : CreditTransaction}
      → new_debit id user key m rate occurred created ≡ ok t
      → Made t

abbrev pub Signed : TransactionKind → ℤ → Type 0
Signed grant v = below_one v ≡ false
Signed refund v = below_one v ≡ false
Signed debit v = is_negative v ≡ true
Signed adjustment v = is_nat v 0 ≡ false
Signed (unknown_kind s) v = ⊥

pub record IsSound (t : CreditTransaction) : Type 0 where
  pub id : is_empty t.id ≡ false
  pub user_id : is_empty t.user_id ≡ false
  pub idempotency_key : is_empty t.idempotency_key ≡ false
  pub sign : Signed t.kind t.credits
  pub bound : IsInt64 t.credits
  pub order : t.occurred_at.instant ≤ t.created_at.instant

-- Every transaction that is made from credits in `int64` is named, adds credits as a grant or a
-- refund and takes them as a debit, is not nothing as an adjustment, is an `int64`, and was not
-- created before it occurred.
pub Made-IsSound : {t : CreditTransaction} → Made t → IsSound t
unfolding new_grant new_adjustment new_refund new_debit new_credit_transaction before to_canonical
Made-IsSound (granted id user credits key occurred created i h) = ground arith
Made-IsSound (adjusted id user credits key occurred created i h) = ground arith
Made-IsSound (refunded id user credits key occurred created i h) = ground arith
Made-IsSound (debited id user key m rate occurred created h) =
    let (v, e, made) = bind_ok (convert rate m.raw_quantity) _ h in
    let (n, p, bound, cost) = convert-Costs rate m.raw_quantity e in ground arith

-- A debit that is made takes exactly what its measured quantity costs at its rate, at least one
-- credit, and records the rate's version and the quantity.
pub new_debit_charges :
    (id user key : String) (m : DebitMeasurement) (rate : CreditRate) (occurred created : Time)
    {t : CreditTransaction}
    → new_debit id user key m rate occurred created ≡ ok t
    → (n : ℕ) × (1 ≤ n)
      × (t.credits ≡ neg (ℤ.pos n))
      × Costs rate m.raw_quantity n
      × (t.usage.rate_version ≡ rate.version)
      × (t.usage.raw_quantity ≡ m.raw_quantity)
unfolding new_debit new_credit_transaction
new_debit_charges id user key m rate occurred created h =
    let (v, e, made) = bind_ok (convert rate m.raw_quantity) _ h in
    let (n, p, bound, cost) = convert-Costs rate m.raw_quantity e in
    (n, ground arith, ground arith, cost, ground arith, ground arith)
