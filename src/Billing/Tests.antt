-- ===== src/Billing/Tests.antt =====
-- A rate, a grant, a debit, and the theorems on them.
use sshai.Base.{
  ◌≡◌, ◌≢◌, ◌↔◌, refl, String, ℕ, ◌≤◌, true, false, none, some, List, [], ◌∷◌, arith, ℤ, neg, ◌+ℤ◌,
  IsInt64, add_int64, overflows, inc_int64, Time, before, is_zero, to_canonical, ok, err,
}
use sshai.Billing.Rate.{
  compute, CreditRate, decimal, parse_decimal, whole_credits, convert, new_credit_rate,
}
use sshai.Billing.Transaction.{
  grant, debit, DebitMeasurement, CreditTransaction, no_usage, new_credit_transaction, new_grant,
  new_debit, same_transaction,
}
use sshai.Billing.Balance.{
  CreditBalance, lookup, new_credit_balance, apply, err_idempotency_conflict,
}
use sshai.Billing.Ledger.{IsLedger, opened, applied, Reachable-balance-IsLedger}
use sshai.Billing.Accepts.{apply_accepts_iff, apply_once}
use sshai.Billing.Exact.{Costs, new_debit_charges, debited, IsSound, Made-IsSound}
use sshai.Samples.{at}

abbrev rate : CreditRate
rate = record {
  version = "v1";
  resource_type = compute;
  region = "eu-west-1";
  preset = "small";
  raw_unit = "second";
  credits_per_unit = some (record { numerator = 25; denominator = 10 });
  credits_text = "2.5";
  effective_at = at 1;
}

abbrev measured : DebitMeasurement
measured = record { environment_id = "env-1"; resource_id = "rt-1"; raw_quantity = "4" }

abbrev given : CreditTransaction
given = record {
  id = "tx-1";
  user_id = "user-1";
  kind = grant;
  credits = ℤ.pos 100;
  idempotency_key = "k-1";
  usage = no_usage;
  occurred_at = at 10;
  created_at = at 11;
}

abbrev taken : CreditTransaction
taken = record {
  id = "tx-2";
  user_id = "user-1";
  kind = debit;
  credits = ℤ.negsuc 9;
  idempotency_key = "k-2";
  usage = record {
    resource_type = compute;
    environment_id = "env-1";
    resource_id = "rt-1";
    region = "eu-west-1";
    raw_quantity = "4";
    raw_unit = "second";
    rate_version = "v1";
  };
  occurred_at = at 20;
  created_at = at 21;
}

abbrev balance :
    List (String × CreditTransaction) → List (String × String) → ℤ → ℤ → Time → CreditBalance
balance transactions ids credits version updated_at = record {
  user_id = "user-1";
  credits = credits;
  version = version;
  updated_at = updated_at;
  transactions = some transactions;
  transaction_ids = some ids;
}

abbrev empty : CreditBalance
empty = balance [] [] (ℤ.pos 0) (ℤ.pos 0) (at 0)

abbrev funded : CreditBalance
funded = balance (("k-1", given) ∷ []) (("tx-1", "k-1") ∷ []) (ℤ.pos 100) (ℤ.pos 1) (at 11)

abbrev spent : CreditBalance
spent =
    balance (("k-2", taken) ∷ ("k-1", given) ∷ []) (("tx-2", "k-2") ∷ ("tx-1", "k-1") ∷ [])
      (ℤ.pos 90) (ℤ.pos 2) (at 21)

rate_test : new_credit_rate "v1" compute "eu-west-1" "small" "second" "2.5" (at 1) ≡ ok rate
unfolding new_credit_rate parse_decimal decimal is_zero to_canonical
rate_test = refl

grant_test : new_grant "tx-1" "user-1" (ℤ.pos 100) "k-1" (at 10) (at 11) ≡ ok given
unfolding new_grant new_credit_transaction before is_zero to_canonical
grant_test = refl

convert_test : convert rate "4" ≡ ok (ℤ.pos 10)
unfolding convert parse_decimal decimal whole_credits
convert_test = refl

debit_test : new_debit "tx-2" "user-1" "k-2" measured rate (at 20) (at 21) ≡ ok taken
unfolding new_debit convert parse_decimal decimal whole_credits new_credit_transaction before
    is_zero to_canonical
debit_test = refl

open_test : new_credit_balance "user-1" ≡ ok empty
unfolding new_credit_balance
open_test = refl

fund_test : apply empty given ≡ ok (true, funded)
unfolding apply lookup overflows add_int64 inc_int64
fund_test = refl

spend_test : apply funded taken ≡ ok (true, spent)
unfolding apply lookup overflows add_int64 inc_int64
spend_test = refl

repeat_test : apply spent given ≡ ok (false, spent)
unfolding apply lookup same_transaction
repeat_test = refl

new_debit_charges_example :
    (n : ℕ) × (1 ≤ n)
    × (taken.credits ≡ neg (ℤ.pos n))
    × Costs rate "4" n
    × (taken.usage.rate_version ≡ rate.version)
    × (taken.usage.raw_quantity ≡ measured.raw_quantity)
new_debit_charges_example =
    new_debit_charges "tx-2" "user-1" "k-2" measured rate (at 20) (at 21) debit_test

Made-IsSound_example : IsSound taken
Made-IsSound_example =
    Made-IsSound (debited "tx-2" "user-1" "k-2" measured rate (at 20) (at 21) debit_test)

Reachable-balance-IsLedger_example :
    (entries : List (String × CreditTransaction)) × IsLedger spent entries
Reachable-balance-IsLedger_example = Reachable-balance-IsLedger (
    applied taken (applied given (opened "user-1" open_test) (omega arith) fund_test) (omega arith)
      spend_test)

funded-IsLedger : IsLedger funded (("k-1", given) ∷ [])
unfolding lookup inc_int64
funded-IsLedger = record {
  user = refl;
  transactions = refl;
  transaction_ids = refl;
  credits = refl;
  bound = omega arith;
  version = refl;
  distinct = (refl, refl, refl, refl, tt);
}

apply_accepts_iff_example : ((b' : CreditBalance) × (apply funded taken ≡ ok (true, b'))) ↔ (
    (taken.user_id ≡ funded.user_id)
    × (lookup "k-2" (("k-1", given) ∷ []) ≡ none)
    × (lookup {A = String} "tx-2" (("tx-1", "k-1") ∷ []) ≡ none)
    × IsInt64 (funded.credits +ℤ taken.credits))
apply_accepts_iff_example =
    apply_accepts_iff funded (("k-1", given) ∷ []) taken funded-IsLedger (omega arith)

apply_once_example :
    (apply spent taken ≡ ok (false, spent))
    × (record taken { credits = ℤ.negsuc 19 } ≢ taken
        → apply spent (record taken { credits = ℤ.negsuc 19 }) ≡ err err_idempotency_conflict)
apply_once_example =
    apply_once funded (("k-1", given) ∷ []) taken (record taken { credits = ℤ.negsuc 19 })
      funded-IsLedger (omega arith) spend_test refl refl
