-- ===== src/Billing/Balance.antt =====
-- libs/billing/ledger.go: the credit balance of a user.
use sshai.Base.{
  String, Bool, true, false, not, Option, none, some, List, [], ◌∷◌, ℤ, inc_int64, add_int64,
  overflows, Time, is_empty, same_text, Error, errors_new, Result, ok, err, ◌>>◌, fail_if,
  if◌then◌else◌,
}
use sshai.Billing.Transaction.{CreditTransaction, same_transaction}

abbrev pub err_idempotency_conflict : Error
err_idempotency_conflict = errors_new "credit transaction idempotency conflict"

abbrev pub err_transaction_id_conflict : Error
err_transaction_id_conflict = errors_new "credit transaction ID conflict"

-- A map as its entries, the newest first; `none` is a nil map.
pub record CreditBalance : Type 0 where
  pub user_id : String
  pub credits : ℤ
  pub version : ℤ
  pub updated_at : Time
  pub transactions : Option (List (String × CreditTransaction))
  pub transaction_ids : Option (List (String × String))

-- value, ok := m[key]
unfoldable pub lookup {ℓ} : {A : Type ℓ} → String → List (String × A) → Option A
lookup key [] = none
lookup key ((k, v) ∷ rest) =
    let found = lookup key rest in if same_text k key then some v else found

unfoldable pub new_credit_balance : String → Result CreditBalance
new_credit_balance user_id = do
  fail_if (is_empty user_id) (errors_new "credit balance user ID is required")
  ok (record {
    user_id = user_id;
    credits = ℤ.pos 0;
    version = ℤ.pos 0;
    updated_at = record { instant = 0; canonical = true };
    transactions = some [];
    transaction_ids = some [];
  })

-- existingKey is there and is not the transaction's key
abbrev pub other_key : Option String → String → Bool
other_key none key = false
other_key (some existing) key = not (same_text existing key)

-- From the lookup of the idempotency key on: whether the balance changed, and the balance.
apply_to :
    CreditBalance
    → CreditTransaction
    → List (String × CreditTransaction)
    → List (String × String)
    → Option CreditTransaction
    → Result (Bool × CreditBalance)
apply_to b t transactions ids (some existing) =
    if same_transaction existing t then ok (false, b) else err err_idempotency_conflict
apply_to b t transactions ids none = do
  fail_if (other_key (lookup t.id ids) t.idempotency_key) err_transaction_id_conflict
  fail_if (overflows t.credits b.credits) (errors_new "credit balance overflow")
  ok (
    true,
    record b {
      credits = add_int64 b.credits t.credits;
      version = inc_int64 b.version;
      updated_at = t.created_at;
      transactions = some ((t.idempotency_key, t) ∷ transactions);
      transaction_ids = some ((t.id, t.idempotency_key) ∷ ids);
    },
  )

apply_maps :
    CreditBalance
    → CreditTransaction
    → Option (List (String × CreditTransaction))
    → Option (List (String × String))
    → Result (Bool × CreditBalance)
apply_maps b t (some transactions) (some ids) = do
  fail_if (is_empty b.user_id) (errors_new "credit balance is not initialized")
  fail_if (not (same_text t.user_id b.user_id))
      (errors_new "credit transaction belongs to another user")
  apply_to b t transactions ids (lookup t.idempotency_key transactions)
apply_maps b t _ _ = err (errors_new "credit balance is not initialized")

-- The receiver is not nil, and on an error it is as it was.
unfoldable pub apply : CreditBalance → CreditTransaction → Result (Bool × CreditBalance)
unfolding apply_to apply_maps
apply b t = apply_maps b t b.transactions b.transaction_ids
