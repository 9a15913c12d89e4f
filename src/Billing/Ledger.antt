-- ===== src/Billing/Ledger.antt =====
-- libs/billing/ledger.go: what holds of every credit balance, and when a transaction is applied.
use sshai.Base.{
  String, Bool, true, false, Option, none, some, List, [], ◌∷◌, ◌≡◌, ◌≢◌, ◌⊎◌, inl, inr, refl,
  arith, ap, ◌∙◌, ℤ, IsInt64, ◌+ℤ◌, inc_int64, add_int64, overflows, add_int64-exact, is_empty,
  same_text_iff, ok,
}
use sshai.Billing.Transaction.{CreditTransaction, same_transaction_iff}
use sshai.Billing.Balance.{CreditBalance, other_key, lookup, new_credit_balance, apply}

-- The sum of the credits, and the number of the transactions as an `int64`.
abbrev pub total : List (String × CreditTransaction) → ℤ
total [] = ℤ.pos 0
total ((k, t) ∷ rest) = total rest +ℤ t.credits

abbrev pub counted : List (String × CreditTransaction) → ℤ
counted [] = ℤ.pos 0
counted (e ∷ rest) = inc_int64 (counted rest)

-- The idempotency key of each transaction ID.
abbrev pub index : List (String × CreditTransaction) → List (String × String)
index [] = []
index ((k, t) ∷ rest) = (t.id, t.idempotency_key) ∷ index rest

-- Each transaction is the user's, stands under its idempotency key, and shares neither this key nor
-- its ID with an older one.
abbrev pub Distinct : String → List (String × CreditTransaction) → Type 0
Distinct user [] = Unit {0}
Distinct user ((k, t) ∷ rest) =
    (t.user_id ≡ user)
    × (k ≡ t.idempotency_key)
    × (lookup k rest ≡ none)
    × (lookup t.id (index rest) ≡ none)
    × Distinct user rest

pub record IsLedger (b : CreditBalance) (entries : List (String × CreditTransaction)) : Type 0 where
  pub user : is_empty b.user_id ≡ false
  pub transactions : b.transactions ≡ some entries
  pub transaction_ids : b.transaction_ids ≡ some (index entries)
  pub credits : b.credits ≡ total entries
  pub bound : IsInt64 b.credits
  pub version : b.version ≡ counted entries
  pub distinct : Distinct b.user_id entries

-- The balance after a new transaction.
abbrev pub extended :
    CreditBalance → CreditTransaction → List (String × CreditTransaction) → CreditBalance
extended b t entries = record b {
  credits = add_int64 b.credits t.credits;
  version = inc_int64 b.version;
  updated_at = t.created_at;
  transactions = some ((t.idempotency_key, t) ∷ entries);
  transaction_ids = some ((t.id, t.idempotency_key) ∷ index entries);
}

-- An ID in the index has its key in the entries.
index-lookup :
    (user id : String) (entries : List (String × CreditTransaction)) (key : String)
    → Distinct user entries
    → lookup id (index entries) ≡ some key
    → lookup key entries ≢ none
unfolding lookup
index-lookup user id [] key d h n = ground arith
index-lookup user id ((k, t) ∷ rest) key d h n =
    let ih = index-lookup user id rest key d.4 in
    ground (arith, same_text_iff t.id id, same_text_iff k key)

-- The transactions and the IDs that a balance is looked up in, as values.
module _ (b : CreditBalance) (entries : List (String × CreditTransaction)) (w : IsLedger b entries)
    (t : CreditTransaction) {c : Bool} {b' : CreditBalance} (h : apply b t ≡ ok (c, b')) where
  pub applied_again :
      (e : CreditTransaction)
      → lookup t.idempotency_key entries ≡ some e
      → (c ≡ false) × (b' ≡ b) × (e ≡ t) × (t.user_id ≡ b.user_id)
  unfolding apply
  applied_again e found = ground (
    arith,
    w.transactions,
    w.transaction_ids,
    same_transaction_iff e t,
    same_text_iff t.user_id b.user_id,
  )

  pub applied_new :
      lookup t.idempotency_key entries ≡ none
      → (c ≡ true)
        × (other_key (lookup t.id (index entries)) t.idempotency_key ≡ false)
        × (t.user_id ≡ b.user_id)
        × (overflows t.credits b.credits ≡ false)
        × (b' ≡ extended b t entries)
  unfolding apply
  applied_new found =
      ground (arith, w.transactions, w.transaction_ids, same_text_iff t.user_id b.user_id)

pub free_id :
    (user id key : String) (entries : List (String × CreditTransaction))
    → Distinct user entries
    → lookup key entries ≡ none
    → other_key (lookup id (index entries)) key ≡ false
    → lookup id (index entries) ≡ none
free_id user id key entries d n o = go (lookup id (index entries)) refl
  where
    go :
        (found : Option String)
        → lookup id (index entries) ≡ found
        → lookup id (index entries) ≡ none
    go none e = e
    go (some k) e = absurd (
        index-lookup user id entries k d e
          (ap (λ k. lookup k entries) ((same_text_iff k key).0 (ground arith)) ∙ n))

extended-IsLedger :
    (b : CreditBalance) (entries : List (String × CreditTransaction)) (t : CreditTransaction)
    → IsLedger b entries
    → IsInt64 t.credits
    → lookup t.idempotency_key entries ≡ none
    → lookup t.id (index entries) ≡ none
    → t.user_id ≡ b.user_id
    → overflows t.credits b.credits ≡ false
    → IsLedger (extended b t entries) ((t.idempotency_key, t) ∷ entries)
extended-IsLedger b entries t w i k d u o =
    let sum = add_int64-exact t.credits b.credits i w.bound o in
    record {
      user = w.user;
      transactions = refl;
      transaction_ids = refl;
      credits = sum.0 ∙ ap (λ v. v +ℤ t.credits) w.credits;
      bound = rw sum.0 sum.1;
      version = ap inc_int64 w.version;
      distinct = (u, refl, k, d, w.distinct);
    }

-- A transaction in `int64` that a balance with a ledger accepts is the user's. It is in the ledger
-- already, and nothing changes; or it is new, and the balance has its credits more, with no
-- overflow, and a ledger with the transaction more.
pub apply_records :
    (b : CreditBalance) (entries : List (String × CreditTransaction)) (t : CreditTransaction)
    {c : Bool} {b' : CreditBalance}
    → IsLedger b entries
    → IsInt64 t.credits
    → apply b t ≡ ok (c, b')
    → ((c ≡ false)
        × (b' ≡ b)
        × (lookup t.idempotency_key entries ≡ some t)
        × (t.user_id ≡ b.user_id))
      ⊎ ((c ≡ true)
          × (lookup t.idempotency_key entries ≡ none)
          × (b'.credits ≡ b.credits +ℤ t.credits)
          × (t.user_id ≡ b.user_id)
          × (b'.user_id ≡ b.user_id)
          × IsLedger b' ((t.idempotency_key, t) ∷ entries))
apply_records b entries t {c} {b'} w i h = go (lookup t.idempotency_key entries) refl
  where
    go :
        (found : Option CreditTransaction)
        → lookup t.idempotency_key entries ≡ found
        → ((c ≡ false)
            × (b' ≡ b)
            × (lookup t.idempotency_key entries ≡ some t)
            × (t.user_id ≡ b.user_id))
          ⊎ ((c ≡ true)
              × (lookup t.idempotency_key entries ≡ none)
              × (b'.credits ≡ b.credits +ℤ t.credits)
              × (t.user_id ≡ b.user_id)
              × (b'.user_id ≡ b.user_id)
              × IsLedger b' ((t.idempotency_key, t) ∷ entries))
    go (some e) found =
        let a = applied_again b entries w t h e found in inl (a.0, a.1, found ∙ ap some a.2, a.3)
    go none found =
        let a = applied_new b entries w t h found in
        let sum = add_int64-exact t.credits b.credits i w.bound a.3 in
        inr (
          a.0,
          found,
          ap (λ (b : CreditBalance). b.credits) a.4 ∙ sum.0,
          a.2,
          ap (λ (b : CreditBalance). b.user_id) a.4,
          rw a.4 (
              extended-IsLedger b entries t w i found
                (free_id b.user_id t.id t.idempotency_key entries w.distinct found a.1) a.2 a.3),
        )

-- The balances that the package hands out.
pub data Reachable : CreditBalance → Type 0 where
  opened : (user : String) {b : CreditBalance} → new_credit_balance user ≡ ok b → Reachable b
  applied :
      (t : CreditTransaction) {b b' : CreditBalance} {c : Bool}
      → Reachable b
      → IsInt64 t.credits
      → apply b t ≡ ok (c, b')
      → Reachable b'

opened-IsLedger :
    (user : String) {b : CreditBalance} → new_credit_balance user ≡ ok b → IsLedger b []
unfolding new_credit_balance
opened-IsLedger user {b} h = ground arith

-- Every balance that is opened and given transactions in `int64` is the sum of a ledger of
-- transactions of its user whose keys and IDs are distinct, and is itself an `int64`.
pub Reachable-balance-IsLedger :
    {b : CreditBalance}
    → Reachable b
    → (entries : List (String × CreditTransaction)) × IsLedger b entries
Reachable-balance-IsLedger (opened user h) = ([], opened-IsLedger user h)
Reachable-balance-IsLedger (applied t {b} r i h) =
    let (entries, w) = Reachable-balance-IsLedger r in
    elim (apply_records b entries t w i h) [
      | inl (c, same, found, u) ↦ (entries, rw same w)
      | inr (c, new, sum, u, v, w') ↦ ((t.idempotency_key, t) ∷ entries, w')
    ]
