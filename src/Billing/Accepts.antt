-- ===== src/Billing/Accepts.antt =====
-- libs/billing/ledger.go: when a balance accepts a transaction, and what a second delivery does.
use sshai.Base.{
  String, Bool, true, false, none, some, List, ◌∷◌, ◌≡◌, ◌≢◌, ◌↔◌, inl, inr, refl, arith, ap, sym,
  ◌∙◌, ℤ, IsInt64, ◌+ℤ◌, overflows, overflows-of_fits, same_text_iff, ok, err,
}
use sshai.Billing.Transaction.{CreditTransaction, same_transaction_iff}
use sshai.Billing.Balance.{CreditBalance, lookup, apply, err_idempotency_conflict}
use sshai.Billing.Ledger.{IsLedger, index, extended, apply_records}

module _ (b : CreditBalance) (entries : List (String × CreditTransaction)) (w : IsLedger b entries)
    (u : CreditTransaction) (same_user : u.user_id ≡ b.user_id) (e : CreditTransaction)
    (found : lookup u.idempotency_key entries ≡ some e) where
  apply_recorded : e ≡ u → apply b u ≡ ok (false, b)
  unfolding apply
  apply_recorded same = ground (
    arith,
    w.transactions,
    w.transaction_ids,
    w.user,
    same_user,
    found,
    same_text_iff u.user_id b.user_id,
    same_transaction_iff e u,
  )

  apply_conflicting : e ≢ u → apply b u ≡ err err_idempotency_conflict
  unfolding apply
  apply_conflicting other = ground (
    arith,
    w.transactions,
    w.transaction_ids,
    w.user,
    same_user,
    found,
    same_text_iff u.user_id b.user_id,
    same_transaction_iff e u,
  )

apply_fresh :
    (b : CreditBalance) (entries : List (String × CreditTransaction)) (t : CreditTransaction)
    → IsLedger b entries
    → t.user_id ≡ b.user_id
    → lookup t.idempotency_key entries ≡ none
    → lookup t.id (index entries) ≡ none
    → overflows t.credits b.credits ≡ false
    → apply b t ≡ ok (true, extended b t entries)
unfolding apply
apply_fresh b entries t w u k d o =
    ground (arith, w.transactions, w.transaction_ids, w.user, same_text_iff t.user_id b.user_id)

bound_of : {v : ℤ} (w : ℤ) → w ≡ v → IsInt64 w → IsInt64 v
bound_of w e h = rw (sym e) h

lookup-head :
    {A : Type 0} (key : String) (value : A) (rest : List (String × A))
    → lookup key ((key, value) ∷ rest) ≡ some value
unfolding lookup
lookup-head key value rest = ground (arith, same_text_iff key key)

-- From a balance with its ledger, a transaction in `int64` is applied exactly when it is the user's,
-- its key and its ID are new, and the sum is an `int64`.
pub apply_accepts_iff :
    (b : CreditBalance) (entries : List (String × CreditTransaction)) (t : CreditTransaction)
    → IsLedger b entries
    → IsInt64 t.credits
    → ((b' : CreditBalance) × (apply b t ≡ ok (true, b'))) ↔ (
        (t.user_id ≡ b.user_id)
        × (lookup t.idempotency_key entries ≡ none)
        × (lookup t.id (index entries) ≡ none)
        × IsInt64 (b.credits +ℤ t.credits))
apply_accepts_iff b entries t w i = (
  λ (b', h). elim (apply_records b entries t w i h) [
    | inl (c, same, found, u) ↦ absurd (ground arith)
    | inr (c, new, sum, u, v, w') ↦ (u, new, w'.distinct.3, bound_of b'.credits sum w'.bound)
  ],
  λ (u, k, d, s). (
    extended b t entries,
    apply_fresh b entries t w u k d (overflows-of_fits t.credits b.credits i w.bound s),
  ),
)

again :
    (b : CreditBalance) (entries : List (String × CreditTransaction)) (t u : CreditTransaction)
    → IsLedger b entries
    → lookup t.idempotency_key entries ≡ some t
    → t.user_id ≡ b.user_id
    → u.user_id ≡ b.user_id
    → u.idempotency_key ≡ t.idempotency_key
    → (apply b t ≡ ok (false, b)) × (u ≢ t → apply b u ≡ err err_idempotency_conflict)
again b entries t u w found mine same_user same_key = (
  apply_recorded b entries w t mine t found refl,
  λ other.
      apply_conflicting b entries w u same_user t (ap (λ k. lookup k entries) same_key ∙ found)
        (λ e. other (sym e)),
)

-- After a balance with a ledger accepts a transaction in `int64`, its second delivery is accepted
-- and changes nothing, and another transaction of the user with its idempotency key is refused as a
-- conflict.
pub apply_once :
    (b : CreditBalance) (entries : List (String × CreditTransaction)) (t u : CreditTransaction)
    {c : Bool} {b' : CreditBalance}
    → IsLedger b entries
    → IsInt64 t.credits
    → apply b t ≡ ok (c, b')
    → u.user_id ≡ b.user_id
    → u.idempotency_key ≡ t.idempotency_key
    → (apply b' t ≡ ok (false, b')) × (u ≢ t → apply b' u ≡ err err_idempotency_conflict)
apply_once b entries t u {c} {b'} w i h same_user same_key =
    elim (apply_records b entries t w i h) [
      | inl (c, same, found, mine) ↦ rw same (again b entries t u w found mine same_user same_key)
      | inr (c, new, sum, mine, user, w') ↦
          again b' ((t.idempotency_key, t) ∷ entries) t u w'
            (lookup-head t.idempotency_key t entries) (mine ∙ sym user) (same_user ∙ sym user)
            same_key
    ]
