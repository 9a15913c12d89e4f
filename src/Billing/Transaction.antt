-- ===== src/Billing/Transaction.antt =====
-- libs/billing/ledger.go: credit transactions.
use sshai.Base.{
  ◌≡◌, ◌↔◌, refl, arith, same_text_iff, String, Bool, true, false, not, ◌&&◌, ◌||◌, ℤ, neg,
  below_one, is_nat, same_int, ◌==◌, Time, before, is_zero, to_canonical, is_empty, same_text,
  errors_new, Result, ok, ◌>>=◌, ◌>>◌, fail_if,
}
use sshai.Billing.Rate.{ResourceType, compute, storage, unknown_resource, CreditRate, convert}

-- `unknown_kind` is any text that is none of the four.
pub data TransactionKind : Type 0 where
  grant debit adjustment refund : TransactionKind
  unknown_kind : String → TransactionKind

pub record DebitUsage : Type 0 where
  pub resource_type : ResourceType
  pub environment_id : String
  pub resource_id : String
  pub region : String
  pub raw_quantity : String
  pub raw_unit : String
  pub rate_version : String

pub record DebitMeasurement : Type 0 where
  pub environment_id : String
  pub resource_id : String
  pub raw_quantity : String

pub record CreditTransaction : Type 0 where
  pub id : String
  pub user_id : String
  pub kind : TransactionKind
  pub credits : ℤ
  pub idempotency_key : String
  pub usage : DebitUsage
  pub occurred_at : Time
  pub created_at : Time

abbrev pub no_usage : DebitUsage
no_usage = record {
  resource_type = unknown_resource "";
  environment_id = "";
  resource_id = "";
  region = "";
  raw_quantity = "";
  raw_unit = "";
  rate_version = "";
}

unfoldable pub new_credit_transaction :
    String
    → String
    → TransactionKind
    → ℤ
    → String
    → DebitUsage
    → Time
    → Time
    → Result CreditTransaction
new_credit_transaction id user_id kind credits key usage occurred_at created_at = do
  fail_if
      (is_empty id || is_empty user_id || is_empty key || is_zero occurred_at || is_zero created_at)
      (errors_new "transaction identity, idempotency key, and timestamps are required")
  fail_if (before created_at occurred_at)
      (errors_new "transaction cannot be created before it occurred")
  ok (record {
    id = id;
    user_id = user_id;
    kind = kind;
    credits = credits;
    idempotency_key = key;
    usage = usage;
    occurred_at = to_canonical occurred_at;
    created_at = to_canonical created_at;
  })

unfoldable pub new_grant : String → String → ℤ → String → Time → Time → Result CreditTransaction
new_grant id user_id credits key occurred_at created_at = do
  fail_if (below_one credits) (errors_new "grant credits must be positive")
  new_credit_transaction id user_id grant credits key no_usage occurred_at created_at

unfoldable pub new_adjustment :
    String → String → ℤ → String → Time → Time → Result CreditTransaction
new_adjustment id user_id credits key occurred_at created_at = do
  fail_if (is_nat credits 0) (errors_new "adjustment credits cannot be zero")
  new_credit_transaction id user_id adjustment credits key no_usage occurred_at created_at

unfoldable pub new_refund : String → String → ℤ → String → Time → Time → Result CreditTransaction
new_refund id user_id credits key occurred_at created_at = do
  fail_if (below_one credits) (errors_new "refund credits must be positive")
  new_credit_transaction id user_id refund credits key no_usage occurred_at created_at

unfoldable pub new_debit :
    String
    → String
    → String
    → DebitMeasurement
    → CreditRate
    → Time
    → Time
    → Result CreditTransaction
new_debit id user_id key measurement rate occurred_at created_at = do
  credits ← convert rate measurement.raw_quantity
  fail_if
      (below_one credits || is_empty measurement.environment_id || is_empty measurement.resource_id)
      (errors_new "debit requires positive credits and Environment and resource IDs")
  new_credit_transaction id user_id debit (neg credits) key
      (record {
        resource_type = rate.resource_type;
        environment_id = measurement.environment_id;
        resource_id = measurement.resource_id;
        region = rate.region;
        raw_quantity = measurement.raw_quantity;
        raw_unit = rate.raw_unit;
        rate_version = rate.version;
      })
      occurred_at created_at

-- The parts of Go's == on transactions. Two canonical times are == when their instants are equal.
same_resource : ResourceType → ResourceType → Bool
same_resource compute compute = true
same_resource storage storage = true
same_resource (unknown_resource s) (unknown_resource t) = same_text s t
same_resource _ _ = false

same_kind : TransactionKind → TransactionKind → Bool
same_kind grant grant = true
same_kind debit debit = true
same_kind adjustment adjustment = true
same_kind refund refund = true
same_kind (unknown_kind s) (unknown_kind t) = same_text s t
same_kind _ _ = false

same_bool : Bool → Bool → Bool
same_bool true b = b
same_bool false b = not b

same_time : Time → Time → Bool
same_time t u = t.instant == u.instant && same_bool t.canonical u.canonical

same_usage : DebitUsage → DebitUsage → Bool
same_usage u v =
    same_resource u.resource_type v.resource_type
    && same_text u.environment_id v.environment_id
    && same_text u.resource_id v.resource_id
    && same_text u.region v.region
    && same_text u.raw_quantity v.raw_quantity
    && same_text u.raw_unit v.raw_unit
    && same_text u.rate_version v.rate_version

-- existing == transaction
unfoldable pub same_transaction : CreditTransaction → CreditTransaction → Bool
unfolding same_resource same_kind same_bool same_time same_usage
same_transaction t u =
    same_text t.id u.id
    && same_text t.user_id u.user_id
    && same_kind t.kind u.kind
    && same_int t.credits u.credits
    && same_text t.idempotency_key u.idempotency_key
    && same_usage t.usage u.usage
    && same_time t.occurred_at u.occurred_at
    && same_time t.created_at u.created_at

same_resource_iff : (r s : ResourceType) → (same_resource r s ≡ true) ↔ (r ≡ s)
unfolding same_resource
same_resource_iff compute compute = (λ h. refl, λ h. refl)
same_resource_iff storage storage = (λ h. refl, λ h. refl)
same_resource_iff (unknown_resource s) (unknown_resource t) = ground (arith, same_text_iff s t)
same_resource_iff _ _ = (λ h. absurd (ground arith), λ h. absurd (ground arith))

same_kind_iff : (k l : TransactionKind) → (same_kind k l ≡ true) ↔ (k ≡ l)
unfolding same_kind
same_kind_iff grant grant = (λ h. refl, λ h. refl)
same_kind_iff debit debit = (λ h. refl, λ h. refl)
same_kind_iff adjustment adjustment = (λ h. refl, λ h. refl)
same_kind_iff refund refund = (λ h. refl, λ h. refl)
same_kind_iff (unknown_kind s) (unknown_kind t) = ground (arith, same_text_iff s t)
same_kind_iff _ _ = (λ h. absurd (ground arith), λ h. absurd (ground arith))

same_time_iff : (t u : Time) → (same_time t u ≡ true) ↔ (t ≡ u)
unfolding same_time same_bool
same_time_iff t u = ground arith

same_int_iff : (v w : ℤ) → (same_int v w ≡ true) ↔ (v ≡ w)
same_int_iff v w = ground arith

infixl 5 ◌and◌
◌and◌ :
    {a b : Bool} {P Q : Type 0} → ((a ≡ true) ↔ P) → ((b ≡ true) ↔ Q) → (a && b ≡ true) ↔ (P × Q)
◌and◌ {a} {b} p q = ground (arith, p, q)

same_usage_iff : (u v : DebitUsage) → (same_usage u v ≡ true) ↔ (u ≡ v)
unfolding same_usage
same_usage_iff u v =
    let k =
      same_resource_iff u.resource_type v.resource_type
      and same_text_iff u.environment_id v.environment_id
      and same_text_iff u.resource_id v.resource_id
      and same_text_iff u.region v.region
      and same_text_iff u.raw_quantity v.raw_quantity
      and same_text_iff u.raw_unit v.raw_unit
      and same_text_iff u.rate_version v.rate_version in
    (λ h. let e = k.0 h in cc, λ h. k.1 (ground (arith, h)))

pub same_transaction_iff : (t u : CreditTransaction) → (same_transaction t u ≡ true) ↔ (t ≡ u)
unfolding same_transaction
same_transaction_iff t u =
    let k =
      same_text_iff t.id u.id
      and same_text_iff t.user_id u.user_id
      and same_kind_iff t.kind u.kind
      and same_int_iff t.credits u.credits
      and same_text_iff t.idempotency_key u.idempotency_key
      and same_usage_iff t.usage u.usage
      and same_time_iff t.occurred_at u.occurred_at
      and same_time_iff t.created_at u.created_at in
    (λ h. let e = k.0 h in cc, λ h. k.1 (ground (arith, h)))
