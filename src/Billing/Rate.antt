-- ===== src/Billing/Rate.antt =====
-- libs/billing/rate.go: the price of a unit, and its exact conversion to credits.
use Prim.Native.Char.{code}
use sshai.Base.{
  ℕ, ◌+◌, ◌-◌, ◌*◌, ◌/◌, ◌%◌, ◌^◌, String, ◌&&◌, ◌||◌, not, Option, none, some, ℤ, max_int64, leb,
  ltb, ◌==◌, Time, is_zero, to_canonical, is_empty, errors_new, Result, ok, err, ◌>>=◌, ◌>>◌,
  fail_if, wrapped, if◌then◌else◌,
}

-- `unknown_resource` is any text that is none of the two.
pub data ResourceType : Type 0 where
  compute storage : ResourceType
  unknown_resource : String → ResourceType

-- A *big.Rat that is not negative; `denominator` is positive, and the fraction may be reducible.
pub record Rational : Type 0 where
  pub numerator : ℕ
  pub denominator : ℕ

pub record CreditRate : Type 0 where
  pub version : String
  pub resource_type : ResourceType
  pub region : String
  pub preset : String
  pub raw_unit : String
  pub credits_per_unit : Option Rational
  pub credits_text : String
  pub effective_at : Time

-- The digits at the start of a text: their value, their number, and what follows.
take_digits : String → ℕ → ℕ → ℕ × ℕ × String
take_digits String.[] value count = (value, count, String.[])
take_digits (String.◌∷◌ ch s) value count =
    let c = code ch in
    let rest = take_digits s (value * 10 + (c - 48)) (count + 1) in
    if leb 48 c && leb c 57 then rest else (value, count, String.◌∷◌ ch s)

-- `\.[0-9]+$` after a whole part
fraction : ℕ → ℕ × ℕ × String → Option Rational
fraction whole (value, count, rest) =
    if count == 0 || not (is_empty rest)
    then none
    else some (record { numerator = whole * 10 ^ count + value; denominator = 10 ^ count })

whole_part : ℕ × ℕ × String → Option Rational
whole_part (value, count, String.[]) =
    if count == 0 then none else some (record { numerator = value; denominator = 1 })
whole_part (value, count, String.◌∷◌ ch rest) =
    if count == 0 || not (code ch == 46) then none else fraction value (take_digits rest 0 0)

-- decimalPattern and big.Rat.SetString on the texts that it matches
unfoldable pub decimal : String → Option Rational
unfolding take_digits fraction whole_part
decimal value = whole_part (take_digits value 0 0)

parsed : Option Rational → Result Rational
parsed none = err (errors_new "must be an unsigned base-10 decimal")
parsed (some r) = ok r

unfoldable pub parse_decimal : String → Result Rational
unfolding parsed
parse_decimal value = parsed (decimal value)

-- The switch over the resource type.
check_preset : ResourceType → String → Result (Unit {0})
check_preset compute preset =
    fail_if (is_empty preset) (errors_new "compute rate requires a runtime preset")
check_preset storage preset =
    fail_if (not (is_empty preset)) (errors_new "storage rate cannot have a runtime preset")
check_preset (unknown_resource s) preset = err (errors_new "unsupported resource type")

-- err != nil || rate.Sign() <= 0
positive : Result Rational → Result Rational
positive (err e) = err (errors_new "credits per unit must be a positive decimal")
positive (ok r) =
    if r.numerator == 0
    then err (errors_new "credits per unit must be a positive decimal")
    else ok r

unfoldable pub new_credit_rate :
    String → ResourceType → String → String → String → String → Time → Result CreditRate
unfolding check_preset positive
new_credit_rate version type region preset raw_unit credits effective_at = do
  fail_if (is_empty version || is_empty region || is_empty raw_unit || is_zero effective_at)
      (errors_new "rate version, region, raw unit, and effective time are required")
  check_preset type preset
  rate ← positive (parse_decimal credits)
  ok (record {
    version = version;
    resource_type = type;
    region = region;
    preset = preset;
    raw_unit = raw_unit;
    credits_per_unit = some rate;
    credits_text = credits;
    effective_at = to_canonical effective_at;
  })

-- The product in lowest terms is whole and an `int64`.
unfoldable pub whole_credits : (numerator denominator : ℕ) → Result ℤ
whole_credits numerator denominator =
    if not (numerator % denominator == 0) || ltb max_int64 (numerator / denominator)
    then err (errors_new "conversion must produce a whole int64 credit amount")
    else ok (ℤ.pos (numerator / denominator))

convert_at : Option Rational → String → Result ℤ
convert_at none raw_quantity = err (errors_new "credit rate is not initialized")
convert_at (some rate) raw_quantity = do
  quantity ← wrapped "raw quantity: %w" (parse_decimal raw_quantity)
  whole_credits (quantity.numerator * rate.numerator) (quantity.denominator * rate.denominator)

unfoldable pub convert : CreditRate → String → Result ℤ
unfolding convert_at whole_credits
convert rate raw_quantity = convert_at rate.credits_per_unit raw_quantity
