-- ===== src/Billing.antt =====
-- libs/billing: rates, credit transactions and balances.
pub mod Rate
pub mod Transaction
pub mod Balance
pub mod Ledger
pub mod Accepts
pub mod Exact
mod Tests
