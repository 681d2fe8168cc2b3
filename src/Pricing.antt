-- ===== src/Pricing.antt =====
-- modules/transaction-reference/payment-pricing.util.ts
pub mod Fees
pub mod Summary
pub mod Estimate
pub mod Convergence
pub mod Totals
pub mod Config
pub mod Recorded
mod Tests
