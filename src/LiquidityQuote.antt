-- ===== src/LiquidityQuote.antt =====
-- quotes/public/increase-liquidity-quote.ts and decrease-liquidity-quote.ts: what a deposit of
-- liquidity costs, and what a withdrawal returns. The mints and their fees are those of
-- TransferFee.antt, and decimal.js is the parameter of SlippageBound.antt.
pub mod SlippageBound
pub mod Decrease
pub mod Increase
pub mod InputToken
pub mod Ranges
pub mod Amounts
pub mod Deposit
