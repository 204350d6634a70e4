-- ===== src/Lib.antt =====
-- Orca Whirlpools: the calculations of the TypeScript SDK (sdk/src), which quotes trades and
-- positions of a concentrated liquidity pool off chain.
--
-- The parts and their files. Amounts and prices are bn.js integers and indexes are JavaScript
-- numbers: both are ℤ here (Prelude/Int), with the methods of bn.js in Bn. Code that throws returns
-- a Result, with the error codes of errors/errors.ts (Errors).
--   BitMath: utils/math/bit-math.ts, products and quotients under a limit on bits.
--   TokenMath: utils/math/token-math.ts, amounts between two prices and the price after a trade.
--   SwapMath: utils/math/swap-math.ts, one step of a swap (computeSwapStep).
--   TickArrayIndex: quotes/swap/tick-array-index.ts, the array and the offset of a tick index.
--   TickArraySequence: quotes/swap/tick-array-sequence.ts, the walk over the tick arrays.
--   PriceMath: utils/public/price-math.ts, tick index and sqrt price.
--   SwapManager: quotes/swap/swap-manager.ts, the loop of a swap: it asks the sequence for the next
--     tick, PriceMath for its price, SwapMath for the step, and crosses the tick.
--   SwapQuote: quotes/swap/swap-quote-impl.ts, simulateSwap: the checks around the swap, and the
--     transfer fees of both tokens (TransferFee).
--   PositionUtil: utils/position-util.ts and utils/swap-utils.ts, the amounts of a position.
--   LiquidityQuote: quotes/public/increase-liquidity-quote.ts (Increase, InputToken, Ranges) and
--     decrease-liquidity-quote.ts (Decrease), what a deposit costs and a withdrawal returns, with
--     the bound of a price by a slippage of price-math.ts (SlippageBound).
--   SwapUtils: utils/public/swap-utils.ts, the defaults and the tick arrays of a swap;
--     SwapQuote/WithParams: quotes/public/swap-quote.ts, a quote with its threshold;
--     SwapQuote/Combined: dev-fee-swap-quote.ts and two-hop-swap-quote.ts, beside it.
--   PoolUtil, SupportedToken: utils/public/pool-utils.ts, the estimates of liquidity, and the tokens
--     that a pool may be made of.
--   PoolGraph: utils/graphs, the graph of the pools (Build), the paths of one or two pools between
--     tokens (Walks, Found), and the ids of pairs (Ids, RoundTrip).
--   Router: router/public/index.ts, the data of routes; Router/Requests and Router/QuoteMaps:
--     router/quote-map.ts and batch-swap-quote.ts, the quotes of the hops, one hop of all paths after
--     the other; Router/Quotes: the quotes that are kept of them; Router/Routes and Router/Ranking:
--     router/convert-quote-map.ts, the combinations of the quotes and the best of these;
--     Router/FindRoutes: router/router-impl.ts, findAllRoutes, which calls PoolGraph for the paths,
--     then QuoteMaps and Ranking.
--   Partition: utils/math/k-smallest-partition.ts, the selection that the ranking uses. The bounds of
--     the sample of a long range are the parameter `Sample`; they stand around `k` (`IsSample`).
--   Text: strings as lists of code units, and objects with string keys (Dict).
--   RewardsQuote: quotes/public/collect-rewards-quote.ts, the rewards that a position can collect.
--   FeesQuote: quotes/public/collect-fees-quote.ts, the fees that a position can collect.
--   PositionBundle: utils/public/position-bundle-util.ts, the bitmap of a bundle.
--   TransferFee: utils/public/token-extension-util.ts, amounts with and without a transfer fee.
--   TickUtil: utils/public/tick-utils.ts, the arithmetic of tick indexes; TickUtil/Arrays: the ticks
--     of one array.
--   Constants, AnchorTypes: types/public, the numbers and the accounts that are read.
--
-- Parameters. Sdk holds what is used of @orca-so/common-sdk, with its documented behaviour as
-- IsSdk; SplToken and SplMint hold what is used of @solana/spl-token, and DecimalJs what is used of
-- decimal.js. Public keys are a type with a comparison; the addresses that are derived from them,
-- and what the fetcher returns for them, are functions that the definitions take.
--
-- Fuel. The selection of Partition takes a call for each element of its range. The search for
-- routes goes as deep as there are quotes, and one call more. The search within one tick array takes
-- one round for each of its ticks and one more, and so does the search for the next tick for the
-- ticks of its sequence.
-- The loop of a swap takes its number of rounds as an argument. SwapManager/Ends describes its runs
-- without a bound, as a relation, and shows that 88 rounds for each tick array and three more are
-- enough: each round uses the amount up, reaches the price limit, fails, or leaves fewer ticks to
-- search (SwapManager/Progress, TickArraySequence/Onward). A round that stops short of its target
-- uses an exact input up by its fee, and an exact output by how its price is rounded
-- (SwapManager/Outputs, SwapMath/Output).
--
-- Not modelled: the other conversions by Decimal and the prices of tokens, which are arithmetic of
-- decimal.js; the bounds of the samples of Partition; findBestRoute, instructions and clients, which
-- read the accounts of a wallet or build transactions; the fetching and parsing of accounts; the
-- generated artifacts; and the on-chain program.
pub mod Prelude
pub mod Witnesses
pub mod Errors
pub mod Bn
pub mod Sdk
pub mod BitMath
pub mod Constants
pub mod TokenMath
pub mod SwapMath
pub mod TransferFee
pub mod TickArrayIndex
pub mod AnchorTypes
pub mod TickArraySequence
pub mod PriceMath
pub mod SwapManager
pub mod PositionUtil
pub mod SwapQuote
pub mod PositionBundle
pub mod FeesQuote
pub mod TickUtil
pub mod LiquidityQuote
pub mod SupportedToken
pub mod SwapUtils
pub mod RewardsQuote
pub mod Text
pub mod Router
pub mod PoolGraph
pub mod Partition
pub mod PoolUtil
