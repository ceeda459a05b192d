-- ===== src/Lib.antt =====
-- A verification library for Dashscan, the Dash explorer of this repository: the parts of its API, and of
-- the client library of its frontend, that compute rather than query or render.
--
-- The parts and how they meet:
-- * Xpub models api/src/services/XpubService.ts with `getXpub` of api/src/controllers/XpubController.ts.
--   Xpub.Derive is the derivation of child keys and addresses (`brancher`). Xpub.Scan is `scanBranch`: the
--   record ScanState holds the variables of its loop, `round` is one pass, `scan_loop` the loop, `report`
--   the answer and `cache_write` what the shared cache is asked to keep. Xpub.Resolve is `parse`, `scan`
--   and `getXpub`; Xpub.Resolve.InFlight is the map of scans in flight, whose steps are the calls of
--   `resolve` and the ends of scans.
-- * Models models the rows of transactions, api/src/models/Transaction.ts with VIn.ts and VOut.ts beside it.
-- * Transactions models api/src/dao/TransactionsDAO.ts: the record Tables has the tables that its queries
--   read, and a query is a function of them, with `keep` for where, `sort_by` for order by and `take` for
--   limit. Transactions.Wallet is `getXpubTransactions` with api/src/models/CursorResultSet.ts;
--   Transactions.Wallet.History is the history that its pages are cut from. Transactions.Stats is
--   `getTransactionStats` with api/src/models/TransactionStats.ts, and Transactions.Listing the pages of
--   `getTransactions` and `getTransactionsByBlockHeight`, with the handler of the former.
-- * Addresses models api/src/dao/AddressesDAO.ts: Addresses.Activity is what `getAddressesActivity` reads
--   live, by days and by weeks, and Addresses.Balance the series of balances of an address.
-- * Cache models api/src/cache.ts, the cache that the API's instances share. Redis is a record of
--   operations with the laws of its documentation, and JSON a record with the law of its round trip;
--   Cache.Memory is a store and Cache.Texts a way to write texts that
--   have them.
-- * Market models api/src/services/MarketService.ts over Cache. `load` is cut where it waits for its
--   upstream: `load_start` is what it does before, `load_finish` what it does after, and the record Process
--   has the store and the instance's own map of loads. Market.Current is `getCurrentData` with its
--   callers, Market.Chart `getHistoricalChart` with its, Market.Upstreams what is made of the bodies that
--   CoinGecko and Kraken send, and Market.Hourly `compactToHourly`.
-- * Intervals models `calculateInterval` of api/src/utils.ts with api/src/enums/Intervals.ts, and the width
--   of a bucket where the query gives a count.
-- * Durations models `iso8601duration` of api/src/utils.ts; Durations.Reader is a strict
--   reader of such durations, and Durations.RoundTrip reads what is printed.
-- * Governance models api/src/dao/GovernanceDAO.ts and api/src/controllers/GovernanceController.ts.
--   Governance.Votes is api/src/models/ProposalVote.ts; Governance.Series is `getProposalVoteSeries` of
--   the DAO and Governance.Controller the handler that calls it with a width from Intervals;
--   Governance.Outpoints is `getProtxOutpoint` over Cache, with `getMasternodeVotes`;
--   Governance.Detail is `getProposalByHash` with `fromObject` of api/src/models/GovernanceObject.ts;
--   Governance.Proposals is `getProposals`, where positions stand for the objects that two lists share;
--   Governance.Budget is `getBudgetInfo`.
-- * Handlers models the handlers of series in api/src/controllers that call a DAO with a width from
--   Intervals and a text from Durations.
-- * Buckets models the series of blocks that api/src/dao/TransactionsDAO.ts and BlocksDAO.ts beside it read
--   for those handlers, and their replies.
-- * Peers models api/src/dao/PeersDAO.ts, and Paging the result sets of api/src/models and the slices that
--   make the pages; Paging.Count is frontend/src/lib/pagination.ts, which counts them, and Paging.Bar
--   the row of numbers of frontend/src/themes/dash/components/pagination.tsx.
-- * Client models `apiFetch` of frontend/src/lib/api/client.ts: the events that end or abort a request, in
--   any order.
-- * Superblocks models the heights of frontend/src/lib/governance.ts.
-- * Prelude has what they share: tests, lists, maps in the order of their entries, whole numbers below
--   zero, a stable sort and sums.
--
-- Bounds and fuel. The loop of `scanBranch` is given one round more than its cap of 5000 addresses,
-- since a round that goes on is below the cap. The loop that makes the buckets of a series is given as
-- many rounds as the window has milliseconds, or one more, which a step of at least one cannot use up. The digits of
-- a number n are given n + 1 rounds. Retries of a child key recurse on the depth of the stack. All other
-- loops are structural.
-- Numbers are natural where the code has whole numbers from 0 on that stay below 2 ^ 53: times in
-- milliseconds, heights, counts and indices. Amounts of proposals are whole numbers of one unit,
-- so sums have no rounding. Prices may be of any type.
--
-- Parameters, since their code is not in the repository: Redis, JSON, hmac-sha512, secp256k1, the
-- encoding of addresses, the scripts and payloads that dash-core-sdk reads, regular expressions,
-- localeCompare, Number of a text, the location of an address, and what PostgreSQL reads of an interval, of
-- the text of a number and of an average. What the upstreams and Dash Core answer is an argument.
--
-- Not modelled: the rest of the SQL of the DAOs, the routes and schemas, the rest of the frontend, the
-- indexer in Rust, and of the modelled files the requests to market upstreams and the voting deadline.
pub mod Prelude
pub mod Models
pub mod Transactions
pub mod Addresses
pub mod Xpub
pub mod Cache
pub mod Market
pub mod Intervals
pub mod Durations
pub mod Governance
pub mod Paging
pub mod Peers
pub mod Superblocks
pub mod Handlers
pub mod Buckets
pub mod Client
