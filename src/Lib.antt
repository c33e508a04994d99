-- ===== src/Lib.antt =====
-- The core of the API's backend: the wallet, the free-bet vouchers, the matches with their odds, the
-- bets and the queue that settles them, the spins of the wheel, the stakes, the Merkle tree of the
-- proofs of solvency, the market of cards, the achievements, the predictions, the seasons, and the
-- roles of users.
--
-- A user's funds are a balance with an available and a locked part, kept by the wallet together with
-- a log of transactions. A bet is paid for from the wallet or by a free-bet voucher. When its match
-- is finished, the bets service settles the pending bets in batches: it pays the winners through the
-- wallet, inside the transaction of the batch, and publishes one event for each settled bet. A
-- cancelled bet gives its stake back to the wallet, or its voucher back to the user. A match goes from
-- upcoming to live to finished, or is postponed or cancelled; its end publishes the event on which the
-- queue enqueues its settlement. A spin takes its stake from the wallet, draws an outcome, and pays it
-- into the wallet or by a voucher, in one transaction. Stakes are kept on the users' own balances, in
-- another table than the wallet's, which the market of cards uses too. The events of bets, spins and
-- stakes bring users closer to their achievements.
--
-- Common: Boolean tests, lists as tables (Common/Lists: `findOne`, `find`, `count`, `save`), integers
--   over the native numbers (Common/Int), and service methods as actions (Common/Action): an action
--   reads and writes a database and may throw; a transaction rolls back what was written.
-- Wallet: backend/src/wallet/wallet.service.ts, one definition for each method of `WalletService`;
--   `x_callback` is the function that method `x` passes to `performAtomicOperation`. Wallet/Entities
--   holds the tables of backend/src/wallet/entities. Wallet/Invariant says which stores are valid,
--   Wallet/Transactions what a transaction commits, Wallet/Operations and Wallet/Updates treat each
--   method, Wallet/History sequences of calls.
-- Vouchers: backend/src/free-bet-vouchers/free-bet-vouchers.service.ts, with the entity and the
--   requests in Vouchers/Entities. Vouchers/Lifecycle is about every sequence of calls, Vouchers/Use
--   about consumption, restoration, the limit and the statistics, Vouchers/Queries about the lists.
-- Bets: backend/src/bets/bets.service.ts, with backend/src/bets/entities,
--   backend/src/matches/entities, backend/src/common/enums and the event of
--   backend/src/leaderboard/domain/events in Bets/Entities. Bets/Batch, Bets/Locked, Bets/Payment,
--   Bets/Sums and Bets/Settlement build up the settlement of a batch and of all batches,
--   Bets/Outcomes and Bets/MatchBets are about the settlement of a match, Bets/Changes about a
--   change of status, Bets/Cancellation about a cancellation, and Bets/Queries holds the reading
--   methods.
-- Settlements: backend/src/bet-settlement/bet-settlement.service.ts, the queue that calls the
--   settlement of a match and retries it, with its entities in Settlements/Entities. Settlements/Attempts
--   is about what an attempt leaves, Settlements/Jobs about the jobs and the tick, Settlements/Success
--   about a job whose match can be settled.
--
-- Matches: backend/src/matches/matches.service.ts, with the tables, requests and events in
--   Matches/Entities, the lists in Matches/Queries, and backend/src/odds/odds.service.ts in
--   Matches/Odds. Matches/Changes is about what an update saves and publishes, Matches/Status and
--   Matches/Life about sequences of calls, Matches/Finishing about the end of a match and the
--   settlement that follows; `bet_view` is what the bets service reads of a match.
-- Spins: backend/src/spin/spin.service.ts, with backend/src/spin/entities and backend/src/spin/dto in
--   Spins/Entities. Spins/Wheel is about the draw, Spins/Payout and Spins/Play about a spin,
--   Spins/Replay about a session that is sent again, Spins/Statistics about the statistics.
-- SpinSessions: backend/src/spin/spin-session.service.ts; SpinSessions/Lifecycle is about the life of
--   a session.
-- RateLimit: backend/src/rate-limit/rate-limit-interaction.service.ts; RateLimit/Cooldown is about the
--   time after an interaction.
-- Staking: backend/src/staking/staking.service.ts, with the tables it uses in Staking/Entities.
--   Staking/Rows is about the rows that its methods leave, Staking/Claims about a stake and its claim,
--   Staking/Unstaking about the early return.
-- Solvency: backend/src/solvency/merkle-tree.ts, and backend/src/solvency/solvency.service.ts in
--   Solvency/Reserves; Solvency/Proofs is about the proofs of the tree, Solvency/Verification about how
--   the generation of a proof of reserves ends.
-- Marketplace: backend/src/nft/nft-marketplace.service.ts, with the listings, the offers and the columns
--   that it reads of cards and users in Marketplace/Entities, and the lists in Marketplace/Queries.
--   Marketplace/Sales is about the sale that a purchase and an acceptance share, Marketplace/Purchase and
--   Marketplace/Acceptance about the two, Marketplace/Ownership about sequences of calls.
-- Gamification: backend/src/gamification, the service and its handlers of the events of bets, spins and
--   stakes; Gamification/Awards is about the events of achievements, Gamification/Counting about those
--   that count events.
-- Predictions: backend/src/match-settlement/match-settlement.service.ts, with its rows in
--   Predictions/Entities, the rewards and their payment in Predictions/Rewards; Predictions/Rows is
--   about the rows that a settlement leaves,
--   Predictions/Settlement about the routes that settle and refund.
-- Seasons: season-reset.service.ts of backend/src/leaderboard/services, with season.service.ts in
--   Seasons/Calendar, seasonal-leaderboard.service.ts in Seasons/Standings and the tables in
--   Seasons/Entities. Seasons/Dates is about the dates that each call keeps, Seasons/Current about
--   sequences of calls, Seasons/Rankings about the ranks, Seasons/Records about the rows.
-- Access: backend/src/auth/services/role-management.service.ts with the guards that read the role of a
--   user, and permission.service.ts with the guards that call it in Access/Permissions. A guard gets what
--   its decorators require and the user of the request as arguments. Access/Privileges is about who can
--   give roles, Access/Caching about the permissions of a user.
--
-- How the code corresponds. Ids, references and user ids are numbers; a time is a number of
-- milliseconds and `now` an argument. An amount is a whole number of units of 10^-8, the scale of the
-- database columns, where the code computes on floating-point numbers. A table is a list of rows; the
-- id of a new row comes from a parameter, of which the theorems suppose that it returns the id of no
-- row. Metadata keeps the keys that the code reads. Row locks serialize the transactions, so that one
-- runs at a time; a call of one service inside another's transaction is the same action in sequence.
-- What the spin service calls outside is the record `Environment`: the ids of new rows, the digests and
-- the answer of the contract to a payout; the number read from the random bytes is an argument, and a
-- product with a fraction is rounded to a whole unit. A text of a match is a number, its odds are
-- hundredths; the floating-point test on two odds and the pattern match of SQL are parameters, as are
-- the digests of a Merkle tree, the balances it is built from and the contract that gets its root.
-- An amount of a stake is `none` where the code gets NaN. The fees of a sale are rounded to the nearest
-- unit, and so is the accuracy of bets to the nearest hundredth of a percent. A list in an order is
-- sorted by insertion (Common/Sorting), the earlier row first among equals. The Stellar service that
-- pays a prediction is a parameter, its stakes are stroops, as numbers,
-- which the type of a prediction in the code says (the schema in its comment has texts), and a
-- multiplier is a number of 1/10000.
--
-- What the tables do. A save leaves out what is undefined, so that the row keeps it. A column with fewer
-- decimals than an amount has rounds it, half away from zero: two decimals for spins and the points of a
-- season, none for the amounts of the solvency. The row of a spin session goes through the hook of its
-- entity before an update, and a snapshot is refused where its user is no uuid. Amounts too large for
-- their column and the six decimals of the ratio of a proof are left out.
--
-- The loop over the batches runs on fuel. Each batch that is not empty settles a bet, so that more fuel
-- than there are bets is enough, and the theorem on the settlement proves it. A batch has between 1 and
-- 500 bets, 200 where no size is given, as in the code. The loop that builds a Merkle tree has the number
-- of leaves as fuel: each layer that is built is shorter, and the theorem on the first leaf proves that
-- the last layer is the root. The function that cuts a list into batches has the length of the list as
-- fuel, as each batch takes an item.
--
-- Not modelled: `placeBet`, which uses names that it does not declare, the automatic odds, which are
-- computed in floating point, the archive of old proofs, the loggers, the caches of responses,
-- the controllers, the other guards and the modules, the delivery of events, the list of the rewards
-- of a user and the
-- history of the seasons of a user, the other services of the backend (spin game, the ranking and the
-- aggregation of leaderboards, treasury, fraud and others), and the smart contracts.
pub mod Common
pub mod Wallet
pub mod Vouchers
pub mod Bets
pub mod Access
pub mod Gamification
pub mod Marketplace
pub mod Matches
pub mod Predictions
pub mod RateLimit
pub mod Seasons
pub mod Settlements
pub mod Solvency
pub mod SpinSessions
pub mod Spins
pub mod Staking
