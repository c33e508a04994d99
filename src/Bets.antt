-- ===== src/Bets.antt =====
-- backend/src/bets/bets.service.ts: settlement, cancellation and the change of a status.
mod Entities
pub mod Batch
pub mod Locked
pub mod Payment
pub mod Sums
pub mod Settlement
pub mod Outcomes
pub mod MatchBets
pub mod Changes
pub mod Cancellation
pub mod Queries
mod Tests
pub use Entities.*
use renaissance_api.Common.{
  ℕ, zero, suc, ◌+◌, Bool, true, false, not, Option, none, some, List, [], ◌∷◌, ◌++◌, ◌&&◌, ◌||◌,
  map, min, max, ◌==◌, if◌then◌else◌, find_by, select_by, save_by, take,
}
use renaissance_api.Common.Int.{ℤ, pos, ◌+ℤ◌, ◌-ℤ◌, ltb_ℤ}
use renaissance_api.Common.Action.{
  ok, err, ◌>>=◌, ◌>>◌, pure, raise, gets, or_raise, raise_if, modify, in_transaction,
}
use renaissance_api.Wallet
use renaissance_api.Wallet.{IdSource, caller}
use renaissance_api.Vouchers

pub record Summary : Type 0 where
  pub settled : ℕ
  pub won : ℕ
  pub lost : ℕ
  pub total_payout : ℤ

abbrev pub no_bets : Summary
no_bets = record { settled = 0; won = 0; lost = 0; total_payout = pos 0 }

-- The sums of `settleMatchBets` and of the loop over the batches.
abbrev pub add_summary : Summary → Summary → Summary
add_summary s t = record {
  settled = s.settled + t.settled;
  won = s.won + t.won;
  lost = s.lost + t.lost;
  total_payout = s.total_payout +ℤ t.total_payout;
}

abbrev pub save_bet : Bet → BetAction Bet
save_bet b db = (ok b, record db { bets = save_by (λ x. x.id) b db.bets })

-- The winnings of a bet that is won. A free bet whose voucher is not withdrawable keeps its stake.
abbrev pub winnings : Bet → ℤ
winnings b =
    let profit = b.potential_payout -ℤ b.stake_amount in
    if b.metadata.is_free_bet && not b.metadata.is_voucher_withdrawable
    then (if ltb_ℤ (pos 0) profit then profit else pos 0)
    else b.potential_payout

abbrev pub settled_bet : ℕ → Bool → Bet → Bet
settled_bet now win b = record b { status = if win then won else lost; settled_at = some now }

-- The event of a settled bet. Its match is the bet's, which is the match that is settled.
abbrev pub settled_event : Bool → ℤ → Bet → BetSettled
settled_event win amount b = record {
  user_id = b.user_id;
  bet_id = b.id;
  match_id = b.match_id;
  is_win = win;
  stake_amount = b.stake_amount;
  winnings_amount = amount;
}

-- One settled bet in the summary of a batch.
abbrev pub count_settled : Bool → ℤ → Summary → Summary
count_settled win amount s = record {
  settled = s.settled + 1;
  won = s.won + (if win then 1 else 0);
  lost = s.lost + (if win then 0 else 1);
  total_payout = s.total_payout +ℤ amount;
}

-- The credit of winnings that are positive, in the batch's transaction.
abbrev pub credit_winnings : IdSource → ℤ → Bet → BetAction (Unit {0})
credit_winnings new_id amount b =
    if ltb_ℤ (pos 0) amount
    then (in_wallet (Wallet.update_user_balance new_id b.user_id amount b.id (caller b.id))
        >>= λ success. raise_if (not success) credit_failed)
    else pure tt

-- The body of the loop of `settleBetBatch` for a bet that is not passed over.
unfoldable pub settle_bet : IdSource → ℕ → Bool → Bet → BetAction BetSettled
settle_bet new_id now win b = do
  let amount = if win then winnings b else pos 0
  if win then credit_winnings new_id amount b else pure tt
  save_bet (settled_bet now win b)
  pure (settled_event win amount b)

module _ (new_id : IdSource) (now : ℕ) (outcome : MatchOutcome) where
  -- The loop of `settleBetBatch`, on the summary and the events so far.
  unfoldable pub settle_loop :
      Bool → List Bet → Summary × List BetSettled → BetAction (Summary × List BetSettled)
  settle_loop winners_only [] acc = pure acc
  settle_loop winners_only (b ∷ bs) (s, events) =
      let win = same_outcome b.predicted_outcome outcome in
      let skipped = settle_loop winners_only bs (s, events) in
      if winners_only && not win || not winners_only && win
      then skipped
      else (settle_bet new_id now win b >>= λ e.
          settle_loop winners_only bs (count_settled win e.winnings_amount s, events ++ e ∷ []))

module _ (m : ℕ) (outcome : MatchOutcome) where
  -- The pending bets of the match that `loadPendingSettlementBatch` asks for.
  abbrev pub selected : Bool → Bet → Bool
  selected winners_only b =
      (b.match_id == m && is_pending b.status)
      && (if winners_only
          then same_outcome b.predicted_outcome outcome
          else not (same_outcome b.predicted_outcome outcome))

  abbrev pub load_pending_settlement_batch : ℕ → Bool → Db → List Bet
  load_pending_settlement_batch size winners_only db =
      take size (select_by (selected winners_only) db.bets)

-- `id IN (...)`
abbrev pub contains_id : ℕ → List Bet → Bool
contains_id i [] = false
contains_id i (b ∷ bs) = b.id == i || contains_id i bs

-- The rows of the batch that are still pending when they are locked, in the order of the batch.
abbrev pub locked_bets : List Bet → List Bet → List Bet
locked_bets batch = select_by λ b. contains_id b.id batch && is_pending b.status

abbrev pub keep_found : Option Bet → List Bet → List Bet
keep_found none bs = bs
keep_found (some b) bs = b ∷ bs

abbrev pub ordered_bets : List Bet → List Bet → List Bet
ordered_bets locked [] = []
ordered_bets locked (b ∷ bs) = keep_found (find_bet b.id locked) (ordered_bets locked bs)

abbrev pub publish : List BetSettled → BetAction (Unit {0})
publish events = modify λ db. record db { events = db.events ++ events }

module _ (new_id : IdSource) (now : ℕ) (m : ℕ) (outcome : MatchOutcome) where
  -- The transaction commits before the events are published.
  unfoldable pub settle_bet_batch : Bool → List Bet → BetAction Summary
  settle_bet_batch winners_only batch = do
    (summary, events) ← in_transaction do
      ordered ← gets (λ db. ordered_bets (locked_bets batch db.bets) batch)
      settle_loop new_id now outcome winners_only ordered (no_bets, [])
    publish events
    pure summary

  -- The loop over the batches, on fuel and on the summary so far.
  unfoldable pub process_settlement_batches : ℕ → ℕ → Bool → Summary → BetAction Summary
  process_settlement_batches zero size winners_only summary = raise out_of_fuel
  process_settlement_batches (suc fuel) size winners_only summary = do
    batch ← gets (load_pending_settlement_batch m outcome size winners_only)
    elim batch [
      | [] ↦ pure summary
      | b ∷ bs ↦ settle_bet_batch winners_only (b ∷ bs) >>= λ s.
          process_settlement_batches fuel size winners_only (add_summary summary s)
    ]

-- `Math.max(1, Math.min(options.batchSize ?? 200, 500))`
abbrev pub batch_size : Option ℕ → ℕ
batch_size none = 200
batch_size (some n) = max 1 (min n 500)

unfoldable pub settle_match_bets : IdSource → ℕ → ℕ → ℕ → Option ℕ → BetAction Summary
settle_match_bets new_id fuel now match_id size = do
  m ← or_raise (← gets (λ db. find_match match_id db.matches)) match_not_found
  raise_if (not (is_finished m.status)) match_not_finished
  outcome ← or_raise m.outcome outcome_not_set
  winners ← process_settlement_batches new_id now m.id outcome fuel (batch_size size) true no_bets
  losers ← process_settlement_batches new_id now m.id outcome fuel (batch_size size) false no_bets
  pure (add_summary winners losers)

-- `validateStatusTransition`
abbrev pub validate_status_transition : BetStatus → BetStatus → BetAction (Unit {0})
validate_status_transition current next = do
  raise_if (not (is_pending current)) already_settled
  raise_if (is_pending next) invalid_transition

abbrev pub is_decided : BetStatus → Bool
is_decided won = true
is_decided lost = true
is_decided _ = false

abbrev pub is_won : BetStatus → Bool
is_won won = true
is_won _ = false

-- `updateBetStatus`
unfoldable pub update_bet_status : ℕ → ℕ → BetStatus → BetAction Bet
update_bet_status now i status = do
  b ← or_raise (← gets (λ db. find_bet i db.bets)) bet_not_found
  validate_status_transition b.status status
  let b' = record b { status = status; settled_at = some now }
  save_bet b'
  publish (
      if is_decided status
      then settled_event (is_won status) (if is_won status then b'.potential_payout else pos 0) b'
        ∷ []
      else [])
  pure b'

-- The refund of a cancelled bet. The wallet's credit is a transaction of its own; its reference is
-- a new uuid.
abbrev pub refund : IdSource → ℕ → Bet → BetAction (Unit {0})
refund new_id reference b =
    let to_wallet : BetAction (Unit {0}) =
      in_wallet
        (Wallet.credit new_id b.user_id b.stake_amount Wallet.bet (some reference) (caller b.id))
      >>= λ _. pure tt in
    elim b.metadata.voucher_id [
      | none ↦ to_wallet
      | some voucher ↦
          if b.metadata.is_free_bet && not b.metadata.is_voucher_withdrawable
          then (in_vouchers (Vouchers.restore_voucher_with_manager voucher b.user_id (some b.id))
              >>= λ _. pure tt)
          else to_wallet
    ]

-- `cancelBet`. What the refund has credited is committed on its own; all other writes are rolled
-- back on a throw, and none follows the refund but the bet's.
unfoldable pub cancel_bet : IdSource → ℕ → ℕ → ℕ → ℕ → Bool → BetAction Bet
cancel_bet new_id reference now i user is_admin = do
  b ← or_raise (← gets (λ db. find_bet i db.bets)) bet_not_found
  raise_if (not is_admin && not (b.user_id == user)) no_access
  raise_if (not (is_pending b.status)) already_settled
  refund new_id reference b
  save_bet (record b { status = cancelled; settled_at = some now })
