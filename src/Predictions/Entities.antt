-- ===== src/Predictions/Entities.antt =====
-- backend/src/match-settlement/match-settlement.service.ts: the rows of matches, predictions, balances
-- and audits. A stake is a number of stroops; a multiplier is a number of 1/10000, to which the code
-- rounds it.
use renaissance_api.Common.{ℕ, Bool, true, false, Option, List, ◌==◌, ◌&&◌, find_by}
use renaissance_api.Common.Action.{Action}

pub data Outcome : Type 0 where
  home_win away_win draw : Outcome

pub data PredictionStatus : Type 0 where
  pending won lost refunded settled : PredictionStatus

pub record Prediction : Type 0 where
  pub id : ℕ
  pub user_id : ℕ
  pub match_id : ℕ
  pub predicted_outcome : Outcome
  pub stake_amount : ℕ
  pub reward_multiplier : ℕ
  pub status : PredictionStatus
  pub reward_amount : Option ℕ
  pub settled_at : Option ℕ

-- `result o` is the outcome of a settlement, `all_refunded` that of a refund of all stakes.
pub data MatchOutcome : Type 0 where
  result : Outcome → MatchOutcome
  all_refunded : MatchOutcome

pub record Match : Type 0 where
  pub id : ℕ
  pub is_settled : Bool
  pub outcome : Option MatchOutcome
  pub settled_at : Option ℕ

pub record UserBalance : Type 0 where
  pub user_id : ℕ
  pub pending_rewards : ℕ
  pub total_earned : ℕ

pub record RewardCalculation : Type 0 where
  pub prediction_id : ℕ
  pub user_id : ℕ
  pub stake_amount : ℕ
  pub reward_amount : ℕ
  pub is_winner : Bool
  pub is_refund : Bool

-- What went wrong with a payment to a user.
pub data PaymentError : Type 0 where
  no_wallet : ℕ → PaymentError
  too_small : ℕ → ℕ → PaymentError
  payment_failed payment_thrown : ℕ → ℕ → PaymentError

-- `SettlementAuditEntry`
pub record Audit : Type 0 where
  pub match_id : ℕ
  pub settled_at : ℕ
  pub total_predictions : ℕ
  pub winners : ℕ
  pub losers : ℕ
  pub refunds : ℕ
  pub total_rewarded : ℕ
  pub total_refunded : ℕ
  pub tx_hashes : List ℕ
  pub errors : List PaymentError

pub record Db : Type 0 where
  pub matches : List Match
  pub predictions : List Prediction
  pub balances : List UserBalance
  pub audits : List Audit

-- The answers 400, 404 and 409.
pub data Error : Type 0 where
  scores_required match_not_found already_settled no_settlement_record : Error
  -- A TypeError, answered with 500.
  not_serializable : Error

abbrev pub SettleAction : Type 0 → Type 0
SettleAction = Action Error Db

abbrev pub find_match : ℕ → List Match → Option Match
find_match i = find_by λ x. x.id == i

abbrev pub find_prediction : ℕ → List Prediction → Option Prediction
find_prediction i = find_by λ x. x.id == i

abbrev pub find_balance : ℕ → List UserBalance → Option UserBalance
find_balance u = find_by λ x. x.user_id == u

abbrev pub is_pending : PredictionStatus → Bool
is_pending pending = true
is_pending _ = false

-- A pending prediction of the match.
abbrev pub is_open : ℕ → Prediction → Bool
is_open m p = p.match_id == m && is_pending p.status

abbrev pub same_outcome : Outcome → Outcome → Bool
same_outcome home_win home_win = true
same_outcome away_win away_win = true
same_outcome draw draw = true
same_outcome _ _ = false
