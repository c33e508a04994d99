-- ===== src/Staking/Entities.antt =====
-- backend/src/staking, backend/src/transactions/entities and backend/src/users/entities: the rows of
-- users and transactions, the events and the errors. An amount is a number of units of 10^-8, `none`
-- where the code computes with a number that is missing, NaN. A time is in milliseconds.
use renaissance_api.Common.{ℕ, Bool, true, false, ◌&&◌, Option, none, some, List, ◌==◌, find_by}
use renaissance_api.Common.Int.{ℤ, pos, ◌+ℤ◌, ◌-ℤ◌, ltb_ℤ}
use renaissance_api.Common.Action.{Action}

abbrev pub Amount : Type 0
Amount = Option ℤ

abbrev pub lift_amount : (ℤ → ℤ → ℤ) → Amount → Amount → Amount
lift_amount f (some a) (some b) = some (f a b)
lift_amount f _ _ = none

abbrev pub plus : Amount → Amount → Amount
plus = lift_amount (λ a b. a +ℤ b)

abbrev pub minus : Amount → Amount → Amount
minus = lift_amount (λ a b. a -ℤ b)

abbrev pub negated : Amount → Amount
negated a = minus (some (pos 0)) a

-- Nothing is less than NaN, nor NaN than anything.
abbrev pub is_less : Amount → Amount → Bool
is_less (some a) (some b) = ltb_ℤ a b
is_less _ _ = false

pub data TransactionType : Type 0 where
  bet_placement bet_winning bet_cancellation wallet_deposit wallet_withdrawal : TransactionType
  staking_reward staking_penalty : TransactionType

pub data TransactionStatus : Type 0 where
  pending completed failed reversed : TransactionStatus

-- The keys of the JSON column that the staking service reads.
pub record StakeMetadata : Type 0 where
  pub staked_amount : Amount
  pub reward_amount : Amount

pub record Transaction : Type 0 where
  pub id : ℕ
  pub user_id : ℕ
  pub type : TransactionType
  pub amount : Amount
  pub status : TransactionStatus
  pub reference_id : Option ℕ
  pub metadata : StakeMetadata
  pub created_at : ℕ

pub record User : Type 0 where
  pub id : ℕ
  pub wallet_balance : Amount

pub record StakeResult : Type 0 where
  pub staked_amount : Amount
  pub reward_amount : Amount
  pub end_date : ℕ
  pub transaction_id : ℕ

-- `StakeDebitedEvent` and `StakeCreditedEvent`
pub data StakeEvent : Type 0 where
  debited : ℕ → Amount → StakeEvent
  credited : ℕ → Amount → Amount → StakeEvent

pub record StakeDb : Type 0 where
  pub users : List User
  pub transactions : List Transaction
  pub events : List StakeEvent

pub data Error : Type 0 where
  -- BadRequestException
  below_minimum above_maximum insufficient_balance still_locked bad_penalty : Error
  -- NotFoundException
  user_not_found stake_not_found : Error

abbrev pub StakeAction : Type 0 → Type 0
StakeAction = Action Error StakeDb

-- The id that the database gives to a new transaction.
abbrev pub IdSource : Type 0
IdSource = List Transaction → ℕ

abbrev pub is_penalty : TransactionType → Bool
is_penalty staking_penalty = true
is_penalty _ = false

abbrev pub is_completed : TransactionStatus → Bool
is_completed completed = true
is_completed _ = false

abbrev pub find_user : ℕ → List User → Option User
find_user u = find_by λ x. x.id == u

-- A completed stake of the user.
abbrev pub is_stake : ℕ → ℕ → Transaction → Bool
is_stake i user t = t.id == i && (t.user_id == user && (is_penalty t.type && is_completed t.status))

abbrev pub find_stake : ℕ → ℕ → List Transaction → Option Transaction
find_stake i user = find_by (is_stake i user)
