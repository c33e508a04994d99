-- ===== src/Wallet/Entities.antt =====
-- backend/src/wallet/entities: the tables `balances` and `balance_transactions`, and the errors
-- of the wallet. An amount is a whole number of units of 10^-8, the scale of the columns.
use renaissance_api.Common.{ℕ, ◌≡◌, Bool, true, false, Option, none, some, List, ◌==◌, find_by}
use renaissance_api.Common.Int.{ℤ}
use renaissance_api.Common.Action.{Action}

-- `availableBalance` and `lockedBalance` of one user.
pub record Balance : Type 0 where
  pub id : ℕ
  pub user_id : ℕ
  pub available_balance : ℤ
  pub locked_balance : ℤ

pub data TransactionType : Type 0 where
  credit debit : TransactionType

pub data TransactionSource : Type 0 where
  bet stake reward deposit withdrawal : TransactionSource

-- The JSON column `metadata`: what a caller passes, or the wallet's own `action` tags.
pub data Metadata : Type 0 where
  caller : ℕ → Metadata
  lock_funds unlock_funds consume_locked : Metadata

-- `reference_id` is `none` where the source has an empty or a missing reference.
pub record BalanceTransaction : Type 0 where
  pub balance_id : ℕ
  pub amount : ℤ
  pub type : TransactionType
  pub source : TransactionSource
  pub reference_id : Option ℕ
  pub metadata : Metadata
  pub previous_balance : ℤ
  pub new_balance : ℤ

-- The newest transaction stands first, as `getTransactionHistory` orders them.
pub record WalletDb : Type 0 where
  pub balances : List Balance
  pub transactions : List BalanceTransaction

pub data Error : Type 0 where
  -- BadRequestException
  amount_not_positive : Error
  -- ConflictException
  already_processed insufficient_funds insufficient_available insufficient_locked : Error

abbrev pub WalletAction : Type 0 → Type 0
WalletAction = Action Error WalletDb

-- The id that the database gives to a new row, from the rows that there are.
abbrev pub IdSource : Type 0
IdSource = List Balance → ℕ

abbrev pub find_user : ℕ → List Balance → Option Balance
find_user u = find_by λ b. b.user_id == u

abbrev pub find_id : ℕ → List Balance → Option Balance
find_id i = find_by λ b. b.id == i

-- A new id is the id of no row.
abbrev pub IsFresh : IdSource → Type 0
IsFresh new_id = (rows : List Balance) → find_id (new_id rows) rows ≡ none

abbrev pub same_type : TransactionType → TransactionType → Bool
same_type credit credit = true
same_type debit debit = true
same_type _ _ = false

abbrev pub same_source : TransactionSource → TransactionSource → Bool
same_source bet bet = true
same_source stake stake = true
same_source reward reward = true
same_source deposit deposit = true
same_source withdrawal withdrawal = true
same_source _ _ = false

abbrev pub is_reference : ℕ → Option ℕ → Bool
is_reference r none = false
is_reference r (some q) = q == r

abbrev pub is_some {ℓ} : {A : Type ℓ} → Option A → Bool
is_some none = false
is_some (some _) = true
