-- ===== src/Spins/Entities.antt =====
-- backend/src/spin/entities/spin.entity.ts and backend/src/spin/dto: the table of spins, the wheel's
-- outcomes, the request and the errors. An amount is a number of units of 10^-8.
use renaissance_api.Common.{ℕ, Bool, Option, List, ◌==◌, find_by}
use renaissance_api.Common.Int.{ℤ}
use renaissance_api.Common.Action.{Result, ok, err, Action}
use renaissance_api.Wallet
use renaissance_api.Wallet.{WalletDb, WalletAction}
use renaissance_api.Vouchers
use renaissance_api.Vouchers.{VoucherDb, VoucherAction}
use renaissance_api.RateLimit.{LimitDb}

pub data SpinOutcome : Type 0 where
  jackpot high_win medium_win small_win no_win : SpinOutcome

pub data RewardChannel : Type 0 where
  xlm nft free_bet : RewardChannel

-- Only spins that are completed are stored. Of the metadata, the seed's digest, the channel and the
-- voucher are kept.
pub record Spin : Type 0 where
  pub id : ℕ
  pub user_id : ℕ
  pub session_id : ℕ
  pub stake_amount : ℤ
  pub outcome : SpinOutcome
  pub payout_amount : ℤ
  pub random_seed : ℕ
  pub reward_channel : Option RewardChannel
  pub voucher_id : Option ℕ

pub record CreateSpin : Type 0 where
  pub stake_amount : ℤ
  pub client_seed : Option ℕ
  pub is_free_bet : Bool

-- `SpinResultDto`, but for the time.
pub record SpinResult : Type 0 where
  pub id : ℕ
  pub outcome : SpinOutcome
  pub payout_amount : ℤ
  pub stake_amount : ℤ
  pub net_result : ℤ

-- `SpinSettledEvent`
pub record SpinSettled : Type 0 where
  pub user_id : ℕ
  pub spin_id : ℕ
  pub outcome : SpinOutcome
  pub stake_amount : ℤ
  pub payout_amount : ℤ
  pub is_win : Bool

pub record SpinDb : Type 0 where
  pub spins : List Spin
  pub wallet : WalletDb
  pub vouchers : VoucherDb
  pub limits : LimitDb
  pub events : List SpinSettled

pub data Error : Type 0 where
  -- BadRequestException
  minimum_stake stake_refused treasury_unavailable : Error
  -- what the wallet and the vouchers throw
  wallet_error : Wallet.Error → Error
  voucher_error : Vouchers.Error → Error

abbrev pub SpinAction : Type 0 → Type 0
SpinAction = Action Error SpinDb

module _ {A : Type 0} where
  abbrev pub map_error : {E : Type 0} → (E → Error) → Result E A → Result Error A
  map_error f (ok a) = ok a
  map_error f (err e) = err (f e)

  -- A call of the wallet and of the voucher service.
  abbrev pub in_wallet : WalletAction A → SpinAction A
  in_wallet m db = let (r, w) = m db.wallet in (map_error wallet_error r, record db { wallet = w })

  abbrev pub in_vouchers : VoucherAction A → SpinAction A
  in_vouchers m db =
      let (r, v) = m db.vouchers in (map_error voucher_error r, record db { vouchers = v })

abbrev pub find_by_session : ℕ → List Spin → Option Spin
find_by_session i = find_by λ s. s.session_id == i

-- What the service calls outside: the ids that the database gives to new rows, the uuid of a wallet
-- transaction, the digest of a session and of the random bytes, and the answer of the contract
-- `treasury_check` to a payout.
pub record Environment : Type 0 where
  pub balance_ids : Wallet.IdSource
  pub voucher_ids : Vouchers.IdSource
  pub spin_ids : List Spin → ℕ
  pub uuid : ℕ
  pub session_digest : ℕ → ℕ → Option ℕ → ℤ → ℕ
  pub seed_digest : ℕ → ℕ
  pub treasury_check : ℤ → Bool
