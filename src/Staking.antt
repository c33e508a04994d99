-- ===== src/Staking.antt =====
-- backend/src/staking/staking.service.ts: `StakingService`, but for its calls of the contract.
mod Entities
pub mod Rows
pub mod Claims
pub mod Unstaking
mod Tests
pub use Entities.*
use mathlib.Core.List.{reverse}
use renaissance_api.Common.{
  ℕ, ◌+◌, ◌-◌, ◌*◌, ◌/◌, ◌^◌, Bool, true, false, not, Option, none, some, List, [], ◌∷◌, ◌++◌, ◌&&◌,
  ◌||◌, ltb, leb, ◌==◌, if◌then◌else◌, save_by, select_by, take, drop, length,
}
use renaissance_api.Common.Int.{ℤ, pos, negsuc, ltb_ℤ, scaled}
use renaissance_api.Common.Action.{
  Result, ok, ◌>>=◌, ◌>>◌, pure, gets, or_raise, raise_if, modify, in_transaction,
}

pub record StakingConfig : Type 0 where
  pub min_stake_amount : ℤ
  pub max_stake_amount : ℤ
  pub duration_days : ℕ
  pub apr : ℕ

abbrev pub config : StakingConfig
config = record {
  min_stake_amount = pos (10 * 10 ^ 8);
  max_stake_amount = pos (10000 * 10 ^ 8);
  duration_days = 30;
  apr = 12;
}

abbrev pub get_config : StakingConfig
get_config = config

abbrev pub save_user : User → StakeAction (Unit {0})
save_user u db = (ok tt, record db { users = save_by (λ x. x.id) u db.users })

abbrev pub save_transaction : Transaction → StakeAction Transaction
save_transaction t db = (ok t, record db { transactions = save_by (λ x. x.id) t db.transactions })

abbrev pub fetch_user : ℕ → StakeAction User
fetch_user u = do or_raise (← gets (λ db. find_user u db.users)) user_not_found

abbrev pub fetch_stake : ℕ → ℕ → StakeAction Transaction
fetch_stake i user = do or_raise (← gets (λ db. find_stake i user db.transactions)) stake_not_found

abbrev pub publish : StakeEvent → StakeAction (Unit {0})
publish e = modify λ db. record db { events = db.events ++ e ∷ [] }

abbrev pub end_date_of : ℕ → ℕ
end_date_of start = start + config.duration_days * 86400000

-- `amount * (apr / 365 / 100) * durationDays`
abbrev pub reward_of : ℤ → ℤ
reward_of amount = scaled amount (config.apr * config.duration_days) (365 * 100)

abbrev pub stake_row : ℕ → ℕ → ℤ → ℕ → Transaction
stake_row i user amount now = record {
  id = i;
  user_id = user;
  type = staking_penalty;
  amount = negated (some amount);
  status = pending;
  reference_id = none;
  metadata = record { staked_amount = some amount; reward_amount = some (reward_of amount) };
  created_at = now;
}

-- The change of a user's balance, then the status of the record.
abbrev pub settle_row : User → Amount → Transaction → StakeAction Transaction
settle_row u balance t = do
  save_user (record u { wallet_balance = balance })
  save_transaction (record t { status = completed })

abbrev pub stake_found : IdSource → ℕ → ℤ → ℕ → User → StakeAction Transaction
stake_found new_id user amount now u = do
  raise_if (is_less u.wallet_balance (some amount)) insufficient_balance
  i ← gets (λ db. new_id db.transactions)
  t ← save_transaction (stake_row i user amount now)
  settle_row u (minus u.wallet_balance (some amount)) t

unfoldable pub stake_tokens : IdSource → ℕ → ℕ → ℤ → StakeAction StakeResult
stake_tokens new_id now user amount = do
  raise_if (ltb_ℤ amount config.min_stake_amount) below_minimum
  raise_if (ltb_ℤ config.max_stake_amount amount) above_maximum
  t ← in_transaction (fetch_user user >>= stake_found new_id user amount now)
  publish (debited user (some amount))
  pure record {
    staked_amount = some amount;
    reward_amount = some (reward_of amount);
    end_date = end_date_of now;
    transaction_id = t.id;
  }

abbrev pub reward_row : ℕ → ℕ → ℕ → Transaction → Transaction
reward_row i user now s = record {
  id = i;
  user_id = user;
  type = staking_reward;
  amount = s.metadata.reward_amount;
  status = pending;
  reference_id = some s.id;
  metadata = s.metadata;
  created_at = now;
}

abbrev pub reverse_stake : Transaction → StakeAction Transaction
reverse_stake s = save_transaction (record s { status = reversed })

-- A record of the return of a stake: it is saved, the user is paid, and the stake is reversed.
abbrev pub pay_back : ℕ → Amount → Transaction → Transaction → StakeAction Transaction
pay_back user amount row s = do
  t ← save_transaction row
  u ← fetch_user user
  settle_row u (plus u.wallet_balance amount) t
  reverse_stake s
  pure t

abbrev pub claim_found : IdSource → ℕ → ℕ → Transaction → StakeAction (Transaction × Transaction)
claim_found new_id now user s = do
  raise_if (ltb now (end_date_of s.created_at)) still_locked
  i ← gets (λ db. new_id db.transactions)
  t ←
      pay_back user (plus s.metadata.reward_amount s.metadata.staked_amount)
        (reward_row i user now s) s
  pure (t, s)

unfoldable pub claim_rewards : IdSource → ℕ → ℕ → ℕ → StakeAction StakeResult
claim_rewards new_id now user i = do
  p ← in_transaction (fetch_stake i user >>= claim_found new_id now user)
  publish (credited user p.1.metadata.staked_amount p.1.metadata.reward_amount)
  pure record {
    staked_amount = p.1.metadata.staked_amount;
    reward_amount = p.1.metadata.reward_amount;
    end_date = end_date_of p.1.created_at;
    transaction_id = p.0.id;
  }

-- The percentage is a whole number.
abbrev pub penalty_of : ℕ → Amount → Amount
penalty_of percent none = none
penalty_of percent (some a) = some (scaled a percent 100)

abbrev pub penalty_row : ℕ → ℕ → ℕ → ℕ → Transaction → Transaction
penalty_row i user percent now s = record {
  id = i;
  user_id = user;
  type = staking_penalty;
  amount = negated (penalty_of percent s.metadata.staked_amount);
  status = pending;
  reference_id = some s.id;
  metadata = record { staked_amount = s.metadata.staked_amount; reward_amount = none };
  created_at = now;
}

abbrev pub return_of : ℕ → Amount → Amount
return_of percent staked = minus staked (penalty_of percent staked)

abbrev pub unstake_found :
    IdSource → ℕ → ℕ → ℕ → Transaction → StakeAction (Transaction × Transaction)
unstake_found new_id now user percent s = do
  i ← gets (λ db. new_id db.transactions)
  t ←
      pay_back user (return_of percent s.metadata.staked_amount) (penalty_row i user percent now s)
        s
  pure (t, s)

abbrev pub unstake_percent : IdSource → ℕ → ℕ → ℕ → ℕ → StakeAction StakeResult
unstake_percent new_id now user i percent = do
  raise_if (ltb 100 percent) bad_penalty
  p ← in_transaction (fetch_stake i user >>= unstake_found new_id now user percent)
  pure record {
    staked_amount = p.1.metadata.staked_amount;
    reward_amount = negated (penalty_of percent p.1.metadata.staked_amount);
    end_date = now;
    transaction_id = p.0.id;
  }

unfoldable pub early_unstake : IdSource → ℕ → ℕ → ℕ → ℤ → StakeAction StakeResult
early_unstake new_id now user i (negsuc p) db = (Result.err bad_penalty, db)
early_unstake new_id now user i (pos p) db = unstake_percent new_id now user i p db

-- `getActiveStakes`, the newest first.
unfoldable pub get_active_stakes : ℕ → ℕ → StakeDb → List Transaction
get_active_stakes now user db =
    select_by (λ t. ltb now (end_date_of t.created_at))
      (reverse (
        select_by (λ t. t.user_id == user && (is_penalty t.type && is_completed t.status))
          db.transactions))

pub record StakingHistory : Type 0 where
  pub page_rows : List Transaction
  pub total : ℕ
  pub page : ℕ
  pub limit : ℕ
  pub total_pages : ℕ

-- For a page from 1 on and a limit above 0.
unfoldable pub get_staking_history : ℕ → ℕ → ℕ → StakeDb → StakingHistory
get_staking_history user page limit db =
    let rows = select_by (λ t. t.user_id == user && is_penalty t.type) db.transactions in
    record {
      page_rows = take limit (drop ((page - 1) * limit) (reverse rows));
      total = length rows;
      page = page;
      limit = limit;
      total_pages = (length rows + (limit - 1)) / limit;
    }
