-- ===== src/Staking/Rows.antt =====
-- The rows that a stake, a claim and an early return leave.
use renaissance_api.Common.{
  ℕ, ◌≡◌, ap, ◌∙◌, false, Option, none, some, List, [], ◌∷◌, ◌++◌, arith, ◌&&◌, ◌==◌, eq→==,
  if◌then◌else◌, ltb, find_by, save_by, UniqueBy, save_by-UniqueBy, find_by-save_by,
  find_both-UniqueBy, keep,
}
use renaissance_api.Common.Int.{ℤ, ltb_ℤ}
use renaissance_api.Common.Action.{ok, err}
use renaissance_api.Staking.{
  stake_not_found, User, Transaction, Amount, StakeDb, IdSource, completed, reversed, is_less,
  is_penalty, is_completed, find_user, find_stake, minus, plus, config, stake_row, reward_row,
  penalty_row, reward_of, end_date_of, stake_tokens, claim_rewards, unstake_percent, negated,
  penalty_of, return_of, debited, credited,
}

abbrev pub put : Transaction → List Transaction → List Transaction
put = save_by (λ x. x.id)

abbrev pub UniqueIds : List Transaction → Type 0
UniqueIds = UniqueBy (λ x. x.id)

abbrev pub find_row : ℕ → List Transaction → Option Transaction
find_row i = find_by λ x. x.id == i

abbrev pub IsFresh : IdSource → Type 0
IsFresh new_id = (rows : List Transaction) → find_row (new_id rows) rows ≡ none

abbrev pub with_balance : Amount → User → User
with_balance a u = record u { wallet_balance = a }

abbrev pub done : Transaction → Transaction
done t = record t { status = completed }

abbrev pub undone : Transaction → Transaction
undone t = record t { status = reversed }

-- The store after a stake, and after a stake `s` is paid back by the record `t`.
abbrev pub staked_db : ℕ → ℕ → ℤ → ℕ → User → StakeDb → StakeDb
staked_db i user amount now u db = record {
  users = save_by (λ x. x.id) (with_balance (minus u.wallet_balance (some amount)) u) db.users;
  transactions =
      put (done (stake_row i user amount now)) (put (stake_row i user amount now) db.transactions);
  events = db.events ++ debited user (some amount) ∷ [];
}

abbrev pub paid_db : Amount → Transaction → Transaction → User → StakeDb → StakeDb
paid_db amount t s u db = record db {
  users = save_by (λ x. x.id) (with_balance (plus u.wallet_balance amount) u) db.users;
  transactions = put (undone s) (put (done t) (put t db.transactions));
}

pub stake_run :
    (new_id : IdSource) (now user : ℕ) (amount : ℤ) (u : User) (db : StakeDb)
    → ltb_ℤ amount config.min_stake_amount ≡ false
    → ltb_ℤ config.max_stake_amount amount ≡ false
    → find_user user db.users ≡ some u
    → is_less u.wallet_balance (some amount) ≡ false
    → stake_tokens new_id now user amount db ≡ (
      ok (record {
        staked_amount = some amount;
        reward_amount = some (reward_of amount);
        end_date = end_date_of now;
        transaction_id = new_id db.transactions;
      }),
      staked_db (new_id db.transactions) user amount now u db,
    )
unfolding stake_tokens
stake_run new_id now user amount u db low high found covered =
    ground (arith, low, high, found, covered)

pub claim_run :
    (new_id : IdSource) (now user i : ℕ) (s : Transaction) (u : User) (db : StakeDb)
    → find_stake i user db.transactions ≡ some s
    → ltb now (end_date_of s.created_at) ≡ false
    → find_user user db.users ≡ some u
    → let amount = plus s.metadata.reward_amount s.metadata.staked_amount in
      let t = reward_row (new_id db.transactions) user now s in
      claim_rewards new_id now user i db ≡ (
        ok (record {
          staked_amount = s.metadata.staked_amount;
          reward_amount = s.metadata.reward_amount;
          end_date = end_date_of s.created_at;
          transaction_id = new_id db.transactions;
        }),
        record (paid_db amount t s u db) {
          events =
              db.events ++ credited user s.metadata.staked_amount s.metadata.reward_amount ∷ [];
        },
      )
unfolding claim_rewards
claim_run new_id now user i s u db found over owner = ground (arith, found, over, owner)

pub unstake_run :
    (new_id : IdSource) (now user i percent : ℕ) (s : Transaction) (u : User) (db : StakeDb)
    → ltb 100 percent ≡ false
    → find_stake i user db.transactions ≡ some s
    → find_user user db.users ≡ some u
    → let t = penalty_row (new_id db.transactions) user percent now s in
      unstake_percent new_id now user i percent db ≡ (
        ok (record {
          staked_amount = s.metadata.staked_amount;
          reward_amount = negated (penalty_of percent s.metadata.staked_amount);
          end_date = now;
          transaction_id = new_id db.transactions;
        }),
        paid_db (return_of percent s.metadata.staked_amount) t s u db,
      )
unstake_run new_id now user i percent s u db fair found owner = ground (arith, fair, found, owner)

pub claim_missing :
    (new_id : IdSource) (now user i : ℕ) (db : StakeDb)
    → find_stake i user db.transactions ≡ none
    → claim_rewards new_id now user i db ≡ (err stake_not_found, db)
unfolding claim_rewards
claim_missing new_id now user i db missing = ground (arith, missing)

pub find_row-put :
    (i : ℕ) (t : Transaction) (rows : List Transaction)
    → t.id ≡ i
    → find_row i (put t rows) ≡ some t
find_row-put i t rows own =
    find_by-save_by (λ x. x.id) t i rows
    ∙ ap (λ c. if c then some t else find_row i rows) (eq→== t.id i own)

-- In a table with distinct ids, a stake is the row of its id, if that is a completed stake of the
-- user.
pub find_stake-row :
    (i user : ℕ) (t : Transaction) (rows : List Transaction)
    → UniqueIds rows
    → find_row i rows ≡ some t
    → find_stake i user rows
      ≡ (if t.user_id == user && (is_penalty t.type && is_completed t.status) then some t else none)
find_stake-row i user t rows unique found =
    let test =
      λ (x : Transaction). x.user_id == user && (is_penalty x.type && is_completed x.status) in
    find_both-UniqueBy (λ x. x.id) test i rows unique ∙ ap (keep (λ x. x.id) test) found

pub find_user-save :
    (user : ℕ) (u : User) (rows : List User)
    → u.id ≡ user
    → find_user user (save_by (λ x. x.id) u rows) ≡ some u
find_user-save user u rows own =
    find_by-save_by (λ x. x.id) u user rows
    ∙ ap (λ c. if c then some u else find_user user rows) (eq→== u.id user own)

pub put-UniqueIds :
    (t : Transaction) (rows : List Transaction) → UniqueIds rows → UniqueIds (put t rows)
put-UniqueIds t rows u = save_by-UniqueBy (λ x. x.id) t rows u
