-- ===== src/Staking/Claims.antt =====
-- A stake and the claim of its reward.
use renaissance_api.Common.{
  ℕ, ◌≡◌, refl, sym, ap, subst, ◌∙◌, true, false, none, some, List, ◌==◌, eq→==, ==→eq,
  if◌then◌else◌, ltb, find_by_sound, ◌&&◌,
}
use renaissance_api.Common.Int.{ℤ, ltb_ℤ, ◌+ℤ◌, ◌-ℤ◌, int_laws}
use renaissance_api.Common.Action.{Result, ok, err}
use renaissance_api.Staking.{
  User, Transaction, StakeDb, StakeResult, IdSource, Error, find_user, find_stake, minus, plus,
  config, stake_row, reward_row, reward_of, end_date_of, stake_tokens, claim_rewards,
  stake_not_found, is_less,
}
use renaissance_api.Staking.Rows.{
  put, UniqueIds, with_balance, done, undone, staked_db, stake_run, claim_run, claim_missing,
  find_row-put, find_stake-row, find_user-save, put-UniqueIds,
}

-- What the claim of the stake `i` has done at its end: it paid `amount` and its reward to a user who
-- had `b` before the stake, and the stake is not there to be claimed again.
abbrev pub Claims : IdSource → ℕ → ℤ → ℤ → ℕ → Result Error StakeResult × StakeDb → Type 0
Claims new_id user amount b i (err _, db) = ⊥
Claims new_id user amount b i (ok r, db) =
    (r.staked_amount ≡ some amount)
    × (r.reward_amount ≡ some (reward_of amount))
    × ((u : User) × (find_user user db.users ≡ some u)
        × (u.wallet_balance ≡ some (b +ℤ reward_of amount)))
    × ((again : ℕ) → claim_rewards new_id again user i db ≡ (err stake_not_found, db))

staked_again : (b amount reward : ℤ) → (b -ℤ amount) +ℤ (reward +ℤ amount) ≡ b +ℤ reward
staked_again b amount reward = omega int_laws

module _ (new_id : IdSource) (now user : ℕ) (amount : ℤ) (u : User) (db : StakeDb)
    (unique : UniqueIds db.transactions) where
  abbrev stake_id : ℕ
  stake_id = new_id db.transactions

  abbrev staked : Transaction
  staked = done (stake_row stake_id user amount now)

  abbrev staked_rows : List Transaction
  staked_rows = put staked (put (stake_row stake_id user amount now) db.transactions)

  staked_rows-UniqueIds : UniqueIds staked_rows
  staked_rows-UniqueIds =
      put-UniqueIds staked (put (stake_row stake_id user amount now) db.transactions)
        (put-UniqueIds (stake_row stake_id user amount now) db.transactions unique)

  stake_stored : find_stake stake_id user staked_rows ≡ some staked
  stake_stored =
      find_stake-row stake_id user staked staked_rows staked_rows-UniqueIds (
        find_row-put stake_id staked (put (stake_row stake_id user amount now) db.transactions)
          refl)
      ∙ ap (λ c. if c && true then some staked else none) (eq→== user user refl)

  abbrev claim_rows : ℕ → List Transaction
  claim_rows later =
      let t = reward_row (new_id staked_rows) user later staked in put (done t) (put t staked_rows)

  claimed_away :
      (later : ℕ) → find_stake stake_id user (put (undone staked) (claim_rows later)) ≡ none
  claimed_away later =
      let t = reward_row (new_id staked_rows) user later staked in
      find_stake-row stake_id user (undone staked) (put (undone staked) (claim_rows later))
        (put-UniqueIds (undone staked) (claim_rows later) (
          put-UniqueIds (done t) (put t staked_rows)
            (put-UniqueIds t staked_rows staked_rows-UniqueIds)))
        (find_row-put stake_id (undone staked) (claim_rows later) refl)
      ∙ ap (λ c. if c && false then some (undone staked) else none) (eq→== user user refl)

paid_balance :
    (b amount : ℤ)
    → plus (minus (some b) (some amount)) (plus (some (reward_of amount)) (some amount))
      ≡ some (b +ℤ reward_of amount)
paid_balance b amount = ap some (staked_again b amount (reward_of amount))

-- A stake within the limits that the balance `b` of its user covers, in a table with distinct ids of
-- transactions, succeeds, and a claim from thirty days on does: the user has `b` and the reward
-- then, and every further claim of the stake is refused.
pub claim-stake :
    (new_id : IdSource) (now later user : ℕ) (amount b : ℤ) (u : User) (db : StakeDb)
    → UniqueIds db.transactions
    → find_user user db.users ≡ some u
    → u.wallet_balance ≡ some b
    → ltb_ℤ amount config.min_stake_amount ≡ false
    → ltb_ℤ config.max_stake_amount amount ≡ false
    → ltb_ℤ b amount ≡ false
    → ltb later (end_date_of now) ≡ false
    → (r : StakeResult) × (db1 : StakeDb) × (stake_tokens new_id now user amount db ≡ (ok r, db1))
      × Claims new_id user amount b r.transaction_id
          (claim_rewards new_id later user r.transaction_id db1)
claim-stake new_id now later user amount b u db unique found balance low high covered over =
    let i = new_id db.transactions in
    let db1 = staked_db i user amount now u db in
    let s = staked new_id now user amount u db unique in
    let u1 = with_balance (minus u.wallet_balance (some amount)) u in
    let own : u.id ≡ user = ==→eq u.id user (find_by_sound (λ x. x.id == user) db.users u found) in
    let enough : is_less u.wallet_balance (some amount) ≡ false =
      subst (λ a. is_less a (some amount) ≡ false) (sym balance) covered in
    let claimed =
      claim_run new_id later user i s u1 db1 (stake_stored new_id now user amount u db unique) over
        (find_user-save user u1 db.users own) in
    (
      _,
      db1,
      stake_run new_id now user amount u db low high found enough,
      subst (Claims new_id user amount b i) (sym claimed) (
        refl,
        refl,
        (
          with_balance (plus u1.wallet_balance (plus (some (reward_of amount)) (some amount))) u1,
          find_user-save user _ db1.users own,
          ap (λ a. plus (minus a (some amount)) (plus (some (reward_of amount)) (some amount)))
                balance
              ∙ paid_balance b amount,
        ),
        λ again.
            claim_missing new_id again user i _
              (claimed_away new_id now user amount u db unique later),
      ),
    )
