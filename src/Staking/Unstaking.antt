-- ===== src/Staking/Unstaking.antt =====
-- The early return of a stake, and of the record that it leaves.
use renaissance_api.Common.{
  ℕ, ◌≤◌, ◌≡◌, refl, sym, ap, subst, ◌∙◌, true, false, none, some, List, [], ◌∷◌, arith, ◌==◌,
  eq→==, ==→eq, if◌then◌else◌, ltb, find_by_sound, find_by-save_by, Bool-cases, inl, inr, ◌&&◌,
}
use renaissance_api.Common.Int.{ℤ, pos, ◌+ℤ◌, ◌-ℤ◌, scaled}
use renaissance_api.Common.Action.{ok}
use renaissance_api.Staking.{
  User, Transaction, StakeDb, StakeResult, IdSource, find_user, find_stake, is_stake, plus,
  penalty_row, return_of, early_unstake, is_penalty, is_completed,
}
use renaissance_api.Staking.Rows.{
  put, UniqueIds, IsFresh, find_row, with_balance, done, undone, paid_db, unstake_run, find_row-put,
  find_stake-row, find_user-save, put-UniqueIds,
}

no_row_no_stake :
    (i user : ℕ) (rows : List Transaction) → find_row i rows ≡ none → find_stake i user rows ≡ none
no_row_no_stake i user [] h = refl
no_row_no_stake i user (x ∷ xs) h = ground (arith, no_row_no_stake i user xs)

module _ (new_id : IdSource) (fresh : IsFresh new_id) (now user i percent : ℕ) (s : Transaction)
    (db : StakeDb) (unique : UniqueIds db.transactions)
    (found : find_stake i user db.transactions ≡ some s) where
  abbrev left : Transaction
  left = penalty_row (new_id db.transactions) user percent now s

  abbrev rows_after : List Transaction
  rows_after = put (undone s) (put (done left) (put left db.transactions))

  -- The stake is another row than the new record.
  other_row : (s.id == new_id db.transactions) ≡ false
  other_row = elim (Bool-cases (s.id == new_id db.transactions)) [
    | inl same ↦
        let here : (s.id == i)
              && (s.user_id == user && (is_penalty s.type && is_completed s.status))
            ≡ true =
          find_by_sound (is_stake i user) db.transactions s found in
        let i_new : i ≡ new_id db.transactions =
          sym (==→eq s.id i (ground (arith, here))) ∙ ==→eq s.id (new_id db.transactions) same in
        let missing : find_stake i user db.transactions ≡ none =
          no_row_no_stake i user db.transactions
            (subst (λ k. find_row k db.transactions ≡ none) (sym i_new) (fresh db.transactions)) in
        absurd (cc (found, missing))
    | inr ne ↦ ne
  ]

  record_stored : find_stake (new_id db.transactions) user rows_after ≡ some (done left)
  record_stored =
      find_stake-row (new_id db.transactions) user (done left) rows_after
        (put-UniqueIds (undone s) (put (done left) (put left db.transactions)) (
          put-UniqueIds (done left) (put left db.transactions)
            (put-UniqueIds left db.transactions unique)))
        (find_by-save_by (λ x. x.id) (undone s) (new_id db.transactions)
            (put (done left) (put left db.transactions))
          ∙ ap
              (λ c.
                if c
                then some (undone s)
                else find_row (new_id db.transactions) (put (done left) (put left db.transactions)))
              other_row
          ∙ find_row-put (new_id db.transactions) (done left) (put left db.transactions) refl)
      ∙ ap (λ c. if c && true then some (done left) else none) (eq→== user user refl)

-- What the user gets back of a stake of `a`.
abbrev pub returned : ℕ → ℤ → ℤ
returned percent a = a -ℤ scaled a percent 100

-- An early return is granted twice: after a return that succeeds, at a penalty of at most 100 percent,
-- in a table with distinct ids and with fresh ids of new transactions, the record of the penalty is
-- taken for a stake of the same amount. Its early return succeeds too, and the user, who had `b`,
-- has been paid back the stake of `a`, less the penalty, two times.
pub early_unstake_again :
    (new_id : IdSource) (now later user i percent : ℕ) (s : Transaction) (u : User) (a b : ℤ)
    (db : StakeDb)
    → IsFresh new_id
    → UniqueIds db.transactions
    → percent ≤ 100
    → find_stake i user db.transactions ≡ some s
    → s.metadata.staked_amount ≡ some a
    → find_user user db.users ≡ some u
    → u.wallet_balance ≡ some b
    → (r1 r2 : StakeResult) × (db1 db2 : StakeDb) × (u2 : User) × (early_unstake new_id now user i
          (pos percent)
          db
        ≡ (ok r1, db1))
      × (early_unstake new_id later user r1.transaction_id (pos percent) db1 ≡ (ok r2, db2))
      × (find_user user db2.users ≡ some u2)
      × (u2.wallet_balance ≡ some (b +ℤ returned percent a +ℤ returned percent a))
unfolding early_unstake
early_unstake_again new_id now later user i percent s u a b db fresh unique fair found amount owner
      balance =
    let own : u.id ≡ user = ==→eq u.id user (find_by_sound (λ x. x.id == user) db.users u owner) in
    let at_most : ltb 100 percent ≡ false = ground arith in
    let pay = return_of percent s.metadata.staked_amount in
    let u1 = with_balance (plus u.wallet_balance pay) u in
    let t1 = left new_id fresh now user i percent s db unique found in
    let db1 = paid_db pay t1 s u db in
    let first = find_user-save user u1 db.users own in
    (
      _,
      _,
      db1,
      _,
      with_balance (plus u1.wallet_balance pay) u1,
      unstake_run new_id now user i percent s u db at_most found owner,
      unstake_run new_id later user (new_id db.transactions) percent (done t1) u1 db1 at_most
          (record_stored new_id fresh now user i percent s db unique found) first,
      find_user-save user _ db1.users own,
      rw (balance, amount) refl,
    )
