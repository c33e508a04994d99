-- ===== src/Staking/Tests.antt =====
-- A stake on a small store, and the theorems about stakes at concrete stores.
use renaissance_api.Common.{suc, ◌≡◌, refl, [], ◌∷◌, some, arith}
use renaissance_api.Common.Int.{pos, ◌+ℤ◌}
use renaissance_api.Common.Action.{ok, err}
use renaissance_api.Common.Fresh.{max_key, max_key-fresh}
use renaissance_api.Staking.{
  User, StakeDb, StakeResult, IdSource, find_user, stake_tokens, claim_rewards, early_unstake,
  stake_row, still_locked, end_date_of,
}
use renaissance_api.Staking.Rows.{IsFresh, done}
use renaissance_api.Staking.Claims.{Claims, claim-stake}
use renaissance_api.Staking.Unstaking.{returned, early_unstake_again}

abbrev next_id : IdSource
next_id rows = suc (max_key (λ t. t.id) rows)

next_id-IsFresh : IsFresh next_id
next_id-IsFresh rows = max_key-fresh (λ t. t.id) rows

-- 100 units, and a stake of 50.
abbrev saver : User
saver = record { id = 7; wallet_balance = some (pos 10000000000) }

abbrev start : StakeDb
start = record { users = saver ∷ []; transactions = []; events = [] }

abbrev staked : StakeDb
staked = record {
  users = record { id = 7; wallet_balance = some (pos 5000000000) } ∷ [];
  transactions = done (stake_row 1 7 (pos 5000000000) 1000) ∷ [];
  events = [];
}

too_early : (claim_rewards next_id 2000 7 1 staked).0 ≡ err still_locked
unfolding claim_rewards
too_early = refl

claim-stake_example :
    (r : StakeResult) × (db1 : StakeDb) × (stake_tokens next_id 1000 7 (pos 5000000000) start
      ≡ (ok r, db1))
    × Claims next_id 7
        (pos 5000000000)
        (pos 10000000000)
        r.transaction_id
        (claim_rewards next_id (end_date_of 1000) 7 r.transaction_id db1)
claim-stake_example =
    claim-stake next_id 1000 (end_date_of 1000) 7 (pos 5000000000) (pos 10000000000) saver start tt
      refl refl refl refl refl refl

early_unstake_again_example :
    (r1 r2 : StakeResult) × (db1 db2 : StakeDb) × (u2 : User) × (early_unstake next_id 2000 7 1
        (pos 25)
        staked
      ≡ (ok r1, db1))
    × (early_unstake next_id 3000 7 r1.transaction_id (pos 25) db1 ≡ (ok r2, db2))
    × (find_user 7 db2.users ≡ some u2)
    × (u2.wallet_balance
        ≡ some (pos 5000000000 +ℤ returned 25 (pos 5000000000) +ℤ returned 25 (pos 5000000000)))
early_unstake_again_example =
    early_unstake_again next_id 2000 3000 7 1 25 (done (stake_row 1 7 (pos 5000000000) 1000))
      (record { id = 7; wallet_balance = some (pos 5000000000) }) (pos 5000000000) (pos 5000000000)
      staked next_id-IsFresh (refl, tt) (omega arith) refl refl refl refl
