-- ===== src/Wallet/Tests.antt =====
-- Runs of the wallet on small stores, and the wallet's theorems at concrete stores.
use renaissance_api.Common.{suc, ◌≡◌, refl, subst, [], ◌∷◌, some}
use renaissance_api.Common.Int.{pos, ◌+ℤ◌, ◌-ℤ◌}
use renaissance_api.Common.Action.{ok, err}
use renaissance_api.Common.Fresh.{max_key, max_key-fresh}
use renaissance_api.Wallet.{
  Balance, TransactionType, WalletDb, IdSource, IsFresh, caller, bet, reward, credit, debit,
  lock_funds, unlock_funds, consume_locked_funds, update_user_balance, already_processed,
  insufficient_funds, perform_atomic_operation, create_row, credit_callback, debit_callback,
}
use renaissance_api.Wallet.Invariant.{IsValid, empty, empty-IsValid}
use renaissance_api.Wallet.Transactions.{Commits}
use renaissance_api.Wallet.Operations.{credit-Commits, calls-Commit}
use renaissance_api.Wallet.Updates.{Updates, update_user_balance-Updates}
use renaissance_api.Wallet.History.{run, credits, debits, locks, run-IsValid, credit_once}

abbrev pub next_id : IdSource
next_id rows = suc (max_key (λ b. b.id) rows)

pub next_id-IsFresh : IsFresh next_id
next_id-IsFresh rows = max_key-fresh (λ b. b.id) rows

-- User 7 after a reward of 50 under the reference 3.
abbrev pub rich : Balance
rich = record { id = 1; user_id = 7; available_balance = pos 50; locked_balance = pos 0 }

abbrev pub funded : WalletDb
funded = record {
  balances = rich ∷ [];
  transactions =
      record {
        balance_id = 1;
        amount = pos 50;
        type = TransactionType.credit;
        source = reward;
        reference_id = some 3;
        metadata = caller 0;
        previous_balance = pos 0;
        new_balance = pos 50;
      }
      ∷ [];
}

credit_reward : credit next_id 7 (pos 50) reward (some 3) (caller 0) empty ≡ (ok rich, funded)
unfolding credit perform_atomic_operation create_row credit_callback ◌+ℤ◌
credit_reward = refl

pub funded-IsValid : IsValid funded
funded-IsValid =
    (subst (Commits 7 (pos 50) (pos 0) empty) credit_reward
      (credit-Commits next_id next_id-IsFresh 7 (pos 50) empty empty-IsValid reward (some 3) 0)).0

debit_too_much :
    debit next_id 7 (pos 60) bet (some 4) (caller 0) funded ≡ (err insufficient_funds, funded)
unfolding debit perform_atomic_operation create_row debit_callback
debit_too_much = refl

run-IsValid_example : IsValid (
    run next_id
      ((7, pos 50, credits reward (some 3) 0)
        ∷ (7, pos 60, debits bet (some 4) 0)
        ∷ (7, pos 20, locks (some 5))
        ∷ [])
      empty)
run-IsValid_example = run-IsValid next_id next_id-IsFresh (
    (7, pos 50, credits reward (some 3) 0)
    ∷ (7, pos 60, debits bet (some 4) 0)
    ∷ (7, pos 20, locks (some 5))
    ∷ [])

credit_once_example :
    credit next_id 8 (pos 20) reward (some 3) (caller 1) (run next_id [] funded)
    ≡ (err already_processed, run next_id [] funded)
credit_once_example =
    credit_once next_id next_id-IsFresh 7 (pos 50) reward 3 0 empty rich funded empty-IsValid
      credit_reward [] 8 (pos 20) 1 refl

update_user_balance-Updates_example :
    Updates 7 (pos 5) funded (update_user_balance next_id 7 (pos 5) 9 (caller 0) funded)
update_user_balance-Updates_example =
    update_user_balance-Updates next_id next_id-IsFresh 7 (pos 5) 9 0 funded funded-IsValid

calls-Commit_example :
    Commits 7 (pos 5) (pos 0) funded (credit next_id 7 (pos 5) bet (some 9) (caller 0) funded)
    × Commits 7
        (pos 0 -ℤ pos 5)
        (pos 0)
        funded
        (debit next_id 7 (pos 5) bet (some 9) (caller 0) funded)
    × Commits 7 (pos 0 -ℤ pos 5) (pos 5) funded (lock_funds next_id 7 (pos 5) (some 9) funded)
    × Commits 7 (pos 5) (pos 0 -ℤ pos 5) funded (unlock_funds next_id 7 (pos 5) (some 9) funded)
    × Commits 7
        (pos 0)
        (pos 0 -ℤ pos 5)
        funded
        (consume_locked_funds next_id 7 (pos 5) (some 9) funded)
calls-Commit_example =
    calls-Commit next_id next_id-IsFresh 7 (pos 5) funded funded-IsValid bet (some 9) 0
