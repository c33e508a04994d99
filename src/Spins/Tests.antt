-- ===== src/Spins/Tests.antt =====
-- A spin on a small store, and the theorems about spins at concrete stores.
use renaissance_api.Common.{suc, ◌+◌, ◌*◌, ◌≡◌, refl, subst, [], ◌∷◌, none, some, true, false}
use renaissance_api.Common.Int.{pos, ◌+ℤ◌, ◌-ℤ◌}
use renaissance_api.Common.Action.{ok}
use renaissance_api.Common.Fresh.{max_key, max_key-fresh}
use mathlib.Core.List.{map}
use renaissance_api.Vouchers
use renaissance_api.Wallet.{
  Balance, WalletDb, IdSource, IsFresh, caller, reward, TransactionType, credit,
  perform_atomic_operation, create_row, credit_callback, update_user_balance, apply_update,
}
use renaissance_api.Wallet.Invariant.{IsValid, empty, empty-IsValid}
use renaissance_api.Wallet.Transactions.{Commits}
use renaissance_api.Wallet.Operations.{credit-Commits}
use renaissance_api.Spins.{
  pay_out, pay_channel, SpinDb, SpinResult, CreateSpin, Environment, small_win, execute_spin,
  spin_in_transaction, generate_secure_outcome, select_outcome,
}
use renaissance_api.Spins.Wheel.{draws, draws_in_rounds, share_of}
use renaissance_api.Spins.Play.{Plays, execute_spin-Plays}
use renaissance_api.Spins.Replay.{rounded_answer, execute_spin_twice}

abbrev next_id : IdSource
next_id rows = suc (max_key (λ b. b.id) rows)

next_id-IsFresh : IsFresh next_id
next_id-IsFresh rows = max_key-fresh (λ b. b.id) rows

abbrev concrete : Environment
concrete = record {
  balance_ids = next_id;
  voucher_ids = λ vs. suc (max_key (λ v. v.id) vs);
  spin_ids = λ ss. suc (max_key (λ s. s.id) ss);
  uuid = 99;
  session_digest = λ user now seed stake. user * 1000000 + now;
  seed_digest = λ r. r;
  treasury_check = λ p. true;
}

-- User 7 has 20 XLM.
abbrev rich : Balance
rich = record { id = 1; user_id = 7; available_balance = pos 2000000000; locked_balance = pos 0 }

abbrev purse : WalletDb
purse = record {
  balances = rich ∷ [];
  transactions =
      record {
        balance_id = 1;
        amount = pos 2000000000;
        type = TransactionType.credit;
        source = reward;
        reference_id = some 3;
        metadata = caller 0;
        previous_balance = pos 0;
        new_balance = pos 2000000000;
      }
      ∷ [];
}

purse_credited :
    credit next_id 7 (pos 2000000000) reward (some 3) (caller 0) empty ≡ (ok rich, purse)
unfolding credit perform_atomic_operation create_row credit_callback ◌+ℤ◌
purse_credited = refl

purse-IsValid : IsValid purse
purse-IsValid =
    (subst (Commits 7 (pos 2000000000) (pos 0) empty) purse_credited (
      credit-Commits next_id next_id-IsFresh 7 (pos 2000000000) empty empty-IsValid reward (some 3)
        0)).0

abbrev start : SpinDb
start = record {
  spins = [];
  wallet = purse;
  vouchers = record { users = 7 ∷ []; vouchers = [] };
  limits = record { cooldown = none; last = []; violations = [] };
  events = [];
}

abbrev ten : CreateSpin
ten = record { stake_amount = pos 1000000000; client_seed = none; is_free_bet = false }

abbrev small : SpinResult
small = record {
  id = 1;
  outcome = small_win;
  payout_amount = pos 1500000000;
  stake_amount = pos 1000000000;
  net_result = pos 500000000;
}

abbrev after_spin : SpinDb
after_spin = (execute_spin concrete 5 7 ten 3333 start).1

first_spin : execute_spin concrete 5 7 ten 3333 start ≡ (ok small, after_spin)
unfolding execute_spin spin_in_transaction update_user_balance create_row apply_update
    generate_secure_outcome select_outcome pay_out pay_channel ◌+ℤ◌ ◌-ℤ◌
first_spin = refl

-- A random number of 100 is a medium win, which is paid by a voucher.
medium_spin :
    map (λ v. v.amount) ((execute_spin concrete 5 7 ten 100 start).1.vouchers.vouchers)
    ≡ pos 3000000000 ∷ []
unfolding execute_spin spin_in_transaction update_user_balance create_row apply_update
    generate_secure_outcome select_outcome pay_out pay_channel ◌+ℤ◌ ◌-ℤ◌
    Vouchers.create_voucher_with_manager
medium_spin = refl

draws_in_rounds_example : draws (pos 10) small_win 0 (2 * 1000) ≡ 2 * share_of small_win
draws_in_rounds_example = draws_in_rounds (pos 10) small_win 2

execute_spin-Plays_example :
    Plays concrete 5 7 ten 3333 start (execute_spin concrete 5 7 ten 3333 start)
execute_spin-Plays_example =
    execute_spin-Plays concrete 5 7 ten 3333 start next_id-IsFresh purse-IsValid

execute_spin_twice_example :
    execute_spin concrete 5 7 ten 42 after_spin ≡ (ok (rounded_answer small), after_spin)
execute_spin_twice_example =
    execute_spin_twice concrete 5 7 ten 3333 start small after_spin next_id-IsFresh purse-IsValid
      refl first_spin 5 7 ten 42 refl

-- A spin of 10.01 wins 15.015, of which the row keeps 15.02.
odd_amounts :
    rounded_answer (record small { payout_amount = pos 1501500000; stake_amount = pos 1001000000 })
    ≡ record small {
      payout_amount = pos 1502000000;
      stake_amount = pos 1001000000;
      net_result = pos 501000000;
    }
unfolding ◌-ℤ◌
odd_amounts = refl
