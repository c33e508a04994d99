-- ===== src/Vouchers/Tests.antt =====
-- Runs of the voucher service on a small table, and the theorems about it at concrete tables.
use renaissance_api.Common.{suc, ◌≤◌, ◌≡◌, refl, false, [], ◌∷◌, none, some, count_by}
use renaissance_api.Common.Int.{pos, int_laws}
use renaissance_api.Common.Action.{ok, err}
use renaissance_api.Common.Fresh.{max_key, max_key-fresh}
use renaissance_api.Vouchers.{
  Voucher, VoucherDb, CreateVoucher, IdSource, consumed, create_voucher_with_manager,
  consume_voucher_with_manager, already_used, is_active,
}
use renaissance_api.Vouchers.Lifecycle.{
  IsValid, consumes, creates, after_calls, after_calls-IsValid,
}
use renaissance_api.Vouchers.Use.{IsFresh, consume_once, create_within_limit}

abbrev next_id : IdSource
next_id rows = suc (max_key (λ b. b.id) rows)

next_id-IsFresh : IsFresh next_id
next_id-IsFresh rows = max_key-fresh (λ b. b.id) rows

abbrev gift : CreateVoucher
gift = record {
  user_id = 7;
  amount = pos 30;
  expires_at = 100;
  max_active = some 1;
  is_withdrawable = false;
  other = 0;
}

abbrev fresh_voucher : Voucher
fresh_voucher = record {
  id = 1;
  user_id = 7;
  amount = pos 30;
  expires_at = 100;
  used = false;
  used_at = none;
  used_for_bet_id = none;
  metadata = record { max_active = some 1; is_withdrawable = false; other = 0 };
  deleted_at = none;
}

abbrev no_vouchers : VoucherDb
no_vouchers = record { users = 7 ∷ []; vouchers = [] }

abbrev one_voucher : VoucherDb
one_voucher = record { users = 7 ∷ []; vouchers = fresh_voucher ∷ [] }

abbrev spent : VoucherDb
spent = record { users = 7 ∷ []; vouchers = consumed 50 4 fresh_voucher ∷ [] }

create_first :
    create_voucher_with_manager next_id 10 gift no_vouchers ≡ (ok fresh_voucher, one_voucher)
unfolding create_voucher_with_manager
create_first = refl

consume_first :
    consume_voucher_with_manager 50 1 7 4 one_voucher ≡ (ok (consumed 50 4 fresh_voucher), spent)
unfolding consume_voucher_with_manager
consume_first = refl

no_vouchers-IsValid : IsValid no_vouchers
no_vouchers-IsValid = record { unique = tt; sound = tt }

one_voucher-IsValid : IsValid one_voucher
one_voucher-IsValid = record { unique = (refl, tt); sound = ((omega int_laws, tt), tt) }

after_calls-IsValid_example :
    IsValid (after_calls next_id ((50, consumes 1 7 4) ∷ (60, creates gift) ∷ []) one_voucher)
after_calls-IsValid_example =
    after_calls-IsValid next_id ((50, consumes 1 7 4) ∷ (60, creates gift) ∷ []) one_voucher
      one_voucher-IsValid

consume_once_example : consume_voucher_with_manager 60 1 7 5 spent ≡ (err already_used, spent)
consume_once_example =
    consume_once 50 1 7 4 one_voucher (consumed 50 4 fresh_voucher) spent one_voucher-IsValid
      consume_first 60 5

create_within_limit_example : count_by (is_active 7 10) one_voucher.vouchers ≤ 1
create_within_limit_example =
    create_within_limit next_id next_id-IsFresh 10 0 gift no_vouchers fresh_voucher one_voucher refl
      create_first
