-- ===== src/Vouchers.antt =====
-- backend/src/free-bet-vouchers/free-bet-vouchers.service.ts: `FreeBetVoucherService`.
mod Entities
pub mod Rows
pub mod Lifecycle
pub mod Use
pub mod Queries
mod Tests
pub use Entities.*
use renaissance_api.Common.{
  ℕ, ◌+◌, ◌-◌, ◌*◌, ◌/◌, Bool, true, false, not, Option, none, some, List, [], ◌∷◌, ◌&&◌, ltb, leb,
  ◌==◌, if◌then◌else◌, find_by, select_by, count_by, save_by, take, drop, length,
}
use renaissance_api.Common.Int.{ℤ, pos, ◌+ℤ◌, leb_ℤ}
use renaissance_api.Common.Action.{ok, ◌>>=◌, ◌>>◌, pure, gets, or_raise, raise_if, in_transaction}

abbrev pub save : Voucher → VoucherAction Voucher
save v db = (ok v, record db { vouchers = save_by (λ x. x.id) v db.vouchers })

abbrev pub has_user : ℕ → List ℕ → Bool
has_user u us = leb 1 (count_by (λ x. x == u) us)

-- `findOne`, and the throw where there is no row.
abbrev pub fetch : ℕ → VoucherAction Voucher
fetch i = do or_raise (← gets (λ db. find_voucher i db.vouchers)) voucher_not_found

-- The limit on active vouchers; `excluded` tells the vouchers that do not count. No limit is given
-- by a missing one and by 0.
abbrev pub check_limit : Option ℕ → ℕ → ℕ → (Voucher → Bool) → VoucherAction (Unit {0})
check_limit none user now excluded = pure tt
check_limit (some limit) user now excluded = do
  active ← gets (λ db. count_by (λ v. is_active user now v && not (excluded v)) db.vouchers)
  raise_if (ltb 0 limit && leb limit active) too_many_active

-- The row that a request creates.
abbrev pub new_voucher : ℕ → CreateVoucher → Voucher
new_voucher i dto = record {
  id = i;
  user_id = dto.user_id;
  amount = dto.amount;
  expires_at = dto.expires_at;
  used = false;
  used_at = none;
  used_for_bet_id = none;
  metadata = record {
    max_active = dto.max_active;
    is_withdrawable = dto.is_withdrawable;
    other = dto.other;
  };
  deleted_at = none;
}

abbrev pub insert_new : IdSource → CreateVoucher → VoucherAction Voucher
insert_new new_id dto db = save (new_voucher (new_id db.vouchers) dto) db

unfoldable pub create_voucher_with_manager : IdSource → ℕ → CreateVoucher → VoucherAction Voucher
create_voucher_with_manager new_id now dto = do
  known ← gets (λ db. has_user dto.user_id db.users)
  raise_if (not known) user_not_found
  raise_if (leb dto.expires_at now) expiry_not_in_future
  raise_if (leb_ℤ dto.amount (pos 0)) amount_not_positive
  check_limit dto.max_active dto.user_id now (λ _. false)
  insert_new new_id dto

-- Two dates: `a > b`.
abbrev pub is_after : ℕ → ℕ → Bool
is_after a b = ltb b a

-- The checks that `validateVoucher` and `consumeVoucher` make on the row.
abbrev pub check_usable : ℕ → ℕ → Voucher → VoucherAction (Unit {0})
check_usable now user v = do
  raise_if (not (v.user_id == user)) no_access
  raise_if v.used already_used
  raise_if (is_after now v.expires_at) voucher_expired

unfoldable pub validate_voucher : ℕ → ℕ → ℕ → VoucherAction Voucher
validate_voucher now i user = do v ← fetch i; check_usable now user v; pure v

-- `getVoucherById`; the owner is checked if a user is given.
unfoldable pub get_voucher_by_id : ℕ → Option ℕ → VoucherAction Voucher
get_voucher_by_id i none = fetch i
get_voucher_by_id i (some user) = do
  v ← fetch i
  raise_if (not (v.user_id == user)) no_access
  pure v

abbrev pub consumed : ℕ → ℕ → Voucher → Voucher
consumed now bet v = record v { used = true; used_at = some now; used_for_bet_id = some bet }

unfoldable pub consume_voucher_with_manager : ℕ → ℕ → ℕ → ℕ → VoucherAction Voucher
consume_voucher_with_manager now i user bet = do
  v ← fetch i
  check_usable now user v
  save (consumed now bet v)

unfoldable pub consume_voucher : ℕ → ℕ → ℕ → ℕ → VoucherAction Voucher
unfolding consume_voucher_with_manager
consume_voucher now i user bet = in_transaction (consume_voucher_with_manager now i user bet)

-- `betId && voucher.usedForBetId && voucher.usedForBetId !== betId`
abbrev pub is_other_bet : Option ℕ → Option ℕ → Bool
is_other_bet (some bet) (some linked) = not (linked == bet)
is_other_bet _ _ = false

-- The voucher that the caller gets, whose time of use and bet are undefined.
abbrev pub restored : Voucher → Voucher
restored v = record v { used = false; used_at = none; used_for_bet_id = none }

-- The row, in which a save leaves what is undefined as it was.
abbrev pub unused : Voucher → Voucher
unused v = record v { used = false }

abbrev pub save_restored : Voucher → VoucherAction Voucher
save_restored v = do save (unused v); pure (restored v)

unfoldable pub restore_voucher_with_manager : ℕ → ℕ → Option ℕ → VoucherAction Voucher
restore_voucher_with_manager i user bet = do
  v ← fetch i
  raise_if (not (v.user_id == user)) no_access
  raise_if (is_other_bet bet v.used_for_bet_id) linked_to_other_bet
  save_restored v

unfoldable pub restore_voucher : ℕ → ℕ → Option ℕ → VoucherAction Voucher
unfolding restore_voucher_with_manager
restore_voucher i user bet = in_transaction (restore_voucher_with_manager i user bet)

abbrev pub removed : ℕ → Voucher → Voucher
removed now v = record v { deleted_at = some now }

unfoldable pub delete_voucher : ℕ → ℕ → VoucherAction Voucher
delete_voucher now i = do v ← fetch i; save (removed now v)

-- `??`
abbrev pub or_else {ℓ} : {A : Type ℓ} → Option A → Option A → Option A
or_else none b = b
or_else (some a) _ = some a

abbrev pub or_value {ℓ} : {A : Type ℓ} → Option A → A → A
or_value none b = b
or_value (some a) _ = a

abbrev pub check_amount : Option ℤ → VoucherAction (Unit {0})
check_amount none = pure tt
check_amount (some x) = raise_if (leb_ℤ x (pos 0)) amount_not_positive

abbrev pub check_expiry : ℕ → Option ℕ → VoucherAction (Unit {0})
check_expiry now none = pure tt
check_expiry now (some t) = raise_if (leb t now) expiry_not_in_future

-- The row with what the request gives.
abbrev pub updated : UpdateVoucher → Voucher → Voucher
updated dto v = record v {
  amount = or_value dto.amount v.amount;
  expires_at = or_value dto.expires_at v.expires_at;
  metadata = record {
    max_active = or_else dto.max_active v.metadata.max_active;
    is_withdrawable = or_value dto.is_withdrawable v.metadata.is_withdrawable;
    other = or_value dto.other v.metadata.other;
  };
}

unfoldable pub update_voucher : ℕ → ℕ → UpdateVoucher → VoucherAction Voucher
update_voucher now i dto = do
  v ← fetch i
  check_amount dto.amount
  check_expiry now dto.expires_at
  check_limit dto.max_active v.user_id now (λ w. w.id == v.id)
  save (updated dto v)

pub record VoucherStats : Type 0 where
  pub total_vouchers : ℕ
  pub active_vouchers : ℕ
  pub used_vouchers : ℕ
  pub expired_vouchers : ℕ
  pub total_value : ℤ
  pub active_value : ℤ

-- One turn of the loop of `getUserVoucherStats`; `active` is the branch behind both tests.
abbrev pub count_voucher : ℕ → VoucherStats → Voucher → VoucherStats
count_voucher now s v =
    let t = record s { total_value = s.total_value +ℤ v.amount } in
    let active = record t {
      active_vouchers = t.active_vouchers + 1;
      active_value = t.active_value +ℤ v.amount;
    } in
    if v.used
    then record t { used_vouchers = t.used_vouchers + 1 }
    else if ltb v.expires_at now
    then record t { expired_vouchers = t.expired_vouchers + 1 }
    else active

pub count_vouchers : ℕ → VoucherStats → List Voucher → VoucherStats
count_vouchers now s [] = s
count_vouchers now s (v ∷ vs) = count_vouchers now (count_voucher now s v) vs

abbrev pub no_stats : ℕ → VoucherStats
no_stats n = record {
  total_vouchers = n;
  active_vouchers = 0;
  used_vouchers = 0;
  expired_vouchers = 0;
  total_value = pos 0;
  active_value = pos 0;
}

-- The user's vouchers, used or not.
abbrev pub own_vouchers : ℕ → VoucherDb → List Voucher
own_vouchers user db = select_by (λ v. v.user_id == user && is_none v.deleted_at) db.vouchers

unfoldable pub get_user_voucher_stats : ℕ → ℕ → VoucherDb → VoucherStats
unfolding count_vouchers
get_user_voucher_stats now user db =
    let own = own_vouchers user db in count_vouchers now (no_stats (length own)) own
