-- ===== src/Vouchers/Entities.antt =====
-- backend/src/free-bet-vouchers/entities and dto: the table of vouchers, the requests, the errors.
-- A time is a number of milliseconds, an amount a number of units of 10^-8.
use renaissance_api.Common.{
  ℕ, Bool, true, false, not, ◌&&◌, Option, none, some, List, ltb, ◌==◌, find_by,
}
use renaissance_api.Common.Int.{ℤ}
use renaissance_api.Common.Action.{Action}

-- The keys of the JSON column that the code reads; `other` is what else a caller stored there.
pub record VoucherMetadata : Type 0 where
  pub max_active : Option ℕ
  pub is_withdrawable : Bool
  pub other : ℕ

pub record Voucher : Type 0 where
  pub id : ℕ
  pub user_id : ℕ
  pub amount : ℤ
  pub expires_at : ℕ
  pub used : Bool
  pub used_at : Option ℕ
  pub used_for_bet_id : Option ℕ
  pub metadata : VoucherMetadata
  pub deleted_at : Option ℕ

-- `users` are the ids of the rows of the user table; the vouchers stand in the order of creation.
pub record VoucherDb : Type 0 where
  pub users : List ℕ
  pub vouchers : List Voucher

pub record CreateVoucher : Type 0 where
  pub user_id : ℕ
  pub amount : ℤ
  pub expires_at : ℕ
  pub max_active : Option ℕ
  pub is_withdrawable : Bool
  pub other : ℕ

pub record UpdateVoucher : Type 0 where
  pub amount : Option ℤ
  pub expires_at : Option ℕ
  pub max_active : Option ℕ
  pub is_withdrawable : Option Bool
  pub other : Option ℕ

pub data Error : Type 0 where
  -- NotFoundException
  user_not_found voucher_not_found : Error
  -- BadRequestException
  expiry_not_in_future amount_not_positive voucher_expired : Error
  -- ConflictException
  too_many_active already_used linked_to_other_bet : Error
  -- ForbiddenException
  no_access : Error

abbrev pub VoucherAction : Type 0 → Type 0
VoucherAction = Action Error VoucherDb

-- The id that the database gives to a new row.
abbrev pub IdSource : Type 0
IdSource = List Voucher → ℕ

abbrev pub is_none {ℓ} : {A : Type ℓ} → Option A → Bool
is_none none = true
is_none (some _) = false

-- `findOne` by id; a row that was removed softly is not found.
abbrev pub find_voucher : ℕ → List Voucher → Option Voucher
find_voucher i = find_by λ v. v.id == i && is_none v.deleted_at

-- Unused, and it expires after `now`.
abbrev pub is_active : ℕ → ℕ → Voucher → Bool
is_active user now v =
    v.user_id == user && (not v.used && (ltb now v.expires_at && is_none v.deleted_at))
