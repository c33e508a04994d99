-- ===== src/Bets/Entities.antt =====
-- backend/src/bets/entities, backend/src/matches/entities and backend/src/common/enums: bets and
-- matches, the settled-bet event, and the errors of the bets service.
use renaissance_api.Common.{ℕ, Bool, true, false, Option, List, ◌==◌, find_by}
use renaissance_api.Common.Int.{ℤ}
use renaissance_api.Common.Action.{Result, ok, err, Action}
use renaissance_api.Wallet
use renaissance_api.Wallet.{WalletDb, WalletAction}
use renaissance_api.Vouchers
use renaissance_api.Vouchers.{VoucherDb, VoucherAction}

pub data MatchStatus : Type 0 where
  upcoming live finished match_cancelled postponed : MatchStatus

pub data MatchOutcome : Type 0 where
  home_win away_win draw : MatchOutcome

pub record Match : Type 0 where
  pub id : ℕ
  pub status : MatchStatus
  pub outcome : Option MatchOutcome

pub data BetStatus : Type 0 where
  pending won lost cancelled : BetStatus

-- The keys of the JSON column `metadata` that the code reads, `false` or `none` where one is missing.
pub record BetMetadata : Type 0 where
  pub is_free_bet : Bool
  pub is_voucher_withdrawable : Bool
  pub voucher_id : Option ℕ

pub record Bet : Type 0 where
  pub id : ℕ
  pub user_id : ℕ
  pub match_id : ℕ
  pub stake_amount : ℤ
  pub predicted_outcome : MatchOutcome
  pub potential_payout : ℤ
  pub status : BetStatus
  pub settled_at : Option ℕ
  pub metadata : BetMetadata

-- `BetSettledEvent`; the accuracy that the code passes is always 0.
pub record BetSettled : Type 0 where
  pub user_id : ℕ
  pub bet_id : ℕ
  pub match_id : ℕ
  pub is_win : Bool
  pub stake_amount : ℤ
  pub winnings_amount : ℤ

-- The bets stand in the order of creation; `events` are those that were published.
pub record Db : Type 0 where
  pub matches : List Match
  pub bets : List Bet
  pub wallet : WalletDb
  pub vouchers : VoucherDb
  pub events : List BetSettled

pub data Error : Type 0 where
  -- NotFoundException
  match_not_found bet_not_found : Error
  -- BadRequestException
  match_not_finished outcome_not_set credit_failed invalid_transition : Error
  -- ConflictException
  already_settled : Error
  -- ForbiddenException
  no_access : Error
  -- what the wallet and the vouchers throw
  wallet_error : Wallet.Error → Error
  voucher_error : Vouchers.Error → Error
  -- the fuel of the loop has run out
  out_of_fuel : Error

abbrev pub BetAction : Type 0 → Type 0
BetAction = Action Error Db

module _ {A : Type 0} where
  abbrev pub map_error : {E : Type 0} → (E → Error) → Result E A → Result Error A
  map_error f (ok a) = ok a
  map_error f (err e) = err (f e)

  -- A call of the wallet and of the voucher service.
  abbrev pub in_wallet : WalletAction A → BetAction A
  in_wallet m db = let (r, w) = m db.wallet in (map_error wallet_error r, record db { wallet = w })

  abbrev pub in_vouchers : VoucherAction A → BetAction A
  in_vouchers m db =
      let (r, v) = m db.vouchers in (map_error voucher_error r, record db { vouchers = v })

abbrev pub same_outcome : MatchOutcome → MatchOutcome → Bool
same_outcome home_win home_win = true
same_outcome away_win away_win = true
same_outcome draw draw = true
same_outcome _ _ = false

abbrev pub is_pending : BetStatus → Bool
is_pending pending = true
is_pending _ = false

abbrev pub is_finished : MatchStatus → Bool
is_finished finished = true
is_finished _ = false

abbrev pub find_bet : ℕ → List Bet → Option Bet
find_bet i = find_by λ b. b.id == i

abbrev pub find_match : ℕ → List Match → Option Match
find_match i = find_by λ m. m.id == i
