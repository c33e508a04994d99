-- ===== src/Bets/Tests.antt =====
-- The theorems about bets at a small database: a finished match with a bet that wins, one that
-- loses and one that is already cancelled.
use renaissance_api.Common.{ℕ, suc, ◌≡◌, refl, false, [], ◌∷◌, none, some, arith}
use renaissance_api.Common.Int.{pos}
use renaissance_api.Common.Action.{ok}
use renaissance_api.Common.Fresh.{max_key, max_key-fresh}
use renaissance_api.Wallet.{IdSource, IsFresh}
use renaissance_api.Wallet.Invariant.{empty, empty-IsValid}
use renaissance_api.Bets.{
  Bet, BetStatus, MatchOutcome, Db, pending, lost, cancelled, finished, home_win, draw, no_bets,
  settle_match_bets, update_bet_status, cancel_bet,
}
use renaissance_api.Bets.MatchBets.{settle_match_bets_once}
use renaissance_api.Bets.Changes.{Decides, update_bet_status-Decides}
use renaissance_api.Bets.Cancellation.{Cancels, cancel_bet-Cancels}

abbrev next_id : IdSource
next_id rows = suc (max_key (λ b. b.id) rows)

next_id-IsFresh : IsFresh next_id
next_id-IsFresh rows = max_key-fresh (λ b. b.id) rows

abbrev sample_bet : ℕ → ℕ → MatchOutcome → BetStatus → Bet
sample_bet i user outcome status = record {
  id = i;
  user_id = user;
  match_id = 4;
  stake_amount = pos 10;
  predicted_outcome = outcome;
  potential_payout = pos 25;
  status = status;
  settled_at = none;
  metadata = record { is_free_bet = false; is_voucher_withdrawable = false; voucher_id = none };
}

abbrev sample : Db
sample = record {
  matches = record { id = 4; status = finished; outcome = some home_win } ∷ [];
  bets =
      sample_bet 1 7 home_win pending
      ∷ sample_bet 2 8 draw pending
      ∷ sample_bet 3 7 home_win cancelled
      ∷ [];
  wallet = empty;
  vouchers = record { users = []; vouchers = [] };
  events = [];
}

settle_match_bets_once_example :
    settle_match_bets next_id 9 200 4 none (settle_match_bets next_id 9 100 4 (some 1) sample).1
    ≡ (ok no_bets, (settle_match_bets next_id 9 100 4 (some 1) sample).1)
settle_match_bets_once_example =
    settle_match_bets_once next_id next_id-IsFresh 9 100 4 home_win 8 200 (some 1) none sample refl
      empty-IsValid (refl, (refl, (refl, tt))) (omega arith)

update_bet_status-Decides_example : Decides 100 2 lost sample (update_bet_status 100 2 lost sample)
update_bet_status-Decides_example = update_bet_status-Decides 100 2 lost sample

cancel_bet-Cancels_example :
    Cancels 100 1 7 false sample (cancel_bet next_id 55 100 1 7 false sample)
cancel_bet-Cancels_example =
    cancel_bet-Cancels next_id next_id-IsFresh 55 100 1 7 false sample empty-IsValid
