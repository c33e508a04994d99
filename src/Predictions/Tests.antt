-- ===== src/Predictions/Tests.antt =====
-- A match with three predictions, and the theorems about its settlement.
use renaissance_api.Common.{◌≡◌, refl, [], ◌∷◌, none, some, false}
use renaissance_api.Predictions.{
  Db, Prediction, Stellar, home_win, away_win, pending, lost, settle_route, paid,
}

abbrev stellar : Stellar
stellar wallet amount memo = paid memo

abbrev bold : Prediction
bold = record {
  id = 1;
  user_id = 7;
  match_id = 5;
  predicted_outcome = home_win;
  stake_amount = 1000000;
  reward_multiplier = 18000;
  status = pending;
  reward_amount = none;
  settled_at = none;
}

abbrev store : Db
store = record {
  matches = record { id = 5; is_settled = false; outcome = none; settled_at = none } ∷ [];
  predictions =
      bold
      ∷ record bold { id = 2; user_id = 8; predicted_outcome = away_win }
      ∷ record bold { id = 3; status = lost }
      ∷ [];
  balances = [];
  audits = [];
}

winner_credited :
    (settle_route stellar 100 5 (some 2) (some 1) false store).1.balances
    ≡ record { user_id = 7; pending_rewards = 1800000; total_earned = 1800000 } ∷ []
unfolding settle_route
winner_credited = refl
