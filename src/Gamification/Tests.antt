-- ===== src/Gamification/Tests.antt =====
-- An achievement for two won bets, and the theorems about achievements at it.
use renaissance_api.Common.{ℕ, ◌≡◌, refl, [], ◌∷◌, List, true, false, arith, min, leb, length}
use renaissance_api.Common.Int.{pos, ◌+ℤ◌}
use renaissance_api.Bets.{BetSettled}
use renaissance_api.Gamification.{
  Achievement, GameDb, Payload, bet_settled, count, flag, is_win, on_bet_settled,
}
use renaissance_api.Gamification.Awards.{Event, bet, run, IsAwardedOnce, run-IsAwardedOnce}
use renaissance_api.Gamification.Counting.{evaluate_each, row_of, counts_events}

abbrev two_wins : Achievement
two_wins = record {
  id = 1;
  name = 10;
  trigger_event = bet_settled;
  rule_type = count;
  target_value = pos 2;
  metadata = (is_win, flag true) ∷ [];
  reward_points = 50;
  is_active = true;
}

abbrev game : GameDb
game = record { achievements = two_wins ∷ []; user_achievements = []; unlocked = [] }

abbrev win : BetSettled
win = record {
  user_id = 7;
  bet_id = 1;
  match_id = 2;
  is_win = true;
  stake_amount = pos 10;
  winnings_amount = pos 20;
}

abbrev events : List Event
events = bet 1 win ∷ bet 2 (record win { is_win = false }) ∷ bet 3 win ∷ bet 4 win ∷ []

-- Two of three wins are enough, and the third changes nothing.
unlocked_once :
    length (on_bet_settled 4 win (on_bet_settled 3 win (on_bet_settled 1 win game))).unlocked ≡ 1
unfolding on_bet_settled ◌+ℤ◌
unlocked_once = refl

run-IsAwardedOnce_example : IsAwardedOnce (run events game)
run-IsAwardedOnce_example = run-IsAwardedOnce events game (λ u a. refl)

abbrev three : List (ℕ × Payload)
three = (1, []) ∷ (2, []) ∷ (3, []) ∷ []

counts_events_example :
    let r = row_of 7 two_wins (evaluate_each 7 two_wins three game) in
    (r.current_progress ≡ pos (min 3 2)) × (r.is_completed ≡ leb 2 3)
counts_events_example = counts_events 7 2 two_wins three game refl refl (omega arith) refl
