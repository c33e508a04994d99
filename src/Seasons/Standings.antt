-- ===== src/Seasons/Standings.antt =====
-- backend/src/leaderboard/services/seasonal-leaderboard.service.ts
use renaissance_api.Common.{
  ℕ, ◌+◌, ◌*◌, ◌/◌, Bool, true, Option, none, some, List, [], ◌∷◌, ◌&&◌, ltb, ◌==◌, if◌then◌else◌,
  select_by, save_by, count_by, take,
}
use renaissance_api.Common.Int.{two_decimals, ℤ, pos, ◌+ℤ◌, ◌-ℤ◌, leb_ℤ}
use renaissance_api.Common.Sorting.{sort_by}
use renaissance_api.Common.Action.{◌>>=◌, ◌>>◌, pure, gets, modify}
use renaissance_api.Seasons.Entities.{
  LeaderboardTier, Season, SeasonalLeaderboard, SeasonDb, SeasonAction, tier_number, find_stats,
  bronze, silver, gold,
}
use renaissance_api.Seasons.Calendar.{IdSource, get_season_by_id}

abbrev pub stored : SeasonalLeaderboard → SeasonalLeaderboard
stored r = record r { total_points = two_decimals r.total_points }

abbrev pub save_row : SeasonalLeaderboard → SeasonAction SeasonalLeaderboard
save_row r = do modify λ db. record db { rows = save_by (λ x. x.id) (stored r) db.rows }; pure r

abbrev pub new_row : ℕ → ℕ → ℕ → SeasonalLeaderboard
new_row i user season = record {
  id = i;
  user_id = user;
  season_id = season;
  tier = bronze;
  total_points = pos 0;
  total_bets = 0;
  bets_won = 0;
  bets_lost = 0;
  total_winnings = pos 0;
  total_staked = pos 0;
  betting_accuracy = 0;
  winning_streak = 0;
  highest_winning_streak = 0;
  rank = none;
}

abbrev pub get_user_season_stats : ℕ → ℕ → SeasonDb → Option SeasonalLeaderboard
get_user_season_stats user season db = find_stats user season db.rows

abbrev pub or_create :
    IdSource → ℕ → ℕ → Option SeasonalLeaderboard → SeasonAction SeasonalLeaderboard
or_create ids user season (some r) = pure r
or_create ids user season none = do
  i ← gets (λ db. ids.row_ids db.rows)
  save_row (new_row i user season)

unfoldable pub get_or_create_user_season_stats : IdSource → ℕ → ℕ → SeasonAction SeasonalLeaderboard
get_or_create_user_season_stats ids user season = do
  stats ← gets (get_user_season_stats user season)
  or_create ids user season stats

abbrev pub calculate_tier : ℤ → Season → LeaderboardTier
calculate_tier p s =
    if leb_ℤ s.gold_threshold p then gold else if leb_ℤ s.silver_threshold p then silver else bronze

-- `toFixed(2)` of a percentage, to the nearest.
abbrev pub accuracy : SeasonalLeaderboard → ℕ
accuracy r =
    if ltb 0 r.total_bets
    then (r.bets_won * 20000 + r.total_bets) / (2 * r.total_bets)
    else r.betting_accuracy

-- `updates` is what `Object.assign` makes of the row.
unfoldable pub update_user_stats :
    IdSource
    → ℕ
    → ℕ
    → (SeasonalLeaderboard → SeasonalLeaderboard)
    → SeasonAction SeasonalLeaderboard
unfolding get_or_create_user_season_stats get_season_by_id
update_user_stats ids user season updates = do
  stats ← get_or_create_user_season_stats ids user season
  s ← get_season_by_id season
  save_row (record (updates stats) {
    betting_accuracy = accuracy (updates stats);
    tier = calculate_tier (updates stats).total_points s;
  })

abbrev pub won_bet : ℤ → ℤ → SeasonalLeaderboard → SeasonalLeaderboard
won_bet amount winnings r = record r {
  bets_won = r.bets_won + 1;
  total_winnings = r.total_winnings +ℤ winnings;
  winning_streak = r.winning_streak + 1;
  total_points = r.total_points +ℤ (winnings -ℤ amount);
  highest_winning_streak =
      if ltb r.highest_winning_streak (r.winning_streak + 1)
      then r.winning_streak + 1
      else r.highest_winning_streak;
}

abbrev pub lost_bet : ℤ → SeasonalLeaderboard → SeasonalLeaderboard
lost_bet amount r = record r {
  bets_lost = r.bets_lost + 1;
  winning_streak = 0;
  total_points = r.total_points -ℤ amount;
}

abbrev pub counted_bet : Bool → ℤ → ℤ → SeasonalLeaderboard → SeasonalLeaderboard
counted_bet is_win amount winnings r =
    let r' = record r { total_bets = r.total_bets + 1; total_staked = r.total_staked +ℤ amount } in
    if is_win then won_bet amount winnings r' else lost_bet amount r'

unfoldable pub record_bet_result :
    IdSource → ℕ → ℕ → Bool → ℤ → ℤ → SeasonAction SeasonalLeaderboard
unfolding get_or_create_user_season_stats update_user_stats
record_bet_result ids user season is_win amount winnings = do
  stats ← get_or_create_user_season_stats ids user season
  update_user_stats ids user season (λ _. counted_bet is_win amount winnings stats)

abbrev pub same_tier : Option LeaderboardTier → LeaderboardTier → Bool
same_tier none t = true
same_tier (some u) t = tier_number t == tier_number u

abbrev pub is_listed : ℕ → Option LeaderboardTier → SeasonalLeaderboard → Bool
is_listed season tier r = r.season_id == season && same_tier tier r.tier

-- `ORDER BY total_points DESC`
abbrev pub comes_before : SeasonalLeaderboard → SeasonalLeaderboard → Bool
comes_before a b = leb_ℤ b.total_points a.total_points

unfoldable pub get_season_leaderboard :
    ℕ → ℕ → Option LeaderboardTier → List SeasonalLeaderboard → List SeasonalLeaderboard
get_season_leaderboard season limit tier rows =
    take limit (sort_by comes_before (select_by (is_listed season tier) rows))

abbrev pub ranked : ℕ → SeasonalLeaderboard → SeasonalLeaderboard
ranked n r = record r { rank = some n }

-- The loop of `calculateRankings`; a rank is one more than the index.
unfoldable pub rank_rows :
    ℕ → List SeasonalLeaderboard → List SeasonalLeaderboard → List SeasonalLeaderboard
rank_rows i [] rows = rows
rank_rows i (r ∷ rs) rows = rank_rows (i + 1) rs (save_by (λ x. x.id) (ranked (i + 1) r) rows)

unfoldable pub calculate_rankings : ℕ → SeasonAction (Unit {0})
unfolding rank_rows get_season_leaderboard
calculate_rankings season = modify λ db. record db {
  rows = rank_rows 0 (get_season_leaderboard season 10000 none db.rows) db.rows;
}

-- The number of rows of each tier, from bronze to gold.
unfoldable pub get_tier_distribution : ℕ → SeasonDb → ℕ × (ℕ × ℕ)
get_tier_distribution season db = (
  count_by (is_listed season (some bronze)) db.rows,
  (
    count_by (is_listed season (some silver)) db.rows,
    count_by (is_listed season (some gold)) db.rows,
  ),
)
