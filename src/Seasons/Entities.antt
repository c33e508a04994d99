-- ===== src/Seasons/Entities.antt =====
-- backend/src/leaderboard/entities/season.entity.ts, seasonal-leaderboard.entity.ts and
-- dto/season.dto.ts. Points and amounts are numbers of units of 10^-8; an accuracy is in hundredths of a
-- percent; a name or a text is a number.
use renaissance_api.Common.{ℕ, Option, List, Bool, true, false, ◌==◌, ◌&&◌, find_by}
use renaissance_api.Common.Int.{ℤ}
use renaissance_api.Common.Action.{Action}

pub data SeasonStatus : Type 0 where
  active completed archived : SeasonStatus

pub data LeaderboardTier : Type 0 where
  bronze silver gold : LeaderboardTier

pub record Season : Type 0 where
  pub id : ℕ
  pub name : ℕ
  pub season_number : ℕ
  pub start_date : ℕ
  pub end_date : ℕ
  pub status : SeasonStatus
  pub description : Option ℕ
  pub bronze_threshold : ℤ
  pub silver_threshold : ℤ
  pub gold_threshold : ℤ

pub record SeasonalLeaderboard : Type 0 where
  pub id : ℕ
  pub user_id : ℕ
  pub season_id : ℕ
  pub tier : LeaderboardTier
  pub total_points : ℤ
  pub total_bets : ℕ
  pub bets_won : ℕ
  pub bets_lost : ℕ
  pub total_winnings : ℤ
  pub total_staked : ℤ
  pub betting_accuracy : ℕ
  pub winning_streak : ℕ
  pub highest_winning_streak : ℕ
  pub rank : Option ℕ

pub record CreateSeason : Type 0 where
  pub name : ℕ
  pub season_number : ℕ
  pub start_date : ℕ
  pub end_date : ℕ
  pub description : Option ℕ
  pub bronze_threshold : Option ℤ
  pub silver_threshold : Option ℤ
  pub gold_threshold : Option ℤ

pub record UpdateSeason : Type 0 where
  pub name : Option ℕ
  pub end_date : Option ℕ
  pub status : Option SeasonStatus
  pub description : Option ℕ
  pub bronze_threshold : Option ℤ
  pub silver_threshold : Option ℤ
  pub gold_threshold : Option ℤ

pub record SeasonDb : Type 0 where
  pub seasons : List Season
  pub rows : List SeasonalLeaderboard

pub data Error : Type 0 where
  bad_dates overlapping name_taken season_not_found : Error

abbrev pub SeasonAction : Type 0 → Type 0
SeasonAction = Action Error SeasonDb

abbrev pub find_season : ℕ → List Season → Option Season
find_season i = find_by λ s. s.id == i

abbrev pub is_active : SeasonStatus → Bool
is_active active = true
is_active _ = false

abbrev pub is_completed : SeasonStatus → Bool
is_completed completed = true
is_completed _ = false

abbrev pub tier_number : LeaderboardTier → ℕ
tier_number bronze = 0
tier_number silver = 1
tier_number gold = 2

-- `where: { userId, seasonId }`
abbrev pub is_row_of : ℕ → ℕ → SeasonalLeaderboard → Bool
is_row_of user season r = r.user_id == user && r.season_id == season

abbrev pub find_stats : ℕ → ℕ → List SeasonalLeaderboard → Option SeasonalLeaderboard
find_stats user season = find_by (is_row_of user season)
