-- ===== src/Seasons/Tests.antt =====
-- Calls of the services of the seasons on a small store.
use renaissance_api.Common.{
  ◌≤◌, ◌≡◌, refl, suc, true, false, none, some, List, [], ◌∷◌, count_by, arith, length,
}
use renaissance_api.Common.Fresh.{max_key, max_key-fresh}
use renaissance_api.Common.Int.{pos}
use renaissance_api.Common.Sorting.{IsSortedBy}
use renaissance_api.Seasons.{
  IdSource, SeasonDb, CreateSeason, SeasonalLeaderboard, new_row, new_season, is_current,
  comes_before, ranked, calculate_rankings, get_season_leaderboard, create_season,
}
use renaissance_api.Seasons.Dates.{IsDisjoint, spans}
use renaissance_api.Seasons.Current.{
  Call, create, check_and_reset, archive_old, run, run-OneCurrent,
}
use renaissance_api.Seasons.Rankings.{HasOneEach, find_row, calculate_rankings-Ranks}
use renaissance_api.Seasons.Records.{
  Step, bet_result, rankings, run_steps, AllTallied, run_steps-AllTallied,
}

abbrev max_ids : IdSource
max_ids = record {
  season_ids = λ xs. suc (max_key (λ s. s.id) xs);
  row_ids = λ xs. suc (max_key (λ r. r.id) xs);
}

abbrev winter : CreateSeason
winter = record {
  name = 1;
  season_number = 1;
  start_date = 100;
  end_date = 200;
  description = none;
  bronze_threshold = none;
  silver_threshold = none;
  gold_threshold = none;
}

abbrev spring : CreateSeason
spring = record {
  name = 2;
  season_number = 2;
  start_date = 150;
  end_date = 300;
  description = none;
  bronze_threshold = none;
  silver_threshold = none;
  gold_threshold = none;
}

abbrev summer : CreateSeason
summer = record {
  name = 3;
  season_number = 3;
  start_date = 200;
  end_date = 400;
  description = none;
  bronze_threshold = none;
  silver_threshold = none;
  gold_threshold = none;
}

abbrev empty : SeasonDb
empty = record { seasons = []; rows = [] }

-- The second of the three is refused, as it begins before the first has ended.
abbrev calls : List Call
calls =
    create winter
    ∷ create spring
    ∷ create summer
    ∷ check_and_reset 250
    ∷ archive_old 9000000000 none
    ∷ []

refused_second :
    length (spans (create_season max_ids spring (create_season max_ids winter empty).1).1) ≡ 1
unfolding create_season
refused_second = refl

run-OneCurrent_example :
    IsDisjoint (spans (run max_ids calls empty))
    × (count_by (is_current 250) (run max_ids calls empty).seasons ≤ 1)
run-OneCurrent_example =
    run-OneCurrent max_ids (λ xs. max_key-fresh (λ s. s.id) xs) calls 250 empty
      (tt, (tt, (tt, (tt, (tt, tt))))) tt

abbrev low : SeasonalLeaderboard
low = record (new_row 1 11 1) { total_points = pos 5 }

abbrev high : SeasonalLeaderboard
high = record (new_row 2 12 1) { total_points = pos 9 }

abbrev standing : SeasonDb
standing = record { seasons = new_season 1 winter ∷ []; rows = low ∷ high ∷ new_row 3 11 2 ∷ [] }

standing-HasOneEach : HasOneEach standing.rows
standing-HasOneEach i = ground arith

calculate_rankings-Ranks_example :
    let db' = (calculate_rankings 1 standing).1 in
    IsSortedBy comes_before (get_season_leaderboard 1 10000 none standing.rows)
    × (find_row 1 db'.rows ≡ some (ranked 2 low))
    × (find_row 3 db'.rows ≡ find_row 3 standing.rows)
    × (db'.seasons ≡ standing.seasons)
unfolding get_season_leaderboard
calculate_rankings-Ranks_example =
    calculate_rankings-Ranks 1 1 3 low standing standing-HasOneEach refl refl

-- A win, a loss and a calculation of the ranks.
abbrev steps : List Step
steps =
    bet_result 11 1 true (pos 300000000) (pos 500000000)
    ∷ bet_result 11 1 false (pos 100000000) (pos 0)
    ∷ rankings 1
    ∷ []

run_steps-AllTallied_example : AllTallied (run_steps max_ids steps standing)
run_steps-AllTallied_example = run_steps-AllTallied max_ids steps standing (
  (refl, omega arith, omega arith),
  ((refl, omega arith, omega arith), ((refl, omega arith, omega arith), tt)),
)
