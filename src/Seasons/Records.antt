-- ===== src/Seasons/Records.antt =====
-- What the bets of a season count for.
use renaissance_api.Common.{
  ℕ, ◌+◌, ◌≤◌, ◌≡◌, refl, Bool, true, false, Option, none, some, List, [], ◌∷◌, arith, save_by,
  select_by, take, All, save_by-All, find_by-All, Bool-cases, inl, inr,
}
use renaissance_api.Common.Int.{ℤ}
use renaissance_api.Common.Sorting.{sort_by, insert_by}
use renaissance_api.Seasons.Rankings.{All-take}
use renaissance_api.Common.Action.{Result, ok, err, ◌>>=◌, missing-or, bind_by}
use renaissance_api.Seasons.{
  SeasonalLeaderboard, SeasonDb, Error, IdSource, find_stats, is_row_of, is_listed,
  get_or_create_user_season_stats, or_create, new_row, save_row, stored, update_user_stats,
  record_bet_result, counted_bet, calculate_rankings, get_season_leaderboard, rank_rows, ranked,
  get_season_by_id, find_season, comes_before, season_not_found, accuracy, calculate_tier,
}

-- Every bet is won or lost, and no streak is longer than the longest, nor that than the bets won.
abbrev pub IsTallied : SeasonalLeaderboard → Type 0
IsTallied r =
    (r.total_bets ≡ r.bets_won + r.bets_lost)
    × (r.winning_streak ≤ r.highest_winning_streak)
    × (r.highest_winning_streak ≤ r.bets_won)

abbrev pub AllTallied : SeasonDb → Type 0
AllTallied db = All IsTallied db.rows

-- A call whose row and whose rows are tallied.
abbrev pub Tallies : Result Error SeasonalLeaderboard × SeasonDb → Type 0
Tallies (ok r, db) = IsTallied r × AllTallied db
Tallies (err e, db) = AllTallied db

save_row-Tallies :
    (r : SeasonalLeaderboard) (db : SeasonDb)
    → IsTallied r
    → AllTallied db
    → Tallies (save_row r db)
save_row-Tallies r db t all = (t, save_by-All IsTallied (λ x. x.id) (stored r) db.rows t all)

counted_bet-IsTallied :
    (is_win : Bool) (amount winnings : ℤ) (r : SeasonalLeaderboard)
    → IsTallied r
    → IsTallied (counted_bet is_win amount winnings r)
counted_bet-IsTallied true amount winnings r (bets, streak, high) =
    (omega (arith, bets), ground (arith, streak, high), ground (arith, streak, high))
counted_bet-IsTallied false amount winnings r (bets, streak, high) =
    (omega (arith, bets), omega arith, high)

or_create-Tallies :
    (ids : IdSource) (user season : ℕ) (o : Option SeasonalLeaderboard) (db : SeasonDb)
    → find_stats user season db.rows ≡ o
    → AllTallied db
    → Tallies (or_create ids user season o db)
or_create-Tallies ids user season none db e all =
    save_row-Tallies (new_row (ids.row_ids db.rows) user season) db (refl, omega arith, omega arith)
      all
or_create-Tallies ids user season (some r) db e all =
    (find_by-All IsTallied (is_row_of user season) r db.rows all e, all)

get_or_create-Tallies :
    (ids : IdSource) (user season : ℕ) (db : SeasonDb)
    → AllTallied db
    → Tallies (get_or_create_user_season_stats ids user season db)
unfolding get_or_create_user_season_stats
get_or_create-Tallies ids user season db all =
    or_create-Tallies ids user season (find_stats user season db.rows) db refl all

update_user_stats-Tallies :
    (ids : IdSource) (user season : ℕ) (updates : SeasonalLeaderboard → SeasonalLeaderboard)
    (db : SeasonDb)
    → ((r : SeasonalLeaderboard) → IsTallied r → IsTallied (updates r))
    → AllTallied db
    → Tallies (update_user_stats ids user season updates db)
unfolding update_user_stats get_season_by_id
update_user_stats-Tallies ids user season updates db keeps all =
    bind_by Tallies Tallies (get_or_create_user_season_stats ids user season)
      (λ stats. get_season_by_id season >>= λ s. save_row (record (updates stats) {
        betting_accuracy = accuracy (updates stats);
        tier = calculate_tier (updates stats).total_points s;
      }))
      db (get_or_create-Tallies ids user season db all)
      (λ stats db' (t, all').
        missing-or Tallies db' (find_season season db'.seasons) season_not_found
          (λ s. save_row (record (updates stats) {
            betting_accuracy = accuracy (updates stats);
            tier = calculate_tier (updates stats).total_points s;
          }))
          (λ gone. all')
          λ s here.
            save_row-Tallies
              (record (updates stats) {
                betting_accuracy = accuracy (updates stats);
                tier = calculate_tier (updates stats).total_points s;
              })
              db' (keeps stats t) all')
      (λ e db' all'. all')

record_bet_result-Tallies :
    (ids : IdSource) (user season : ℕ) (is_win : Bool) (amount winnings : ℤ) (db : SeasonDb)
    → AllTallied db
    → Tallies (record_bet_result ids user season is_win amount winnings db)
unfolding record_bet_result
record_bet_result-Tallies ids user season is_win amount winnings db all =
    bind_by Tallies Tallies (get_or_create_user_season_stats ids user season)
      (λ stats. update_user_stats ids user season (λ _. counted_bet is_win amount winnings stats))
      db (get_or_create-Tallies ids user season db all)
      (λ stats db' (t, all').
        update_user_stats-Tallies ids user season (λ _. counted_bet is_win amount winnings stats)
          db' (λ r t'. counted_bet-IsTallied is_win amount winnings stats t) all')
      (λ e db' all'. all')

rank_rows-IsTallied :
    (i : ℕ) (rs rows : List SeasonalLeaderboard)
    → All IsTallied rs
    → All IsTallied rows
    → All IsTallied (rank_rows i rs rows)
unfolding rank_rows
rank_rows-IsTallied i [] rows ts all = all
rank_rows-IsTallied i (r ∷ rs) rows ts all =
    rank_rows-IsTallied (i + 1) rs (save_by (λ x. x.id) (ranked (i + 1) r) rows) ts.1
      (save_by-All IsTallied (λ x. x.id) (ranked (i + 1) r) rows ts.0 all)

module _ {ℓ κ} {A : Type ℓ} (P : A → Type κ) where
  All-select_by : (p : A → Bool) (xs : List A) → All P xs → All P (select_by p xs)
  All-select_by p [] all = tt
  All-select_by p (x ∷ xs) all = elim (Bool-cases (p x)) [
    | inl e ↦ rw e (all.0, All-select_by p xs all.1)
    | inr e ↦ rw e (All-select_by p xs all.1)
  ]

  All-insert_by :
      (before : A → A → Bool) (a : A) (xs : List A) → P a → All P xs → All P (insert_by before a xs)
  All-insert_by before a [] h all = (h, tt)
  All-insert_by before a (x ∷ xs) h all = elim (Bool-cases (before a x)) [
    | inl e ↦ rw e (h, all)
    | inr e ↦ rw e (all.0, All-insert_by before a xs h all.1)
  ]

  All-sort_by : (before : A → A → Bool) (xs : List A) → All P xs → All P (sort_by before xs)
  All-sort_by before [] all = tt
  All-sort_by before (x ∷ xs) all =
      All-insert_by before x (sort_by before xs) all.0 (All-sort_by before xs all.1)

calculate_rankings-IsTallied :
    (season : ℕ) (db : SeasonDb) → AllTallied db → AllTallied (calculate_rankings season db).1
unfolding calculate_rankings get_season_leaderboard
calculate_rankings-IsTallied season db all =
    let listed = select_by (is_listed season none) db.rows in
    rank_rows-IsTallied 0 (take 10000 (sort_by comes_before listed)) db.rows
      (All-take IsTallied 10000 (sort_by comes_before listed) (
        All-sort_by IsTallied comes_before listed
          (All-select_by IsTallied (is_listed season none) db.rows all)))
      all

-- What changes the rows of the seasons: the result of a bet, and a calculation of the ranks.
pub data Step : Type 0 where
  bet_result : ℕ → ℕ → Bool → ℤ → ℤ → Step
  rankings : ℕ → Step

pub perform_step : IdSource → Step → SeasonDb → SeasonDb
perform_step ids (bet_result user season is_win amount winnings) db =
    (record_bet_result ids user season is_win amount winnings db).1
perform_step ids (rankings season) db = (calculate_rankings season db).1

pub run_steps : IdSource → List Step → SeasonDb → SeasonDb
run_steps ids [] db = db
run_steps ids (s ∷ ss) db = run_steps ids ss (perform_step ids s db)

rows_tallied : (r : Result Error SeasonalLeaderboard × SeasonDb) → Tallies r → AllTallied r.1
rows_tallied (ok r, db) (t, all) = all
rows_tallied (err e, db) all = all

perform_step-AllTallied :
    (ids : IdSource) (s : Step) (db : SeasonDb) → AllTallied db → AllTallied (perform_step ids s db)
unfolding perform_step
perform_step-AllTallied ids (bet_result user season is_win amount winnings) db all =
    rows_tallied (record_bet_result ids user season is_win amount winnings db)
      (record_bet_result-Tallies ids user season is_win amount winnings db all)
perform_step-AllTallied ids (rankings season) db all = calculate_rankings-IsTallied season db all

-- In every row of the seasons each bet is either won or lost, and the streak of won bets is at most the
-- longest one and that at most the number of bets won: where it is so, it stays so over any results of
-- bets and calculations of ranks, also those that throw.
pub run_steps-AllTallied :
    (ids : IdSource) (ss : List Step) (db : SeasonDb)
    → AllTallied db
    → AllTallied (run_steps ids ss db)
unfolding run_steps
run_steps-AllTallied ids [] db all = all
run_steps-AllTallied ids (s ∷ ss) db all =
    run_steps-AllTallied ids ss (perform_step ids s db) (perform_step-AllTallied ids s db all)
