-- ===== src/Seasons/Calendar.antt =====
-- backend/src/leaderboard/services/season.service.ts
use renaissance_api.Common.{
  ℕ, ◌*◌, Bool, true, false, not, Option, none, some, List, ◌&&◌, ltb, leb, ◌==◌, find_by, save_by,
}
use renaissance_api.Common.Int.{ℤ, pos}
use renaissance_api.Common.Sorting.{sort_by}
use renaissance_api.Common.Action.{◌>>=◌, ◌>>◌, pure, gets, or_raise, raise_if, modify}
use renaissance_api.Seasons.Entities.{
  Season, SeasonalLeaderboard, CreateSeason, UpdateSeason, SeasonDb, SeasonAction, find_season,
  is_active, active, completed, archived, bad_dates, overlapping, name_taken, season_not_found,
}

abbrev pub is_some {ℓ} : {A : Type ℓ} → Option A → Bool
is_some none = false
is_some (some a) = true

abbrev pub or_default {ℓ} : {A : Type ℓ} → Option A → A → A
or_default none d = d
or_default (some a) d = a

-- A value that `Object.assign` leaves out stays as it was.
abbrev pub or_kept {ℓ} : {A : Type ℓ} → Option A → Option A → Option A
or_kept none old = old
or_kept (some a) old = some a

-- The ids that the database gives to new rows.
pub record IdSource : Type 0 where
  pub season_ids : List Season → ℕ
  pub row_ids : List SeasonalLeaderboard → ℕ

-- 1 of the numbers that a column keeps with two decimals.
abbrev pub points : ℕ → ℤ
points n = pos (n * 100000000)

abbrev pub save_season : Season → SeasonAction Season
save_season s = do modify λ db. record db { seasons = save_by (λ x. x.id) s db.seasons }; pure s

abbrev pub fetch_season : ℕ → SeasonAction Season
fetch_season i = do or_raise (← gets (λ db. find_season i db.seasons)) season_not_found

abbrev pub overlaps : CreateSeason → Season → Bool
overlaps dto s = ltb s.start_date dto.end_date && ltb dto.start_date s.end_date

-- The name is a unique column: a save of a row with the name of another fails.
abbrev pub has_name : ℕ → ℕ → Season → Bool
has_name i name s = s.name == name && not (s.id == i)

abbrev pub new_season : ℕ → CreateSeason → Season
new_season i dto = record {
  id = i;
  name = dto.name;
  season_number = dto.season_number;
  start_date = dto.start_date;
  end_date = dto.end_date;
  status = active;
  description = dto.description;
  bronze_threshold = or_default dto.bronze_threshold (points 0);
  silver_threshold = or_default dto.silver_threshold (points 1000);
  gold_threshold = or_default dto.gold_threshold (points 5000);
}

abbrev pub save_named : Season → SeasonAction Season
save_named s = do
  taken ← gets (λ db. is_some (find_by (has_name s.id s.name) db.seasons))
  raise_if taken name_taken
  save_season s

abbrev pub add_season : IdSource → CreateSeason → SeasonAction Season
add_season ids dto = do i ← gets (λ db. ids.season_ids db.seasons); save_named (new_season i dto)

unfoldable pub create_season : IdSource → CreateSeason → SeasonAction Season
create_season ids dto = do
  raise_if (leb dto.end_date dto.start_date) bad_dates
  overlap ← gets (λ db. is_some (find_by (overlaps dto) db.seasons))
  raise_if overlap overlapping
  add_season ids dto

abbrev pub assigned : UpdateSeason → Season → Season
assigned dto s = record s {
  name = or_default dto.name s.name;
  end_date = or_default dto.end_date s.end_date;
  status = or_default dto.status s.status;
  description = or_kept dto.description s.description;
  bronze_threshold = or_default dto.bronze_threshold s.bronze_threshold;
  silver_threshold = or_default dto.silver_threshold s.silver_threshold;
  gold_threshold = or_default dto.gold_threshold s.gold_threshold;
}

unfoldable pub update_season : ℕ → UpdateSeason → SeasonAction Season
update_season i dto = do s ← fetch_season i; save_named (assigned dto s)

-- A season that is active and has begun and not ended.
abbrev pub is_current : ℕ → Season → Bool
is_current now s = is_active s.status && (ltb s.start_date now && ltb now s.end_date)

unfoldable pub get_active_season : ℕ → SeasonDb → Option Season
get_active_season now db = find_by (is_current now) db.seasons

unfoldable pub get_all_seasons : SeasonDb → List Season
get_all_seasons db = sort_by (λ a b. leb b.season_number a.season_number) db.seasons

unfoldable pub get_season_by_id : ℕ → SeasonAction Season
get_season_by_id i = fetch_season i

unfoldable pub complete_season : ℕ → SeasonAction Season
unfolding get_season_by_id
complete_season i = do s ← get_season_by_id i; save_season (record s { status = completed })

unfoldable pub archive_season : ℕ → SeasonAction Season
unfolding get_season_by_id
archive_season i = do s ← get_season_by_id i; save_season (record s { status = archived })
