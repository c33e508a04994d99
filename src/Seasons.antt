-- ===== src/Seasons.antt =====
-- backend/src/leaderboard/services/season-reset.service.ts, and the services that it calls.
mod Entities
mod Calendar
mod Standings
pub mod Dates
pub mod Current
pub mod Rankings
pub mod Records
mod Tests
pub use Entities.*
unfoldable pub use Calendar.*
unfoldable pub use Standings.*
use renaissance_api.Common.{
  ℕ, suc, ◌+◌, ◌-◌, ◌*◌, ◌/◌, Bool, true, false, not, Option, none, some, List, [], ◌∷◌, ◌&&◌, ◌||◌,
  ltb, leb, ◌==◌, if◌then◌else◌, find_by, select_by, save_by, count_by, take,
}
use renaissance_api.Common.Int.{ℤ, pos, negsuc, ◌+ℤ◌, ◌-ℤ◌, leb_ℤ, sub_ℕ}
use renaissance_api.Common.Sorting.{sort_by}
use renaissance_api.Common.Action.{ok, err, ◌>>=◌, ◌>>◌, pure, gets, or_raise, raise_if, modify}

unfoldable pub reset_season : Season → SeasonAction Season
unfolding calculate_rankings complete_season
reset_season s = do calculate_rankings s.id; complete_season s.id

unfoldable pub reset_all : List Season → SeasonAction (Unit {0})
unfolding reset_season
reset_all [] = pure tt
reset_all (s ∷ ss) = do reset_season s; reset_all ss

abbrev pub is_over : ℕ → Season → Bool
is_over now s = is_active s.status && ltb s.end_date now

unfoldable pub check_and_reset_seasons : ℕ → SeasonAction (Unit {0})
unfolding reset_all
check_and_reset_seasons now = do
  expired ← gets (λ db. select_by (is_over now) db.seasons)
  reset_all expired

abbrev pub is_old : ℕ → Season → Bool
is_old cutoff s = is_completed s.status && ltb s.end_date cutoff

unfoldable pub archive_all : List Season → SeasonAction (Unit {0})
unfolding archive_season
archive_all [] = pure tt
archive_all (s ∷ ss) = do archive_season s.id; archive_all ss

-- The days are 90 where none are given.
unfoldable pub archive_old_seasons : ℕ → Option ℕ → SeasonAction (Unit {0})
unfolding archive_all
archive_old_seasons now days = do
  old ← gets (λ db. select_by (is_old (now - or_default days 90 * 86400000)) db.seasons)
  archive_all old
