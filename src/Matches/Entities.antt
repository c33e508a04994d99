-- ===== src/Matches/Entities.antt =====
-- backend/src/matches/entities, dto and events, and backend/src/odds/entities: the table of matches,
-- the history of odds, the requests and the events. A text is a number, 0 the empty one; odds are
-- hundredths.
use renaissance_api.Common.{ℕ, Bool, true, false, Option, none, some, List, ◌==◌, find_by}
use renaissance_api.Common.Action.{Action}
use renaissance_api.Bets
use renaissance_api.Bets.{
  MatchStatus, MatchOutcome, upcoming, live, finished, match_cancelled, postponed,
}

pub record OddsValues : Type 0 where
  pub home_odds : ℕ
  pub draw_odds : ℕ
  pub away_odds : ℕ

pub record Match : Type 0 where
  pub id : ℕ
  pub home_team : ℕ
  pub away_team : ℕ
  pub start_time : ℕ
  pub status : MatchStatus
  pub home_score : Option ℕ
  pub away_score : Option ℕ
  pub outcome : Option MatchOutcome
  pub league : Option ℕ
  pub season : Option ℕ
  pub odds : OddsValues
  pub metadata : Option ℕ

-- What the bets service reads of a match.
abbrev pub bet_view : Match → Bets.Match
bet_view m = record { id = m.id; status = m.status; outcome = m.outcome }

pub record CreateMatch : Type 0 where
  pub home_team : ℕ
  pub away_team : ℕ
  pub start_time : ℕ
  pub status : Option MatchStatus
  pub league : Option ℕ
  pub season : Option ℕ
  pub home_odds : Option ℕ
  pub draw_odds : Option ℕ
  pub away_odds : Option ℕ
  pub metadata : Option ℕ

-- A key that the request leaves out is `none`.
pub record UpdateMatch : Type 0 where
  pub home_team : Option ℕ
  pub away_team : Option ℕ
  pub start_time : Option ℕ
  pub status : Option MatchStatus
  pub home_score : Option ℕ
  pub away_score : Option ℕ
  pub outcome : Option MatchOutcome
  pub league : Option ℕ
  pub season : Option ℕ
  pub home_odds : Option ℕ
  pub draw_odds : Option ℕ
  pub away_odds : Option ℕ
  pub metadata : Option ℕ

pub record UpdateMatchStatus : Type 0 where
  pub status : MatchStatus
  pub home_score : Option ℕ
  pub away_score : Option ℕ
  pub outcome : Option MatchOutcome

-- `MatchFinishedEvent`, but for the time.
pub record MatchFinished : Type 0 where
  pub match_id : ℕ
  pub outcome : MatchOutcome

pub data OddsUpdateSource : Type 0 where
  manual automatic match_update : OddsUpdateSource

-- `MatchOddsHistory`, but for the texts.
pub record OddsHistory : Type 0 where
  pub match_id : ℕ
  pub previous : OddsValues
  pub new : OddsValues
  pub source : OddsUpdateSource
  pub changed_by_user_id : Option ℕ

-- What `buildSnapshot` gives, but for the time.
pub record OddsSnapshot : Type 0 where
  pub match_id : ℕ
  pub home_team : ℕ
  pub away_team : ℕ
  pub status : MatchStatus
  pub odds : OddsValues

-- `cache` holds the snapshots, `broadcasts` those that were sent, `events` those that were published.
pub record MatchDb : Type 0 where
  pub matches : List Match
  pub odds_history : List OddsHistory
  pub cache : List OddsSnapshot
  pub broadcasts : List OddsSnapshot
  pub events : List MatchFinished

pub data Error : Type 0 where
  -- NotFoundException
  match_not_found : Error
  -- BadRequestException
  starts_in_past same_teams scores_missing not_cancellable bad_page bad_limit : Error
  -- ConflictException
  invalid_transition : Error

abbrev pub MatchAction : Type 0 → Type 0
MatchAction = Action Error MatchDb

abbrev pub find_match : ℕ → List Match → Option Match
find_match i = find_by λ m. m.id == i

abbrev pub is_none {ℓ} : {A : Type ℓ} → Option A → Bool
is_none none = true
is_none (some _) = false
