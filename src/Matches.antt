-- ===== src/Matches.antt =====
-- backend/src/matches/matches.service.ts: `MatchesService`. The cache of responses is left out.
pub mod Entities
pub mod Odds
pub mod Changes
pub mod Status
pub mod Life
pub mod Finishing
pub mod Queries
mod Tests
pub use Entities.*
unfoldable pub use Odds.*
use renaissance_api.Common.{
  ℕ, ◌-◌, ◌*◌, ◌+◌, ◌/◌, Bool, true, false, not, Option, none, some, List, [], ◌∷◌, ◌++◌, ◌&&◌,
  ◌||◌, ltb, leb, ◌==◌, if◌then◌else◌, select_by, take, drop, length,
}
use renaissance_api.Common.Action.{ok, ◌>>=◌, ◌>>◌, pure, gets, raise_if, modify}
use renaissance_api.Bets.{
  MatchStatus, MatchOutcome, upcoming, live, finished, match_cancelled, postponed, home_win,
  away_win, draw, is_finished,
}

-- `value ?? kept`
abbrev pub or_keep {ℓ} : {A : Type ℓ} → Option A → A → A
or_keep none a = a
or_keep (some b) a = b

abbrev pub or_else {ℓ} : {A : Type ℓ} → Option A → Option A → Option A
or_else none o = o
or_else (some b) o = some b

-- `validTransitions[currentStatus].includes(newStatus)`
abbrev pub is_transition : MatchStatus → MatchStatus → Bool
is_transition upcoming live = true
is_transition upcoming postponed = true
is_transition upcoming match_cancelled = true
is_transition live finished = true
is_transition live postponed = true
is_transition postponed upcoming = true
is_transition postponed match_cancelled = true
is_transition _ _ = false

abbrev pub validate_status_transition : MatchStatus → MatchStatus → MatchAction (Unit {0})
validate_status_transition current new =
    raise_if (not (is_transition current new)) invalid_transition

abbrev pub calculate_outcome : ℕ → ℕ → MatchOutcome
calculate_outcome home away =
    if ltb away home then home_win else if ltb home away then away_win else draw

abbrev pub publish_finished : Match → Option MatchOutcome → MatchAction (Unit {0})
publish_finished m none = pure tt
publish_finished m (some o) =
    modify λ db. record db { events = db.events ++ record { match_id = m.id; outcome = o } ∷ [] }

abbrev pub publish_match_finished_event_if_needed : MatchStatus → Match → MatchAction (Unit {0})
publish_match_finished_event_if_needed previous m =
    if not (is_finished previous) && is_finished m.status
    then publish_finished m m.outcome
    else pure tt

-- The row that a request creates. The odds have defaults of 1.5, 3 and 2.5.
abbrev pub new_match : ℕ → CreateMatch → Match
new_match i dto = record {
  id = i;
  home_team = dto.home_team;
  away_team = dto.away_team;
  start_time = dto.start_time;
  status = or_keep dto.status upcoming;
  home_score = none;
  away_score = none;
  outcome = none;
  league = dto.league;
  season = dto.season;
  odds = record {
    home_odds = or_keep dto.home_odds 150;
    draw_odds = or_keep dto.draw_odds 300;
    away_odds = or_keep dto.away_odds 250;
  };
  metadata = dto.metadata;
}

-- `new_id` is the id that the database gives to a new row.
unfoldable pub create_match : (List Match → ℕ) → ℕ → CreateMatch → MatchAction Match
create_match new_id now dto = do
  raise_if (ltb dto.start_time now) starts_in_past
  raise_if (dto.home_team == dto.away_team) same_teams
  i ← gets (λ db. new_id db.matches)
  save (new_match i dto)

unfoldable pub get_match_by_id : ℕ → MatchAction Match
get_match_by_id i = fetch i

abbrev pub finishes : Option MatchStatus → Bool
finishes none = false
finishes (some s) = is_finished s

abbrev pub validate_status : MatchStatus → Option MatchStatus → MatchAction (Unit {0})
validate_status current none = pure tt
validate_status current (some s) = validate_status_transition current s

-- The two guards of `updateMatch` on scores and names.
abbrev pub lacks_scores : UpdateMatch → Match → Bool
lacks_scores dto m =
    finishes dto.status
    && ((is_none dto.home_score || is_none dto.away_score)
        && (is_none m.home_score || is_none m.away_score))

abbrev pub is_same_text : Option ℕ → Option ℕ → Bool
is_same_text (some a) (some b) = not (a == 0) && (not (b == 0) && (a == b))
is_same_text _ _ = false

abbrev pub score_of : Option ℕ → Option ℕ → ℕ
score_of given stored = or_keep given (or_keep stored 0)

-- The outcome of the request, calculated where a match that is finished gets a score.
abbrev pub outcome_of_update : UpdateMatch → Match → Option MatchOutcome
outcome_of_update dto m =
    if (finishes dto.status || is_finished m.status)
      && (not (is_none dto.home_score) || not (is_none dto.away_score))
    then some (
        calculate_outcome (score_of dto.home_score m.home_score)
          (score_of dto.away_score m.away_score))
    else dto.outcome

-- `Object.assign(match, updateMatchDto)`
abbrev pub assigned : UpdateMatch → Match → Match
assigned dto m = record {
  id = m.id;
  home_team = or_keep dto.home_team m.home_team;
  away_team = or_keep dto.away_team m.away_team;
  start_time = or_keep dto.start_time m.start_time;
  status = or_keep dto.status m.status;
  home_score = or_else dto.home_score m.home_score;
  away_score = or_else dto.away_score m.away_score;
  outcome = or_else (outcome_of_update dto m) m.outcome;
  league = or_else dto.league m.league;
  season = or_else dto.season m.season;
  odds = record {
    home_odds = or_keep dto.home_odds m.odds.home_odds;
    draw_odds = or_keep dto.draw_odds m.odds.draw_odds;
    away_odds = or_keep dto.away_odds m.odds.away_odds;
  };
  metadata = or_else dto.metadata m.metadata;
}

-- `updateStatusDto.homeScore ?? match.homeScore`, and the throw where a score is missing.
abbrev pub lacks_final_scores : UpdateMatchStatus → Match → Bool
lacks_final_scores dto m =
    is_finished dto.status
    && (is_none (or_else dto.home_score m.home_score)
        || is_none (or_else dto.away_score m.away_score))

abbrev pub outcome_of_status : UpdateMatchStatus → Match → Option MatchOutcome
outcome_of_status dto m =
    if is_finished dto.status
    then some (
        calculate_outcome (score_of dto.home_score m.home_score)
          (score_of dto.away_score m.away_score))
    else dto.outcome

abbrev pub assigned_status : UpdateMatchStatus → Match → Match
assigned_status dto m = record m {
  status = dto.status;
  home_score = or_else dto.home_score m.home_score;
  away_score = or_else dto.away_score m.away_score;
  outcome = or_else (outcome_of_status dto m) m.outcome;
}

module _ (differ : ℕ → ℕ → Bool) where
  -- What both updates end with, from the row `m` to the row `m'`.
  abbrev pub finish_update : Match → Match → MatchAction Match
  finish_update m m' = do
    saved ← save m'
    handle_direct_match_odds_update differ saved m.odds
    publish_match_finished_event_if_needed m.status saved
    pure saved

  abbrev pub update_found : UpdateMatch → Match → MatchAction Match
  update_found dto m = do
    validate_status m.status dto.status
    raise_if (lacks_scores dto m) scores_missing
    raise_if (is_same_text dto.home_team dto.away_team) same_teams
    finish_update m (assigned dto m)

  unfoldable pub update_match : ℕ → UpdateMatch → MatchAction Match
  update_match i dto = do m ← fetch i; update_found dto m

  abbrev pub update_status_found : UpdateMatchStatus → Match → MatchAction Match
  update_status_found dto m = do
    validate_status_transition m.status dto.status
    raise_if (lacks_final_scores dto m) scores_missing
    finish_update m (assigned_status dto m)

  unfoldable pub update_match_status : ℕ → UpdateMatchStatus → MatchAction Match
  update_match_status i dto = do m ← fetch i; update_status_found dto m

abbrev pub is_cancellable : MatchStatus → Bool
is_cancellable upcoming = true
is_cancellable postponed = true
is_cancellable _ = false

abbrev pub delete_found : Match → MatchAction (Unit {0})
delete_found m = do
  raise_if (not (is_cancellable m.status)) not_cancellable
  save (record m { status = match_cancelled })
  pure tt

unfoldable pub delete_match : ℕ → MatchAction (Unit {0})
delete_match i = do m ← fetch i; delete_found m
