-- ===== src/Matches/Tests.antt =====
-- A match from its creation to its end, and the theorems about matches at concrete stores.
use renaissance_api.Common.{
  ℕ, suc, ◌≡◌, refl, false, List, [], ◌∷◌, none, some, arith, Bool, not, ◌==◌,
}
use mathlib.Core.List.{map}
use renaissance_api.Common.Action.{err}
use renaissance_api.Common.Fresh.{max_key, max_key-fresh}
use renaissance_api.Common.Int.{pos}
use renaissance_api.Wallet
use renaissance_api.Wallet.Invariant.{empty}
use renaissance_api.Bets
use renaissance_api.Bets.{
  MatchStatus, MatchOutcome, live, finished, match_cancelled, upcoming, home_win, draw,
}
use renaissance_api.Matches.{
  Match, MatchDb, CreateMatch, UpdateMatchStatus, bet_view, update_match_status, create_match,
  handle_direct_match_odds_update, invalid_transition,
}
use renaissance_api.Matches.Status.{Advance, status_at, events_of}
use renaissance_api.Matches.Life.{
  creates, sets_status, IsFresh, step, run, step-Advance, PublishedOnce, run-PublishedOnce,
}

abbrev next_id : List Match → ℕ
next_id rows = suc (max_key (λ m. m.id) rows)

next_id-IsFresh : IsFresh next_id
next_id-IsFresh rows = max_key-fresh (λ m. m.id) rows

abbrev next_balance : Wallet.IdSource
next_balance rows = suc (max_key (λ b. b.id) rows)

-- Two odds that are not the same hundredths.
abbrev differ : ℕ → ℕ → Bool
differ a b = not (a == b)

abbrev no_matches : MatchDb
no_matches = record { matches = []; odds_history = []; cache = []; broadcasts = []; events = [] }

abbrev request : CreateMatch
request = record {
  home_team = 1;
  away_team = 2;
  start_time = 100;
  status = none;
  league = none;
  season = none;
  home_odds = none;
  draw_odds = none;
  away_odds = none;
  metadata = none;
}

abbrev kick_off : UpdateMatchStatus
kick_off = record { status = live; home_score = none; away_score = none; outcome = none }

abbrev final_whistle : UpdateMatchStatus
final_whistle = record {
  status = finished;
  home_score = some 2;
  away_score = some 1;
  outcome = none;
}

abbrev playing : Match
playing = record {
  id = 1;
  home_team = 1;
  away_team = 2;
  start_time = 100;
  status = live;
  home_score = none;
  away_score = none;
  outcome = none;
  league = none;
  season = none;
  odds = record { home_odds = 150; draw_odds = 300; away_odds = 250 };
  metadata = none;
}

abbrev running : MatchDb
running = record no_matches { matches = playing ∷ [] }

created_and_started :
    run differ next_id (creates 50 request ∷ sets_status 1 kick_off ∷ []) no_matches ≡ running
unfolding run step create_match update_match_status handle_direct_match_odds_update
created_and_started = refl

not_started : (update_match_status differ 1 kick_off running).0 ≡ err invalid_transition
unfolding update_match_status
not_started = refl

abbrev ended : MatchDb
ended = (update_match_status differ 1 final_whistle running).1

step-Advance_example :
    let db = step differ next_id (sets_status 1 final_whistle) running in
    Advance (status_at 1 running) (status_at 1 db) (events_of 1 running) (events_of 1 db)
step-Advance_example =
    step-Advance differ next_id next_id-IsFresh (sets_status 1 final_whistle) 1 running

run-PublishedOnce_example : PublishedOnce (
    run differ next_id
      (creates 50 request ∷ sets_status 1 kick_off ∷ sets_status 1 final_whistle ∷ [])
      no_matches)
run-PublishedOnce_example =
    run-PublishedOnce differ next_id next_id-IsFresh
      (creates 50 request ∷ sets_status 1 kick_off ∷ sets_status 1 final_whistle ∷ []) no_matches
      (λ i. omega arith)

abbrev betting : Bets.Db
betting = record {
  matches = map bet_view ended.matches;
  bets =
      record {
        id = 1;
        user_id = 7;
        match_id = 1;
        stake_amount = pos 10;
        predicted_outcome = home_win;
        potential_payout = pos 25;
        status = Bets.BetStatus.pending;
        settled_at = none;
        metadata = record {
          is_free_bet = false;
          is_voucher_withdrawable = false;
          voucher_id = none;
        };
      }
      ∷ [];
  wallet = empty;
  vouchers = record { users = []; vouchers = [] };
  events = [];
}
