-- ===== src/Matches/Odds.antt =====
-- backend/src/odds/odds.service.ts: changes of a match's odds by hand and by an update of the match.
-- The floating-point test that two odds are at least 0.01 apart is the parameter `differ`.
use renaissance_api.Common.{
  ℕ, Bool, Option, none, some, List, [], ◌∷◌, ◌++◌, ◌||◌, ◌==◌, if◌then◌else◌, min, max, find_by,
  save_by, select_by, take,
}
use mathlib.Core.List.{reverse}
use renaissance_api.Common.Action.{ok, ◌>>=◌, ◌>>◌, pure, gets, or_raise, modify}
use renaissance_api.Matches.Entities.{
  Match, MatchDb, MatchAction, OddsValues, OddsHistory, OddsSnapshot, OddsUpdateSource,
  match_update, find_match, match_not_found,
}

abbrev pub save : Match → MatchAction Match
save m db = (ok m, record db { matches = save_by (λ x. x.id) m db.matches })

abbrev pub fetch : ℕ → MatchAction Match
fetch i = do or_raise (← gets (λ db. find_match i db.matches)) match_not_found

abbrev pub build_snapshot : Match → OddsSnapshot
build_snapshot m = record {
  match_id = m.id;
  home_team = m.home_team;
  away_team = m.away_team;
  status = m.status;
  odds = m.odds;
}

-- 1.05 to 25
abbrev pub clamp_odds : ℕ → ℕ
clamp_odds v = min (max v 105) 2500

abbrev pub normalize_odds : OddsValues → OddsValues
normalize_odds o = record {
  home_odds = clamp_odds o.home_odds;
  draw_odds = clamp_odds o.draw_odds;
  away_odds = clamp_odds o.away_odds;
}

abbrev pub find_snapshot : ℕ → List OddsSnapshot → Option OddsSnapshot
find_snapshot i = find_by λ s. s.match_id == i

abbrev pub cached : OddsSnapshot → MatchAction OddsSnapshot
cached s db = (ok s, record db { cache = save_by (λ x. x.match_id) s db.cache })

-- A snapshot in the cache answers, be it up to date or not.
abbrev pub snapshot_from : ℕ → Option OddsSnapshot → MatchAction OddsSnapshot
snapshot_from i (some s) = pure s
snapshot_from i none = do m ← fetch i; cached (build_snapshot m)

unfoldable pub get_odds_snapshot : ℕ → MatchAction OddsSnapshot
get_odds_snapshot i = do snapshot_from i (← gets (λ db. find_snapshot i db.cache))

-- `getOddsHistory`: the newest first; at least 1 and at most 200.
unfoldable pub get_odds_history : ℕ → ℕ → MatchDb → List OddsHistory
get_odds_history i limit db =
    take (max 1 (min limit 200)) (reverse (select_by (λ h. h.match_id == i) db.odds_history))

abbrev pub record_odds_change :
    Match → OddsValues → OddsValues → OddsUpdateSource → Option ℕ → MatchAction OddsSnapshot
record_odds_change m previous next source changed_by = do
  modify (λ db. record db {
    odds_history =
        db.odds_history
        ++ record {
          match_id = m.id;
          previous = previous;
          new = next;
          source = source;
          changed_by_user_id = changed_by;
        }
          ∷ [];
  })
  cached (build_snapshot m)
  modify (λ db. record db { broadcasts = db.broadcasts ++ build_snapshot m ∷ [] })
  pure (build_snapshot m)

abbrev pub with_odds : OddsValues → Match → Match
with_odds o m = record m { odds = o }

module _ (differ : ℕ → ℕ → Bool) where
  abbrev pub has_odds_changed : OddsValues → OddsValues → Bool
  has_odds_changed previous next =
      differ previous.home_odds next.home_odds
      || (differ previous.draw_odds next.draw_odds || differ previous.away_odds next.away_odds)

  abbrev pub replace_odds :
      OddsValues → OddsUpdateSource → Option ℕ → Match → MatchAction OddsSnapshot
  replace_odds next source changed_by m = do
    s ← save (with_odds next m)
    record_odds_change s m.odds next source changed_by

  abbrev pub update_odds_found :
      ℕ → OddsValues → OddsUpdateSource → Option ℕ → Match → MatchAction OddsSnapshot
  update_odds_found i dto source changed_by m =
      if has_odds_changed m.odds (normalize_odds dto)
      then replace_odds (normalize_odds dto) source changed_by m
      else get_odds_snapshot i

  unfoldable pub update_odds :
      ℕ → OddsValues → OddsUpdateSource → Option ℕ → MatchAction OddsSnapshot
  update_odds i dto source changed_by = do m ← fetch i; update_odds_found i dto source changed_by m

  -- After an update of the match from `previous`.
  unfoldable pub handle_direct_match_odds_update : Match → OddsValues → MatchAction (Unit {0})
  handle_direct_match_odds_update m previous =
      if has_odds_changed previous m.odds
      then (record_odds_change m previous m.odds match_update none >> pure tt)
      else pure tt
