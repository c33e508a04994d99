-- ===== src/Matches/Finishing.antt =====
-- The end of a match: `updateMatchStatus` with the final scores, and the settlement that follows.
use renaissance_api.Common.{
  ℕ, ◌≡◌, refl, sym, ap, subst, ◌∙◌, Bool, some, List, [], ◌∷◌, ◌++◌, arith, ◌==◌, eq→==, ==→eq,
  if◌then◌else◌, find_by_sound, find_by-save_by, ◌<◌,
}
use renaissance_api.Common.Action.{Result, ok, or_raise, ◌>>=◌}
use renaissance_api.Bets
use renaissance_api.Bets.{MatchStatus, MatchOutcome, home_win, away_win, draw, live, finished}
use renaissance_api.Matches.{
  Error, Match, MatchDb, UpdateMatchStatus, update_match_status, update_status_found, find_match,
  match_not_found, or_else, calculate_outcome, finish_update, assigned_status,
}
use renaissance_api.Matches.Changes.{published, finish_update-saves}

-- Which outcome two scores give.
abbrev pub Decided : ℕ → ℕ → MatchOutcome → Type 0
Decided home away home_win = away < home
Decided home away away_win = home < away
Decided home away draw = home ≡ away

calculate_outcome-Decided : (home away : ℕ) → Decided home away (calculate_outcome home away)
calculate_outcome-Decided home away = ground arith

-- The match `i` has ended with the scores, and this one event of it is new.
abbrev pub Finishes : ℕ → ℕ → ℕ → MatchDb → Result Error Match × MatchDb → Type 0
Finishes i home away db (r, db') =
    (m' : Match) × (r ≡ ok m')
    × (find_match i db'.matches ≡ some m')
    × (m'.id ≡ i)
    × (m'.status ≡ finished)
    × (m'.home_score ≡ some home)
    × (m'.away_score ≡ some away)
    × (m'.outcome ≡ some (calculate_outcome home away))
    × Decided home away (calculate_outcome home away)
    × (db'.events
        ≡ db.events ++ record { match_id = i; outcome = calculate_outcome home away } ∷ [])

module _ (differ : ℕ → ℕ → Bool) (dto : UpdateMatchStatus) (home away : ℕ) where
  passes :
      (m : Match) (db : MatchDb)
      → m.status ≡ live
      → dto.status ≡ finished
      → or_else dto.home_score m.home_score ≡ some home
      → or_else dto.away_score m.away_score ≡ some away
      → update_status_found differ dto m db ≡ finish_update differ m (assigned_status dto m) db
  passes m db now_live ends h a = ground (arith, now_live, ends, h, a)

  outcome_at_end :
      (m : Match)
      → m.status ≡ live
      → dto.status ≡ finished
      → or_else dto.home_score m.home_score ≡ some home
      → or_else dto.away_score m.away_score ≡ some away
      → (assigned_status dto m).outcome ≡ some (calculate_outcome home away)
  outcome_at_end m now_live ends h a = ground (arith, ends, h, a)

  published_at_end :
      (m m' : Match) (i : ℕ) (o : MatchOutcome)
      → m.status ≡ live
      → m'.status ≡ finished
      → m'.id ≡ i
      → m'.outcome ≡ some o
      → published m.status m' ≡ record { match_id = i; outcome = o } ∷ []
  published_at_end m m' i o now_live ends same out = rw (out, now_live, ends, same) refl

  -- A live match whose two scores are in the request or in the row ends: the call succeeds, stores
  -- the scores with the outcome that they decide, the side with more goals or a draw, and publishes
  -- one event with that outcome.
  pub update_match_status-Finishes :
      (i : ℕ) (m : Match) (db : MatchDb)
      → find_match i db.matches ≡ some m
      → m.status ≡ live
      → dto.status ≡ finished
      → or_else dto.home_score m.home_score ≡ some home
      → or_else dto.away_score m.away_score ≡ some away
      → Finishes i home away db (update_match_status differ i dto db)
  unfolding update_match_status
  update_match_status-Finishes i m db found now_live ends h a =
      let m' = assigned_status dto m in
      let own : m.id ≡ i = ==→eq m.id i (find_by_sound (λ x. x.id == i) db.matches m found) in
      let (saved, rows, events) = finish_update-saves differ m m' db in
      let out = outcome_at_end m now_live ends h a in
      subst (Finishes i home away db)
        (sym (
          ap (λ o. (or_raise o match_not_found >>= update_status_found differ dto) db) found
          ∙ passes m db now_live ends h a))
        (
          m',
          saved,
          ap (find_match i) rows
              ∙ find_by-save_by (λ x. x.id) m' i db.matches
              ∙ ap (λ c. if c then some m' else find_match i db.matches) (eq→== m.id i own),
          own,
          ends,
          h,
          a,
          out,
          calculate_outcome-Decided home away,
          events
              ∙ ap (λ l. db.events ++ l)
                  (published_at_end m m' i (calculate_outcome home away) now_live ends own out),
        )
