-- ===== src/Matches/Changes.antt =====
-- What an update of a stored match does to the table of matches and to the published events.
use renaissance_api.Common.{
  ℕ, ◌≡◌, refl, ap, Bool, true, false, not, Option, none, some, List, [], ◌∷◌, ◌++◌, ◌⊎◌, inl, inr,
  arith, ◌&&◌, if◌then◌else◌, save_by, Bool-cases,
}
use renaissance_api.Common.Action.{Result, ok, guarded, pure, ◌>>◌, raise_if}
use renaissance_api.Bets.{MatchStatus, is_finished, match_cancelled}
use renaissance_api.Matches.{
  update_odds_found, get_odds_snapshot, has_odds_changed, normalize_odds, with_odds,
  OddsUpdateSource, validate_status, or_keep, MatchAction, Match, MatchDb, MatchFinished,
  UpdateMatch, UpdateMatchStatus, OddsValues, Error, is_transition,
  publish_match_finished_event_if_needed, finish_update, update_found, update_status_found,
  delete_found, assigned, assigned_status, lacks_scores, lacks_final_scores, is_same_text,
  scores_missing, same_teams, invalid_transition, is_cancellable, not_cancellable,
  handle_direct_match_odds_update, save,
}

abbrev pub put : Match → List Match → List Match
put = save_by (λ x. x.id)

-- The event of an update that took a match from a status to its new row.
abbrev pub published : MatchStatus → Match → List MatchFinished
published previous m = elim m.outcome [
  | none ↦ []
  | some o ↦
      if not (is_finished previous) && is_finished m.status
      then record { match_id = m.id; outcome = o } ∷ []
      else []
]

-- A status stays, or changes by a valid transition.
abbrev pub Allowed : MatchStatus → MatchStatus → Type 0
Allowed s s' = (s' ≡ s) ⊎ (is_transition s s' ≡ true)

-- What an update of `m` that began at `db` has done: neither matches nor events have changed, or it
-- has saved a new row.
abbrev pub Changes : {A : Type 0} → Match → MatchDb → Result Error A × MatchDb → Type 0
Changes m db (r, db') =
    ((db'.matches ≡ db.matches) × (db'.events ≡ db.events))
    ⊎ ((m' : Match) × (m'.id ≡ m.id)
        × Allowed m.status m'.status
        × (db'.matches ≡ put m' db.matches)
        × (db'.events ≡ db.events ++ published m.status m'))

append-nil {ℓ} : {A : Type ℓ} (xs : List A) → xs ++ [] ≡ xs
append-nil [] = refl
append-nil (x ∷ xs) = ap (λ r. x ∷ r) (append-nil xs)

publish-published :
    (previous : MatchStatus) (m : Match) (db : MatchDb)
    → publish_match_finished_event_if_needed previous m db
      ≡ (ok tt, record db { events = db.events ++ published previous m })
publish-published previous m db = ground (arith, append-nil db.events)

module _ (differ : ℕ → ℕ → Bool) where
  odds-keeps :
      (m : Match) (previous : OddsValues) (db : MatchDb)
      → let (r, db') = handle_direct_match_odds_update differ m previous db in
        (r ≡ ok tt) × (db'.matches ≡ db.matches) × (db'.events ≡ db.events)
  unfolding handle_direct_match_odds_update
  odds-keeps m previous db = ground arith

  -- The end of an update never throws: it saves the row, and publishes what `published` says.
  pub finish_update-saves :
      (m m' : Match) (db : MatchDb)
      → let (r, db') = finish_update differ m m' db in
        (r ≡ ok m')
        × (db'.matches ≡ put m' db.matches)
        × (db'.events ≡ db.events ++ published m.status m')
  finish_update-saves m m' db =
      let db1 = (save m' db).1 in
      let (quiet, rows, events) = odds-keeps m' m.odds db1 in
      ground (
        arith,
        quiet,
        rows,
        events,
        publish-published m.status m' (handle_direct_match_odds_update differ m' m.odds db1).1,
      )

  finish-Changes :
      (m m' : Match) (db : MatchDb)
      → m'.id ≡ m.id
      → Allowed m.status m'.status
      → Changes m db (finish_update differ m m' db)
  finish-Changes m m' db same allowed =
      let (r, rows, events) = finish_update-saves m m' db in inr (m', same, allowed, rows, events)

  -- The checks behind the transition, for a new row whose transition was found valid.
  checked-Changes :
      (dto : UpdateMatch) (m : Match) (db : MatchDb)
      → Allowed m.status (assigned dto m).status
      → Changes m db (
          (raise_if (lacks_scores dto m) scores_missing
              >> (raise_if (is_same_text dto.home_team dto.away_team) same_teams
                  >> finish_update differ m (assigned dto m)))
            db)
  checked-Changes dto m db allowed =
      guarded (Changes m db) db (lacks_scores dto m) scores_missing
        (raise_if (is_same_text dto.home_team dto.away_team) same_teams
          >> finish_update differ m (assigned dto m))
        (inl (refl, refl))
        λ _.
          guarded (Changes m db) db (is_same_text dto.home_team dto.away_team) same_teams
            (finish_update differ m (assigned dto m)) (inl (refl, refl))
            λ _. finish-Changes m (assigned dto m) db refl allowed

  transition-Allowed : (s s' : MatchStatus) → not (is_transition s s') ≡ false → Allowed s s'
  transition-Allowed s s' h = inr (ground arith)

  -- A request without a status changes none.
  validated :
      (o : Option MatchStatus) (m : Match) (db : MatchDb) (rest : MatchAction Match)
      → (Allowed m.status (or_keep o m.status) → Changes m db (rest db))
      → Changes m db ((validate_status m.status o >> rest) db)
  validated none m db rest f = f (inl refl)
  validated (some s) m db rest f =
      guarded (Changes m db) db (not (is_transition m.status s)) invalid_transition rest
        (inl (refl, refl)) λ valid. f (transition-Allowed m.status s valid)

  pub update_found-Changes :
      (dto : UpdateMatch) (m : Match) (db : MatchDb) → Changes m db (update_found differ dto m db)
  update_found-Changes dto m db =
      validated dto.status m db
        (raise_if (lacks_scores dto m) scores_missing
          >> (raise_if (is_same_text dto.home_team dto.away_team) same_teams
              >> finish_update differ m (assigned dto m)))
        (checked-Changes dto m db)

  pub update_status_found-Changes :
      (dto : UpdateMatchStatus) (m : Match) (db : MatchDb)
      → Changes m db (update_status_found differ dto m db)
  update_status_found-Changes dto m db =
      guarded (Changes m db) db (not (is_transition m.status dto.status)) invalid_transition
        (raise_if (lacks_final_scores dto m) scores_missing
          >> finish_update differ m (assigned_status dto m))
        (inl (refl, refl))
        λ valid.
          guarded (Changes m db) db (lacks_final_scores dto m) scores_missing
            (finish_update differ m (assigned_status dto m)) (inl (refl, refl))
            λ _.
              finish-Changes m (assigned_status dto m) db refl
                (transition-Allowed m.status dto.status valid)

cancelled-Allowed : (s : MatchStatus) → not (is_cancellable s) ≡ false → Allowed s match_cancelled
cancelled-Allowed s h = inr (ground arith)

unpublished :
    (m : Match) (db : MatchDb)
    → db.events ≡ db.events ++ published m.status (record m { status = match_cancelled })
unpublished m db = ground (arith, append-nil db.events)

pub delete_found-Changes : (m : Match) (db : MatchDb) → Changes m db (delete_found m db)
delete_found-Changes m db =
    guarded (Changes m db) db (not (is_cancellable m.status)) not_cancellable
      (save (record m { status = match_cancelled }) >> pure tt) (inl (refl, refl))
      λ h. inr (
        record m { status = match_cancelled },
        refl,
        cancelled-Allowed m.status h,
        refl,
        unpublished m db,
      )

-- `updateOdds` behind its lookup: what it saves is the same match at other odds.
pub update_odds_found-Changes :
    (differ : ℕ → ℕ → Bool) (i : ℕ) (dto : OddsValues) (source : OddsUpdateSource) (by : Option ℕ)
    (m : Match) (db : MatchDb)
    → Changes m db (update_odds_found differ i dto source by m db)
unfolding get_odds_snapshot
update_odds_found-Changes differ i dto source by m db =
    elim (Bool-cases (has_odds_changed differ m.odds (normalize_odds dto))) [
      | inl e ↦ inr (
        with_odds (normalize_odds dto) m,
        refl,
        inl refl,
        ground arith,
        ground (arith, append-nil db.events),
      )
      | inr e ↦ inl (ground arith, ground arith)
    ]
