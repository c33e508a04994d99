-- ===== src/Matches/Life.antt =====
-- Any calls of the matches and the odds service, in any order.
use renaissance_api.Common.{
  ℕ, ◌≤◌, ◌≡◌, refl, ap, subst, ◌∙◌, Bool, true, false, Option, none, some, List, [], ◌∷◌, inl, inr,
  arith, ◌==◌, ==→eq, if◌then◌else◌, ltb, Bool-cases, find_by-save_by,
}
use renaissance_api.Common.Action.{guarded, raise_if, ◌>>◌}
use renaissance_api.Bets.{MatchStatus, is_finished, finished, match_cancelled}
use renaissance_api.Matches.{
  save, Match, MatchDb, CreateMatch, UpdateMatch, UpdateMatchStatus, OddsValues, OddsUpdateSource,
  create_match, update_match, update_match_status, delete_match, update_odds, find_match,
  update_found, update_status_found, delete_found, update_odds_found, starts_in_past, same_teams,
  new_match,
}
use renaissance_api.Matches.Changes.{
  update_found-Changes, update_status_found-Changes, delete_found-Changes,
  update_odds_found-Changes,
}
use renaissance_api.Matches.Status.{
  status_of, status_at, events_of, Advance, stays, appears, moves, Advances, fetched-Advance,
}

pub data Call : Type 0 where
  creates : ℕ → CreateMatch → Call
  updates : ℕ → UpdateMatch → Call
  sets_status : ℕ → UpdateMatchStatus → Call
  deletes : ℕ → Call
  prices : ℕ → OddsValues → OddsUpdateSource → Option ℕ → Call

abbrev pub IsFresh : (List Match → ℕ) → Type 0
IsFresh new_id = (rows : List Match) → find_match (new_id rows) rows ≡ none

module _ (differ : ℕ → ℕ → Bool) (new_id : List Match → ℕ) where
  -- The store after a call of the matches or the odds service, and after calls.
  unfoldable pub step : Call → MatchDb → MatchDb
  step (creates now dto) db = (create_match new_id now dto db).1
  step (updates i dto) db = (update_match differ i dto db).1
  step (sets_status i dto) db = (update_match_status differ i dto db).1
  step (deletes i) db = (delete_match i db).1
  step (prices i odds source by) db = (update_odds differ i odds source by db).1

  unfoldable pub run : List Call → MatchDb → MatchDb
  run [] db = db
  run (c ∷ cs) db = run cs (step c db)

  module _ (fresh : IsFresh new_id) where
    created-Advance :
        (i : ℕ) (dto : CreateMatch) (db : MatchDb)
        → Advances i db (save (new_match (new_id db.matches) dto) db)
    created-Advance i dto db =
        let row = new_match (new_id db.matches) dto in
        let status : status_at i (save row db).1
            ≡ status_of (if row.id == i then some row else find_match i db.matches) =
          ap status_of (find_by-save_by (λ x. x.id) row i db.matches) in
        let choose = λ (c : Bool). status_of (if c then some row else find_match i db.matches) in
        elim (Bool-cases (row.id == i)) [
          | inl hit ↦
              let missing : find_match i db.matches ≡ none =
                subst (λ k. find_match k db.matches ≡ none) (==→eq row.id i hit)
                  (fresh db.matches) in
              appears row.status (ap status_of missing) (status ∙ ap choose hit) refl
          | inr miss ↦ stays (status ∙ ap choose miss) refl
        ]

    create-Advance :
        (i now : ℕ) (dto : CreateMatch) (db : MatchDb)
        → Advances i db (create_match new_id now dto db)
    unfolding create_match
    create-Advance i now dto db =
        guarded (Advances i db) db (ltb dto.start_time now) starts_in_past
          (raise_if (dto.home_team == dto.away_team) same_teams >> λ x.
            save (new_match (new_id x.matches) dto) x)
          (stays refl refl)
          λ _.
            guarded (Advances i db) db (dto.home_team == dto.away_team) same_teams
              (λ x. save (new_match (new_id x.matches) dto) x) (stays refl refl)
              λ _. created-Advance i dto db

    -- Where new rows get ids that no row has, every call moves every match by the specification of a
    -- match's life: the match is not there and appears, or stays; or it keeps its status, with no
    -- event; or it makes a valid transition, with at most one event, and that only if it is finished.
    pub step-Advance :
        (c : Call) (i : ℕ) (db : MatchDb)
        → Advance
            (status_at i db)
            (status_at i (step c db))
            (events_of i db)
            (events_of i (step c db))
    unfolding step update_match update_match_status delete_match update_odds
    step-Advance (creates now dto) i db = create-Advance i now dto db
    step-Advance (updates j dto) i db =
        fetched-Advance i j (update_found differ dto) db λ m. update_found-Changes differ dto m db
    step-Advance (sets_status j dto) i db =
        fetched-Advance i j (update_status_found differ dto) db
          λ m. update_status_found-Changes differ dto m db
    step-Advance (deletes j) i db =
        fetched-Advance i j delete_found db λ m. delete_found-Changes m db
    step-Advance (prices j odds source by) i db =
        fetched-Advance i j (update_odds_found differ j odds source by) db
          λ m. update_odds_found-Changes differ j odds source by m db

-- A finished or cancelled match.
abbrev pub is_closed : MatchStatus → Bool
is_closed finished = true
is_closed match_cancelled = true
is_closed _ = false

-- The events of a match, by its status: one at most, and none before it is finished.
abbrev pub event_limit : Option MatchStatus → ℕ
event_limit none = 0
event_limit (some s) = if is_finished s then 1 else 0

abbrev pub PublishedOnce : MatchDb → Type 0
PublishedOnce db = (i : ℕ) → events_of i db ≤ event_limit (status_at i db)

closed_stays :
    (s : MatchStatus) (o o' : Option MatchStatus) (k k' : ℕ)
    → o ≡ some s
    → is_closed s ≡ true
    → Advance o o' k k'
    → o' ≡ some s
closed_stays s o o' k k' at c (stays e _) = e ∙ at
closed_stays s o o' k k' at c (appears _ missing _ _) = absurd (cc)
closed_stays s o o' k k' at c (moves t t' before after valid _) = absurd (ground arith)

limit_kept :
    (o o' : Option MatchStatus) (k k' : ℕ)
    → Advance o o' k k'
    → k ≤ event_limit o
    → k' ≤ event_limit o'
limit_kept o o' k k' (stays e f) h = ground arith
limit_kept o o' k k' (appears s missing now e) h = ground arith
limit_kept o o' k k' (moves s s' before after valid more) h = ground arith

module _ (differ : ℕ → ℕ → Bool) (new_id : List Match → ℕ) (fresh : IsFresh new_id) where
  -- A match that is finished or cancelled has the same status after any calls, where new rows get ids
  -- that no row has.
  pub run-closed :
      (cs : List Call) (i : ℕ) (s : MatchStatus) (db : MatchDb)
      → status_at i db ≡ some s
      → is_closed s ≡ true
      → status_at i (run differ new_id cs db) ≡ some s
  unfolding run
  run-closed [] i s db at c = at
  run-closed (call ∷ cs) i s db at c =
      run-closed cs i s (step differ new_id call db)
        (closed_stays s _ _ _ _ at c (step-Advance differ new_id fresh call i db)) c

  -- Any calls keep it so that of each match one event is published at most, and none before the match
  -- is finished, where new rows get ids that no row has.
  pub run-PublishedOnce :
      (cs : List Call) (db : MatchDb) → PublishedOnce db → PublishedOnce (run differ new_id cs db)
  unfolding run
  run-PublishedOnce [] db h = h
  run-PublishedOnce (call ∷ cs) db h =
      run-PublishedOnce cs (step differ new_id call db)
        λ i. limit_kept _ _ _ _ (step-Advance differ new_id fresh call i db) (h i)
