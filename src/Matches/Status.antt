-- ===== src/Matches/Status.antt =====
-- The life of a match over any calls: its status, and the events that are published of it.
use renaissance_api.Common.{
  ℕ, ◌+◌, ◌≤◌, ◌≡◌, refl, sym, ap, subst, ◌∙◌, Bool, true, false, Option, none, some, List, [], ◌∷◌,
  ◌++◌, inl, inr, arith, ◌==◌, ==→eq, if◌then◌else◌, Bool-cases, count_by, find_by_sound,
  find_by-save_by,
}
use renaissance_api.Common.Action.{Result, found-or, or_raise, ◌>>=◌}
use renaissance_api.Bets.{MatchStatus, is_finished}
use renaissance_api.Matches.{
  Match, MatchAction, MatchDb, Error, is_transition, find_match, match_not_found,
}
use renaissance_api.Matches.Changes.{put, published, Changes, Allowed}

-- The status of a match, and how many events were published of it.
abbrev pub status_of : Option Match → Option MatchStatus
status_of none = none
status_of (some m) = some m.status

abbrev pub status_at : ℕ → MatchDb → Option MatchStatus
status_at i db = status_of (find_match i db.matches)

abbrev pub events_of : ℕ → MatchDb → ℕ
events_of i db = count_by (λ e. e.match_id == i) db.events

-- The specification of a match's life: its row appears, with no event; it stays; or it makes a valid
-- transition, with at most one event, and none unless it is finished then.
pub data Advance (o o' : Option MatchStatus) (k k' : ℕ) : Type 0 where
  stays : o' ≡ o → k' ≡ k → Advance o o' k k'
  appears : (s : MatchStatus) → o ≡ none → o' ≡ some s → k' ≡ k → Advance o o' k k'
  moves :
      (s s' : MatchStatus)
      → o ≡ some s
      → o' ≡ some s'
      → is_transition s s' ≡ true
      → k' ≤ k + (if is_finished s' then 1 else 0)
      → Advance o o' k k'

-- What one call has done to the match `i`.
abbrev pub Advances : {A : Type 0} → ℕ → MatchDb → Result Error A × MatchDb → Type 0
Advances i db (r, db') =
    Advance (status_at i db) (status_at i db') (events_of i db) (events_of i db')

-- The new events of an update, for the match itself and for another.
published_own :
    (s : MatchStatus) (m' : Match) (i : ℕ)
    → count_by (λ e. e.match_id == i) (published s m') ≤ (if is_finished m'.status then 1 else 0)
published_own s m' i = ground arith

published_stay : (m' : Match) (i : ℕ) → count_by (λ e. e.match_id == i) (published m'.status m') ≡ 0
published_stay m' i = ground arith

published_other :
    (s : MatchStatus) (m' : Match) (i : ℕ)
    → (m'.id == i) ≡ false
    → count_by (λ e. e.match_id == i) (published s m') ≡ 0
published_other s m' i h = ground arith

count_by-append {ℓ} :
    {A : Type ℓ} (p : A → Bool) (xs ys : List A)
    → count_by p (xs ++ ys) ≡ count_by p xs + count_by p ys
count_by-append p [] ys = omega arith
count_by-append p (x ∷ xs) ys = ground (arith, count_by-append p xs ys)

events_after :
    (i : ℕ) (s : MatchStatus) (m' : Match) (db db' : MatchDb)
    → db'.events ≡ db.events ++ published s m'
    → events_of i db' ≡ events_of i db + count_by (λ e. e.match_id == i) (published s m')
events_after i s m' db db' e =
    ap (count_by (λ x. x.match_id == i)) e
    ∙ count_by-append (λ x. x.match_id == i) db.events (published s m')

status_after :
    (i : ℕ) (m' : Match) (db db' : MatchDb)
    → db'.matches ≡ put m' db.matches
    → status_at i db' ≡ status_of (if m'.id == i then some m' else find_match i db.matches)
status_after i m' db db' e =
    ap (λ rows. status_of (find_match i rows)) e
    ∙ ap status_of (find_by-save_by (λ x. x.id) m' i db.matches)

module _ (i j : ℕ) (m : Match) (db : MatchDb) (found : find_match j db.matches ≡ some m) where
  -- An update of the match itself.
  own-Advance :
      (m' : Match) (db' : MatchDb)
      → m'.id ≡ m.id
      → Allowed m.status m'.status
      → (m'.id == i) ≡ true
      → status_at i db' ≡ some m'.status
      → events_of i db' ≡ events_of i db + count_by (λ e. e.match_id == i) (published m.status m')
      → Advance (status_at i db) (status_at i db') (events_of i db) (events_of i db')
  own-Advance m' db' same allowed hit status events =
      let here : j ≡ i =
        sym (==→eq m.id j (find_by_sound (λ x. x.id == j) db.matches m found))
        ∙ sym same
        ∙ ==→eq m'.id i hit in
      let before : status_at i db ≡ some m.status =
        ap (λ k. status_at k db) (sym here) ∙ ap status_of found in
      elim allowed [
        | inl e ↦
            let quiet : count_by (λ x. x.match_id == i) (published m.status m') ≡ 0 =
              subst (λ s. count_by (λ x. x.match_id == i) (published s m') ≡ 0) e
                (published_stay m' i) in
            stays (status ∙ ap some e ∙ sym before) (omega (arith, events, quiet))
        | inr t ↦
            moves m.status m'.status before status t
              (omega (arith, events, published_own m.status m' i))
      ]

  Changes-Advance : {A : Type 0} (r : Result Error A × MatchDb) → Changes m db r → Advances i db r
  Changes-Advance (r, db') (inl (rows, events)) =
      stays (ap (λ x. status_of (find_match i x)) rows)
        (ap (count_by (λ e. e.match_id == i)) events)
  Changes-Advance (r, db') (inr (m', same, allowed, rows, events)) =
      let status = status_after i m' db db' rows in
      let count = events_after i m.status m' db db' events in
      elim (Bool-cases (m'.id == i)) [
        | inl hit ↦
            own-Advance m' db' same allowed hit
              (status ∙ ap (λ c. status_of (if c then some m' else find_match i db.matches)) hit)
              count
        | inr miss ↦
            stays
              (status ∙ ap (λ c. status_of (if c then some m' else find_match i db.matches)) miss)
              (omega (arith, count, published_other m.status m' i miss))
      ]

-- A call that looks its match up.
pub fetched-Advance :
    {A : Type 0} (i j : ℕ) (k : Match → MatchAction A) (db : MatchDb)
    → ((m : Match) → Changes m db (k m db))
    → Advances i db ((or_raise (find_match j db.matches) match_not_found >>= k) db)
fetched-Advance i j k db each =
    found-or (Advances i db) db (find_match j db.matches) match_not_found k (stays refl refl)
      λ m found. Changes-Advance i j m db found (k m db) (each m)
