-- ===== src/SpinSessions/Lifecycle.antt =====
-- The life of a session: what each call may do to it.
use renaissance_api.Common.{
  ℕ, Bool, ◌+◌, ◌≡◌, refl, sym, ap, ◌∙◌, true, false, Option, none, some, List, [], ◌∷◌, inl, inr,
  arith, not, ◌&&◌, ◌==◌, ==→eq, if◌then◌else◌, Bool-cases, find_by_sound, find_by-save_by, length,
}
use renaissance_api.Common.Int.{ℤ, pos}
use renaissance_api.Common.Action.{
  Result, ◌>>◌, raise_if, found-or, guarded, missing-or, refused-or,
}
use renaissance_api.SpinSessions.{
  SpinSession, pending, completed, failed, RewardType, CreateSpinSession, SessionDb, Error,
  session_not_found, session_immutable, update_refused, save_update, SessionIds, find_session, save,
  create, complete, fail, set_tx_reference, find_by_id_or_fail, update_mutable, is_final,
  completed_session, failed_session, referred_session, new_session, SessionStats, count_session,
  count_sessions, get_statistics,
}

pub data Call : Type 0 where
  creates : ℕ → CreateSpinSession → Call
  completes_it : ℕ → RewardType → ℤ → Option ℕ → Call
  fails_it : ℕ → Option ℕ → Call
  refers_it : ℕ → ℕ → Call

some_injective : (a b : SpinSession) → some a ≡ some b → a ≡ b
some_injective a b h = cc

-- What a call leaves of a stored session: a pending one takes the reference that is set for it, and all
-- else stays, since the hook of the entity refuses every save of a completed or failed session.
abbrev pub after_call : Call → SpinSession → SpinSession
after_call (refers_it i tx) s =
    if i == s.id && not (is_final s.status) then referred_session tx s else s
after_call _ s = s

-- A call that would make a session final changes nothing.
refused_update :
    (i : ℕ) (change : SpinSession → SpinSession) (db : SessionDb)
    → ((t : SpinSession) → is_final (change t).status ≡ true)
    → (update_mutable i change db).1 ≡ db
unfolding find_by_id_or_fail
refused_update i change db final =
    let P = λ (r : Result Error SpinSession × SessionDb). r.1 ≡ db in
    found-or P db (find_session i db.sessions) session_not_found
      (λ t. raise_if (is_final t.status) session_immutable >> save_update (change t)) refl
      λ t there.
        guarded P db (is_final t.status) session_immutable (save_update (change t)) refl λ mutable.
          guarded P db (is_final (change t).status) update_refused (save (change t)) refl
            λ open_yet. absurd (cc (final t, open_yet))

other_session :
    (j tx : ℕ) (s : SpinSession) → (j == s.id) ≡ false → after_call (refers_it j tx) s ≡ s
other_session j tx s e =
    ap (λ c. if c && not (is_final s.status) then referred_session tx s else s) e

final_session :
    (j tx : ℕ) (s : SpinSession) → is_final s.status ≡ true → after_call (refers_it j tx) s ≡ s
final_session j tx s f = ground (arith, f)

open_session :
    (j tx : ℕ) (s : SpinSession)
    → (j == s.id) ≡ true
    → is_final s.status ≡ false
    → after_call (refers_it j tx) s ≡ referred_session tx s
open_session j tx s e f = rw (e, f) refl

-- A session that is found by two ids.
one_session :
    (i j : ℕ) (s t : SpinSession) (db : SessionDb)
    → find_session i db.sessions ≡ some s
    → find_session j db.sessions ≡ some t
    → (j == s.id) ≡ true
    → t ≡ s
one_session i j s t db here there e =
    let own = ==→eq s.id i (find_by_sound (λ x. x.id == i) db.sessions s here) in
    some_injective t s
      (sym there ∙ ap (λ k. find_session k db.sessions) (==→eq j s.id e ∙ own) ∙ here)

-- The row of a session after the save of a reference for the same or another.
saved_reference :
    (i j tx : ℕ) (s t : SpinSession) (db : SessionDb)
    → find_session i db.sessions ≡ some s
    → find_session j db.sessions ≡ some t
    → is_final t.status ≡ false
    → find_session i (save (referred_session tx t) db).1.sessions
      ≡ some (after_call (refers_it j tx) s)
saved_reference i j tx s t db here there mutable =
    let own = find_by_sound (λ x. x.id == i) db.sessions s here in
    let own' = ==→eq t.id j (find_by_sound (λ x. x.id == j) db.sessions t there) in
    let row =
      λ (c : Bool). if c then some (referred_session tx t) else find_session i db.sessions in
    find_by-save_by (λ x. x.id) (referred_session tx t) i db.sessions
    ∙ elim (Bool-cases (j == s.id)) [
      | inl e ↦
          let one = one_session i j s t db here there e in
          ap row (ap (λ x. x.id == i) one ∙ own)
          ∙ ap (λ x. some (referred_session tx x)) one
          ∙ ap some (sym (open_session j tx s e (sym (ap (λ x. is_final x.status) one) ∙ mutable)))
      | inr e ↦
          ap row (ap (λ x. x == i) own' ∙ ap (λ x. j == x) (sym (==→eq s.id i own)) ∙ e)
          ∙ here
          ∙ ap some (sym (other_session j tx s e))
    ]

referred :
    (i j tx : ℕ) (s : SpinSession) (db : SessionDb)
    → find_session i db.sessions ≡ some s
    → find_session i (set_tx_reference j tx db).1.sessions ≡ some (after_call (refers_it j tx) s)
unfolding set_tx_reference find_by_id_or_fail
referred i j tx s db here =
    let P = λ (r : Result Error SpinSession × SessionDb).
      find_session i r.1.sessions ≡ some (after_call (refers_it j tx) s) in
    let own = ==→eq s.id i (find_by_sound (λ x. x.id == i) db.sessions s here) in
    missing-or P db (find_session j db.sessions) session_not_found
      (λ t. raise_if (is_final t.status) session_immutable >> save_update (referred_session tx t))
      (λ gone.
        here
        ∙ ap some (
            sym (
              other_session j tx s (elim (Bool-cases (j == s.id)) [
                | inl e ↦
                    absurd
                      (cc (gone, here, ap (λ k. find_session k db.sessions) (==→eq j s.id e ∙ own)))
                | inr e ↦ e
              ]))))
      λ t there.
        refused-or P db (is_final t.status) session_immutable (save_update (referred_session tx t))
          (λ bad.
            here
            ∙ ap some (
                sym (elim (Bool-cases (j == s.id)) [
                  | inl e ↦ final_session j tx s (
                      sym (ap (λ x. is_final x.status) (one_session i j s t db here there e)) ∙ bad)
                  | inr e ↦ other_session j tx s e
                ])))
          λ mutable.
            refused-or P db (is_final t.status) update_refused (save (referred_session tx t))
              (λ bad. absurd (cc (bad, mutable)))
              λ again. saved_reference i j tx s t db here there mutable

abbrev pub IsFresh : SessionIds → Type 0
IsFresh new_id = (rows : List SpinSession) → find_session (new_id rows) rows ≡ none

module _ (new_id : SessionIds) where
  -- The database after a call, and after calls.
  pub step : Call → SessionDb → SessionDb
  step (creates user dto) db = (create new_id user dto db).1
  step (completes_it i type value tx) db = (complete i type value tx db).1
  step (fails_it i tx) db = (fail i tx db).1
  step (refers_it i tx) db = (set_tx_reference i tx db).1

  pub run : List Call → SessionDb → SessionDb
  run [] db = db
  run (c ∷ cs) db = run cs (step c db)

  module _ (fresh : IsFresh new_id) where
    other :
        (i : ℕ) (s row : SpinSession) (db : SessionDb)
        → find_session i db.sessions ≡ some s
        → (if new_id db.sessions == i then some row else find_session i db.sessions) ≡ some s
    other i s row db here = elim (Bool-cases (new_id db.sessions == i)) [
      | inl e ↦ cc (
        here,
        ap (λ k. find_session k db.sessions) (==→eq (new_id db.sessions) i e),
        fresh db.sessions,
      )
      | inr e ↦ ap (λ c. if c then some row else find_session i db.sessions) e ∙ here
    ]

    -- Each call of the service leaves each stored session as it is, but for a reference that is set for
    -- a pending session, which takes it: no call completes a session or makes it fail. The new row of a
    -- call gets an id that no stored row has.
    pub find_session-step :
        (c : Call) (i : ℕ) (s : SpinSession) (db : SessionDb)
        → find_session i db.sessions ≡ some s
        → find_session i (step c db).sessions ≡ some (after_call c s)
    unfolding step create complete fail
    find_session-step (creates user dto) i s db here =
        let row = new_session (new_id db.sessions) user dto in
        find_by-save_by (λ x. x.id) row i db.sessions ∙ other i s row db here
    find_session-step (completes_it j type value tx) i s db here =
        ap (λ d. find_session i d.sessions)
          (refused_update j (completed_session type value tx) db λ t. refl)
        ∙ here
    find_session-step (fails_it j tx) i s db here =
        ap (λ d. find_session i d.sessions) (refused_update j (failed_session tx) db λ t. refl)
        ∙ here
    find_session-step (refers_it j tx) i s db here = referred i j tx s db here

    final_stays : (c : Call) (s : SpinSession) → is_final s.status ≡ true → after_call c s ≡ s
    final_stays (refers_it i tx) s f = ground (arith, f)
    final_stays (creates user dto) s f = refl
    final_stays (completes_it i type value tx) s f = refl
    final_stays (fails_it i tx) s f = refl

    -- A session that is completed or has failed is the same after any calls, where a new row gets an id
    -- that no stored row has.
    pub run-final :
        (cs : List Call) (i : ℕ) (s : SpinSession) (db : SessionDb)
        → find_session i db.sessions ≡ some s
        → is_final s.status ≡ true
        → find_session i (run cs db).sessions ≡ some s
    unfolding run
    run-final [] i s db here f = here
    run-final (c ∷ cs) i s db here f =
        run-final cs i s (step c db) (find_session-step c i s db here ∙ ap some (final_stays c s f))
          f

total-count_sessions :
    (stats : SessionStats) (rows : List SpinSession)
    → (count_sessions stats rows).total_sessions ≡ stats.total_sessions
unfolding count_sessions
total-count_sessions stats [] = refl
total-count_sessions stats (s ∷ rest) = total-count_sessions (count_session stats s) rest

abbrev counted : SessionStats → ℕ
counted x = x.status_counts pending + x.status_counts completed + x.status_counts failed

counted-count_sessions :
    (stats : SessionStats) (rows : List SpinSession)
    → counted (count_sessions stats rows) ≡ counted stats + length rows
unfolding count_sessions
counted-count_sessions stats [] = omega arith
counted-count_sessions stats (s ∷ rest) =
    ground (arith, counted-count_sessions (count_session stats s) rest)

-- The pending, the completed and the failed sessions of the statistics add up to all sessions.
pub session_stats_partition :
    (db : SessionDb)
    → let s = get_statistics db in
      s.status_counts pending + s.status_counts completed + s.status_counts failed
      ≡ s.total_sessions
unfolding get_statistics
session_stats_partition db =
    let zero_stats : SessionStats = record {
      total_sessions = length db.sessions;
      total_staked = pos 0;
      total_rewards = pos 0;
      status_counts = λ _. 0;
      reward_type_counts = λ _. 0;
    } in
    omega (
      arith,
      counted-count_sessions zero_stats db.sessions,
      total-count_sessions zero_stats db.sessions,
    )
