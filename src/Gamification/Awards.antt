-- ===== src/Gamification/Awards.antt =====
-- An achievement is awarded once.
use renaissance_api.Common.{
  ℕ, ◌+◌, ◌≡◌, refl, sym, ap, subst, Bool, true, false, Option, none, some, List, [], ◌∷◌, ◌++◌,
  ◌&&◌, arith, ◌==◌, if◌then◌else◌, find_by_sound, count_by, select_by, Option-cases, Bool-cases,
  inl, inr,
}
use renaissance_api.Common.Int.{◌+ℤ◌, leb_ℤ}
use renaissance_api.Bets.{BetSettled}
use renaissance_api.Spins.{SpinSettled}
use renaissance_api.Staking.{StakeEvent, debited, credited}
use renaissance_api.Gamification.{
  Achievement, UserAchievement, GameDb, Payload, TriggerEvent, find_row, is_row, put_row, new_row,
  progressed, store_row, evaluate_row, evaluate_achievement, evaluate_all, matches_condition,
  process_event, increment_value, on_bet_settled, on_spin_settled, on_stake, unlocked_event, is_for,
  or_default, bet_payload, spin_payload, stake_payload, bet_settled, spin_result, staking_event,
}

-- How often an achievement was unlocked for a user.
abbrev pub times_unlocked : ℕ → ℕ → GameDb → ℕ
times_unlocked u a db = count_by (λ e. e.user_id == u && e.achievement_id == a) db.unlocked

-- Whether the user has completed it, as a number.
abbrev pub completions : Option UserAchievement → ℕ
completions none = 0
completions (some r) = if r.is_completed then 1 else 0

-- What was unlocked is just what is completed.
abbrev pub IsAwardedOnce : GameDb → Type 0
IsAwardedOnce db =
    (u a : ℕ) → times_unlocked u a db ≡ completions (find_row u a db.user_achievements)

pub find_row-put_row :
    (row : UserAchievement) (u a : ℕ) (rows : List UserAchievement)
    → find_row u a (put_row row rows) ≡ (if is_row u a row then some row else find_row u a rows)
find_row-put_row row u a [] = refl
find_row-put_row row u a (x ∷ xs) = ground (arith, find_row-put_row row u a xs)

count_by-snoc {ℓ} :
    {A : Type ℓ} (p : A → Bool) (xs : List A) (x : A)
    → count_by p (xs ++ x ∷ []) ≡ count_by p xs + (if p x then 1 else 0)
count_by-snoc p [] x = ground arith
count_by-snoc p (y ∷ xs) x = ground (arith, count_by-snoc p xs x)

append_none {ℓ} : {A : Type ℓ} (xs : List A) → xs ++ [] ≡ xs
append_none [] = refl
append_none (x ∷ xs) = ap (λ r. x ∷ r) (append_none xs)

-- A row that stands for the one that is found, and is not completed, is replaced.
store_row-IsAwardedOnce :
    (now : ℕ) (a : Achievement) (r : UserAchievement) (db : GameDb)
    → r.achievement_id ≡ a.id
    → completions (find_row r.user_id a.id db.user_achievements) ≡ 0
    → IsAwardedOnce db
    → IsAwardedOnce (store_row now a r db)
store_row-IsAwardedOnce now a r db own open_row once u i = elim (Bool-cases r.is_completed) [
  | inl done ↦ ground (
    arith,
    done,
    once u i,
    find_row-put_row r u i db.user_achievements,
    count_by-snoc (λ e. e.user_id == u && e.achievement_id == i) db.unlocked
        (unlocked_event now a r),
  )
  | inr more ↦
      ground (
        arith,
        more,
        once u i,
        find_row-put_row r u i db.user_achievements,
        append_none db.unlocked,
      )
]

-- The row that an event takes up: the one that is there, or a new one.
taken_up :
    (user : ℕ) (a : Achievement) (db : GameDb)
    → let r = or_default (find_row user a.id db.user_achievements) (new_row user a.id) in
      (r.user_id ≡ user)
      × (r.achievement_id ≡ a.id)
      × (r.is_completed ≡ false → completions (find_row user a.id db.user_achievements) ≡ 0)
taken_up user a db = elim (Option-cases (find_row user a.id db.user_achievements)) [
  | inl e ↦ ground (arith, e)
  | inr (r, e) ↦ ground (arith, e, find_by_sound (is_row user a.id) db.user_achievements r e)
]

evaluate_row-IsAwardedOnce :
    (now : ℕ) (a : Achievement) (payload : Payload) (r : UserAchievement) (db : GameDb)
    → r.achievement_id ≡ a.id
    → (r.is_completed ≡ false → completions (find_row r.user_id a.id db.user_achievements) ≡ 0)
    → IsAwardedOnce db
    → IsAwardedOnce (evaluate_row now a payload r db)
evaluate_row-IsAwardedOnce now a payload r db own fresh once =
    let p = r.current_progress +ℤ increment_value a.rule_type payload in
    let stored = store_row now a (progressed now a r p) db in
    elim (Bool-cases r.is_completed) [
      | inl done ↦ subst (λ c. IsAwardedOnce (if c then db else stored)) (sym done) once
      | inr more ↦
          subst (λ c. IsAwardedOnce (if c then db else stored)) (sym more)
            (store_row-IsAwardedOnce now a (progressed now a r p) db
              (elim (Bool-cases (leb_ℤ a.target_value p)) [ inl t ↦ rw t own | inr f ↦ rw f own ])
              (elim (Bool-cases (leb_ℤ a.target_value p)) [
                | inl t ↦ rw t (fresh more)
                | inr f ↦ rw f (fresh more)
              ])
              once)
    ]

evaluate_achievement-IsAwardedOnce :
    (now user : ℕ) (a : Achievement) (payload : Payload) (db : GameDb)
    → IsAwardedOnce db
    → IsAwardedOnce (evaluate_achievement now user a payload db)
unfolding evaluate_achievement
evaluate_achievement-IsAwardedOnce now user a payload db once =
    let r = or_default (find_row user a.id db.user_achievements) (new_row user a.id) in
    let (same_user, own, fresh) = taken_up user a db in
    evaluate_row-IsAwardedOnce now a payload r db own (rw same_user fresh) once

evaluate_all-IsAwardedOnce :
    (now user : ℕ) (payload : Payload) (all : List Achievement) (db : GameDb)
    → IsAwardedOnce db
    → IsAwardedOnce (evaluate_all now user payload all db)
unfolding evaluate_all
evaluate_all-IsAwardedOnce now user payload [] db once = once
evaluate_all-IsAwardedOnce now user payload (a ∷ all) db once =
    evaluate_all-IsAwardedOnce now user payload all _
      (elim (Bool-cases (matches_condition a.metadata payload)) [
        | inl e ↦ rw e (evaluate_achievement-IsAwardedOnce now user a payload db once)
        | inr e ↦ rw e once
      ])

pub process_event-IsAwardedOnce :
    (now user : ℕ) (e : TriggerEvent) (payload : Payload) (db : GameDb)
    → IsAwardedOnce db
    → IsAwardedOnce (process_event now user e payload db)
unfolding process_event
process_event-IsAwardedOnce now user e payload db once =
    evaluate_all-IsAwardedOnce now user payload (select_by (is_for e) db.achievements) db once

-- What the handlers get, with the time of its coming.
pub data Event : Type 0 where
  bet : ℕ → BetSettled → Event
  spin : ℕ → SpinSettled → Event
  stake : ℕ → StakeEvent → Event

pub handle : Event → GameDb → GameDb
handle (bet now e) db = on_bet_settled now e db
handle (spin now e) db = on_spin_settled now e db
handle (stake now e) db = on_stake now e db

pub run : List Event → GameDb → GameDb
run [] db = db
run (e ∷ es) db = run es (handle e db)

handle-IsAwardedOnce : (e : Event) (db : GameDb) → IsAwardedOnce db → IsAwardedOnce (handle e db)
unfolding handle on_bet_settled on_spin_settled on_stake
handle-IsAwardedOnce (bet now e) db once =
    process_event-IsAwardedOnce now e.user_id bet_settled (bet_payload e) db once
handle-IsAwardedOnce (spin now e) db once =
    process_event-IsAwardedOnce now e.user_id spin_result (spin_payload e) db once
handle-IsAwardedOnce (stake now (credited user staked reward)) db once =
    process_event-IsAwardedOnce now user staking_event (stake_payload reward true) db once
handle-IsAwardedOnce (stake now (debited user staked)) db once =
    process_event-IsAwardedOnce now user staking_event (stake_payload staked false) db once

-- Where each achievement was unlocked once for the users who have completed it, and never for the
-- others, it is so after any events of bets, spins and stakes.
pub run-IsAwardedOnce :
    (es : List Event) (db : GameDb) → IsAwardedOnce db → IsAwardedOnce (run es db)
unfolding run
run-IsAwardedOnce [] db once = once
run-IsAwardedOnce (e ∷ es) db once =
    run-IsAwardedOnce es (handle e db) (handle-IsAwardedOnce e db once)
