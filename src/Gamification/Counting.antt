-- ===== src/Gamification/Counting.antt =====
-- An achievement that counts events is reached at its target.
use renaissance_api.Common.{
  ℕ, suc, ◌+◌, ◌≤◌, ◌<◌, ◌≡◌, refl, sym, subst, true, false, none, List, [], ◌∷◌, arith,
  if◌then◌else◌, leb, min, length, Bool-cases, inl, inr, ap, ◌∙◌,
}
use renaissance_api.Common.Int.{pos, ◌+ℤ◌}
use renaissance_api.Gamification.{
  Achievement, UserAchievement, GameDb, Payload, count, find_row, new_row, progressed, store_row,
  evaluate_row, evaluate_achievement, or_default, increment_value,
}
use renaissance_api.Gamification.Awards.{find_row-put_row}

-- Matching events of one user, each with its time and payload.
pub evaluate_each : ℕ → Achievement → List (ℕ × Payload) → GameDb → GameDb
evaluate_each user a [] db = db
evaluate_each user a ((now, payload) ∷ rest) db =
    evaluate_each user a rest (evaluate_achievement now user a payload db)

-- The user's row, or the one that the next event begins with.
abbrev pub row_of : ℕ → Achievement → GameDb → UserAchievement
row_of user a db = or_default (find_row user a.id db.user_achievements) (new_row user a.id)

-- After `n` events towards the target `t`.
pub record IsCounted (user : ℕ) (a : Achievement) (t n : ℕ) (db : GameDb) : Type 0 where
  pub same_user : (row_of user a db).user_id ≡ user
  pub same_achievement : (row_of user a db).achievement_id ≡ a.id
  pub progress : (row_of user a db).current_progress ≡ pos (min n t)
  pub completed : (row_of user a db).is_completed ≡ leb t n

stored-IsCounted :
    (now user t n : ℕ) (a : Achievement) (r : UserAchievement) (db : GameDb)
    → r.user_id ≡ user
    → r.achievement_id ≡ a.id
    → r.current_progress ≡ pos (min n t)
    → r.is_completed ≡ leb t n
    → IsCounted user a t n (store_row now a r db)
stored-IsCounted now user t n a r db u i p c =
    let here : row_of user a (store_row now a r db) ≡ r =
      ground (arith, find_row-put_row r user a.id db.user_achievements) in
    record {
      same_user = rw here u;
      same_achievement = rw here i;
      progress = rw here p;
      completed = rw here c;
    }

left_alone :
    (now : ℕ) (a : Achievement) (payload : Payload) (r : UserAchievement) (db : GameDb)
    → r.is_completed ≡ true
    → evaluate_row now a payload r db ≡ db
left_alone now a payload r db done = ground arith

next_row : ℕ → Achievement → Payload → UserAchievement → UserAchievement
next_row now a payload r =
    progressed now a r (r.current_progress +ℤ increment_value a.rule_type payload)

taken_on :
    (now : ℕ) (a : Achievement) (payload : Payload) (r : UserAchievement) (db : GameDb)
    → r.is_completed ≡ false
    → evaluate_row now a payload r db ≡ store_row now a (next_row now a payload r) db
unfolding next_row
taken_on now a payload r db more =
    ap
      (λ c.
        if c
        then db
        else store_row now a
            (progressed now a r (r.current_progress +ℤ increment_value a.rule_type payload)) db)
      more

-- One more event below the target.
next_row_lem :
    (now t n : ℕ) (a : Achievement) (payload : Payload) (r : UserAchievement)
    → a.rule_type ≡ count
    → a.target_value ≡ pos t
    → n < t
    → r.current_progress ≡ pos (min n t)
    → r.is_completed ≡ false
    → let r' = next_row now a payload r in
      (r'.user_id ≡ r.user_id)
      × (r'.achievement_id ≡ r.achievement_id)
      × (r'.current_progress ≡ pos (min (suc n) t))
      × (r'.is_completed ≡ leb t (suc n))
unfolding next_row ◌+ℤ◌
next_row_lem now t n a payload r rule target below progress more =
    rw (rule, target, progress) (ground (arith, more))

evaluated-IsCounted :
    (now user t n : ℕ) (a : Achievement) (payload : Payload) (db : GameDb)
    → a.rule_type ≡ count
    → a.target_value ≡ pos t
    → IsCounted user a t n db
    → IsCounted user a t (suc n) (evaluate_achievement now user a payload db)
unfolding evaluate_achievement
evaluated-IsCounted now user t n a payload db rule target counted =
    let r = row_of user a db in
    elim (Bool-cases (leb t n)) [
      | inl done ↦
          subst (IsCounted user a t (suc n))
            (sym (left_alone now a payload r db (counted.completed ∙ done)))
            (record {
              same_user = counted.same_user;
              same_achievement = counted.same_achievement;
              progress = counted.progress ∙ ground (arith, done);
              completed = counted.completed ∙ ground (arith, done);
            })
      | inr more ↦
          let (u, i, p, c) =
            next_row_lem now t n a payload r rule target (ground (arith, more)) counted.progress
              (counted.completed ∙ more) in
          subst (IsCounted user a t (suc n))
            (sym (taken_on now a payload r db (counted.completed ∙ more)))
            (stored-IsCounted now user t (suc n) a (next_row now a payload r) db
              (u ∙ counted.same_user) (i ∙ counted.same_achievement) p c)
    ]

each-IsCounted :
    (user t n : ℕ) (a : Achievement) (events : List (ℕ × Payload)) (db : GameDb)
    → a.rule_type ≡ count
    → a.target_value ≡ pos t
    → IsCounted user a t n db
    → IsCounted user a t (n + length events) (evaluate_each user a events db)
unfolding evaluate_each
each-IsCounted user t n a [] db rule target counted =
    subst (λ m. IsCounted user a t m db) (omega arith) counted
each-IsCounted user t n a ((now, payload) ∷ events) db rule target counted =
    subst
      (λ m.
        IsCounted user a t m
          (evaluate_each user a events (evaluate_achievement now user a payload db)))
      (omega arith)
      (each-IsCounted user t (suc n) a events (evaluate_achievement now user a payload db) rule
        target (evaluated-IsCounted now user t n a payload db rule target counted))

-- An achievement that counts events up to a target of at least 1, and that the user has not begun:
-- after `n` matching events the user's progress is `n`, but at most the target, and it is completed
-- just when the target is reached.
pub counts_events :
    (user t : ℕ) (a : Achievement) (events : List (ℕ × Payload)) (db : GameDb)
    → a.rule_type ≡ count
    → a.target_value ≡ pos t
    → 1 ≤ t
    → find_row user a.id db.user_achievements ≡ none
    → let r = row_of user a (evaluate_each user a events db) in
      (r.current_progress ≡ pos (min (length events) t)) × (r.is_completed ≡ leb t (length events))
counts_events user t a events db rule target positive new =
    let fresh : row_of user a db ≡ new_row user a.id =
      ap (λ o. or_default o (new_row user a.id)) new in
    let counted = each-IsCounted user t 0 a events db rule target (record {
      same_user = rw fresh refl;
      same_achievement = rw fresh refl;
      progress = rw fresh (ground arith);
      completed = rw fresh (ground arith);
    }) in
    (counted.progress ∙ ground arith, counted.completed ∙ ground arith)
