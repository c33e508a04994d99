-- ===== src/RateLimit/Cooldown.antt =====
-- The cooldown of a user after an interaction, and the answers to other users.
use renaissance_api.Common.{
  ℕ, ◌<◌, ◌≤◌, ◌≡◌, refl, sym, ap, subst, ◌∙◌, ◌≢◌, ◌↔◌, false, some, List, arith, eq→==, leb,
  if◌then◌else◌, save_by, find_by-save_by,
}
use renaissance_api.Common.Action.{Result, ok, err}
use renaissance_api.RateLimit.{
  LimitDb, Error, InteractionAction, get_cooldown_seconds, find_last, next_allowed, enforce_found,
  enforce_row, check_and_enforce, record_interaction, interaction, UserLastInteraction,
}

-- A call is refused.
abbrev pub Refused : Result Error (Unit {0}) × LimitDb → Type 0
Refused (ok _, _) = ⊥
Refused (err _, _) = Unit

found_self :
    (t u : ℕ) (rows : List UserLastInteraction)
    → find_last u (save_by (λ x. x.user_id) (interaction t u) rows) ≡ some (interaction t u)
found_self t u rows =
    find_by-save_by (λ x. x.user_id) (interaction t u) u rows
    ∙ ap (λ c. if c then some (interaction t u) else find_last u rows) (eq→== u u refl)

found_other :
    (t u v : ℕ) (rows : List UserLastInteraction)
    → u ≢ v
    → find_last v (save_by (λ x. x.user_id) (interaction t u) rows) ≡ find_last v rows
found_other t u v rows ne = find_by-save_by (λ x. x.user_id) (interaction t u) v rows ∙ ground arith

Refused-row :
    (now u : ℕ) (action : InteractionAction) (seconds : ℕ) (row : UserLastInteraction)
    (db : LimitDb)
    → row.last_interaction_at ≤ now
    → Refused (enforce_row now u action seconds row db)
      ↔ (now < next_allowed row.last_interaction_at seconds)
Refused-row now u action seconds row db later = (λ r. ground arith, λ h. ground arith)

module _ (now u : ℕ) (action : InteractionAction) (db : LimitDb) where
  enforces :
      0 < get_cooldown_seconds db
      → check_and_enforce now u action db
        ≡ enforce_found now u action (get_cooldown_seconds db) (find_last u db.last) db
  unfolding check_and_enforce
  enforces some_time =
      let off : leb (get_cooldown_seconds db) 0 ≡ false = ground arith in
      ap
        (λ c.
          let r : Result Error (Unit {0}) × LimitDb =
            if c
            then (ok tt, db)
            else enforce_found now u action (get_cooldown_seconds db) (find_last u db.last) db in
          r)
        off

-- After an interaction at the time `t`, with a cooldown above 0, any action of the user at a time
-- `now` from `t` on is refused exactly as long as the cooldown has not passed.
pub check_after_record :
    (t now u : ℕ) (action : InteractionAction) (db : LimitDb)
    → 0 < get_cooldown_seconds db
    → t ≤ now
    → Refused (check_and_enforce now u action (record_interaction t u db).1)
      ↔ (now < next_allowed t (get_cooldown_seconds db))
unfolding record_interaction
check_after_record t now u action db some_time later =
    let db' = (record_interaction t u db).1 in
    let seconds = get_cooldown_seconds db in
    subst (λ r. Refused r ↔ (now < next_allowed t seconds))
      (sym (
        enforces now u action db' some_time
        ∙ ap (λ o. enforce_found now u action seconds o db') (found_self t u db.last)))
      (Refused-row now u action seconds (interaction t u) db' later)

-- An interaction of a user leaves the answer to every other user as it is.
pub check_other :
    (t now u v : ℕ) (action : InteractionAction) (db : LimitDb)
    → u ≢ v
    → (check_and_enforce now v action (record_interaction t u db).1).0
      ≡ (check_and_enforce now v action db).0
unfolding check_and_enforce record_interaction
check_other t now u v action db ne = ground (arith, found_other t u v db.last ne)
