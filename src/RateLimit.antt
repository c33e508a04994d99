-- ===== src/RateLimit.antt =====
-- backend/src/rate-limit/rate-limit-interaction.service.ts: `RateLimitInteractionService`.
pub mod Cooldown
mod Tests
use renaissance_api.Common.{
  ℕ, suc, ◌+◌, ◌-◌, ◌*◌, ◌/◌, Bool, true, false, Option, none, some, List, [], ◌∷◌, ◌++◌, ◌==◌, leb,
  ltb, if◌then◌else◌, find_by, save_by,
}
use renaissance_api.Common.Int.{ℤ, pos, negsuc}
use renaissance_api.Common.Action.{Action, ok, err, pure, modify, ◌>>=◌, ◌>>◌}

pub data InteractionAction : Type 0 where
  spin spin_game stake : InteractionAction

pub record UserLastInteraction : Type 0 where
  pub user_id : ℕ
  pub last_interaction_at : ℕ

-- `RateLimitViolationEvent`
pub record RateLimitViolation : Type 0 where
  pub user_id : ℕ
  pub action : InteractionAction
  pub at : ℕ
  pub cooldown_seconds : ℕ
  pub next_allowed_at : ℕ

-- `cooldown` is the row of the configuration, `violations` the events that were published.
pub record LimitDb : Type 0 where
  pub cooldown : Option ℕ
  pub last : List UserLastInteraction
  pub violations : List RateLimitViolation

-- ForbiddenException; `please_wait` carries the seconds of its message.
pub data Error : Type 0 where
  negative_cooldown : Error
  please_wait : ℕ → Error

abbrev pub LimitAction : Type 0 → Type 0
LimitAction = Action Error LimitDb

abbrev pub get_cooldown_seconds : LimitDb → ℕ
get_cooldown_seconds db = elim db.cooldown [ none ↦ 5 | some s ↦ s ]

unfoldable pub set_cooldown_seconds : ℤ → LimitAction ℕ
set_cooldown_seconds (pos s) db = (ok s, record db { cooldown = some s })
set_cooldown_seconds (negsuc n) db = (err negative_cooldown, db)

abbrev pub find_last : ℕ → List UserLastInteraction → Option UserLastInteraction
find_last u = find_by λ x. x.user_id == u

-- The end of a cooldown of `seconds` that began at `start`.
abbrev pub next_allowed : ℕ → ℕ → ℕ
next_allowed start seconds = start + seconds * 1000

-- The test of `checkAndEnforce` on the user's row. A clock that has gone back counts as no time.
abbrev pub enforce_row :
    ℕ → ℕ → InteractionAction → ℕ → UserLastInteraction → LimitAction (Unit {0})
enforce_row now user action seconds row db =
    let until = next_allowed row.last_interaction_at seconds in
    let violation : RateLimitViolation = record {
      user_id = user;
      action = action;
      at = now;
      cooldown_seconds = seconds;
      next_allowed_at = until;
    } in
    if ltb (now - row.last_interaction_at) (seconds * 1000)
    then (
      err (please_wait ((until - now + 999) / 1000)),
      record db { violations = db.violations ++ violation ∷ [] },
    )
    else (ok tt, db)

abbrev pub enforce_found :
    ℕ → ℕ → InteractionAction → ℕ → Option UserLastInteraction → LimitAction (Unit {0})
enforce_found now user action seconds none = pure tt
enforce_found now user action seconds (some row) = enforce_row now user action seconds row

unfoldable pub check_and_enforce : ℕ → ℕ → InteractionAction → LimitAction (Unit {0})
check_and_enforce now user action db =
    let seconds = get_cooldown_seconds db in
    if leb seconds 0
    then (ok tt, db)
    else enforce_found now user action seconds (find_last user db.last) db

abbrev pub interaction : ℕ → ℕ → UserLastInteraction
interaction now user = record { user_id = user; last_interaction_at = now }

unfoldable pub record_interaction : ℕ → ℕ → LimitAction (Unit {0})
record_interaction now user =
    modify λ db. record db { last = save_by (λ x. x.user_id) (interaction now user) db.last }
