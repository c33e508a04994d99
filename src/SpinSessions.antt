-- ===== src/SpinSessions.antt =====
-- backend/src/spin/spin-session.service.ts and backend/src/spin/entities/spin-session.entity.ts:
-- `SpinSessionService`, and the hook of the entity that runs before an update.
pub mod Lifecycle
mod Tests
use renaissance_api.Common.{
  ℕ, ◌+◌, Bool, true, false, Option, none, some, List, [], ◌∷◌, ◌==◌, if◌then◌else◌, find_by,
  select_by, count_by, save_by, take, length,
}
use mathlib.Core.List.{reverse}
use renaissance_api.Common.Int.{ℤ, pos, ◌+ℤ◌}
use renaissance_api.Common.Action.{Action, ok, ◌>>=◌, ◌>>◌, pure, gets, or_raise, raise_if}

pub data RewardType : Type 0 where
  xp tokens nft bonus_spin multiplier no_reward : RewardType

pub data SpinSessionStatus : Type 0 where
  pending completed failed : SpinSessionStatus

-- An amount is a number of units of 10^-8; an empty transaction reference is `none`.
pub record SpinSession : Type 0 where
  pub id : ℕ
  pub user_id : ℕ
  pub stake_amount : ℤ
  pub reward_type : RewardType
  pub reward_value : ℤ
  pub status : SpinSessionStatus
  pub tx_reference : Option ℕ

pub record CreateSpinSession : Type 0 where
  pub stake_amount : ℤ
  pub reward_type : Option RewardType
  pub reward_value : Option ℤ
  pub tx_reference : Option ℕ

-- The sessions in the order of creation.
pub record SessionDb : Type 0 where
  pub sessions : List SpinSession

pub data Error : Type 0 where
  session_not_found session_immutable update_refused : Error

abbrev pub SessionAction : Type 0 → Type 0
SessionAction = Action Error SessionDb

abbrev pub SessionIds : Type 0
SessionIds = List SpinSession → ℕ

abbrev pub find_session : ℕ → List SpinSession → Option SpinSession
find_session i = find_by λ s. s.id == i

abbrev pub save : SpinSession → SessionAction SpinSession
save s db = (ok s, record db { sessions = save_by (λ x. x.id) s db.sessions })

-- `||` and `??` with a value to fall back on.
abbrev pub or_value {ℓ} : {A : Type ℓ} → Option A → A → A
or_value none b = b
or_value (some a) _ = a

abbrev pub new_session : ℕ → ℕ → CreateSpinSession → SpinSession
new_session i user dto = record {
  id = i;
  user_id = user;
  stake_amount = dto.stake_amount;
  reward_type = or_value dto.reward_type no_reward;
  reward_value = or_value dto.reward_value (pos 0);
  status = pending;
  tx_reference = dto.tx_reference;
}

unfoldable pub create : SessionIds → ℕ → CreateSpinSession → SessionAction SpinSession
create new_id user dto db = save (new_session (new_id db.sessions) user dto) db

unfoldable pub find_by_id : ℕ → SessionAction (Option SpinSession)
find_by_id i = gets λ db. find_session i db.sessions

unfoldable pub find_by_id_or_fail : ℕ → SessionAction SpinSession
unfolding find_by_id
find_by_id_or_fail i = do or_raise (← find_by_id i) session_not_found

-- `findByUserId`, the newest first.
unfoldable pub find_by_user_id : ℕ → ℕ → SessionDb → List SpinSession
find_by_user_id user limit db =
    take limit (reverse (select_by (λ s. s.user_id == user) db.sessions))

abbrev pub is_final : SpinSessionStatus → Bool
is_final pending = false
is_final completed = true
is_final failed = true

-- `save` of a row that is there: `preventUpdateAfterCompletion` runs before it on what is to be saved.
abbrev pub save_update : SpinSession → SessionAction SpinSession
save_update s = do raise_if (is_final s.status) update_refused; save s

abbrev pub assert_mutable : SpinSession → SessionAction (Unit {0})
assert_mutable s = raise_if (is_final s.status) session_immutable

-- The reference that a call gives, or the one that is there.
abbrev pub with_reference : Option ℕ → SpinSession → Option ℕ
with_reference none s = s.tx_reference
with_reference (some t) s = some t

abbrev pub completed_session : RewardType → ℤ → Option ℕ → SpinSession → SpinSession
completed_session type value tx s = record s {
  reward_type = type;
  reward_value = value;
  status = completed;
  tx_reference = with_reference tx s;
}

abbrev pub failed_session : Option ℕ → SpinSession → SpinSession
failed_session tx s = record s { status = failed; tx_reference = with_reference tx s }

abbrev pub referred_session : ℕ → SpinSession → SpinSession
referred_session tx s = record s { tx_reference = some tx }

-- What `complete`, `fail` and `setTxReference` have in common.
abbrev pub update_mutable : ℕ → (SpinSession → SpinSession) → SessionAction SpinSession
update_mutable i change = do s ← find_by_id_or_fail i; assert_mutable s; save_update (change s)

unfoldable pub complete : ℕ → RewardType → ℤ → Option ℕ → SessionAction SpinSession
unfolding find_by_id_or_fail
complete i type value tx = update_mutable i (completed_session type value tx)

unfoldable pub fail : ℕ → Option ℕ → SessionAction SpinSession
unfolding find_by_id_or_fail
fail i tx = update_mutable i (failed_session tx)

unfoldable pub set_tx_reference : ℕ → ℕ → SessionAction SpinSession
unfolding find_by_id_or_fail
set_tx_reference i tx = update_mutable i (referred_session tx)

abbrev pub same_status : SpinSessionStatus → SpinSessionStatus → Bool
same_status pending pending = true
same_status completed completed = true
same_status failed failed = true
same_status _ _ = false

abbrev pub same_reward : RewardType → RewardType → Bool
same_reward xp xp = true
same_reward tokens tokens = true
same_reward nft nft = true
same_reward bonus_spin bonus_spin = true
same_reward multiplier multiplier = true
same_reward no_reward no_reward = true
same_reward _ _ = false

pub record SessionStats : Type 0 where
  pub total_sessions : ℕ
  pub total_staked : ℤ
  pub total_rewards : ℤ
  pub status_counts : SpinSessionStatus → ℕ
  pub reward_type_counts : RewardType → ℕ

-- One turn of the loop of `getStatistics`.
abbrev pub count_session : SessionStats → SpinSession → SessionStats
count_session stats s = record stats {
  total_staked = stats.total_staked +ℤ s.stake_amount;
  total_rewards = stats.total_rewards +ℤ s.reward_value;
  status_counts = λ x. stats.status_counts x + (if same_status s.status x then 1 else 0);
  reward_type_counts =
      λ x. stats.reward_type_counts x + (if same_reward s.reward_type x then 1 else 0);
}

pub count_sessions : SessionStats → List SpinSession → SessionStats
count_sessions stats [] = stats
count_sessions stats (s ∷ rest) = count_sessions (count_session stats s) rest

unfoldable pub get_statistics : SessionDb → SessionStats
unfolding count_sessions
get_statistics db =
    count_sessions
      (record {
        total_sessions = length db.sessions;
        total_staked = pos 0;
        total_rewards = pos 0;
        status_counts = λ _. 0;
        reward_type_counts = λ _. 0;
      })
      db.sessions
