-- ===== src/Gamification.antt =====
-- backend/src/gamification: the achievements, `GamificationService` and the handlers of events.
pub mod Awards
pub mod Counting
mod Tests
use renaissance_api.Common.{
  ℕ, ◌+◌, Bool, true, false, Option, none, some, List, [], ◌∷◌, ◌++◌, ◌&&◌, ◌==◌, if◌then◌else◌,
  find_by, select_by, save_by,
}
use renaissance_api.Common.Int.{ℤ, pos, pos_part, neg_part, ◌+ℤ◌, leb_ℤ}
use renaissance_api.Bets.{BetSettled}
use renaissance_api.Spins.{SpinSettled, SpinOutcome, outcome_number}
use renaissance_api.Staking.{StakeEvent, debited, credited, Amount}

pub data TriggerEvent : Type 0 where
  bet_settled spin_result staking_event leaderboard_update nft_earned : TriggerEvent

pub data RuleType : Type 0 where
  count sum_amount specific_condition : RuleType

-- The keys that a payload or a condition can have; `other` is one that no handler writes.
pub data Key : Type 0 where
  amount stake_amount payout_amount is_win is_credit outcome : Key
  other : ℕ → Key

-- A value of a payload; `nan` is the number NaN, which equals nothing.
pub data Value : Type 0 where
  number : ℤ → Value
  nan : Value
  flag : Bool → Value
  text : ℕ → Value

abbrev pub Payload : Type 0
Payload = List (Key × Value)

pub record Achievement : Type 0 where
  pub id : ℕ
  pub name : ℕ
  pub trigger_event : TriggerEvent
  pub rule_type : RuleType
  pub target_value : ℤ
  pub metadata : Payload
  pub reward_points : ℕ
  pub is_active : Bool

pub record UserAchievement : Type 0 where
  pub user_id : ℕ
  pub achievement_id : ℕ
  pub current_progress : ℤ
  pub is_completed : Bool
  pub completed_at : Option ℕ

-- `AchievementUnlockedEvent`
pub record AchievementUnlocked : Type 0 where
  pub user_id : ℕ
  pub achievement_id : ℕ
  pub achievement_name : ℕ
  pub reward_points : ℕ
  pub timestamp : ℕ

pub record GameDb : Type 0 where
  pub achievements : List Achievement
  pub user_achievements : List UserAchievement
  pub unlocked : List AchievementUnlocked

-- `create` with the defaults of the columns.
pub record CreateAchievement : Type 0 where
  pub name : ℕ
  pub trigger_event : TriggerEvent
  pub rule_type : RuleType
  pub target_value : ℤ
  pub metadata : Payload
  pub reward_points : Option ℕ
  pub is_active : Option Bool

abbrev pub or_default {ℓ} : {A : Type ℓ} → Option A → A → A
or_default none d = d
or_default (some a) d = a

abbrev pub IdSource : Type 0
IdSource = List Achievement → ℕ

abbrev pub new_achievement : ℕ → CreateAchievement → Achievement
new_achievement i dto = record {
  id = i;
  name = dto.name;
  trigger_event = dto.trigger_event;
  rule_type = dto.rule_type;
  target_value = dto.target_value;
  metadata = dto.metadata;
  reward_points = or_default dto.reward_points 0;
  is_active = or_default dto.is_active true;
}

unfoldable pub create_achievement : IdSource → CreateAchievement → GameDb → GameDb
create_achievement new_id dto db = record db {
  achievements = save_by (λ a. a.id) (new_achievement (new_id db.achievements) dto) db.achievements;
}

abbrev pub find_name : ℕ → List Achievement → Option Achievement
find_name n = find_by λ a. a.name == n

-- The loop of `seedBadges`.
unfoldable pub seed_badges : IdSource → List CreateAchievement → GameDb → GameDb
unfolding create_achievement
seed_badges new_id [] db = db
seed_badges new_id (b ∷ bs) db = seed_badges new_id bs (elim (find_name b.name db.achievements) [
  | none ↦ create_achievement new_id b db
  | some a ↦ db
])

abbrev pub event_number : TriggerEvent → ℕ
event_number bet_settled = 0
event_number spin_result = 1
event_number staking_event = 2
event_number leaderboard_update = 3
event_number nft_earned = 4

abbrev pub key_number : Key → ℕ
key_number amount = 0
key_number stake_amount = 1
key_number payout_amount = 2
key_number is_win = 3
key_number is_credit = 4
key_number outcome = 5
key_number (other n) = 6 + n

abbrev pub value_of : Key → Payload → Option Value
value_of k [] = none
value_of k ((j, v) ∷ rest) = if key_number j == key_number k then some v else value_of k rest

abbrev pub same_flag : Bool → Bool → Bool
same_flag true b = b
same_flag false true = false
same_flag false false = true

-- `===`
abbrev pub same_value : Value → Value → Bool
same_value (number a) (number b) = leb_ℤ a b && leb_ℤ b a
same_value (flag a) (flag b) = same_flag a b
same_value (text a) (text b) = a == b
same_value _ _ = false

abbrev pub is_value : Value → Option Value → Bool
is_value v none = false
is_value v (some w) = same_value w v

-- The loop of `matchesCondition` over the conditions of an achievement.
unfoldable pub matches_condition : Payload → Payload → Bool
matches_condition [] payload = true
matches_condition ((k, v) ∷ rest) payload =
    is_value v (value_of k payload) && matches_condition rest payload

-- `Number(a || b || 0)`: a number that is 0 or NaN, and what is missing, is passed over. The handlers
-- put numbers there.
abbrev pub or_number : Option Value → ℤ → ℤ
or_number (some (number a)) b = if pos_part a + neg_part a == 0 then b else a
or_number _ b = b

abbrev pub increment_value : RuleType → Payload → ℤ
increment_value count payload = pos 1
increment_value sum_amount payload =
    or_number (value_of amount payload) (or_number (value_of stake_amount payload) (pos 0))
increment_value specific_condition payload = pos 1

abbrev pub is_row : ℕ → ℕ → UserAchievement → Bool
is_row user achievement r = r.user_id == user && r.achievement_id == achievement

abbrev pub find_row : ℕ → ℕ → List UserAchievement → Option UserAchievement
find_row user achievement = find_by (is_row user achievement)

-- `save`; a user has one row for an achievement, by the index of the table.
abbrev pub put_row : UserAchievement → List UserAchievement → List UserAchievement
put_row row [] = row ∷ []
put_row row (x ∷ xs) =
    if is_row row.user_id row.achievement_id x then row ∷ xs else x ∷ put_row row xs

abbrev pub new_row : ℕ → ℕ → UserAchievement
new_row user achievement = record {
  user_id = user;
  achievement_id = achievement;
  current_progress = pos 0;
  is_completed = false;
  completed_at = none;
}

abbrev pub unlocked_event : ℕ → Achievement → UserAchievement → AchievementUnlocked
unlocked_event now a r = record {
  user_id = r.user_id;
  achievement_id = a.id;
  achievement_name = a.name;
  reward_points = a.reward_points;
  timestamp = now;
}

-- The row once the progress is `p`; at the target it is capped and completed.
abbrev pub progressed : ℕ → Achievement → UserAchievement → ℤ → UserAchievement
progressed now a r p =
    if leb_ℤ a.target_value p
    then record r {
      current_progress = a.target_value;
      is_completed = true;
      completed_at = some now;
    }
    else record r { current_progress = p }

abbrev pub store_row : ℕ → Achievement → UserAchievement → GameDb → GameDb
store_row now a r db = record db {
  user_achievements = put_row r db.user_achievements;
  unlocked = db.unlocked ++ (if r.is_completed then unlocked_event now a r ∷ [] else []);
}

-- The transaction on the row that is there or new; a completed row is left.
abbrev pub evaluate_row : ℕ → Achievement → Payload → UserAchievement → GameDb → GameDb
evaluate_row now a payload r db =
    if r.is_completed
    then db
    else store_row now a
        (progressed now a r (r.current_progress +ℤ increment_value a.rule_type payload)) db

unfoldable pub evaluate_achievement : ℕ → ℕ → Achievement → Payload → GameDb → GameDb
evaluate_achievement now user a payload db =
    evaluate_row now a payload
      (or_default (find_row user a.id db.user_achievements) (new_row user a.id)) db

-- The loop of `processEvent`.
unfoldable pub evaluate_all : ℕ → ℕ → Payload → List Achievement → GameDb → GameDb
unfolding evaluate_achievement matches_condition
evaluate_all now user payload [] db = db
evaluate_all now user payload (a ∷ rest) db = evaluate_all now user payload rest (
    if matches_condition a.metadata payload then evaluate_achievement now user a payload db else db)

abbrev pub is_for : TriggerEvent → Achievement → Bool
is_for e a = event_number a.trigger_event == event_number e && a.is_active

unfoldable pub process_event : ℕ → ℕ → TriggerEvent → Payload → GameDb → GameDb
unfolding evaluate_all
process_event now user e payload db =
    evaluate_all now user payload (select_by (is_for e) db.achievements) db

abbrev pub get_user_achievements : ℕ → GameDb → List UserAchievement
get_user_achievements user db = select_by (λ r. r.user_id == user) db.user_achievements

-- The payloads and handlers of the events of bets, spins and stakes.
abbrev pub bet_payload : BetSettled → Payload
bet_payload e =
    (is_win, flag e.is_win)
    ∷ (stake_amount, number e.stake_amount)
    ∷ (payout_amount, number e.winnings_amount)
    ∷ []

unfoldable pub on_bet_settled : ℕ → BetSettled → GameDb → GameDb
unfolding process_event
on_bet_settled now e = process_event now e.user_id bet_settled (bet_payload e)

abbrev pub spin_payload : SpinSettled → Payload
spin_payload e =
    (outcome, text (outcome_number e.outcome))
    ∷ (stake_amount, number e.stake_amount)
    ∷ (payout_amount, number e.payout_amount)
    ∷ (is_win, flag e.is_win)
    ∷ []

unfoldable pub on_spin_settled : ℕ → SpinSettled → GameDb → GameDb
unfolding process_event
on_spin_settled now e = process_event now e.user_id spin_result (spin_payload e)

abbrev pub amount_value : Amount → Value
amount_value none = nan
amount_value (some a) = number a

abbrev pub stake_payload : Amount → Bool → Payload
stake_payload a credit = (amount, amount_value a) ∷ (is_credit, flag credit) ∷ []

unfoldable pub on_stake : ℕ → StakeEvent → GameDb → GameDb
unfolding process_event
on_stake now (credited user staked reward) =
    process_event now user staking_event (stake_payload reward true)
on_stake now (debited user staked) =
    process_event now user staking_event (stake_payload staked false)
