-- ===== src/Predictions.antt =====
-- backend/src/match-settlement/match-settlement.service.ts: the routes that settle the predictions of a
-- match and pay them out.
mod Entities
mod Rewards
pub mod Rows
pub mod Settlement
mod Tests
pub use Entities.*
unfoldable pub use Rewards.*
use mathlib.Core.List.{reverse}
use renaissance_api.Common.{
  ℕ, zero, suc, ◌+◌, ◌-◌, ◌*◌, ◌/◌, Bool, true, false, not, Option, none, some, List, [], ◌∷◌, ◌++◌,
  map, ◌&&◌, ◌||◌, ltb, leb, ◌==◌, if◌then◌else◌, find_by, select_by, take, drop, length,
}
use renaissance_api.Common.Action.{ok, err, ◌>>=◌, ◌>>◌, pure, gets, or_raise, raise_if, modify}

abbrev pub sum_rewards : List RewardCalculation → ℕ
sum_rewards [] = 0
sum_rewards (r ∷ rs) = r.reward_amount + sum_rewards rs

-- `prediction.update` of the row of an id.
abbrev pub update_prediction : ℕ → (Prediction → Prediction) → List Prediction → List Prediction
update_prediction i change [] = []
update_prediction i change (p ∷ ps) =
    if p.id == i then change p ∷ ps else p ∷ update_prediction i change ps

abbrev pub status_of : RewardCalculation → PredictionStatus
status_of r = if r.is_refund then refunded else if r.is_winner then won else lost

abbrev pub decided : ℕ → RewardCalculation → Prediction → Prediction
decided now r p = record p {
  status = status_of r;
  reward_amount = some r.reward_amount;
  settled_at = some now;
}

-- `userBalance.upsert`; an update leaves `totalEarned` as it is.
abbrev pub upsert_balance : ℕ → ℕ → List UserBalance → List UserBalance
upsert_balance user amount [] =
    record { user_id = user; pending_rewards = amount; total_earned = amount } ∷ []
upsert_balance user amount (b ∷ bs) =
    if b.user_id == user
    then record b { pending_rewards = b.pending_rewards + amount } ∷ bs
    else b ∷ upsert_balance user amount bs

abbrev pub update_match : ℕ → (Match → Match) → List Match → List Match
update_match i change [] = []
update_match i change (m ∷ ms) = if m.id == i then change m ∷ ms else m ∷ update_match i change ms

abbrev pub apply_reward : ℕ → RewardCalculation → Db → Db
apply_reward now r db = record db {
  predictions = update_prediction r.prediction_id (decided now r) db.predictions;
  balances =
      if ltb 0 r.reward_amount
      then upsert_balance r.user_id r.reward_amount db.balances
      else db.balances;
}

-- The loop of the transaction of `settleMatch`.
unfoldable pub apply_rewards : ℕ → List RewardCalculation → Db → Db
apply_rewards now [] db = db
apply_rewards now (r ∷ rs) db = apply_rewards now rs (apply_reward now r db)

abbrev pub new_audit : ℕ → ℕ → ℕ → Audit
new_audit i now total = record {
  match_id = i;
  settled_at = now;
  total_predictions = total;
  winners = 0;
  losers = 0;
  refunds = 0;
  total_rewarded = 0;
  total_refunded = 0;
  tx_hashes = [];
  errors = [];
}

abbrev pub mark_settled : Match → Match
mark_settled m = record m { is_settled = true }

abbrev pub decide_match : ℕ → MatchOutcome → Match → Match
decide_match now o m = record m { is_settled = true; outcome = some o; settled_at = some now }

abbrev pub refund_rows : ℕ → List Prediction → List Prediction → List Prediction
refund_rows now [] rows = rows
refund_rows now (p ∷ ps) rows =
    refund_rows now ps (update_prediction p.id (decided now (refund_of p)) rows)

module _ (stellar : Stellar) where
  -- What `settleMatch` does with the pending predictions that it finds.
  abbrev pub settle_found : ℕ → ℕ → Outcome → Bool → List Prediction → Db → Audit × Db
  settle_found now i status force [] db =
      (new_audit i now 0, record db { matches = update_match i mark_settled db.matches })
  settle_found now i status force (p ∷ ps) db =
      let (rewards, a) = categorise force status (p ∷ ps) (new_audit i now (length (p ∷ ps))) in
      let (hashes, errors) =
        distribute_all stellar
          (chunk (select_by (λ r. ltb 0 r.reward_amount) rewards) max_batch_size) ([], []) in
      let db' = apply_rewards now rewards db in
      (
        record a { tx_hashes = hashes; errors = errors },
        record db' { matches = update_match i (decide_match now (result status)) db'.matches },
      )

  unfoldable pub settle_match : ℕ → ℕ → Outcome → Bool → Db → Audit × Db
  unfolding categorise distribute_all chunk apply_rewards
  settle_match now i status force db =
      settle_found now i status force (select_by (is_open i) db.predictions) db

  abbrev pub settle_checked : ℕ → ℕ → Outcome → Bool → SettleAction Audit
  settle_checked now i status force db =
      let (a, db') = settle_match now i status force db in
      (ok a, record db' { audits = db'.audits ++ a ∷ [] })

  abbrev pub settle_scored : ℕ → ℕ → ℕ → ℕ → Bool → SettleAction Audit
  settle_scored now i home away force = do
    m ← do or_raise (← gets (λ db. find_match i db.matches)) match_not_found
    raise_if m.is_settled already_settled
    settle_checked now i (outcome_of force home away) force

  -- `POST /matches/:matchId/settle`; a score that the body lacks is `none`.
  unfoldable pub settle_route : ℕ → ℕ → Option ℕ → Option ℕ → Bool → SettleAction Audit
  unfolding settle_match
  settle_route now i (some home) (some away) force db = settle_scored now i home away force db
  settle_route now i _ _ force db = (err scores_required, db)

  unfoldable pub process_refunds : ℕ → ℕ → Db → Audit × Db
  unfolding distribute_rewards_batch
  process_refunds now i db =
      let ps = select_by (is_open i) db.predictions in
      let (hashes, errors) = distribute_rewards_batch stellar (map refund_of ps) ([], []) in
      (
        record (new_audit i now (length ps)) {
          refunds = length ps;
          total_refunded = sum_rewards (map refund_of ps);
          tx_hashes = hashes;
          errors = errors;
        },
        record db {
          predictions = refund_rows now ps db.predictions;
          matches = update_match i (decide_match now all_refunded) db.matches;
        },
      )

  -- The answer holds totals that are bigints, which JSON refuses: it throws once the refunds are done.
  abbrev pub refund_checked : ℕ → ℕ → SettleAction Audit
  refund_checked now i db = let (a, db') = process_refunds now i db in (err not_serializable, db')

  -- `POST /matches/:matchId/refund`
  unfoldable pub refund_route : ℕ → ℕ → SettleAction Audit
  unfolding process_refunds
  refund_route now i = do
    m ← do or_raise (← gets (λ db. find_match i db.matches)) match_not_found
    raise_if m.is_settled already_settled
    refund_checked now i

-- The latest of the audits of a match.
abbrev pub later_audit : Audit → Option Audit → Audit
later_audit a none = a
later_audit a (some b) = if ltb a.settled_at b.settled_at then b else a

abbrev pub latest_audit : List Audit → Option Audit
latest_audit [] = none
latest_audit (a ∷ rest) = some (later_audit a (latest_audit rest))

-- `GET /matches/:matchId/settlement`
unfoldable pub get_settlement : ℕ → SettleAction Audit
get_settlement i = do
  or_raise (← gets (λ db. latest_audit (select_by (λ a. a.match_id == i) db.audits)))
      no_settlement_record
