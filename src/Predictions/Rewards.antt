-- ===== src/Predictions/Rewards.antt =====
-- backend/src/match-settlement/match-settlement.service.ts: the rewards of predictions, and their payment.
use renaissance_api.Common.{
  ℕ, zero, suc, ◌+◌, ◌*◌, ◌/◌, Bool, true, false, Option, none, some, List, [], ◌∷◌, ◌++◌, ◌||◌,
  ltb, if◌then◌else◌, take, drop, length,
}
use renaissance_api.Predictions.Entities.{
  Outcome, home_win, away_win, draw, Prediction, RewardCalculation, PaymentError, no_wallet,
  too_small, payment_failed, payment_thrown, Audit, same_outcome,
}

-- The answer of the Stellar service to a payment; a throw of it is an answer too.
pub data PaymentResult : Type 0 where
  paid : ℕ → PaymentResult
  refused : ℕ → PaymentResult
  thrown : ℕ → PaymentResult

-- `sendNativePayment` to an address of an amount, with the prediction of its memo.
abbrev pub Stellar : Type 0
Stellar = ℕ → ℕ → ℕ → PaymentResult

abbrev pub max_batch_size : ℕ
max_batch_size = 50

abbrev pub min_stake : ℕ
min_stake = 100000

-- `REFUND_OUTCOMES.has`: no outcome of a settlement is one of those.
abbrev pub is_refund_outcome : Outcome → Bool
is_refund_outcome o = false

abbrev pub calculate_reward : ℕ → ℕ → ℕ
calculate_reward stake multiplier = stake * multiplier / 10000

-- The placeholder finds no wallet.
unfoldable pub resolve_user_wallet : ℕ → Option ℕ
resolve_user_wallet user = none

abbrev pub outcome_of : Bool → ℕ → ℕ → Outcome
outcome_of force home away =
    if force
    then draw
    else if ltb away home
    then home_win
    else if ltb home away
    then away_win
    else draw

abbrev pub refund_of : Prediction → RewardCalculation
refund_of p = record {
  prediction_id = p.id;
  user_id = p.user_id;
  stake_amount = p.stake_amount;
  reward_amount = p.stake_amount;
  is_winner = false;
  is_refund = true;
}

abbrev pub win_of : Prediction → RewardCalculation
win_of p = record {
  prediction_id = p.id;
  user_id = p.user_id;
  stake_amount = p.stake_amount;
  reward_amount = calculate_reward p.stake_amount p.reward_multiplier;
  is_winner = true;
  is_refund = false;
}

abbrev pub loss_of : Prediction → RewardCalculation
loss_of p = record {
  prediction_id = p.id;
  user_id = p.user_id;
  stake_amount = p.stake_amount;
  reward_amount = 0;
  is_winner = false;
  is_refund = false;
}

-- The reward of a prediction, by the branches of the loop of `settleMatch`.
unfoldable pub reward_of : Bool → Outcome → Prediction → RewardCalculation
reward_of force status p =
    if force || is_refund_outcome status
    then refund_of p
    else if same_outcome p.predicted_outcome status
    then win_of p
    else loss_of p

-- One turn of that loop on the audit.
abbrev pub count_reward : Audit → RewardCalculation → Audit
count_reward a r =
    if r.is_refund
    then record a { refunds = a.refunds + 1; total_refunded = a.total_refunded + r.reward_amount }
    else if r.is_winner
    then record a { winners = a.winners + 1; total_rewarded = a.total_rewarded + r.reward_amount }
    else record a { losers = a.losers + 1 }

unfoldable pub categorise :
    Bool → Outcome → List Prediction → Audit → List RewardCalculation × Audit
unfolding reward_of
categorise force status [] a = ([], a)
categorise force status (p ∷ ps) a =
    let (rs, a') = categorise force status ps (count_reward a (reward_of force status p)) in
    (reward_of force status p ∷ rs, a')

-- `chunk`, on fuel: a chunk takes at least one item.
unfoldable pub chunk_from {ℓ} : {A : Type ℓ} → ℕ → ℕ → List A → List (List A)
chunk_from zero size xs = []
chunk_from (suc fuel) size [] = []
chunk_from (suc fuel) size (x ∷ xs) = take size (x ∷ xs) ∷ chunk_from fuel size (drop size (x ∷ xs))

unfoldable pub chunk {ℓ} : {A : Type ℓ} → List A → ℕ → List (List A)
unfolding chunk_from
chunk xs size = chunk_from (length xs) size xs

module _ (stellar : Stellar) where
  -- One turn of the loop of `distributeRewardsBatch`, for the wallet that is found.
  abbrev pub pay_reward :
      RewardCalculation → Option ℕ → List ℕ × List PaymentError → List ℕ × List PaymentError
  pay_reward r none (hashes, errors) = (hashes, errors ++ no_wallet r.user_id ∷ [])
  pay_reward r (some wallet) (hashes, errors) =
      if ltb r.reward_amount min_stake
      then (hashes, errors ++ too_small r.user_id r.reward_amount ∷ [])
      else elim (stellar wallet r.reward_amount r.prediction_id) [
        | paid hash ↦ (hashes ++ hash ∷ [], errors)
        | refused e ↦ (hashes, errors ++ payment_failed r.user_id e ∷ [])
        | thrown e ↦ (hashes, errors ++ payment_thrown r.user_id e ∷ [])
      ]

  unfoldable pub distribute_rewards_batch :
      List RewardCalculation → List ℕ × List PaymentError → List ℕ × List PaymentError
  unfolding resolve_user_wallet
  distribute_rewards_batch [] done = done
  distribute_rewards_batch (r ∷ rs) done =
      distribute_rewards_batch rs (pay_reward r (resolve_user_wallet r.user_id) done)

  unfoldable pub distribute_all :
      List (List RewardCalculation) → List ℕ × List PaymentError → List ℕ × List PaymentError
  unfolding distribute_rewards_batch
  distribute_all [] done = done
  distribute_all (b ∷ bs) done = distribute_all bs (distribute_rewards_batch b done)
