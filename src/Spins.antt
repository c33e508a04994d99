-- ===== src/Spins.antt =====
-- backend/src/spin/spin.service.ts: `SpinService`.
mod Entities
pub mod Wheel
pub mod Payout
pub mod Play
pub mod Replay
pub mod Statistics
mod Tests
pub use Entities.*
use mathlib.Core.List.{reverse}
use renaissance_api.Common.{
  ℕ, zero, suc, ◌+◌, ◌*◌, ◌^◌, ◌%◌, Bool, true, false, not, Option, none, some, List, [], ◌∷◌, ◌++◌,
  ◌==◌, ltb, if◌then◌else◌, find_by, select_by, count_by, save_by, take, length,
}
use renaissance_api.Common.Int.{ℤ, pos, ◌+ℤ◌, ◌-ℤ◌, ltb_ℤ, scaled, two_decimals}
use renaissance_api.Common.Action.{
  Result, ok, err, ◌>>=◌, ◌>>◌, pure, gets, raise_if, modify, in_transaction,
}
use renaissance_api.Wallet
use renaissance_api.Wallet.{caller}
use renaissance_api.Vouchers
use renaissance_api.Vouchers.{CreateVoucher}
use renaissance_api.RateLimit

-- The multiplier in tenths.
pub record WeightedOutcome : Type 0 where
  pub outcome : SpinOutcome
  pub weight : ℕ
  pub multiplier : ℕ

abbrev pub outcome_weights : List WeightedOutcome
outcome_weights =
    record { outcome = jackpot; weight = 5; multiplier = 500 }
    ∷ record { outcome = high_win; weight = 50; multiplier = 100 }
    ∷ record { outcome = medium_win; weight = 150; multiplier = 30 }
    ∷ record { outcome = small_win; weight = 300; multiplier = 15 }
    ∷ record { outcome = no_win; weight = 495; multiplier = 0 }
    ∷ []

abbrev pub sum_weights : List WeightedOutcome → ℕ
sum_weights [] = 0
sum_weights (w ∷ ws) = w.weight + sum_weights ws

abbrev pub total_weight : ℕ
total_weight = sum_weights outcome_weights

-- The loop of `generateSecureOutcome` over the weights from `cumulative` on, with its fallback.
unfoldable pub select_outcome : ℤ → ℕ → ℕ → List WeightedOutcome → SpinOutcome × ℤ
select_outcome stake normalized cumulative [] = (no_win, pos 0)
select_outcome stake normalized cumulative (w ∷ ws) =
    let rest = select_outcome stake normalized (cumulative + w.weight) ws in
    if ltb normalized (cumulative + w.weight)
    then (w.outcome, scaled stake w.multiplier 10)
    else rest

-- `generateSecureOutcome`, for the number that is read from the random bytes.
unfoldable pub generate_secure_outcome : ℤ → ℕ → SpinOutcome × ℤ
unfolding select_outcome
generate_secure_outcome stake random =
    select_outcome stake (random % total_weight) 0 outcome_weights

-- `getProbabilitiesSnapshot`: each outcome with its weight out of the total.
abbrev pub probabilities_of : List WeightedOutcome → List (SpinOutcome × ℕ)
probabilities_of [] = []
probabilities_of (w ∷ ws) = (w.outcome, w.weight) ∷ probabilities_of ws

abbrev pub reward_channel_of : SpinOutcome → RewardChannel
reward_channel_of jackpot = nft
reward_channel_of medium_win = free_bet
reward_channel_of _ = xlm

-- 10 XLM
abbrev pub minimum_stake_units : ℤ
minimum_stake_units = pos (10 * 10 ^ 8)

-- Seven days.
abbrev pub voucher_validity : ℕ
voucher_validity = 7 * 86400000

-- The row of a spin, whose amounts have two decimals; the code goes on with the spin as it was.
abbrev pub stored_spin : Spin → Spin
stored_spin s = record s {
  stake_amount = two_decimals s.stake_amount;
  payout_amount = two_decimals s.payout_amount;
}

abbrev pub save_spin : Spin → SpinAction Spin
save_spin s db = (ok s, record db { spins = save_by (λ x. x.id) (stored_spin s) db.spins })

abbrev pub voucher_request : ℕ → Spin → CreateVoucher
voucher_request now s = record {
  user_id = s.user_id;
  amount = s.payout_amount;
  expires_at = now + voucher_validity;
  max_active = none;
  is_withdrawable = false;
  other = s.id;
}

abbrev pub with_voucher : ℕ → Spin → Spin
with_voucher i s = record s { reward_channel = some free_bet; voucher_id = some i }

abbrev pub to_result : Spin → SpinResult
to_result s = record {
  id = s.id;
  outcome = s.outcome;
  payout_amount = s.payout_amount;
  stake_amount = s.stake_amount;
  net_result = s.payout_amount -ℤ s.stake_amount;
}

abbrev pub settled_event : Spin → SpinSettled
settled_event s = record {
  user_id = s.user_id;
  spin_id = s.id;
  outcome = s.outcome;
  stake_amount = s.stake_amount;
  payout_amount = s.payout_amount;
  is_win = ltb_ℤ s.stake_amount s.payout_amount;
}

module _ (env : Environment) (now : ℕ) where
  -- The payout of a stored spin. A credit that is refused is only logged, and so are the calls of
  -- contracts that follow it.
  unfoldable pub pay_channel : RewardChannel → Spin → SpinAction Spin
  pay_channel free_bet s = do
    v ←
        in_vouchers
          (Vouchers.create_voucher_with_manager env.voucher_ids now (voucher_request now s))
    save_spin (with_voucher v.id s)
  pay_channel _ s = do
    in_wallet (
        Wallet.update_user_balance env.balance_ids s.user_id s.payout_amount s.id
          (caller s.session_id))
    pure s

  unfoldable pub pay_out : Spin → SpinAction Spin
  pay_out s =
      if ltb_ℤ (pos 0) s.payout_amount then pay_channel (reward_channel_of s.outcome) s else pure s

  abbrev pub new_spin : ℕ → ℕ → ℤ → ℕ → SpinOutcome × ℤ → ℕ → Spin
  new_spin i user stake session (outcome, payout) seed = record {
    id = i;
    user_id = user;
    session_id = session;
    stake_amount = stake;
    outcome = outcome;
    payout_amount = payout;
    random_seed = seed;
    reward_channel = none;
    voucher_id = none;
  }

  -- The rest of the transaction once the outcome is drawn, and once the stake is taken.
  abbrev pub save_and_pay : ℕ → ℤ → ℕ → SpinOutcome × ℤ → ℕ → SpinAction Spin
  save_and_pay user stake session drawn random = do
    i ← gets (λ db. env.spin_ids db.spins)
    s ← save_spin (new_spin i user stake session drawn (env.seed_digest random))
    pay_out s

  abbrev pub draw_and_pay : ℕ → ℤ → ℕ → ℕ → SpinAction Spin
  draw_and_pay user stake session random = do
    let drawn = generate_secure_outcome stake random
    raise_if (not (env.treasury_check drawn.1)) treasury_unavailable
    save_and_pay user stake session drawn random

  -- The transaction of `executeSpin` for a session that is new.
  unfoldable pub spin_in_transaction : ℕ → ℤ → ℕ → ℕ → SpinAction Spin
  spin_in_transaction user stake session random = do
    raise_if (ltb_ℤ stake minimum_stake_units) minimum_stake
    success ←
        in_wallet (
          Wallet.update_user_balance env.balance_ids user (pos 0 -ℤ stake) env.uuid
            (caller session))
    raise_if (not success) stake_refused
    draw_and_pay user stake session random

  -- What follows the commit: the interaction is recorded, and the event is published.
  abbrev pub after_commit : Spin → SpinAction SpinResult
  after_commit s = do
    modify (λ db. record db {
      limits = (RateLimit.record_interaction now s.user_id db.limits).1;
      events = db.events ++ settled_event s ∷ [];
    })
    pure (to_result s)

  abbrev pub session_of : ℕ → CreateSpin → ℕ
  session_of user dto = env.session_digest user now dto.client_seed dto.stake_amount

  -- A session that is known answers with its spin.
  abbrev pub execute_found : ℕ → CreateSpin → ℕ → Option Spin → SpinAction SpinResult
  execute_found user dto random (some s) = pure (to_result s)
  execute_found user dto random none =
      in_transaction (spin_in_transaction user dto.stake_amount (session_of user dto) random)
      >>= after_commit

  unfoldable pub execute_spin : ℕ → CreateSpin → ℕ → SpinAction SpinResult
  execute_spin user dto random db =
      execute_found user dto random (find_by_session (session_of user dto) db.spins) db

unfoldable pub get_user_spin_history : ℕ → ℕ → SpinDb → List Spin
get_user_spin_history user limit db =
    take limit (reverse (select_by (λ s. s.user_id == user) db.spins))

-- `getSpinStatistics`; an outcome that never came up has no count there, and 0 here.
pub record SpinStats : Type 0 where
  pub total_spins : ℕ
  pub total_staked : ℤ
  pub total_paid_out : ℤ
  pub outcome_counts : SpinOutcome → ℕ

abbrev pub outcome_number : SpinOutcome → ℕ
outcome_number jackpot = 0
outcome_number high_win = 1
outcome_number medium_win = 2
outcome_number small_win = 3
outcome_number no_win = 4

abbrev pub same_outcome : SpinOutcome → SpinOutcome → Bool
same_outcome o o' = outcome_number o == outcome_number o'

abbrev pub sum_by : (Spin → ℤ) → List Spin → ℤ
sum_by f [] = pos 0
sum_by f (s ∷ ss) = f s +ℤ sum_by f ss

unfoldable pub get_spin_statistics : SpinDb → SpinStats
get_spin_statistics db = record {
  total_spins = length db.spins;
  total_staked = sum_by (λ s. s.stake_amount) db.spins;
  total_paid_out = sum_by (λ s. s.payout_amount) db.spins;
  outcome_counts = λ o. count_by (λ s. same_outcome s.outcome o) db.spins;
}
