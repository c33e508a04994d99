-- ===== src/Predictions/Rows.antt =====
-- The rows that a settlement leaves.
use renaissance_api.Common.{
  ℕ, ◌+◌, ◌≡◌, refl, sym, ap, ◌∙◌, Bool, true, false, not, ◌&&◌, ◌*◌, ◌/◌, count_by, Option, none,
  some, List, [], ◌∷◌, map, arith, ◌==◌, if◌then◌else◌, select_by, UniqueBy, keep, Bool-cases, inl,
  inr,
}
use renaissance_api.Predictions.{
  Prediction, RewardCalculation, UserBalance, Db, Outcome, Audit, Match, find_prediction,
  find_match, update_prediction, decided, apply_reward, apply_rewards, upsert_balance, reward_of,
  categorise, count_reward, same_outcome, update_match, refund_rows, refund_of,
}

abbrev on_row : ℕ → RewardCalculation → Option Prediction → Option Prediction
on_row now r none = none
on_row now r (some p) = some (decided now r p)

-- A row of the id `i` after the rewards, one by one.
abbrev decided_by : ℕ → ℕ → List RewardCalculation → Option Prediction → Option Prediction
decided_by now i [] o = o
decided_by now i (r ∷ rs) o =
    decided_by now i rs (if r.prediction_id == i then on_row now r o else o)

find-update_prediction :
    (now i j : ℕ) (r : RewardCalculation) (rows : List Prediction)
    → find_prediction i (update_prediction j (decided now r) rows)
      ≡ (if j == i then on_row now r (find_prediction i rows) else find_prediction i rows)
find-update_prediction now i j r [] = ground arith
find-update_prediction now i j r (p ∷ ps) = ground (arith, find-update_prediction now i j r ps)

find-apply_rewards :
    (now i : ℕ) (rs : List RewardCalculation) (db : Db)
    → find_prediction i (apply_rewards now rs db).predictions
      ≡ decided_by now i rs (find_prediction i db.predictions)
unfolding apply_rewards
find-apply_rewards now i [] db = refl
find-apply_rewards now i (r ∷ rs) db =
    find-apply_rewards now i rs (apply_reward now r db)
    ∙ ap (decided_by now i rs) (find-update_prediction now i r.prediction_id r db.predictions)

module _ (now : ℕ) (force : Bool) (status : Outcome) where
  abbrev rewards_of : List Prediction → List RewardCalculation
  rewards_of = map (reward_of force status)

  id-reward_of : (p : Prediction) → (reward_of force status p).prediction_id ≡ p.id
  unfolding reward_of
  id-reward_of p = ground arith

  decided_by-none :
      (i : ℕ) (ps : List Prediction) (o : Option Prediction)
      → find_prediction i ps ≡ none
      → decided_by now i (rewards_of ps) o ≡ o
  decided_by-none i [] o h = refl
  decided_by-none i (p ∷ ps) o h = ground (arith, id-reward_of p, decided_by-none i ps o)

  decided_by-some :
      (i : ℕ) (p q : Prediction) (ps : List Prediction)
      → UniqueBy (λ x. x.id) ps
      → find_prediction i ps ≡ some p
      → decided_by now i (rewards_of ps) (some q) ≡ some (decided now (reward_of force status p) q)
  decided_by-some i p q [] u h = cc
  decided_by-some i p q (x ∷ ps) u h = ground (
    arith,
    id-reward_of x,
    u.0,
    decided_by-none i ps (some (decided now (reward_of force status x) q)),
    decided_by-some i p q ps u.1,
  )

-- With distinct ids, a row that is found among those that pass a test is a row that passes it.
find-select_by :
    (test : Prediction → Bool) (i : ℕ) (rows : List Prediction)
    → UniqueBy (λ x. x.id) rows
    → find_prediction i (select_by test rows) ≡ keep (λ x. x.id) test (find_prediction i rows)
find-select_by test i [] u = refl
find-select_by test i (p ∷ ps) u = ground (arith, find-select_by test i ps u.1, u.0)

select_by-UniqueBy :
    (test : Prediction → Bool) (rows : List Prediction)
    → UniqueBy (λ x. x.id) rows
    → UniqueBy (λ x. x.id) (select_by test rows)
select_by-UniqueBy test [] u = tt
select_by-UniqueBy test (p ∷ ps) u = elim (Bool-cases (test p)) [
  | inl e ↦ rw e (
    find-select_by test p.id ps u.1 ∙ ap (keep (λ x. x.id) test) u.0,
    select_by-UniqueBy test ps u.1,
  )
  | inr e ↦ rw e (select_by-UniqueBy test ps u.1)
]

-- The prediction `p` of a table with distinct ids after the rewards of those that pass a test.
pub prediction_after :
    (now : ℕ) (force : Bool) (status : Outcome) (test : Prediction → Bool) (i : ℕ) (p : Prediction)
    (db : Db)
    → UniqueBy (λ x. x.id) db.predictions
    → find_prediction i db.predictions ≡ some p
    → find_prediction i
        (apply_rewards now
          (map (reward_of force status) (select_by test db.predictions))
          db).predictions
      ≡ some (if test p then decided now (reward_of force status p) p else p)
prediction_after now force status test i p db u here =
    let open_rows = select_by test db.predictions in
    let after =
      find-apply_rewards now i (map (reward_of force status) open_rows) db
      ∙ ap (decided_by now i (map (reward_of force status) open_rows)) here in
    let found = find-select_by test i db.predictions u ∙ ap (keep (λ x. x.id) test) here in
    elim (Bool-cases (test p)) [
      | inl e ↦
          after
          ∙ decided_by-some now force status i p p open_rows
              (select_by-UniqueBy test db.predictions u)
              (found ∙ ap (λ c. if c then some p else none) e)
          ∙ ap some (ap (λ c. if c then decided now (reward_of force status p) p else p) (sym e))
      | inr e ↦
          after
          ∙ decided_by-none now force status i open_rows (some p)
              (found ∙ ap (λ c. if c then some p else none) e)
          ∙ ap some (ap (λ c. if c then decided now (reward_of force status p) p else p) (sym e))
    ]

-- What a user has to come, and what a list of rewards brings a user.
abbrev pub pending_of : ℕ → List UserBalance → ℕ
pending_of u [] = 0
pending_of u (b ∷ bs) = if b.user_id == u then b.pending_rewards else pending_of u bs

abbrev pub sum_for : ℕ → List RewardCalculation → ℕ
sum_for u [] = 0
sum_for u (r ∷ rs) = (if r.user_id == u then r.reward_amount else 0) + sum_for u rs

pending_of-upsert :
    (u v amount : ℕ) (bs : List UserBalance)
    → pending_of u (upsert_balance v amount bs) ≡ pending_of u bs + (if v == u then amount else 0)
pending_of-upsert u v amount [] = ground arith
pending_of-upsert u v amount (b ∷ bs) = ground (arith, pending_of-upsert u v amount bs)

pub pending_of-apply_rewards :
    (now u : ℕ) (rs : List RewardCalculation) (db : Db)
    → pending_of u (apply_rewards now rs db).balances ≡ pending_of u db.balances + sum_for u rs
unfolding apply_rewards
pending_of-apply_rewards now u [] db = omega arith
pending_of-apply_rewards now u (r ∷ rs) db = ground (
  arith,
  pending_of-apply_rewards now u rs (apply_reward now r db),
  pending_of-upsert u r.user_id r.reward_amount db.balances,
)

pub matches-apply_rewards :
    (now : ℕ) (rs : List RewardCalculation) (db : Db)
    → (apply_rewards now rs db).matches ≡ db.matches
unfolding apply_rewards
matches-apply_rewards now [] db = refl
matches-apply_rewards now (r ∷ rs) db = matches-apply_rewards now rs (apply_reward now r db)

pub find-update_match :
    (i j : ℕ) (change : Match → Match) (m : Match) (ms : List Match)
    → ((x : Match) → (change x).id ≡ x.id)
    → find_match i ms ≡ some m
    → find_match i (update_match j change ms) ≡ some (if j == i then change m else m)
find-update_match i j change m [] same here = cc
find-update_match i j change m (x ∷ xs) same here =
    ground (arith, same x, find-update_match i j change m xs same)

-- Whether a prediction wins and whether it loses, by its outcome; where all stakes are refunded, none
-- does.
abbrev pub wins : Bool → Outcome → Prediction → Bool
wins force status p = not force && same_outcome p.predicted_outcome status

abbrev pub loses : Bool → Outcome → Prediction → Bool
loses force status p = not force && not (same_outcome p.predicted_outcome status)

abbrev pub sum_of : (Prediction → ℕ) → List Prediction → ℕ
sum_of f [] = 0
sum_of f (p ∷ ps) = f p + sum_of f ps

-- What a prediction wins, and what it gets back.
abbrev pub winnings : Bool → Outcome → Prediction → ℕ
winnings force status p =
    if wins force status p then p.stake_amount * p.reward_multiplier / 10000 else 0

abbrev pub stake_back : Bool → Prediction → ℕ
stake_back force p = if force then p.stake_amount else 0

-- The audit `a'` counts the predictions `ps` on top of `a`.
pub record Counts (force : Bool) (status : Outcome) (ps : List Prediction) (a a' : Audit)
    : Type 0 where
  pub winners : a'.winners ≡ a.winners + count_by (wins force status) ps
  pub losers : a'.losers ≡ a.losers + count_by (loses force status) ps
  pub refunds : a'.refunds ≡ a.refunds + count_by (λ p. force) ps
  pub rewarded : a'.total_rewarded ≡ a.total_rewarded + sum_of (winnings force status) ps
  pub refunded : a'.total_refunded ≡ a.total_refunded + sum_of (stake_back force) ps
  pub total : a'.total_predictions ≡ a.total_predictions

counted :
    (force : Bool) (status : Outcome) (p : Prediction) (ps : List Prediction) (a a' : Audit)
    → Counts force status ps (count_reward a (reward_of force status p)) a'
    → Counts force status (p ∷ ps) a a'
unfolding reward_of
counted true status p ps a a' c = record {
  winners = omega (arith, c.winners);
  losers = omega (arith, c.losers);
  refunds = omega (arith, c.refunds);
  rewarded = omega (arith, c.rewarded);
  refunded = omega (arith, c.refunded);
  total = c.total;
}
counted false status p ps a a' c = elim (Bool-cases (same_outcome p.predicted_outcome status)) [
  | inl e ↦ record {
    winners = ground (arith, e, c.winners);
    losers = ground (arith, e, c.losers);
    refunds = ground (arith, e, c.refunds);
    rewarded = ground (arith, e, c.rewarded);
    refunded = ground (arith, e, c.refunded);
    total = ground (arith, e, c.total);
  }
  | inr e ↦ record {
    winners = ground (arith, e, c.winners);
    losers = ground (arith, e, c.losers);
    refunds = ground (arith, e, c.refunds);
    rewarded = ground (arith, e, c.rewarded);
    refunded = ground (arith, e, c.refunded);
    total = ground (arith, e, c.total);
  }
]

-- The categories of the predictions, and the numbers of the audit.
pub categorise_lem :
    (force : Bool) (status : Outcome) (ps : List Prediction) (a : Audit)
    → let (rs, a') = categorise force status ps a in
      (rs ≡ map (reward_of force status) ps) × Counts force status ps a a'
unfolding categorise
categorise_lem force status [] a = (
  refl,
  record {
    winners = omega arith;
    losers = omega arith;
    refunds = omega arith;
    rewarded = omega arith;
    refunded = omega arith;
    total = refl;
  },
)
categorise_lem force status (p ∷ ps) a =
    let (same, counts) =
      categorise_lem force status ps (count_reward a (reward_of force status p)) in
    (
      ap (λ rs. reward_of force status p ∷ rs) same,
      counted force status p ps a
          (categorise force status ps (count_reward a (reward_of force status p))).1 counts,
    )

-- The loop over the refunds is that over rewards.
refund_rows-apply_rewards :
    (now : ℕ) (ps : List Prediction) (db : Db)
    → refund_rows now ps db.predictions
      ≡ (apply_rewards now (map (reward_of true Outcome.draw) ps) db).predictions
unfolding apply_rewards reward_of
refund_rows-apply_rewards now [] db = refl
refund_rows-apply_rewards now (p ∷ ps) db =
    refund_rows-apply_rewards now ps (apply_reward now (refund_of p) db)

pub refunded_after :
    (now : ℕ) (test : Prediction → Bool) (i : ℕ) (p : Prediction) (rows : List Prediction)
    → UniqueBy (λ x. x.id) rows
    → find_prediction i rows ≡ some p
    → find_prediction i (refund_rows now (select_by test rows) rows)
      ≡ some (if test p then decided now (refund_of p) p else p)
unfolding reward_of
refunded_after now test i p rows unique here =
    let db : Db = record { matches = []; predictions = rows; balances = []; audits = [] } in
    ap (find_prediction i) (refund_rows-apply_rewards now (select_by test rows) db)
    ∙ prediction_after now true Outcome.draw test i p db unique here
