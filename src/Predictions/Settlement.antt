-- ===== src/Predictions/Settlement.antt =====
-- The settlement of a match on every branch, its repetition, and the payments.
use renaissance_api.Common.{
  ℕ, ◌+◌, ◌≡◌, Bool, true, false, Option, none, some, List, [], ◌∷◌, ◌++◌, map, if◌then◌else◌,
  select_by, UniqueBy, length, ◌⊎◌,
}
use renaissance_api.Common.Action.{Result, ok, err}
use renaissance_api.Predictions.{
  Prediction, RewardCalculation, Db, Outcome, Audit, Match, Stellar, Error, find_prediction,
  find_match, is_open, decided, reward_of, scores_required, match_not_found, already_settled,
  outcome_of, new_audit,
}
use renaissance_api.Predictions.Rows.{pending_of, sum_for, Counts}

-- What a settlement of the match `m` of the id `i` by `status` does.
pub record IsSettlement (now i : ℕ) (status : Outcome) (force : Bool) (m : Match) (db : Db)
    (a : Audit) (db' : Db) : Type 0 where
  -- The predictions that are open, and only those, get their status and reward.
  pub predictions :
      (j : ℕ) (p : Prediction)
      → find_prediction j db.predictions ≡ some p
      → find_prediction j db'.predictions
        ≡ some (if is_open i p then decided now (reward_of force status p) p else p)
  -- Each user has the rewards to come.
  pub balances :
      (u : ℕ)
      → pending_of u db'.balances
        ≡ pending_of u db.balances
          + sum_for u (map (reward_of force status) (select_by (is_open i) db.predictions))
  pub is_over : (m' : Match) × (find_match i db'.matches ≡ some m') × (m'.is_settled ≡ true)
  -- The audit counts the winners, the losers and the refunds among the open predictions, and sums what
  -- they win and get back.
  pub counts :
      Counts force status
        (select_by (is_open i) db.predictions)
        (new_audit i now (length (select_by (is_open i) db.predictions)))
        a
  -- No payment is ever sent, since no wallet is found.
  pub unpaid : a.tx_hashes ≡ []

module _ (stellar : Stellar) where
  module _ (now i : ℕ) (status : Outcome) (force : Bool) (m : Match) (db : Db)
      (unique : UniqueBy (λ p. p.id) db.predictions)
      (stored : find_match i db.matches ≡ some m) where
    abbrev rewards : List Prediction → List RewardCalculation
    rewards = map (reward_of force status)

    abbrev open_rows : List Prediction
    open_rows = select_by (is_open i) db.predictions

-- The answers of the route: it is refused and nothing changes, where a score is missing, the match is
-- not stored, or it is settled already; else it is a settlement, whose audit is kept.
abbrev pub Settles : ℕ → ℕ → Option ℕ → Option ℕ → Bool → Db → Result Error Audit × Db → Type 0
Settles now i home away force db (err scores_required, db') =
    (db' ≡ db) × ((home ≡ none) ⊎ (away ≡ none))
Settles now i home away force db (err match_not_found, db') =
    (db' ≡ db) × (find_match i db.matches ≡ none)
Settles now i home away force db (err already_settled, db') =
    (db' ≡ db) × ((m : Match) × (find_match i db.matches ≡ some m) × (m.is_settled ≡ true))
Settles now i home away force db (err _, db') = ⊥
Settles now i home away force db (ok a, db') =
    (m : Match) × (h : ℕ) × (w : ℕ) × (find_match i db.matches ≡ some m)
    × (m.is_settled ≡ false)
    × (home ≡ some h)
    × (away ≡ some w)
    × IsSettlement now i (outcome_of force h w) force m db a db'
    × (db'.audits ≡ db.audits ++ a ∷ [])
