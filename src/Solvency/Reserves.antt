-- ===== src/Solvency/Reserves.antt =====
-- backend/src/solvency/solvency.service.ts: `SolvencyService`. The balances that the wallet table gives,
-- the digest of a user's balance, and the contract that publishes a root are parameters.
use renaissance_api.Common.{
  ℕ, suc, ◌+◌, ◌*◌, ◌%◌, ◌^◌, Bool, true, false, not, Option, none, some, List, [], ◌∷◌, ◌++◌, ◌&&◌,
  ltb, ◌==◌, if◌then◌else◌, find_by, save_by, select_by, take,
}
use mathlib.Core.List.{reverse}
use renaissance_api.Common.Int.{ℤ, pos, no_decimals, ◌+ℤ◌, ltb_ℤ, pos_part, neg_part}
use renaissance_api.Common.Action.{
  Action, ok, ◌>>=◌, ◌>>◌, pure, raise, gets, or_raise, raise_if, modify, in_transaction,
}
use renaissance_api.Bets.{Bet, BetStatus}
use renaissance_api.Solvency.{MerkleTree, TreeStats, new_tree, get_proof, verify_proof, get_stats}

-- A quotient.
pub record Ratio : Type 0 where
  pub over : ℤ
  pub under : ℤ

pub data ProofStatus : Type 0 where
  generated published failed : ProofStatus

pub record SolvencyMetrics : Type 0 where
  pub total_locked_bets : ℤ
  pub max_potential_payout : ℤ
  pub treasury_balance : ℤ
  pub coverage_ratio : Ratio
  pub spin_pool_liabilities : ℤ
  pub spin_pool_solvency : Ratio
  pub created_at : ℕ

pub record SolvencyProof : Type 0 where
  pub id : ℕ
  pub proof_timestamp : ℕ
  pub merkle_root : ℕ
  pub total_liabilities : ℤ
  pub total_reserves : ℤ
  pub solvency_ratio : Ratio
  pub status : ProofStatus
  pub transaction_hash : Option ℕ
  pub tree_stats : TreeStats
  pub published_at : Option ℕ

-- The user is `user_` and the index of the balance.
pub record UserBalanceSnapshot : Type 0 where
  pub user_id : ℕ
  pub balance : ℤ
  pub balance_hash : ℕ
  pub proof_id : ℕ
  pub leaf_index : ℕ
  pub merkle_proof : Option (List ℕ)

pub record SolvencyDb : Type 0 where
  pub bets : List Bet
  pub metrics : List SolvencyMetrics
  pub proofs : List SolvencyProof
  pub snapshots : List UserBalanceSnapshot

pub data Error : Type 0 where
  no_metrics no_root invalid_user_id publication_failed proof_not_found snapshot_not_found : Error

abbrev pub SolvencyAction : Type 0 → Type 0
SolvencyAction = Action Error SolvencyDb

-- `LOCKED` is the status of no bet.
abbrev pub is_locked : BetStatus → Bool
is_locked s = false

abbrev pub sum_locked : (Bet → ℤ) → List Bet → ℤ
sum_locked f [] = pos 0
sum_locked f (b ∷ bs) = if is_locked b.status then f b +ℤ sum_locked f bs else sum_locked f bs

abbrev pub ratio_or_one : ℤ → ℤ → Ratio
ratio_or_one over under =
    if ltb_ℤ (pos 0) under
    then record { over = over; under = under }
    else record { over = pos 1; under = pos 1 }

abbrev pub metrics_of : ℕ → ℤ → ℤ → List Bet → SolvencyMetrics
metrics_of now treasury spin_pool bets =
    let locked = sum_locked (λ b. b.stake_amount) bets in
    let payout = sum_locked (λ b. b.potential_payout) bets in
    record {
      total_locked_bets = locked;
      max_potential_payout = payout;
      treasury_balance = treasury;
      coverage_ratio = ratio_or_one treasury payout;
      spin_pool_liabilities = spin_pool;
      spin_pool_solvency = ratio_or_one treasury spin_pool;
      created_at = now;
    }

unfoldable pub compute_and_store_metrics : ℕ → ℤ → ℤ → SolvencyAction SolvencyMetrics
compute_and_store_metrics now treasury spin_pool = do
  m ← gets (λ db. metrics_of now treasury spin_pool db.bets)
  modify (λ db. record db { metrics = m ∷ db.metrics })
  pure m

-- The newest stands first.
unfoldable pub get_latest_metrics : SolvencyAction SolvencyMetrics
get_latest_metrics = do or_raise (← gets (λ db. find_by (λ m. true) db.metrics)) no_metrics

unfoldable pub get_metrics_history : ℕ → ℕ → SolvencyDb → List SolvencyMetrics
get_metrics_history now days db =
    select_by (λ m. ltb now (m.created_at + days * 86400000)) db.metrics

abbrev pub sum_balances : List ℤ → ℤ
sum_balances [] = pos 0
sum_balances (b ∷ bs) = b +ℤ sum_balances bs

-- `getTreasuryReserves`, a placeholder in the code.
abbrev pub get_treasury_reserves : ℤ
get_treasury_reserves = pos 0

-- `BigInt` throws at an amount that is no whole number.
abbrev pub is_whole : ℤ → Bool
is_whole a = (pos_part a + neg_part a) % 10 ^ 8 == 0

abbrev pub find_proof : ℕ → List SolvencyProof → Option SolvencyProof
find_proof i = find_by λ p. p.id == i

abbrev pub find_snapshot : ℕ → ℕ → List UserBalanceSnapshot → Option UserBalanceSnapshot
find_snapshot user proof = find_by λ s. s.user_id == user && s.proof_id == proof

-- The row, whose amounts are whole numbers; that its quotient has six decimals is left out.
abbrev pub stored_proof : SolvencyProof → SolvencyProof
stored_proof p = record p {
  total_liabilities = no_decimals p.total_liabilities;
  total_reserves = no_decimals p.total_reserves;
}

abbrev pub save_proof : SolvencyProof → SolvencyAction SolvencyProof
save_proof p db = (ok p, record db { proofs = save_by (λ x. x.id) (stored_proof p) db.proofs })

pub record UserProof : Type 0 where
  pub verified : Bool
  pub balance : ℤ
  pub merkle_root : ℕ
  pub proof : List ℕ

abbrev pub proof_or_nil : Option (List ℕ) → List ℕ
proof_or_nil none = []
proof_or_nil (some p) = p

-- The column of the user is a uuid, which no text `user_0`, `user_1` and so on is: the database refuses
-- the row.
abbrev pub is_uuid_text : ℕ → Bool
is_uuid_text index = false

abbrev pub have_uuids : List UserBalanceSnapshot → Bool
have_uuids [] = true
have_uuids (s ∷ ss) = is_uuid_text s.user_id && have_uuids ss

-- The contract's answer to a root, the liabilities and the reserves.
abbrev pub publish_answer : ℕ → SolvencyProof → Option ℕ → SolvencyAction SolvencyProof
publish_answer now p (some hash) =
    save_proof
      (record p { status = published; transaction_hash = some hash; published_at = some now })
publish_answer now p none = save_proof (record p { status = failed }) >> raise publication_failed

module _ (publish_root : ℕ → ℤ → ℤ → Option ℕ) where
  abbrev pub publish_proof : ℕ → Bool → SolvencyProof → SolvencyAction SolvencyProof
  publish_proof now false p = pure p
  publish_proof now true p = publish_answer now p (
      if is_whole p.total_liabilities
      then publish_root p.merkle_root p.total_liabilities p.total_reserves
      else none)

module _ (hash_balance : ℕ → ℤ → ℕ) where
  -- The texts of the leaves, and the snapshots, of the balances from an index on.
  abbrev pub leaf_texts : ℕ → List ℤ → List ℕ
  leaf_texts i [] = []
  leaf_texts i (b ∷ bs) = hash_balance i b ∷ leaf_texts (suc i) bs

  abbrev pub snapshots_of : MerkleTree → ℕ → ℕ → List ℤ → List UserBalanceSnapshot
  snapshots_of tree proof i [] = []
  snapshots_of tree proof i (b ∷ bs) =
      record {
        user_id = i;
        balance = no_decimals b;
        balance_hash = hash_balance i b;
        proof_id = proof;
        leaf_index = i;
        merkle_proof = get_proof i tree;
      }
      ∷ snapshots_of tree proof (suc i) bs

module _ (hash_leaf : ℕ → ℕ) (hash_nodes : ℕ → ℕ → ℕ) (hash_balance : ℕ → ℤ → ℕ) where
  abbrev pub tree_of : List ℤ → MerkleTree
  tree_of balances = new_tree hash_leaf hash_nodes (leaf_texts hash_balance 0 balances)

  abbrev pub store_balance_snapshots : List ℤ → ℕ → SolvencyAction (Unit {0})
  store_balance_snapshots balances proof = do
    let rows = snapshots_of hash_balance (tree_of balances) proof 0 balances
    raise_if (not (have_uuids rows)) invalid_user_id
    modify λ db. record db { snapshots = db.snapshots ++ rows }

  abbrev pub new_proof : ℕ → ℕ → ℕ → List ℤ → SolvencyProof
  new_proof i now root balances = record {
    id = i;
    proof_timestamp = now;
    merkle_root = root;
    total_liabilities = sum_balances balances;
    total_reserves = get_treasury_reserves;
    solvency_ratio = ratio_or_one get_treasury_reserves (sum_balances balances);
    status = generated;
    transaction_hash = none;
    tree_stats = get_stats (tree_of balances);
    published_at = none;
  }

  module _ (publish_root : ℕ → ℤ → ℤ → Option ℕ) where
    -- The proof of a tree with the root.
    abbrev pub store_proof :
        (List SolvencyProof → ℕ) → ℕ → List ℤ → Bool → ℕ → SolvencyAction SolvencyProof
    store_proof new_id now balances to_chain root = do
      i ← gets (λ db. new_id db.proofs)
      p ← save_proof (new_proof i now root balances)
      store_balance_snapshots balances i
      publish_proof publish_root now to_chain p

    unfoldable pub generate_proof_of_reserves :
        (List SolvencyProof → ℕ) → ℕ → List ℤ → Bool → SolvencyAction SolvencyProof
    generate_proof_of_reserves new_id now balances to_chain = in_transaction do
      root ← or_raise (tree_of balances).root no_root
      store_proof new_id now balances to_chain root

-- `getHistoricalProofs`, the newest first.
unfoldable pub get_historical_proofs : ℕ → SolvencyDb → List SolvencyProof
get_historical_proofs limit db = take limit (reverse db.proofs)

module _ (hash_leaf : ℕ → ℕ) (hash_nodes : ℕ → ℕ → ℕ) where
  abbrev pub verify_snapshot : SolvencyProof → UserBalanceSnapshot → UserProof
  verify_snapshot p s = record {
    verified =
        verify_proof hash_leaf hash_nodes s.balance_hash (proof_or_nil s.merkle_proof)
          p.merkle_root;
    balance = s.balance;
    merkle_root = p.merkle_root;
    proof = proof_or_nil s.merkle_proof;
  }

  unfoldable pub verify_user_proof : ℕ → ℕ → SolvencyAction UserProof
  verify_user_proof user i = do
    p ← or_raise (← gets (λ db. find_proof i db.proofs)) proof_not_found
    s ← or_raise (← gets (λ db. find_snapshot user i db.snapshots)) snapshot_not_found
    pure (verify_snapshot p s)
