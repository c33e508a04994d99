-- ===== src/Solvency/Tests.antt =====
-- Trees of three leaves, a proof of reserves, and the theorems about them at concrete digests.
use renaissance_api.Common.{ℕ, ◌+◌, ◌*◌, ◌≡◌, refl, true, false, List, [], ◌∷◌, some}
use renaissance_api.Solvency.{last_layer, new_tree, layers_from, get_proof, verify_proof}
use renaissance_api.Common.Int.{ℤ, pos_part}
use renaissance_api.Solvency.Reserves.{SolvencyDb}
use renaissance_api.Solvency.Proofs.{first_proof_verifies}

abbrev leaf : ℕ → ℕ
leaf x = x + 1

abbrev nodes : ℕ → ℕ → ℕ
nodes a b = 3 * a + 10 * b

three_leaves :
    (new_tree leaf nodes (4 ∷ 7 ∷ 9 ∷ [])).layers
    ≡ (5 ∷ 8 ∷ 10 ∷ []) ∷ (95 ∷ 130 ∷ []) ∷ (1585 ∷ []) ∷ []
unfolding new_tree layers_from
three_leaves = refl

-- The last leaf of an odd layer has a proof that lacks its own digest.
last_fails :
    (get_proof 2 (new_tree leaf nodes (4 ∷ 7 ∷ 9 ∷ [])) ≡ some (95 ∷ []))
    × (verify_proof leaf nodes 9 (95 ∷ []) 1585 ≡ false)
unfolding get_proof new_tree layers_from verify_proof
last_fails = (refl, refl)

first_proof_verifies_example :
    let tree = new_tree leaf nodes (4 ∷ 7 ∷ 9 ∷ []) in
    (root : ℕ) × (proof : List ℕ) × (last_layer tree.layers ≡ root ∷ [])
    × (tree.root ≡ some root)
    × (get_proof 0 tree ≡ some proof)
    × (verify_proof leaf nodes 4 proof root ≡ true)
first_proof_verifies_example = first_proof_verifies leaf nodes 4 (7 ∷ 9 ∷ [])

abbrev balance_digest : ℕ → ℤ → ℕ
balance_digest user b = 1000 * user + pos_part b

abbrev no_proofs : SolvencyDb
no_proofs = record { bets = []; metrics = []; proofs = []; snapshots = [] }
