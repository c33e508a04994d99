-- ===== src/Solvency.antt =====
-- backend/src/solvency/merkle-tree.ts: `MerkleTree`. A text and a digest are numbers; the digest of a
-- text and of two digests written one after the other are the parameters `hash_leaf` and
-- `hash_nodes`.
pub mod Proofs
pub mod Reserves
pub mod Verification
mod Tests
use renaissance_api.Common.{
  ℕ, zero, suc, ◌+◌, ◌-◌, ◌/◌, ◌%◌, Bool, true, false, Option, none, some, List, [], ◌∷◌, ltb, ◌==◌,
  if◌then◌else◌, length, get_elem?,
}
use mathlib.Core.List.{map}

abbrev pub is_empty {ℓ} : {A : Type ℓ} → List A → Bool
is_empty [] = true
is_empty (x ∷ xs) = false

abbrev pub first {ℓ} : {A : Type ℓ} → List A → Option A
first [] = none
first (x ∷ xs) = some x

pub record MerkleTree : Type 0 where
  pub leaves : List ℕ
  pub layers : List (List ℕ)
  pub root : Option ℕ

abbrev pub last_layer : List (List ℕ) → List ℕ
last_layer [] = []
last_layer (layer ∷ upper) = if is_empty upper then layer else last_layer upper

abbrev pub sibling_index : ℕ → ℕ
sibling_index i = if i % 2 == 0 then i + 1 else i - 1

abbrev pub with_sibling : Option ℕ → List ℕ → List ℕ
with_sibling none rest = rest
with_sibling (some s) rest = s ∷ rest

-- The loop of `getProof` over the layers but the last; a sibling out of range is skipped.
abbrev pub proof_from : ℕ → List (List ℕ) → List ℕ
proof_from i [] = []
proof_from i (layer ∷ upper) =
    let rest = proof_from (i / 2) upper in
    if is_empty upper then [] else with_sibling (get_elem? layer (sibling_index i)) rest

-- `none` where the index is invalid.
unfoldable pub get_proof : ℕ → MerkleTree → Option (List ℕ)
get_proof i tree = if ltb i (length tree.leaves) then some (proof_from i tree.layers) else none

pub record TreeStats : Type 0 where
  pub leaf_count : ℕ
  pub depth : ℕ
  pub root : Option ℕ

unfoldable pub get_stats : MerkleTree → TreeStats
get_stats tree = record {
  leaf_count = length tree.leaves;
  depth = length tree.layers;
  root = tree.root;
}

module _ (hash_nodes : ℕ → ℕ → ℕ) where
  -- The last node of an odd layer is hashed with itself.
  abbrev pub next_layer : List ℕ → List ℕ
  next_layer [] = []
  next_layer (left ∷ []) = hash_nodes left left ∷ []
  next_layer (left ∷ right ∷ more) = hash_nodes left right ∷ next_layer more

  -- The loop of `buildTree` from a layer on, on fuel.
  unfoldable pub layers_from : ℕ → List ℕ → List (List ℕ)
  layers_from zero layer = layer ∷ []
  layers_from (suc fuel) layer =
      let rest = layers_from fuel (next_layer layer) in
      if ltb 1 (length layer) then layer ∷ rest else layer ∷ []

  -- The loop of `verifyProof` from a digest on.
  abbrev pub fold_proof : ℕ → List ℕ → ℕ
  fold_proof h [] = h
  fold_proof h (s ∷ ss) = fold_proof (hash_nodes h s) ss

module _ (hash_leaf : ℕ → ℕ) (hash_nodes : ℕ → ℕ → ℕ) where
  -- The constructor. The fuel is the number of leaves; without leaves there are no layers.
  unfoldable pub new_tree : List ℕ → MerkleTree
  unfolding layers_from
  new_tree texts =
      let leaves = map hash_leaf texts in
      let layers = if is_empty leaves then [] else layers_from hash_nodes (length leaves) leaves in
      record { leaves = leaves; layers = layers; root = first (last_layer layers) }

  unfoldable pub verify_proof : ℕ → List ℕ → ℕ → Bool
  verify_proof text proof root = fold_proof hash_nodes (hash_leaf text) proof == root
