-- ===== src/Solvency/Proofs.antt =====
-- Merkle proofs: the loop that builds the tree, and the verification of its proofs.
use renaissance_api.Common.{
  ℕ, zero, suc, ◌+◌, ◌/◌, ◌≤◌, ◌<◌, ◌≡◌, refl, sym, ap, subst, ◌∙◌, ◌⊎◌, inl, inr, Bool-cases, ◌&&◌,
  true, false, none, some, List, [], ◌∷◌, arith, ltb, ◌==◌, eq→==, ==→eq, if◌then◌else◌, length,
  get_elem?,
}
use mathlib.Core.List.{map}
use renaissance_api.Solvency.{
  is_empty, first, last_layer, proof_from, sibling_index, with_sibling, get_proof, next_layer,
  layers_from, new_tree, fold_proof, verify_proof,
}

-- A layer below others.
last-below :
    (layer : List ℕ) (upper : List (List ℕ))
    → is_empty upper ≡ false
    → last_layer (layer ∷ upper) ≡ last_layer upper
last-below layer upper h = ap (λ c. if c then layer else last_layer upper) h

proof-below :
    (i : ℕ) (layer : List ℕ) (upper : List (List ℕ))
    → is_empty upper ≡ false
    → proof_from i (layer ∷ upper)
      ≡ with_sibling (get_elem? layer (sibling_index i)) (proof_from (i / 2) upper)
proof-below i layer upper h =
    ap
      (λ c.
        if c
        then []
        else with_sibling (get_elem? layer (sibling_index i)) (proof_from (i / 2) upper))
      h

module _ (hash_nodes : ℕ → ℕ → ℕ) where
  layers_nonempty : (n : ℕ) (layer : List ℕ) → is_empty (layers_from hash_nodes n layer) ≡ false
  unfolding layers_from
  layers_nonempty zero layer = refl
  layers_nonempty (suc n) layer = ground arith

  length-next_layer :
      (layer : List ℕ) → length (next_layer hash_nodes layer) ≡ (length layer + 1) / 2
  length-next_layer [] = refl
  length-next_layer (x ∷ []) = refl
  length-next_layer (x ∷ y ∷ more) = omega (arith, length-next_layer more)

  layers-step :
      (n x y : ℕ) (ys : List ℕ)
      → layers_from hash_nodes (suc n) (x ∷ y ∷ ys)
        ≡ (x ∷ y ∷ ys) ∷ layers_from hash_nodes n (hash_nodes x y ∷ next_layer hash_nodes ys)
  unfolding layers_from
  layers-step n x y ys =
      let more : ltb 1 (length (x ∷ y ∷ ys)) ≡ true = ground arith in
      ap
        (λ c.
          if c
          then (x ∷ y ∷ ys) ∷ layers_from hash_nodes n (hash_nodes x y ∷ next_layer hash_nodes ys)
          else (x ∷ y ∷ ys) ∷ [])
        more

  -- The loop ends with a layer of one node, and the proof of the first node leads to it.
  first_leads :
      (n x : ℕ) (xs : List ℕ)
      → length xs ≤ n
      → last_layer (layers_from hash_nodes n (x ∷ xs))
        ≡ fold_proof hash_nodes x (proof_from 0 (layers_from hash_nodes n (x ∷ xs))) ∷ []
  first_leads zero x [] h = unfold layers_from in refl
  first_leads zero x (y ∷ ys) h = absurd (omega arith)
  first_leads (suc n) x [] h = unfold layers_from in refl
  first_leads (suc n) x (y ∷ ys) h =
      let upper = layers_from hash_nodes n (hash_nodes x y ∷ next_layer hash_nodes ys) in
      let there = layers_nonempty n (hash_nodes x y ∷ next_layer hash_nodes ys) in
      let leads =
        first_leads n (hash_nodes x y) (next_layer hash_nodes ys)
          (omega (arith, length-next_layer ys)) in
      subst (λ l. last_layer l ≡ fold_proof hash_nodes x (proof_from 0 l) ∷ [])
        (sym (layers-step n x y ys))
        (last-below (x ∷ y ∷ ys) upper there
          ∙ leads
          ∙ ap (λ p. fold_proof hash_nodes x p ∷ []) (sym (proof-below 0 (x ∷ y ∷ ys) upper there)))

  -- The proof of the second node joins it to the first in the wrong order.
  second_leads :
      (n x y : ℕ) (ys : List ℕ)
      → length ys ≤ n
      → let layers = layers_from hash_nodes (suc n) (x ∷ y ∷ ys) in
        (p : List ℕ) × (last_layer layers ≡ fold_proof hash_nodes (hash_nodes x y) p ∷ [])
        × (proof_from 1 layers ≡ x ∷ p)
  second_leads n x y ys h =
      let next = next_layer hash_nodes ys in
      let upper = layers_from hash_nodes n (hash_nodes x y ∷ next) in
      let there = layers_nonempty n (hash_nodes x y ∷ next) in
      let step = layers-step n x y ys in
      (
        proof_from 0 upper,
        ap last_layer step
            ∙ last-below (x ∷ y ∷ ys) upper there
            ∙ first_leads n (hash_nodes x y) next (omega (arith, length-next_layer ys)),
        ap (proof_from 1) step ∙ proof-below 1 (x ∷ y ∷ ys) upper there,
      )

  -- Two pairs of nodes with one digest.
  abbrev pub Collision : Type 0
  Collision = (a b c d : ℕ) × (hash_nodes a b ≡ hash_nodes c d) × ¬ ((a ≡ c) × (b ≡ d))

  same_or_collision :
      (a b c d : ℕ) → hash_nodes a b ≡ hash_nodes c d → ((a ≡ c) × (b ≡ d)) ⊎ Collision
  same_or_collision a b c d e = elim (Bool-cases (a == c && b == d)) [
    | inl same ↦ inl (ground arith, ground arith)
    | inr other ↦ inr (a, b, c, d, e, λ same. ground arith)
  ]

  fold_proof-collision :
      (a b : ℕ) (p : List ℕ)
      → fold_proof hash_nodes a p ≡ fold_proof hash_nodes b p
      → (a ≡ b) ⊎ Collision
  fold_proof-collision a b [] e = inl e
  fold_proof-collision a b (s ∷ ss) e =
      elim (fold_proof-collision (hash_nodes a s) (hash_nodes b s) ss e) [
        | inl same ↦ elim (same_or_collision a s b s same) [ inl q ↦ inl q.0 | inr c ↦ inr c ]
        | inr c ↦ inr c
      ]

module _ (hash_leaf : ℕ → ℕ) (hash_nodes : ℕ → ℕ → ℕ) where
  proof_given :
      (i : ℕ) (texts : List ℕ)
      → i < length (map hash_leaf texts)
      → let tree = new_tree hash_leaf hash_nodes texts in
        get_proof i tree ≡ some (proof_from i tree.layers)
  unfolding new_tree get_proof
  proof_given i texts h =
      let inside : ltb i (length (map hash_leaf texts)) ≡ true = ground arith in
      ap (λ c. if c then some (proof_from i (new_tree hash_leaf hash_nodes texts).layers) else none)
        inside

  -- The building of the tree of one text or more ends with a layer of the root only, and the proof of
  -- the first leaf is given and verifies against the root.
  pub first_proof_verifies :
      (text : ℕ) (texts : List ℕ)
      → let tree = new_tree hash_leaf hash_nodes (text ∷ texts) in
        (root : ℕ) × (proof : List ℕ) × (last_layer tree.layers ≡ root ∷ [])
        × (tree.root ≡ some root)
        × (get_proof 0 tree ≡ some proof)
        × (verify_proof hash_leaf hash_nodes text proof root ≡ true)
  unfolding new_tree get_proof verify_proof
  first_proof_verifies text texts =
      let leads =
        first_leads hash_nodes (suc (length (map hash_leaf texts))) (hash_leaf text)
          (map hash_leaf texts) (omega arith) in
      (_, _, leads, ap first leads, proof_given 0 (text ∷ texts) (omega arith), eq→== _ _ refl)

  -- The proof of the second of two leaves or more is given, but if it verifies against the root then
  -- the first two texts have the same digest, or two pairs of nodes have.
  pub second_proof_collides :
      (a b : ℕ) (texts : List ℕ)
      → let tree = new_tree hash_leaf hash_nodes (a ∷ b ∷ texts) in
        (root : ℕ) × (proof : List ℕ) × (tree.root ≡ some root)
        × (get_proof 1 tree ≡ some proof)
        × (verify_proof hash_leaf hash_nodes b proof root ≡ true
            → (hash_leaf a ≡ hash_leaf b) ⊎ Collision hash_nodes)
  unfolding new_tree get_proof verify_proof
  second_proof_collides a b texts =
      let ha = hash_leaf a in
      let hb = hash_leaf b in
      let hs = map hash_leaf texts in
      let (p, leads, proof) = second_leads hash_nodes (suc (length hs)) ha hb hs (omega arith) in
      (
        fold_proof hash_nodes (hash_nodes ha hb) p,
        ha ∷ p,
        ap first leads,
        proof_given 1 (a ∷ b ∷ texts) (omega arith) ∙ ap some proof,
        λ verified.
            elim (fold_proof-collision hash_nodes (hash_nodes hb ha) (hash_nodes ha hb) p
              (==→eq _ _ verified)) [
                | inl same ↦ elim (same_or_collision hash_nodes hb ha ha hb same) [
                  | inl q ↦ inl q.1
                  | inr c ↦ inr c
                ]
                | inr c ↦ inr c
              ],
      )
