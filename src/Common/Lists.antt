-- ===== src/Common/Lists.antt =====
-- Rows of a table as a list: the library's list functions over the native numbers, and the
-- repository calls `findOne`, `count`, `find` and `save`.
use Prim.Native.Nat.{ℕ, zero, suc, ◌+◌}
use mathlib.Core.Path.{◌≡◌, refl, sym, ap, subst, ◌∙◌}
use mathlib.Core.Logic.{inl, inr}
use mathlib.Core.Bool.{Bool, true, ◌&&◌}
use mathlib.Core.Option.{Option, none, some}
use mathlib.Core.List.{List, [], ◌∷◌, ◌++◌}
use native.Mathlib.Omega.{arith}
use renaissance_api.Common.Tests.{if◌then◌else◌, ◌==◌, Bool-cases}

module _ {ℓ} {A : Type ℓ} where
  abbrev pub length : List A → ℕ
  length [] = 0
  length (x ∷ xs) = suc (length xs)

  abbrev pub take : ℕ → List A → List A
  take zero xs = []
  take (suc n) [] = []
  take (suc n) (x ∷ xs) = x ∷ take n xs

  abbrev pub drop : ℕ → List A → List A
  drop zero xs = xs
  drop (suc n) [] = []
  drop (suc n) (x ∷ xs) = drop n xs

  abbrev pub get_elem? : List A → ℕ → Option A
  get_elem? [] n = none
  get_elem? (x ∷ xs) zero = some x
  get_elem? (x ∷ xs) (suc n) = get_elem? xs n

  -- `findOne`: the first row that passes the test.
  abbrev pub find_by : (A → Bool) → List A → Option A
  find_by p [] = none
  find_by p (x ∷ xs) = if p x then some x else find_by p xs

  -- `find`: every row that passes the test, in order.
  abbrev pub select_by : (A → Bool) → List A → List A
  select_by p [] = []
  select_by p (x ∷ xs) = if p x then x ∷ select_by p xs else select_by p xs

  -- `count`
  abbrev pub count_by : (A → Bool) → List A → ℕ
  count_by p [] = 0
  count_by p (x ∷ xs) = (if p x then 1 else 0) + count_by p xs

  -- `save`: the row with the same key is replaced, a new row goes to the end.
  abbrev pub save_by : (A → ℕ) → A → List A → List A
  save_by key row [] = row ∷ []
  save_by key row (x ∷ xs) = if key x == key row then row ∷ xs else x ∷ save_by key row xs

  -- No two rows have the same key.
  abbrev pub UniqueBy : (A → ℕ) → List A → Type ℓ
  UniqueBy key [] = Unit
  UniqueBy key (x ∷ xs) = (find_by (λ y. key y == key x) xs ≡ none) × UniqueBy key xs

  abbrev pub All {κ} : (A → Type κ) → List A → Type κ
  All P [] = Unit
  All P (x ∷ xs) = P x × All P xs

none-ne-some {ℓ} : {A : Type ℓ} (a : A) → none ≡ some a → ⊥
none-ne-some a h = cc

module _ {ℓ} {A : Type ℓ} where
  pub length-append : (xs ys : List A) → length (xs ++ ys) ≡ length xs + length ys
  length-append [] ys = omega arith
  length-append (x ∷ xs) ys = omega (arith, length-append xs ys)

  -- What `find_by` returns passes the test.
  pub find_by_sound : (p : A → Bool) (xs : List A) (a : A) → find_by p xs ≡ some a → p a ≡ true
  find_by_sound p [] a h = cc
  find_by_sound p (x ∷ xs) a h = ground (arith, find_by_sound p xs a)

  pub count_by-eq-length-select_by :
      (p : A → Bool) (xs : List A) → count_by p xs ≡ length (select_by p xs)
  count_by-eq-length-select_by p [] = refl
  count_by-eq-length-select_by p (x ∷ xs) = ground (arith, count_by-eq-length-select_by p xs)

module _ {ℓ} {A : Type ℓ} (key : A → ℕ) where
  -- The row that a key finds after a `save`.
  pub find_by-save_by :
      (row : A) (i : ℕ) (xs : List A)
      → find_by (λ x. key x == i) (save_by key row xs)
        ≡ (if key row == i then some row else find_by (λ x. key x == i) xs)
  find_by-save_by row i [] = refl
  find_by-save_by row i (x ∷ xs) = ground (arith, find_by-save_by row i xs)

  -- The saved keys are distinct when the keys were.
  pub save_by-UniqueBy :
      (row : A) (xs : List A) → UniqueBy key xs → UniqueBy key (save_by key row xs)
  save_by-UniqueBy row [] u = (refl, tt)
  save_by-UniqueBy row (x ∷ xs) u =
      ground (arith, save_by-UniqueBy row xs u.1, find_by-save_by row (key x) xs)

module _ {ℓ} {A : Type ℓ} (key : A → ℕ) where
  abbrev pub keep : (A → Bool) → Option A → Option A
  keep q none = none
  keep q (some x) = if q x then some x else none

  -- With distinct keys, a key and a test find the row of the key, if it passes the test.
  pub find_both-UniqueBy :
      (q : A → Bool) (i : ℕ) (xs : List A)
      → UniqueBy key xs
      → find_by (λ x. key x == i && q x) xs ≡ keep q (find_by (λ x. key x == i) xs)
  find_both-UniqueBy q i [] u = refl
  find_both-UniqueBy q i (x ∷ xs) u = ground (arith, find_both-UniqueBy q i xs u.1, u.0)

  -- A test that no row passed finds the row that was saved.
  pub find_by-save_new :
      (p : A → Bool) (row : A) (xs : List A)
      → find_by p xs ≡ none
      → p row ≡ true
      → find_by p (save_by key row xs) ≡ some row
  find_by-save_new p row [] h t = rw t refl
  find_by-save_new p row (x ∷ xs) h t = ground (arith, find_by-save_new p row xs)

  -- Of two rows with one key, the later `save` stays.
  pub save_by-save_by :
      (row row' : A) (xs : List A)
      → key row' ≡ key row
      → save_by key row' (save_by key row xs) ≡ save_by key row' xs
  save_by-save_by row row' [] e = ground arith
  save_by-save_by row row' (x ∷ xs) e = ground (arith, save_by-save_by row row' xs)

module _ {ℓ κ} {A : Type ℓ} (P : A → Type κ) where
  pub save_by-All :
      (key : A → ℕ) (row : A) (xs : List A) → P row → All P xs → All P (save_by key row xs)
  save_by-All key row [] p h = (p, tt)
  save_by-All key row (x ∷ xs) p h = elim (Bool-cases (key x == key row)) [
    | inl e ↦ rw e (p, h.1)
    | inr e ↦ rw e (h.0, save_by-All key row xs p h.1)
  ]

  pub find_by-All :
      (test : A → Bool) (a : A) (xs : List A) → All P xs → find_by test xs ≡ some a → P a
  find_by-All test a [] h e = elim (none-ne-some a e) [ ]
  find_by-All test a (x ∷ xs) h e = elim (Bool-cases (test x)) [
    | inl t ↦ subst P (cc) h.0
    | inr f ↦
        find_by-All test a xs h.1 (sym (ap (λ c. if c then some x else find_by test xs) f) ∙ e)
  ]
