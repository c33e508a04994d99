-- ===== src/Common/Sorting.antt =====
-- `ORDER BY`: the rows by insertion, the earlier first among equals.
use renaissance_api.Common.Tests.{if◌then◌else◌, Bool-cases}
use renaissance_api.Common.Lists.{All, count_by, length}
use Prim.Native.Nat.{suc}
use mathlib.Core.Path.{◌≡◌, refl}
use mathlib.Core.Logic.{◌⊎◌, inl, inr}
use mathlib.Core.Bool.{Bool, true}
use mathlib.Core.List.{List, [], ◌∷◌}
use native.Mathlib.Omega.{arith}

module _ {ℓ} {A : Type ℓ} (before : A → A → Bool) where
  abbrev pub insert_by : A → List A → List A
  insert_by a [] = a ∷ []
  insert_by a (x ∷ xs) = if before a x then a ∷ x ∷ xs else x ∷ insert_by a xs

  abbrev pub sort_by : List A → List A
  sort_by [] = []
  sort_by (x ∷ xs) = insert_by x (sort_by xs)

  -- Every row is before each later one.
  abbrev pub IsSortedBy : List A → Type ℓ
  IsSortedBy [] = Unit
  IsSortedBy (x ∷ xs) = All (λ y. before x y ≡ true) xs × IsSortedBy xs

  count_by-insert_by :
      (p : A → Bool) (a : A) (xs : List A) → count_by p (insert_by a xs) ≡ count_by p (a ∷ xs)
  count_by-insert_by p a [] = refl
  count_by-insert_by p a (x ∷ xs) = ground (arith, count_by-insert_by p a xs)

  -- Sorting keeps how many rows pass each test.
  pub count_by-sort_by : (p : A → Bool) (xs : List A) → count_by p (sort_by xs) ≡ count_by p xs
  count_by-sort_by p [] = refl
  count_by-sort_by p (x ∷ xs) =
      ground (arith, count_by-insert_by p x (sort_by xs), count_by-sort_by p xs)

  length-insert_by : (a : A) (xs : List A) → length (insert_by a xs) ≡ suc (length xs)
  length-insert_by a [] = refl
  length-insert_by a (x ∷ xs) = ground (arith, length-insert_by a xs)

  pub length-sort_by : (xs : List A) → length (sort_by xs) ≡ length xs
  length-sort_by [] = refl
  length-sort_by (x ∷ xs) = ground (arith, length-insert_by x (sort_by xs), length-sort_by xs)

  module _ (total : (a b : A) → (before a b ≡ true) ⊎ (before b a ≡ true))
      (trans : (a b c : A) → before a b ≡ true → before b c ≡ true → before a c ≡ true) where
    All-insert_by :
        (y a : A) (xs : List A)
        → before y a ≡ true
        → All (λ z. before y z ≡ true) xs
        → All (λ z. before y z ≡ true) (insert_by a xs)
    All-insert_by y a [] h all = (h, tt)
    All-insert_by y a (x ∷ xs) h all = elim (Bool-cases (before a x)) [
      | inl e ↦ rw e (h, all)
      | inr e ↦ rw e (all.0, All-insert_by y a xs h all.1)
    ]

    All-before :
        (a x : A) (xs : List A)
        → before a x ≡ true
        → All (λ z. before x z ≡ true) xs
        → All (λ z. before a z ≡ true) xs
    All-before a x [] h all = tt
    All-before a x (z ∷ zs) h all = (trans a x z h all.0, All-before a x zs h all.1)

    insert_by-IsSortedBy : (a : A) (xs : List A) → IsSortedBy xs → IsSortedBy (insert_by a xs)
    insert_by-IsSortedBy a [] s = (tt, tt)
    insert_by-IsSortedBy a (x ∷ xs) s = elim (Bool-cases (before a x)) [
      | inl e ↦ rw e ((e, All-before a x xs e s.0), s)
      | inr e ↦ rw e (
        All-insert_by x a xs (elim (total a x) [ inl h ↦ cc | inr h ↦ h ]) s.0,
        insert_by-IsSortedBy a xs s.1,
      )
    ]

    pub sort_by-IsSortedBy : (xs : List A) → IsSortedBy (sort_by xs)
    sort_by-IsSortedBy [] = tt
    sort_by-IsSortedBy (x ∷ xs) = insert_by-IsSortedBy x (sort_by xs) (sort_by-IsSortedBy xs)
