-- ===== src/Vouchers/Rows.antt =====
-- The rows of the voucher table under `save`.
use renaissance_api.Common.{
  ℕ, ◌+◌, ◌≡◌, refl, Bool, none, some, List, [], ◌∷◌, arith, ◌==◌, if◌then◌else◌, save_by, find_by,
  count_by, UniqueBy,
}
use renaissance_api.Vouchers.{Voucher, find_voucher, is_none}

abbrev pub put : Voucher → List Voucher → List Voucher
put = save_by (λ x. x.id)

abbrev pub UniqueIds : List Voucher → Type 0
UniqueIds = UniqueBy (λ x. x.id)

pub id-find_voucher :
    (i : ℕ) (rows : List Voucher) (v : Voucher)
    → find_voucher i rows ≡ some v
    → (v.id ≡ i) × (v.deleted_at ≡ none)
id-find_voucher i [] v h = cc
id-find_voucher i (x ∷ xs) v h = ground (arith, id-find_voucher i xs v)

pub any-find_voucher :
    (i : ℕ) (rows : List Voucher)
    → find_by (λ x. x.id == i) rows ≡ none
    → find_voucher i rows ≡ none
any-find_voucher i [] h = refl
any-find_voucher i (x ∷ xs) h = ground (arith, any-find_voucher i xs)

-- A row that replaces one that was found is found in its place, unless it was removed.
pub find_voucher-put :
    (i j : ℕ) (v v' : Voucher) (rows : List Voucher)
    → UniqueIds rows
    → find_voucher i rows ≡ some v
    → v'.id ≡ i
    → find_voucher j (put v' rows)
      ≡ (if i == j then (if is_none v'.deleted_at then some v' else none) else find_voucher j rows)
find_voucher-put i j v v' [] u h e = cc
find_voucher-put i j v v' (x ∷ xs) u h e =
    ground (arith, find_voucher-put i j v v' xs u.1, any-find_voucher x.id xs u.0)

-- Putting the row back that was found restores the table.
pub put-put_found :
    (i : ℕ) (v v' : Voucher) (rows : List Voucher)
    → UniqueIds rows
    → find_voucher i rows ≡ some v
    → v'.id ≡ i
    → put v (put v' rows) ≡ rows
put-put_found i v v' [] u h e = cc
put-put_found i v v' (x ∷ xs) u h e = ground (
  arith,
  put-put_found i v v' xs u.1,
  any-find_voucher x.id xs u.0,
  id-find_voucher i (x ∷ xs) v h,
)

pub find_id-put :
    (i : ℕ) (v : Voucher) (rows : List Voucher)
    → find_by (λ x. x.id == i) (put v rows)
      ≡ (if v.id == i then some v else find_by (λ x. x.id == i) rows)
find_id-put i v [] = refl
find_id-put i v (x ∷ xs) = ground (arith, find_id-put i v xs)

pub put-UniqueIds : (v : Voucher) (rows : List Voucher) → UniqueIds rows → UniqueIds (put v rows)
put-UniqueIds v [] u = (refl, tt)
put-UniqueIds v (x ∷ xs) u = ground (arith, put-UniqueIds v xs u.1, find_id-put x.id v xs)

-- A row with a new id goes to the end.
pub count_by-put_new :
    (test : Voucher → Bool) (v : Voucher) (rows : List Voucher)
    → find_by (λ x. x.id == v.id) rows ≡ none
    → count_by test (put v rows) ≡ count_by test rows + (if test v then 1 else 0)
count_by-put_new test v [] h = omega arith
count_by-put_new test v (x ∷ xs) h = ground (arith, count_by-put_new test v xs)
