-- ===== src/Vouchers/Queries.antt =====
-- backend/src/free-bet-vouchers/free-bet-vouchers.service.ts: the lists of vouchers, and the voucher
-- that a search offers. A page counts from 1, and the limit of a page is above 0.
use renaissance_api.Common.{
  ℕ, ◌+◌, ◌-◌, ◌*◌, ◌/◌, ◌≡◌, refl, sym, ap, ◌∙◌, Bool, true, false, none, some, List, [], ◌∷◌,
  ◌++◌, ◌&&◌, ◌==◌, arith, if◌then◌else◌, leb, ==→eq, eq→==, select_by, take, drop, length, All,
  find_by, Bool-cases, inl, inr, subst,
}
use mathlib.Core.List.{reverse, reverse-cons}
use renaissance_api.Common.Action.{ok}
use renaissance_api.Vouchers.{
  Voucher, VoucherDb, find_voucher, is_none, is_active, validate_voucher,
}
use renaissance_api.Vouchers.Rows.{UniqueIds, any-find_voucher}

pub record PaginatedVouchers : Type 0 where
  pub page_rows : List Voucher
  pub total : ℕ
  pub page : ℕ
  pub limit : ℕ
  pub total_pages : ℕ

abbrev pub listed : ℕ → ℕ → Bool → Voucher → Bool
listed now user true v = v.user_id == user && is_none v.deleted_at
listed now user false v = is_active user now v

-- `getUserVouchers`, the newest first.
unfoldable pub get_user_vouchers : ℕ → ℕ → ℕ → ℕ → Bool → VoucherDb → PaginatedVouchers
get_user_vouchers now user page limit include_used db =
    let rows = select_by (listed now user include_used) db.vouchers in
    record {
      page_rows = take limit (drop ((page - 1) * limit) (reverse rows));
      total = length rows;
      page = page;
      limit = limit;
      total_pages = (length rows + (limit - 1)) / limit;
    }

-- `ORDER BY expires_at ASC` of rows that stand with the newest first.
abbrev pub insert_by_expiry : Voucher → List Voucher → List Voucher
insert_by_expiry v [] = v ∷ []
insert_by_expiry v (w ∷ ws) =
    if leb v.expires_at w.expires_at then v ∷ w ∷ ws else w ∷ insert_by_expiry v ws

abbrev pub sort_by_expiry : List Voucher → List Voucher
sort_by_expiry [] = []
sort_by_expiry (v ∷ vs) = insert_by_expiry v (sort_by_expiry vs)

unfoldable pub get_available_vouchers : ℕ → ℕ → VoucherDb → List Voucher
get_available_vouchers now user db =
    sort_by_expiry (reverse (select_by (is_active user now) db.vouchers))

-- A voucher that its id finds in the table, and that its user may use now.
abbrev pub Usable : ℕ → ℕ → VoucherDb → Voucher → Type 0
Usable now user db v = validate_voucher now v.id user db ≡ (ok v, db)

insert_by_expiry-All :
    (P : Voucher → Type 0) (v : Voucher) (ws : List Voucher)
    → P v
    → All P ws
    → All P (insert_by_expiry v ws)
insert_by_expiry-All P v [] p h = (p, tt)
insert_by_expiry-All P v (w ∷ ws) p h = elim (Bool-cases (leb v.expires_at w.expires_at)) [
  | inl e ↦ rw e (p, h)
  | inr e ↦ rw e (h.0, insert_by_expiry-All P v ws p h.1)
]

sort_by_expiry-All :
    (P : Voucher → Type 0) (vs : List Voucher) → All P vs → All P (sort_by_expiry vs)
sort_by_expiry-All P [] h = tt
sort_by_expiry-All P (v ∷ vs) h =
    insert_by_expiry-All P v (sort_by_expiry vs) h.0 (sort_by_expiry-All P vs h.1)

append-All : (P : Voucher → Type 0) (xs ys : List Voucher) → All P xs → All P ys → All P (xs ++ ys)
append-All P [] ys h k = k
append-All P (x ∷ xs) ys h k = (h.0, append-All P xs ys h.1 k)

reverse-All : (P : Voucher → Type 0) (vs : List Voucher) → All P vs → All P (reverse vs)
reverse-All P [] h = tt
reverse-All P (v ∷ vs) h =
    subst (All P) (sym (reverse-cons v vs))
      (append-All P (reverse vs) (v ∷ []) (reverse-All P vs h.1) (h.0, tt))

Usable-row :
    (now user : ℕ) (v : Voucher) (db : VoucherDb)
    → find_voucher v.id db.vouchers ≡ some v
    → is_active user now v ≡ true
    → Usable now user db v
unfolding validate_voucher
Usable-row now user v db found active = ground (arith, found)

stored-below :
    (x : Voucher) (rows vs : List Voucher)
    → find_by (λ y. y.id == x.id) vs ≡ none
    → All (λ v. is_none v.deleted_at ≡ true → find_voucher v.id vs ≡ some v) rows
    → All (λ v. is_none v.deleted_at ≡ true → find_voucher v.id (x ∷ vs) ≡ some v) rows
stored-below x [] vs u h = tt
stored-below x (v ∷ rows) vs u h = (
  (λ live. elim (Bool-cases (x.id == v.id)) [
    | inl e ↦ absurd (
        cc (
          subst (λ k. find_voucher k vs ≡ none) (==→eq x.id v.id e) (any-find_voucher x.id vs u),
          h.0 live,
        ))
    | inr e ↦
        ap (λ c. if c && is_none x.deleted_at then some x else find_voucher v.id vs) e ∙ h.0 live
  ]),
  stored-below x rows vs u h.1,
)

stored-All :
    (vs : List Voucher)
    → UniqueIds vs
    → All (λ v. is_none v.deleted_at ≡ true → find_voucher v.id vs ≡ some v) vs
stored-All [] u = tt
stored-All (v ∷ vs) u = (
  λ live. ground (arith, eq→== v.id v.id refl, live),
  stored-below v vs vs u.0 (stored-All vs u.1),
)

active-All :
    (now user : ℕ) (db : VoucherDb) (vs : List Voucher)
    → All (λ v. is_none v.deleted_at ≡ true → find_voucher v.id db.vouchers ≡ some v) vs
    → All (Usable now user db) (select_by (is_active user now) vs)
active-All now user db [] h = tt
active-All now user db (v ∷ vs) h =
    let rest = select_by (is_active user now) vs in
    let ih = active-All now user db vs h.1 in
    elim (Bool-cases (is_active user now v)) [
      | inl e ↦
          subst (λ c. All (Usable now user db) (if c then v ∷ rest else rest)) (sym e)
            (Usable-row now user v db (h.0 (ground arith)) e, ih)
      | inr e ↦ subst (λ c. All (Usable now user db) (if c then v ∷ rest else rest)) (sym e) ih
    ]

-- Every voucher that `getAvailableVouchers` offers to a user passes `validateVoucher` for that user
-- at that time, in a table with distinct ids.
pub get_available_vouchers-Usable :
    (now user : ℕ) (db : VoucherDb)
    → UniqueIds db.vouchers
    → All (Usable now user db) (get_available_vouchers now user db)
unfolding get_available_vouchers
get_available_vouchers-Usable now user db u =
    let rows = select_by (is_active user now) db.vouchers in
    sort_by_expiry-All (Usable now user db) (reverse rows) (
      reverse-All (Usable now user db) rows
        (active-All now user db db.vouchers (stored-All db.vouchers u)))
