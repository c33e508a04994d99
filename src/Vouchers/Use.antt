-- ===== src/Vouchers/Use.antt =====
-- A voucher is used for one bet, a restoration gives it back, and the limit on active vouchers.
use renaissance_api.Common.{
  ℕ, suc, ◌+◌, ◌≤◌, ◌≡◌, refl, ◌∙◌, Bool, true, false, not, none, some, List, [], ◌∷◌, ◌&&◌, arith,
  ◌==◌, eq→==, if◌then◌else◌, find_by, count_by, length, Option-cases, inl, inr,
}
use renaissance_api.Common.Action.{ok, err}
use renaissance_api.Vouchers.{
  Voucher, VoucherDb, CreateVoucher, IdSource, find_voucher, is_active, consumed, unused,
  new_voucher, insert_new, create_voucher_with_manager, consume_voucher_with_manager, already_used,
  VoucherStats, count_voucher, count_vouchers, no_stats, own_vouchers, get_user_voucher_stats,
}
use renaissance_api.Vouchers.Rows.{put, id-find_voucher, find_voucher-put, count_by-put_new}
use renaissance_api.Vouchers.Lifecycle.{IsValid}

-- What a successful consumption has found and written.
consume_inversion :
    (now i user bet : ℕ) (db : VoucherDb) (a : Voucher) (db' : VoucherDb)
    → consume_voucher_with_manager now i user bet db ≡ (ok a, db')
    → (v : Voucher) × (find_voucher i db.vouchers ≡ some v)
      × (v.user_id ≡ user)
      × (v.used ≡ false)
      × (db' ≡ record db { vouchers = put (consumed now bet v) db.vouchers })
unfolding consume_voucher_with_manager
consume_inversion now i user bet db a db' h = elim (Option-cases (find_voucher i db.vouchers)) [
  | inl missing ↦ absurd (ground arith)
  | inr (v, found) ↦ (v, found, ground arith, ground arith, ground arith)
]

refuse_used :
    (now i user bet : ℕ) (db : VoucherDb) (v : Voucher)
    → find_voucher i db.vouchers ≡ some v
    → v.user_id ≡ user
    → v.used ≡ true
    → consume_voucher_with_manager now i user bet db ≡ (err already_used, db)
unfolding consume_voucher_with_manager
refuse_used now i user bet db v found owner used = ground arith

-- A voucher that was consumed in a valid store cannot be consumed again by its user, at any time,
-- for any bet: the call throws, and the store stays as it is.
pub consume_once :
    (now i user bet : ℕ) (db : VoucherDb) (a : Voucher) (db' : VoucherDb)
    → IsValid db
    → consume_voucher_with_manager now i user bet db ≡ (ok a, db')
    → (later other : ℕ)
    → consume_voucher_with_manager later i user other db' ≡ (err already_used, db')
consume_once now i user bet db a db' v h later other =
    let (w, found, owner, fresh, after) = consume_inversion now i user bet db a db' h in
    let (same, live) = id-find_voucher i db.vouchers w found in
    let again : find_voucher i db'.vouchers ≡ some (consumed now bet w) = rw after (
      find_voucher-put i i w (consumed now bet w) db.vouchers v.unique found same
      ∙ rw (eq→== i i refl, live) refl) in
    refuse_used later i user other db' (consumed now bet w) again owner refl

-- The table after a consumption of the voucher `w` and its restoration.
abbrev pub after_restore : ℕ → ℕ → Voucher → VoucherDb → VoucherDb
after_restore now bet w db = record db { vouchers = put (unused (consumed now bet w)) db.vouchers }

-- A new id is the id of no row.
abbrev pub IsFresh : IdSource → Type 0
IsFresh new_id = (rows : List Voucher) → find_by (λ x. x.id == new_id rows) rows ≡ none

count_by-and_true :
    (p : Voucher → Bool) (vs : List Voucher) → count_by (λ v. p v && not false) vs ≡ count_by p vs
count_by-and_true p [] = refl
count_by-and_true p (v ∷ vs) = ground (arith, count_by-and_true p vs)

one_at_most : (c : Bool) → (if c then 1 else 0) ≤ 1
one_at_most c = ground arith

-- What a successful creation has checked and written.
create_inversion :
    (new_id : IdSource) (now n : ℕ) (dto : CreateVoucher) (db : VoucherDb) (a : Voucher)
    (db' : VoucherDb)
    → dto.max_active ≡ some (suc n)
    → create_voucher_with_manager new_id now dto db ≡ (ok a, db')
    → (count_by (λ v. is_active dto.user_id now v && not false) db.vouchers ≤ n)
      × (db' ≡ (insert_new new_id dto db).1)
unfolding create_voucher_with_manager
create_inversion new_id now n dto db a db' limit h = ground arith

-- After a voucher was created under a limit above zero, with a fresh id, its user's active vouchers
-- are within the limit.
pub create_within_limit :
    (new_id : IdSource)
    → IsFresh new_id
    → (now n : ℕ) (dto : CreateVoucher) (db : VoucherDb) (a : Voucher) (db' : VoucherDb)
    → dto.max_active ≡ some (suc n)
    → create_voucher_with_manager new_id now dto db ≡ (ok a, db')
    → count_by (is_active dto.user_id now) db'.vouchers ≤ suc n
create_within_limit new_id fresh now n dto db a db' limit h =
    let (few, after) = create_inversion new_id now n dto db a db' limit h in
    let added =
      count_by-put_new (is_active dto.user_id now) (new_voucher (new_id db.vouchers) dto)
        db.vouchers (fresh db.vouchers) in
    rw after (
      omega (
        arith,
        added,
        few,
        count_by-and_true (is_active dto.user_id now) db.vouchers,
        one_at_most (is_active dto.user_id now (new_voucher (new_id db.vouchers) dto)),
      ))

-- Where the loop over the vouchers has counted each once.
abbrev counted : VoucherStats → ℕ
counted s = s.active_vouchers + s.used_vouchers + s.expired_vouchers

counted-count_vouchers :
    (now : ℕ) (s : VoucherStats) (vs : List Voucher)
    → counted (count_vouchers now s vs) ≡ counted s + length vs
unfolding count_vouchers
counted-count_vouchers now s [] = omega arith
counted-count_vouchers now s (v ∷ vs) =
    ground (arith, counted-count_vouchers now (count_voucher now s v) vs)

total-count_vouchers :
    (now : ℕ) (s : VoucherStats) (vs : List Voucher)
    → (count_vouchers now s vs).total_vouchers ≡ s.total_vouchers
unfolding count_vouchers
total-count_vouchers now s [] = refl
total-count_vouchers now s (v ∷ vs) =
    ground (arith, total-count_vouchers now (count_voucher now s v) vs)

-- The active, the used and the expired vouchers of the statistics add up to all of the user's.
pub stats_partition :
    (now user : ℕ) (db : VoucherDb)
    → let s = get_user_voucher_stats now user db in
      s.active_vouchers + s.used_vouchers + s.expired_vouchers ≡ s.total_vouchers
unfolding get_user_voucher_stats
stats_partition now user db =
    let own = own_vouchers user db in
    omega (
      arith,
      counted-count_vouchers now (no_stats (length own)) own,
      total-count_vouchers now (no_stats (length own)) own,
    )

-- What a request without a limit that is granted has stored.
pub creation_of_request :
    (new_id : IdSource) (now : ℕ) (dto : CreateVoucher) (db : VoucherDb) (v : Voucher)
    (db' : VoucherDb)
    → dto.max_active ≡ none
    → create_voucher_with_manager new_id now dto db ≡ (ok v, db')
    → (v ≡ new_voucher (new_id db.vouchers) dto)
      × (db' ≡ record db { vouchers = put (new_voucher (new_id db.vouchers) dto) db.vouchers })
unfolding create_voucher_with_manager
creation_of_request new_id now dto db v db' no_limit h = (ground arith, ground arith)
