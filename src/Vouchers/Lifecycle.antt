-- ===== src/Vouchers/Lifecycle.antt =====
-- What every row of the voucher table satisfies, kept by every operation; and the two halves of a
-- voucher's life, consumption and restoration.
use renaissance_api.Common.{
  ℕ, ◌≡◌, refl, Bool, true, false, not, Option, none, some, List, [], ◌∷◌, arith, leb, ◌==◌, All,
  find_by-All, save_by-All,
}
use renaissance_api.Common.Int.{ℤ, pos, ◌<ℤ◌, leb_ℤ}
use renaissance_api.Common.Action.{◌>>=◌, ◌>>◌, or_raise, raise_if}
use renaissance_api.Vouchers.{
  Voucher, VoucherDb, VoucherAction, Error, CreateVoucher, UpdateVoucher, IdSource, find_voucher,
  fetch, save, check_usable, check_limit, check_amount, check_expiry, or_value, is_other_bet,
  consumed, save_restored, unused, removed, updated, new_voucher, insert_new, has_user,
  create_voucher_with_manager, consume_voucher_with_manager, restore_voucher_with_manager,
  delete_voucher, update_voucher, user_not_found, voucher_not_found, no_access, too_many_active,
  linked_to_other_bet, amount_not_positive, expiry_not_in_future,
}
use renaissance_api.Vouchers.Rows.{UniqueIds, put-UniqueIds}

-- The time of use and the bet are set together, and on every used voucher; an unused one that was
-- restored keeps those of its last use.
abbrev pub Linked : Bool → Option ℕ → Option ℕ → Type 0
Linked _ (some _) (some _) = Unit
Linked false none none = Unit
Linked _ _ _ = ⊥

abbrev pub IsSound : Voucher → Type 0
IsSound v = (pos 0 <ℤ v.amount) × Linked v.used v.used_at v.used_for_bet_id

unused-Linked : (used : Bool) (at bet : Option ℕ) → Linked used at bet → Linked false at bet
unused-Linked used (some t) (some b) h = tt
unused-Linked false none none h = tt
unused-Linked true none none h = absurd h
unused-Linked true none (some b) h = absurd h
unused-Linked true (some t) none h = absurd h
unused-Linked false none (some b) h = absurd h
unused-Linked false (some t) none h = absurd h

pub record IsValid (db : VoucherDb) : Type 0 where
  pub unique : UniqueIds db.vouchers
  pub sound : All IsSound db.vouchers

-- A saved row keeps the table valid.
save-IsValid : (v : Voucher) (db : VoucherDb) → IsValid db → IsSound v → IsValid (save v db).1
save-IsValid v db h s = record {
  unique = put-UniqueIds v db.vouchers h.unique;
  sound = save_by-All IsSound (λ x. x.id) v db.vouchers s h.sound;
}

-- A call ends in a valid table, whether it throws or not.
abbrev pub Preserves : {A : Type 0} → VoucherAction A → Type 0
Preserves m = (db : VoucherDb) → IsValid db → IsValid (m db).1

module _ {A : Type 0} where
  raise_if-Preserves :
      (c : Bool) (e : Error) (m : VoucherAction A)
      → (c ≡ false → Preserves m)
      → Preserves (raise_if c e >> m)
  raise_if-Preserves true e m h db v = v
  raise_if-Preserves false e m h db v = h refl db v

  fetch-Preserves :
      (i : ℕ) (k : Voucher → VoucherAction A)
      → ((w : Voucher) → IsSound w → Preserves (k w))
      → Preserves (fetch i >>= k)
  fetch-Preserves i k h db v = go (find_voucher i db.vouchers) refl
    where
      go :
          (o : Option Voucher)
          → find_voucher i db.vouchers ≡ o
          → IsValid ((or_raise o voucher_not_found >>= k) db).1
      go none e = v
      go (some w) e = h w (find_by-All IsSound _ w db.vouchers v.sound e) db v

  usable-Preserves :
      (now user : ℕ) (w : Voucher) (m : VoucherAction A)
      → Preserves m
      → Preserves (check_usable now user w >> m)
  usable-Preserves now user w m h db v = ground (arith, h db v)

  limit-Preserves :
      (limit : Option ℕ) (user now : ℕ) (excluded : Voucher → Bool) (m : VoucherAction A)
      → Preserves m
      → Preserves (check_limit limit user now excluded >> m)
  limit-Preserves none user now excluded m h db v = h db v
  limit-Preserves (some limit) user now excluded m h db v =
      raise_if-Preserves _ too_many_active m (λ _. h) db v

consume-Preserves : (now i user bet : ℕ) → Preserves (consume_voucher_with_manager now i user bet)
unfolding consume_voucher_with_manager
consume-Preserves now i user bet =
    fetch-Preserves i (λ w. check_usable now user w >> save (consumed now bet w))
      λ w sound.
        usable-Preserves now user w (save (consumed now bet w))
          λ db v. save-IsValid (consumed now bet w) db v (sound.0, tt)

restore-Preserves :
    (i user : ℕ) (bet : Option ℕ) → Preserves (restore_voucher_with_manager i user bet)
unfolding restore_voucher_with_manager
restore-Preserves i user bet =
    let linked = λ (w : Voucher).
      let m : VoucherAction Voucher =
        raise_if (is_other_bet bet w.used_for_bet_id) linked_to_other_bet >> save_restored w in
      m in
    fetch-Preserves i (λ w. raise_if (not (w.user_id == user)) no_access >> linked w)
      λ w sound. raise_if-Preserves _ no_access (linked w) λ _.
        raise_if-Preserves (is_other_bet bet w.used_for_bet_id) linked_to_other_bet
          (save_restored w)
          λ _ db v.
            save-IsValid (unused w) db v
              (sound.0, unused-Linked w.used w.used_at w.used_for_bet_id sound.1)

delete-Preserves : (now i : ℕ) → Preserves (delete_voucher now i)
unfolding delete_voucher
delete-Preserves now i =
    fetch-Preserves i (λ w. save (removed now w))
      λ w sound db v. save-IsValid (removed now w) db v sound

amount-Preserves :
    {A : Type 0} (x : Option ℤ) (old : ℤ) (m : VoucherAction A)
    → pos 0 <ℤ old
    → (pos 0 <ℤ or_value x old → Preserves m)
    → Preserves (check_amount x >> m)
amount-Preserves none old m p h = h p
amount-Preserves (some x) old m p h =
    raise_if-Preserves (leb_ℤ x (pos 0)) amount_not_positive m λ e. h (ground arith)

expiry-Preserves :
    {A : Type 0} (now : ℕ) (t : Option ℕ) (m : VoucherAction A)
    → Preserves m
    → Preserves (check_expiry now t >> m)
expiry-Preserves now none m h = h
expiry-Preserves now (some t) m h = raise_if-Preserves (leb t now) expiry_not_in_future m (λ _. h)

update-Preserves : (now i : ℕ) (dto : UpdateVoucher) → Preserves (update_voucher now i dto)
unfolding update_voucher
update-Preserves now i dto =
    let limited = λ (w : Voucher).
      let m : VoucherAction Voucher =
        check_limit dto.max_active w.user_id now (λ x. x.id == w.id) >> save (updated dto w) in
      m in
    fetch-Preserves i
      (λ w. check_amount dto.amount >> (check_expiry now dto.expires_at >> limited w))
      λ w sound.
        amount-Preserves dto.amount w.amount (check_expiry now dto.expires_at >> limited w) sound.0
          λ positive. expiry-Preserves now dto.expires_at (limited w) (
            limit-Preserves dto.max_active w.user_id now (λ x. x.id == w.id) (save (updated dto w))
              λ db v. save-IsValid (updated dto w) db v (positive, sound.1))

create-Preserves :
    (new_id : IdSource) (now : ℕ) (dto : CreateVoucher)
    → Preserves (create_voucher_with_manager new_id now dto)
unfolding create_voucher_with_manager
create-Preserves new_id now dto db v =
    let insert = insert_new new_id dto in
    let limited : VoucherAction Voucher =
      check_limit dto.max_active dto.user_id now (λ _. false) >> insert in
    let positive : VoucherAction Voucher =
      raise_if (leb_ℤ dto.amount (pos 0)) amount_not_positive >> limited in
    raise_if-Preserves (not (has_user dto.user_id db.users)) user_not_found
      (raise_if (leb dto.expires_at now) expiry_not_in_future >> positive)
      (λ _. raise_if-Preserves (leb dto.expires_at now) expiry_not_in_future positive λ _.
        raise_if-Preserves (leb_ℤ dto.amount (pos 0)) amount_not_positive limited λ e.
          limit-Preserves dto.max_active dto.user_id now (λ _. false) insert
            λ db' v'.
              save-IsValid (new_voucher (new_id db'.vouchers) dto) db' v' (ground arith, tt))
      db v

-- A call of a method that writes. A consumption or a restoration runs in the caller's transaction
-- or in one of its own.
pub data Call : Type 0 where
  creates : CreateVoucher → Call
  updates : ℕ → UpdateVoucher → Call
  consumes : ℕ → ℕ → ℕ → Call
  restores : ℕ → ℕ → Option ℕ → Call
  deletes : ℕ → Call

module _ (new_id : IdSource) where
  -- The store after a call at a time.
  pub step : ℕ × Call → VoucherDb → VoucherDb
  step (now, creates dto) db = (create_voucher_with_manager new_id now dto db).1
  step (now, updates i dto) db = (update_voucher now i dto db).1
  step (now, consumes i user bet) db = (consume_voucher_with_manager now i user bet db).1
  step (now, restores i user bet) db = (restore_voucher_with_manager i user bet db).1
  step (now, deletes i) db = (delete_voucher now i db).1

  pub after_calls : List (ℕ × Call) → VoucherDb → VoucherDb
  after_calls [] db = db
  after_calls (c ∷ cs) db = after_calls cs (step c db)

  step-IsValid : (c : ℕ × Call) (db : VoucherDb) → IsValid db → IsValid (step c db)
  unfolding step
  step-IsValid (now, creates dto) db v = create-Preserves new_id now dto db v
  step-IsValid (now, updates i dto) db v = update-Preserves now i dto db v
  step-IsValid (now, consumes i user bet) db v = consume-Preserves now i user bet db v
  step-IsValid (now, restores i user bet) db v = restore-Preserves i user bet db v
  step-IsValid (now, deletes i) db v = delete-Preserves now i db v

  -- After any calls on a valid table, no two vouchers share an id, every amount is positive, and the
  -- time of use and the bet are set together, and on every used voucher.
  pub after_calls-IsValid :
      (cs : List (ℕ × Call)) (db : VoucherDb) → IsValid db → IsValid (after_calls cs db)
  unfolding after_calls
  after_calls-IsValid [] db v = v
  after_calls-IsValid (c ∷ cs) db v = after_calls-IsValid cs (step c db) (step-IsValid c db v)
