-- ===== src/Wallet/Updates.antt =====
-- `updateUserBalanceWithQueryRunner`, the update that other services run in their transactions.
use renaissance_api.Common.{
  ℕ, ◌≡◌, refl, sym, ap, ◌∙◌, subst, Bool, true, false, inl, inr, some, ◌&&◌, arith, if◌then◌else◌,
  Option-cases,
}
use renaissance_api.Common.Int.{
  ℤ, pos, negsuc, abs, ◌+ℤ◌, ◌-ℤ◌, ◌≤ℤ◌, ◌<ℤ◌, ltb_ℤ, leb_ℤ, int_laws, +ℤ-zero, +ℤ_assoc,
}
use renaissance_api.Common.Action.{Result, ok, err, pure, ◌>>=◌, ◌>>◌}
use renaissance_api.Wallet.{
  Balance, TransactionType, bet, caller, Error, WalletDb, WalletAction, IdSource, IsFresh,
  find_user, entry, record_change, or_create, create_row, apply_update, update_user_balance,
}
use renaissance_api.Wallet.Invariant.{
  IsValid, available, locked, only, signed, created-IsValid, created_found, created-available,
  created-locked,
}
use renaissance_api.Wallet.Transactions.{Extends, Moves, finish-Moves, new_row, with_row}

-- What a signed update has done: it never throws; it moves the amount, or the user holds less than
-- the amount to be taken and no funds move.
abbrev pub Updates : ℕ → ℤ → WalletDb → Result Error Bool × WalletDb → Type 0
Updates u x db (ok true, db') = Moves u x (pos 0) db db'
Updates u x db (ok false, db') =
    Moves u (pos 0) (pos 0) db db' × (x <ℤ pos 0) × (available u db +ℤ x <ℤ pos 0)
Updates u x db (err e, db') = ⊥

pub stay-Moves : (u : ℕ) (db : WalletDb) → IsValid db → Moves u (pos 0) (pos 0) db db
stay-Moves u db v = (
  v,
  λ w. ground (arith, +ℤ-zero (available w db)),
  λ w. ground (arith, +ℤ-zero (locked w db)),
  λ _ h. h,
)

choose-Updates :
    (u : ℕ) (x : ℤ) (db : WalletDb) (c : Bool) (m n : WalletAction Bool)
    → (c ≡ true → Updates u x db (m db))
    → (c ≡ false → Updates u x db (n db))
    → Updates u x db ((if c then m else n) db)
choose-Updates u x db true m n p q = p refl
choose-Updates u x db false m n p q = q refl

-- The logged type and amount stand for the signed amount.
signed-abs :
    (x : ℤ)
    → signed (if leb_ℤ (pos 0) x then TransactionType.credit else TransactionType.debit) (abs x) ≡ x
unfolding ◌-ℤ◌
signed-abs (pos n) = ground arith
signed-abs (negsuc n) = ground arith

-- An update that is refused would leave less than nothing.
short_of_cover :
    (a x : ℤ) → ltb_ℤ x (pos 0) && ltb_ℤ a (abs x) ≡ true → (x <ℤ pos 0) × (a +ℤ x <ℤ pos 0)
short_of_cover a x h = grind int_laws

covered_nonneg :
    (a x : ℤ) → ltb_ℤ x (pos 0) && ltb_ℤ a (abs x) ≡ false → pos 0 ≤ℤ a → pos 0 ≤ℤ a +ℤ x
covered_nonneg a x h p = grind int_laws

apply_update-Updates :
    (u : ℕ) (x : ℤ) (reference m : ℕ) (db : WalletDb) (b : Balance)
    → IsValid db
    → find_user u db.balances ≡ some b
    → Updates u x db (apply_update x reference (caller m) b db)
unfolding apply_update
apply_update-Updates u x reference m db b v found =
    let type = if leb_ℤ (pos 0) x then TransactionType.credit else TransactionType.debit in
    let b' : Balance = record b { available_balance = b.available_balance +ℤ x } in
    let change =
      entry b (abs x) type bet (some reference) (caller m) b.available_balance
        b'.available_balance in
    choose-Updates u x db (ltb_ℤ x (pos 0) && ltb_ℤ b.available_balance (abs x)) (pure false)
      (record_change change b' >> pure true)
      (λ short.
        let (less, none_left) = short_of_cover b.available_balance x short in
        (stay-Moves u db v, less, rw found none_left))
      (λ covered.
        finish-Moves u b b' change db v found refl refl refl x (pos 0) (signed-abs x) refl refl
          (omega int_laws)
          (
            covered_nonneg b.available_balance x covered (v.nonneg u b found).0,
            (v.nonneg u b found).1,
          ))

-- An update after a row of zero was made counts from the funds before it.
from_mid :
    (u : ℕ) (x : ℤ) (db mid : WalletDb) (r : Result Error Bool × WalletDb)
    → ((w : ℕ) → available w mid ≡ available w db)
    → ((w : ℕ) → locked w mid ≡ locked w db)
    → Extends db mid
    → Updates u x mid r
    → Updates u x db r
from_mid u x db mid (ok true, db') p q e h =
    (h.0, λ w. rw (← p w) (h.1 w), λ w. rw (← q w) (h.2 w), λ t k. h.3 t (e t k))
from_mid u x db mid (ok false, db') p q e ((v, a, l, k), less, none_left) = (
  (v, λ w. rw (← p w) (a w), λ w. rw (← q w) (l w), λ t j. k t (e t j)),
  less,
  rw (← p u) none_left,
)
from_mid u x db mid (err _, db') p q e h = absurd h

-- `updateUserBalanceWithQueryRunner` in a valid store, with fresh ids of new rows, never throws. It
-- adds the signed amount to the user's available funds, or refuses because they would fall below
-- zero, and then no funds move.
pub update_user_balance-Updates :
    (new_id : IdSource)
    → IsFresh new_id
    → (u : ℕ) (x : ℤ) (reference m : ℕ) (db : WalletDb) → IsValid db
    → Updates u x db (update_user_balance new_id u x reference (caller m) db)
unfolding update_user_balance
update_user_balance-Updates new_id fresh u x reference m db v =
    elim (Option-cases (find_user u db.balances)) [
      | inl missing ↦
          let row = new_row new_id u db in
          let mid = with_row new_id u db in
          let new = fresh db.balances in
          subst
            (λ o.
              Updates u x db
                ((or_create o (create_row new_id u) >>= apply_update x reference (caller m)) db))
            (sym missing)
            (from_mid u x db mid (apply_update x reference (caller m) row mid)
              (created-available u row db v missing new refl refl refl)
              (created-locked u row db v missing new refl refl refl) (λ _ h. h)
              (apply_update-Updates u x reference m mid row
                (created-IsValid u row db v missing new refl refl refl)
                (created_found u row db missing new refl)))
      | inr (b, found) ↦
          subst
            (λ o.
              Updates u x db
                ((or_create o (create_row new_id u) >>= apply_update x reference (caller m)) db))
            (sym found) (apply_update-Updates u x reference m db b v found)
    ]

-- An update by a positive amount succeeds.
pub positive_update :
    (u : ℕ) (x : ℤ) (db : WalletDb) (r : Result Error Bool × WalletDb)
    → ltb_ℤ (pos 0) x ≡ true
    → Updates u x db r
    → (db' : WalletDb) × (r ≡ (ok true, db')) × Moves u x (pos 0) db db'
positive_update u x db (ok true, db') p h = (db', refl, h)
positive_update u x db (ok false, db') p h = absurd (ground arith)
positive_update u x db (err e, db') p h = absurd h

only-sum : (u w : ℕ) (x y : ℤ) → only u x w +ℤ only u y w ≡ only u (x +ℤ y) w
only-sum u w x y = grind int_laws

-- Two moves of a user's funds in a row are one by the sum.
pub Moves-trans :
    (u : ℕ) (x y : ℤ) (a b c : WalletDb)
    → Moves u x (pos 0) a b
    → Moves u y (pos 0) b c
    → Moves u (x +ℤ y) (pos 0) a c
Moves-trans u x y a b c first second = (
  second.0,
  λ w.
      second.1 w
      ∙ ap (λ z. z +ℤ only u y w) (first.1 w)
      ∙ +ℤ_assoc (available w a) (only u x w) (only u y w)
      ∙ ap (λ z. available w a +ℤ z) (only-sum u w x y),
  λ w.
      second.2 w
      ∙ ap (λ z. z +ℤ only u (pos 0) w) (first.2 w)
      ∙ grind (int_laws, only-sum u w (pos 0) (pos 0)),
  λ test e. second.3 test (first.3 test e),
)
