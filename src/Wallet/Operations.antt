-- ===== src/Wallet/Operations.antt =====
-- Every operation of the wallet throws and changes nothing, or keeps the invariant and moves a
-- stated amount for one user.
use renaissance_api.Common.{ℕ, ◌≡◌, refl, false, Option, some}
use renaissance_api.Common.Int.{ℤ, pos, ◌+ℤ◌, ◌-ℤ◌, ltb_ℤ, leb_ℤ, int_laws}
use renaissance_api.Common.Action.{raise_if, ◌>>◌}
use renaissance_api.Wallet.{
  Balance, TransactionType, TransactionSource, bet, Metadata, caller, consume_locked,
  amount_not_positive, already_processed, insufficient_funds, insufficient_available,
  insufficient_locked, WalletDb, WalletAction, IdSource, IsFresh, find_user, has_reference, entry,
  record_change, perform_atomic_operation, credit, credit_callback, debit, debit_callback,
  lock_funds, lock_funds_callback, unlock_funds, unlock_funds_callback, consume_locked_funds,
  consume_locked_funds_callback,
}
use renaissance_api.Wallet.Invariant.{IsValid}
use renaissance_api.Wallet.Transactions.{
  Commits, Succeeds, raise_if-Commits, raise_if-Succeeds, perform-Commits, finish-Moves,
}

-- The callbacks, on a balance that was found in a valid store.
module _ (u : ℕ) (x : ℤ) (positive : leb_ℤ x (pos 0) ≡ false) (mid : WalletDb) (b : Balance)
    (v : IsValid mid) (found : find_user u mid.balances ≡ some b) where
  credit_callback-Succeeds :
      (source : TransactionSource) (reference : Option ℕ) (m : ℕ)
      → Succeeds u (x) (pos 0) mid (credit_callback x source reference (caller m) b mid)
  unfolding credit_callback
  credit_callback-Succeeds source reference m =
      let b' : Balance = record b { available_balance = b.available_balance +ℤ x } in
      let change =
        entry b x TransactionType.credit source reference (caller m) b.available_balance
          (b.available_balance +ℤ x) in
      raise_if-Succeeds u (x) (pos 0) mid
        (has_reference reference TransactionType.credit source mid.transactions) already_processed
        (record_change change b')
        λ _.
          finish-Moves u b b' change mid v found refl refl refl (x) (pos 0) refl refl
            (omega int_laws) (omega int_laws) (grind (int_laws, v.nonneg u b found))

  debit_callback-Succeeds :
      (source : TransactionSource) (reference : Option ℕ) (m : ℕ)
      → Succeeds u (pos 0 -ℤ x) (pos 0) mid (debit_callback x source reference (caller m) b mid)
  unfolding debit_callback
  debit_callback-Succeeds source reference m =
      let b' : Balance = record b { available_balance = b.available_balance -ℤ x } in
      let change =
        entry b x TransactionType.debit source reference (caller m) b.available_balance
          (b.available_balance -ℤ x) in
      raise_if-Succeeds u (pos 0 -ℤ x) (pos 0) mid
        (has_reference reference TransactionType.debit source mid.transactions) already_processed
        (raise_if (ltb_ℤ b.available_balance x) insufficient_funds >> record_change change b')
        λ _.
          raise_if-Succeeds u (pos 0 -ℤ x) (pos 0) mid (ltb_ℤ b.available_balance x)
            insufficient_funds (record_change change b')
            λ covered.
              finish-Moves u b b' change mid v found refl refl refl (pos 0 -ℤ x) (pos 0) refl refl
                (omega int_laws) (omega int_laws) (grind (int_laws, v.nonneg u b found))

  lock_funds_callback-Succeeds :
      (reference : Option ℕ)
      → Succeeds u (pos 0 -ℤ x) (x) mid (lock_funds_callback x reference b mid)
  unfolding lock_funds_callback
  lock_funds_callback-Succeeds reference =
      let b' : Balance = record b {
        available_balance = b.available_balance -ℤ x;
        locked_balance = b.locked_balance +ℤ x;
      } in
      let change =
        entry b x TransactionType.debit bet reference Metadata.lock_funds
          (b.available_balance -ℤ x +ℤ x) (b.available_balance -ℤ x) in
      raise_if-Succeeds u (pos 0 -ℤ x) (x) mid (ltb_ℤ b.available_balance x) insufficient_available
        (record_change change b')
        λ covered.
          finish-Moves u b b' change mid v found refl refl refl (pos 0 -ℤ x) (x) refl refl
            (omega int_laws) (omega int_laws) (grind (int_laws, v.nonneg u b found))

  unlock_funds_callback-Succeeds :
      (reference : Option ℕ)
      → Succeeds u (x) (pos 0 -ℤ x) mid (unlock_funds_callback x reference b mid)
  unfolding unlock_funds_callback
  unlock_funds_callback-Succeeds reference =
      let b' : Balance = record b {
        available_balance = b.available_balance +ℤ x;
        locked_balance = b.locked_balance -ℤ x;
      } in
      let change =
        entry b x TransactionType.credit bet reference Metadata.unlock_funds
          (b.available_balance +ℤ x -ℤ x) (b.available_balance +ℤ x) in
      raise_if-Succeeds u (x) (pos 0 -ℤ x) mid (ltb_ℤ b.locked_balance x) insufficient_locked
        (record_change change b')
        λ covered.
          finish-Moves u b b' change mid v found refl refl refl (x) (pos 0 -ℤ x) refl refl
            (omega int_laws) (omega int_laws) (grind (int_laws, v.nonneg u b found))

  consume_locked_funds_callback-Succeeds :
      (reference : Option ℕ)
      → Succeeds u (pos 0) (pos 0 -ℤ x) mid (consume_locked_funds_callback x reference b mid)
  unfolding consume_locked_funds_callback
  consume_locked_funds_callback-Succeeds reference =
      let b' : Balance = record b { locked_balance = b.locked_balance -ℤ x } in
      let change =
        entry b x TransactionType.debit bet reference consume_locked (b.locked_balance -ℤ x +ℤ x)
          (b.locked_balance -ℤ x) in
      raise_if-Succeeds u (pos 0) (pos 0 -ℤ x) mid (ltb_ℤ b.locked_balance x) insufficient_locked
        (record_change change b')
        λ covered.
          finish-Moves u b b' change mid v found refl refl refl (pos 0) (pos 0 -ℤ x) refl refl
            (omega int_laws) (omega int_laws) (grind (int_laws, v.nonneg u b found))

module _ (new_id : IdSource) (fresh : IsFresh new_id) (u : ℕ) (x : ℤ) (db : WalletDb)
    (v : IsValid db) where
  -- A method throws on an amount that is not positive, and runs its callback on any other.
  guarded-Commits :
      (dx dy : ℤ) (callback : Balance → WalletAction Balance)
      → (leb_ℤ x (pos 0) ≡ false
          → (mid : WalletDb) (b : Balance) → IsValid mid
          → find_user u mid.balances ≡ some b
          → Succeeds u dx dy mid (callback b mid))
      → Commits u dx dy db (
          (raise_if (leb_ℤ x (pos 0)) amount_not_positive
              >> perform_atomic_operation new_id u callback)
            db)
  guarded-Commits dx dy callback each =
      raise_if-Commits u dx dy db (leb_ℤ x (pos 0)) amount_not_positive
        (perform_atomic_operation new_id u callback)
        λ positive. perform-Commits new_id fresh u dx dy callback (each positive) db v

  -- `credit` in a valid store, with fresh ids of new rows: where it succeeds, the amount is added to
  -- the user's available funds, no other funds change, the store stays valid and the log only grows;
  -- where it throws, nothing changes.
  pub credit-Commits :
      (source : TransactionSource) (reference : Option ℕ) (m : ℕ)
      → Commits u (x) (pos 0) db (credit new_id u x source reference (caller m) db)
  unfolding credit
  credit-Commits source reference m =
      guarded-Commits (x) (pos 0) (credit_callback x source reference (caller m))
        λ positive mid b vm found.
          credit_callback-Succeeds u x positive mid b vm found source reference m

  -- `debit` in a valid store, with fresh ids of new rows: where it succeeds, the amount is taken from
  -- the user's available funds, no other funds change, the store stays valid and the log only grows;
  -- where it throws, nothing changes.
  pub debit-Commits :
      (source : TransactionSource) (reference : Option ℕ) (m : ℕ)
      → Commits u (pos 0 -ℤ x) (pos 0) db (debit new_id u x source reference (caller m) db)
  unfolding debit
  debit-Commits source reference m =
      guarded-Commits (pos 0 -ℤ x) (pos 0) (debit_callback x source reference (caller m))
        λ positive mid b vm found.
          debit_callback-Succeeds u x positive mid b vm found source reference m

  -- `lockFunds` in a valid store, with fresh ids of new rows: where it succeeds, the amount moves from
  -- the user's available to the locked funds, no other funds change, the store stays valid and the
  -- log only grows; where it throws, nothing changes.
  pub lock_funds-Commits :
      (reference : Option ℕ) → Commits u (pos 0 -ℤ x) (x) db (lock_funds new_id u x reference db)
  unfolding lock_funds
  lock_funds-Commits reference =
      guarded-Commits (pos 0 -ℤ x) (x) (lock_funds_callback x reference) λ positive mid b vm found.
        lock_funds_callback-Succeeds u x positive mid b vm found reference

  -- `unlockFunds` in a valid store, with fresh ids of new rows: where it succeeds, the amount moves
  -- from the user's locked to the available funds, no other funds change, the store stays valid and
  -- the log only grows; where it throws, nothing changes.
  pub unlock_funds-Commits :
      (reference : Option ℕ) → Commits u (x) (pos 0 -ℤ x) db (unlock_funds new_id u x reference db)
  unfolding unlock_funds
  unlock_funds-Commits reference =
      guarded-Commits (x) (pos 0 -ℤ x) (unlock_funds_callback x reference)
        λ positive mid b vm found.
          unlock_funds_callback-Succeeds u x positive mid b vm found reference

  -- `consumeLockedFunds` in a valid store, with fresh ids of new rows: where it succeeds, the amount is
  -- taken from the user's locked funds, no other funds change, the store stays valid and the log only
  -- grows; where it throws, nothing changes.
  pub consume_locked_funds-Commits :
      (reference : Option ℕ)
      → Commits u (pos 0) (pos 0 -ℤ x) db (consume_locked_funds new_id u x reference db)
  unfolding consume_locked_funds
  consume_locked_funds-Commits reference =
      guarded-Commits (pos 0) (pos 0 -ℤ x) (consume_locked_funds_callback x reference)
        λ positive mid b vm found.
          consume_locked_funds_callback-Succeeds u x positive mid b vm found reference

  -- In a valid store, with fresh ids of new rows, each of the five calls that move funds, where it
  -- succeeds, moves just the amount and keeps all other funds, the store stays valid and the log only
  -- grows; where it throws, nothing changes. `credit` adds to the user's available funds and `debit`
  -- takes from them, `lockFunds` moves available funds to the locked ones and `unlockFunds` moves them
  -- back, and `consumeLockedFunds` takes from the locked ones.
  pub calls-Commit :
      (source : TransactionSource) (reference : Option ℕ) (m : ℕ)
      → Commits u x (pos 0) db (credit new_id u x source reference (caller m) db)
        × Commits u (pos 0 -ℤ x) (pos 0) db (debit new_id u x source reference (caller m) db)
        × Commits u (pos 0 -ℤ x) x db (lock_funds new_id u x reference db)
        × Commits u x (pos 0 -ℤ x) db (unlock_funds new_id u x reference db)
        × Commits u (pos 0) (pos 0 -ℤ x) db (consume_locked_funds new_id u x reference db)
  calls-Commit source reference m = (
    credit-Commits source reference m,
    debit-Commits source reference m,
    lock_funds-Commits reference,
    unlock_funds-Commits reference,
    consume_locked_funds-Commits reference,
  )
