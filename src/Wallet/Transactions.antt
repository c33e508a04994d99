-- ===== src/Wallet/Transactions.antt =====
-- A transaction of the wallet, by what its callback does: it commits a change that keeps the
-- invariant and moves a stated amount for one user, or it rolls back and changes nothing.
use renaissance_api.Common.{
  ℕ, ◌≡◌, refl, sym, ap, subst, ◌∙◌, Bool, true, false, inl, inr, none, some, arith, Option-cases,
  find_by,
}
use renaissance_api.Common.Int.{ℤ, ◌+ℤ◌}
use renaissance_api.Common.Action.{Result, ok, err, in_transaction, raise_if, ◌>>=◌, ◌>>◌}
use renaissance_api.Wallet.{
  Balance, BalanceTransaction, Error, WalletDb, WalletAction, IdSource, IsFresh, find_user, is_some,
  new_balance_row, or_create, create_row, perform_atomic_operation,
}
use renaissance_api.Wallet.Rows.{save, user-find_user}
use renaissance_api.Wallet.Invariant.{
  IsValid, IsNonneg, available, locked, available_delta, locked_delta, only, after, post-IsValid,
  post-available, post-locked, created-IsValid, created_found, created-available, created-locked,
}

-- What the log shows, it goes on to show.
abbrev pub Extends : WalletDb → WalletDb → Type 0
Extends db db' =
    (p : BalanceTransaction → Bool)
    → is_some (find_by p db.transactions) ≡ true
    → is_some (find_by p db'.transactions) ≡ true

-- `u`'s available and locked funds change by `x` and `y`, and no other user's.
abbrev pub Moves : ℕ → ℤ → ℤ → WalletDb → WalletDb → Type 0
Moves u x y db db' =
    IsValid db'
    × ((w : ℕ) → available w db' ≡ available w db +ℤ only u x w)
    × ((w : ℕ) → locked w db' ≡ locked w db +ℤ only u y w)
    × Extends db db'

-- What a call that began at `db` has done, by how it ended.
abbrev pub Commits : {A : Type 0} → ℕ → ℤ → ℤ → WalletDb → Result Error A × WalletDb → Type 0
Commits u x y db (ok _, db') = Moves u x y db db'
Commits u x y db (err _, db') = db' ≡ db

-- The same before the transaction ends: what a throw leaves behind is rolled back.
abbrev pub Succeeds : {A : Type 0} → ℕ → ℤ → ℤ → WalletDb → Result Error A × WalletDb → Type 0
Succeeds u x y db (ok _, db') = Moves u x y db db'
Succeeds u x y db (err _, db') = Unit

pub raise_if-Commits :
    {A : Type 0} (u : ℕ) (x y : ℤ) (db : WalletDb) (c : Bool) (e : Error) (m : WalletAction A)
    → (c ≡ false → Commits u x y db (m db))
    → Commits u x y db ((raise_if c e >> m) db)
raise_if-Commits u x y db true e m h = refl
raise_if-Commits u x y db false e m h = h refl

pub raise_if-Succeeds :
    {A : Type 0} (u : ℕ) (x y : ℤ) (db : WalletDb) (c : Bool) (e : Error) (m : WalletAction A)
    → (c ≡ false → Succeeds u x y db (m db))
    → Succeeds u x y db ((raise_if c e >> m) db)
raise_if-Succeeds u x y db true e m h = tt
raise_if-Succeeds u x y db false e m h = h refl

rollback-Commits :
    {A : Type 0} (u : ℕ) (x y : ℤ) (db mid : WalletDb) (r : Result Error A × WalletDb)
    → ((w : ℕ) → available w mid ≡ available w db)
    → ((w : ℕ) → locked w mid ≡ locked w db)
    → Extends db mid
    → Succeeds u x y mid r
    → Commits u x y db (in_transaction {S = WalletDb} (λ _. r) db)
rollback-Commits u x y db mid (ok a, db') p q r h =
    (h.0, λ w. rw (← p w) (h.1 w), λ w. rw (← q w) (h.2 w), λ test e. h.3 test (r test e))
rollback-Commits u x y db mid (err e, db') p q r h = refl

module _ (new_id : IdSource) where
  abbrev pub new_row : ℕ → WalletDb → Balance
  new_row u db = new_balance_row (new_id db.balances) u

  abbrev pub with_row : ℕ → WalletDb → WalletDb
  with_row u db = record db { balances = save (new_row u db) db.balances }

  module _ (u : ℕ) (operation : Balance → WalletAction Balance) (db : WalletDb) where
    perform-found :
        (b : Balance)
        → find_user u db.balances ≡ some b
        → perform_atomic_operation new_id u operation db ≡ in_transaction (λ _. operation b db) db
    unfolding perform_atomic_operation
    perform-found b h =
        subst
          (λ o.
            in_transaction (or_create o (create_row new_id u) >>= operation) db
            ≡ in_transaction (λ _. operation b db) db)
          (sym h) refl

    perform-missing :
        find_user u db.balances ≡ none
        → perform_atomic_operation new_id u operation db
          ≡ in_transaction (λ _. operation (new_row u db) (with_row u db)) db
    unfolding perform_atomic_operation
    perform-missing h =
        subst
          (λ o.
            in_transaction (or_create o (create_row new_id u) >>= operation) db
            ≡ in_transaction (λ _. operation (new_row u db) (with_row u db)) db)
          (sym h) refl

rollback_raises :
    {A : Type 0} (db : WalletDb) (e : Error) (r : Result Error A × WalletDb)
    → r.0 ≡ err e
    → in_transaction {S = WalletDb} (λ _. r) db ≡ (err e, db)
rollback_raises db e (ok a, db') h = cc
rollback_raises db e (err e', db') h = rw h

-- An operation that throws on every balance leaves the store as it was.
pub perform_raises :
    (new_id : IdSource) (u : ℕ) (operation : Balance → WalletAction Balance) (e : Error)
    (db : WalletDb)
    → ((mid : WalletDb) (b : Balance)
        → mid.transactions ≡ db.transactions
        → (operation b mid).0 ≡ err e)
    → perform_atomic_operation new_id u operation db ≡ (err e, db)
perform_raises new_id u operation e db each = elim (Option-cases (find_user u db.balances)) [
  | inl missing ↦
      perform-missing new_id u operation db missing
      ∙ rollback_raises db e (operation (new_row new_id u db) (with_row new_id u db))
          (each (with_row new_id u db) (new_row new_id u db) refl)
  | inr (b, found) ↦
      perform-found new_id u operation db b found
      ∙ rollback_raises db e (operation b db) (each db b refl)
]

rollback_ok :
    {A : Type 0} (db : WalletDb) (r : Result Error A × WalletDb) (a : A) (db' : WalletDb)
    → in_transaction {S = WalletDb} (λ _. r) db ≡ (ok a, db')
    → r ≡ (ok a, db')
rollback_ok db (ok _, _) a db' h = h
rollback_ok db (err _, _) a db' h = cc

-- What a transaction commits is what its operation wrote.
pub perform_ok :
    (P : WalletDb → Type 0) (new_id : IdSource) (u : ℕ) (operation : Balance → WalletAction Balance)
    (db : WalletDb) (a : Balance) (db' : WalletDb)
    → ((mid : WalletDb) (b : Balance) → operation b mid ≡ (ok a, db') → P db')
    → perform_atomic_operation new_id u operation db ≡ (ok a, db')
    → P db'
perform_ok P new_id u operation db a db' each h = elim (Option-cases (find_user u db.balances)) [
  | inl missing ↦
      let row = new_row new_id u db in
      let mid = with_row new_id u db in
      each mid row (
        rollback_ok db (operation row mid) a db'
          (sym (perform-missing new_id u operation db missing) ∙ h))
  | inr (b, found) ↦ each db b (
      rollback_ok db (operation b db) a db' (sym (perform-found new_id u operation db b found) ∙ h))
]

module _ (new_id : IdSource) (fresh : IsFresh new_id) where
  pub perform-Commits :
      (u : ℕ) (x y : ℤ) (operation : Balance → WalletAction Balance)
      → ((mid : WalletDb) (b : Balance)
          → IsValid mid
          → find_user u mid.balances ≡ some b
          → Succeeds u x y mid (operation b mid))
      → (db : WalletDb) → IsValid db
      → Commits u x y db (perform_atomic_operation new_id u operation db)
  perform-Commits u x y operation each db v = elim (Option-cases (find_user u db.balances)) [
    | inl missing ↦
        let row = new_row new_id u db in
        let mid = with_row new_id u db in
        let new = fresh db.balances in
        rw (perform-missing new_id u operation db missing) (
          rollback-Commits u x y db mid (operation row mid)
            (created-available u row db v missing new refl refl refl)
            (created-locked u row db v missing new refl refl refl) (λ _ h. h)
            (each mid row (created-IsValid u row db v missing new refl refl refl)
              (created_found u row db missing new refl)))
    | inr (b, found) ↦ rw (perform-found new_id u operation db b found) (
        rollback-Commits u x y db db (operation b db) (λ w. refl) (λ w. refl) (λ _ h. h)
          (each db b v found))
  ]

-- The end of an operation on the balance `b` that was found for `u`.
module _ (u : ℕ) (b b' : Balance) (t : BalanceTransaction) (db : WalletDb) (v : IsValid db)
    (found : find_user u db.balances ≡ some b) (same : b'.id ≡ b.id)
    (owner : b'.user_id ≡ b.user_id) (about : t.balance_id ≡ b.id) where
  pub finish-Moves :
      (x y : ℤ)
      → available_delta t ≡ x
      → locked_delta t ≡ y
      → b'.available_balance ≡ b.available_balance +ℤ x
      → b'.locked_balance ≡ b.locked_balance +ℤ y
      → IsNonneg b'
      → Moves u x y db (after b' t db)
  finish-Moves x y p q avail lock good =
      let own = owner ∙ user-find_user u db.balances b found in
      let avail' = avail ∙ ap (λ z. b.available_balance +ℤ z) (sym p) in
      let lock' = lock ∙ ap (λ z. b.locked_balance +ℤ z) (sym q) in
      (
        post-IsValid u b b' t db v found same own about avail' lock' good,
        λ w. rw (← p) (post-available u b b' t db v found same own about avail' lock' good w),
        λ w. rw (← q) (post-locked u b b' t db v found same own about avail' lock' good w),
        λ test h. ground arith,
      )
