-- ===== src/Wallet/History.antt =====
-- The wallet over any sequence of calls: the invariant holds throughout, and a reference is
-- credited, or debited, once.
use renaissance_api.Common.{
  ℕ, ◌≡◌, ap, ◌∙◌, Bool, true, false, Option, some, List, [], ◌∷◌, arith, eq→==, refl, subst,
}
use renaissance_api.Common.Int.{ℤ, pos, leb_ℤ}
use renaissance_api.Common.Action.{Result, ok, err, raise_if, raise_if_ok}
use renaissance_api.Wallet.{
  Balance, TransactionType, TransactionSource, caller, Error, amount_not_positive,
  already_processed, WalletDb, IdSource, IsFresh, has_reference, same_source, is_duplicate, credit,
  credit_callback, perform_atomic_operation, debit, lock_funds, unlock_funds, consume_locked_funds,
  update_user_balance,
}
use renaissance_api.Wallet.Invariant.{IsValid, empty, empty-IsValid}
use renaissance_api.Wallet.Transactions.{Extends, Commits, perform_ok, perform_raises}
use renaissance_api.Wallet.Operations.{
  credit-Commits, debit-Commits, lock_funds-Commits, unlock_funds-Commits,
  consume_locked_funds-Commits,
}
use renaissance_api.Wallet.Updates.{Updates, update_user_balance-Updates}

-- A call of a method, for a user, with its amount.
pub data Call : Type 0 where
  credits debits : TransactionSource → Option ℕ → ℕ → Call
  locks unlocks consumes : Option ℕ → Call
  updates : ℕ → ℕ → Call

abbrev discard : {A : Type 0} → Result Error A × WalletDb → WalletDb
discard (_, db) = db

-- The store after a call; the caller of an update throws when it is refused.
abbrev settle : WalletDb → Result Error Bool × WalletDb → WalletDb
settle db (ok true, db') = db'
settle db (ok false, db') = db
settle db (err _, db') = db

module _ (new_id : IdSource) where
  pub step : ℕ × ℤ × Call → WalletDb → WalletDb
  step (u, x, credits source reference m) db =
      discard (credit new_id u x source reference (caller m) db)
  step (u, x, debits source reference m) db =
      discard (debit new_id u x source reference (caller m) db)
  step (u, x, locks reference) db = discard (lock_funds new_id u x reference db)
  step (u, x, unlocks reference) db = discard (unlock_funds new_id u x reference db)
  step (u, x, consumes reference) db = discard (consume_locked_funds new_id u x reference db)
  step (u, x, updates reference m) db =
      settle db (update_user_balance new_id u x reference (caller m) db)

  pub run : List (ℕ × ℤ × Call) → WalletDb → WalletDb
  run [] db = db
  run (c ∷ cs) db = run cs (step c db)

-- What every call keeps.
abbrev Keeps : WalletDb → WalletDb → Type 0
Keeps db db' = IsValid db' × Extends db db'

discard-Keeps :
    {A : Type 0} (u : ℕ) (x y : ℤ) (db : WalletDb) (r : Result Error A × WalletDb)
    → IsValid db
    → Commits u x y db r
    → Keeps db (discard r)
discard-Keeps u x y db (ok _, db') v h = (h.0, h.3)
discard-Keeps u x y db (err _, db') v h = rw h (v, λ _ k. k)

settle-Keeps :
    (u : ℕ) (x : ℤ) (db : WalletDb) (r : Result Error Bool × WalletDb)
    → IsValid db
    → Updates u x db r
    → Keeps db (settle db r)
settle-Keeps u x db (ok true, db') v h = (h.0, h.3)
settle-Keeps u x db (ok false, db') v h = (v, λ _ k. k)
settle-Keeps u x db (err _, db') v h = absurd h

module _ (new_id : IdSource) (fresh : IsFresh new_id) where
  step-Keeps : (c : ℕ × ℤ × Call) (db : WalletDb) → IsValid db → Keeps db (step new_id c db)
  unfolding step
  step-Keeps (u, x, credits source reference m) db v =
      discard-Keeps u _ _ db (credit new_id u x source reference (caller m) db) v
        (credit-Commits new_id fresh u x db v source reference m)
  step-Keeps (u, x, debits source reference m) db v =
      discard-Keeps u _ _ db (debit new_id u x source reference (caller m) db) v
        (debit-Commits new_id fresh u x db v source reference m)
  step-Keeps (u, x, locks reference) db v =
      discard-Keeps u _ _ db (lock_funds new_id u x reference db) v
        (lock_funds-Commits new_id fresh u x db v reference)
  step-Keeps (u, x, unlocks reference) db v =
      discard-Keeps u _ _ db (unlock_funds new_id u x reference db) v
        (unlock_funds-Commits new_id fresh u x db v reference)
  step-Keeps (u, x, consumes reference) db v =
      discard-Keeps u _ _ db (consume_locked_funds new_id u x reference db) v
        (consume_locked_funds-Commits new_id fresh u x db v reference)
  step-Keeps (u, x, updates reference m) db v =
      settle-Keeps u x db (update_user_balance new_id u x reference (caller m) db) v
        (update_user_balance-Updates new_id fresh u x reference m db v)

  run-Keeps : (cs : List (ℕ × ℤ × Call)) (db : WalletDb) → IsValid db → Keeps db (run new_id cs db)
  unfolding run
  run-Keeps [] db v = (v, λ _ k. k)
  run-Keeps (c ∷ cs) db v =
      let (v', e) = step-Keeps c db v in
      let (w, e') = run-Keeps cs (step new_id c db) v' in (w, λ t k. e' t (e t k))

  -- After any calls on the empty store, with fresh ids of new rows, the balances have distinct ids, no
  -- available or locked balance is negative, and both are what the transaction log adds up to.
  pub run-IsValid : (cs : List (ℕ × ℤ × Call)) → IsValid (run new_id cs empty)
  run-IsValid cs = (run-Keeps cs empty empty-IsValid).0

logged_credit_raises :
    (x : ℤ) (source : TransactionSource) (r m : ℕ) (b : Balance) (db : WalletDb)
    → has_reference (some r) TransactionType.credit source db.transactions ≡ true
    → (credit_callback x source (some r) (caller m) b db).0 ≡ err already_processed
unfolding credit_callback
logged_credit_raises x source r m b db h = ground arith

-- A positive credit whose reference and source are logged is refused, for any user, and changes
-- nothing.
credit_duplicate :
    (new_id : IdSource) (u : ℕ) (x : ℤ) (source : TransactionSource) (r m : ℕ) (db : WalletDb)
    → leb_ℤ x (pos 0) ≡ false
    → has_reference (some r) TransactionType.credit source db.transactions ≡ true
    → credit new_id u x source (some r) (caller m) db ≡ (err already_processed, db)
unfolding credit
credit_duplicate new_id u x source r m db positive logged =
    rw (positive, raise_if)
      (perform_raises new_id u (credit_callback x source (some r) (caller m)) already_processed db
        λ mid b same.
          logged_credit_raises x source r m b mid
            (ap (has_reference (some r) TransactionType.credit source) same ∙ logged))

same_source_refl : (s : TransactionSource) → same_source s s ≡ true
same_source_refl TransactionSource.bet = refl
same_source_refl _ = refl

credit_is_logged :
    (x : ℤ) (source : TransactionSource) (r m : ℕ) (mid : WalletDb) (b a : Balance) (db' : WalletDb)
    → credit_callback x source (some r) (caller m) b mid ≡ (ok a, db')
    → has_reference (some r) TransactionType.credit source db'.transactions ≡ true
unfolding credit_callback
credit_is_logged x source r m mid b a db' h =
    ground (arith, same_source_refl source, eq→== r r refl)

credit_logs :
    (new_id : IdSource) (u : ℕ) (x : ℤ) (source : TransactionSource) (r m : ℕ) (db : WalletDb)
    (a : Balance) (db' : WalletDb)
    → credit new_id u x source (some r) (caller m) db ≡ (ok a, db')
    → has_reference (some r) TransactionType.credit source db'.transactions ≡ true
unfolding credit
credit_logs new_id u x source r m db a db' h =
    let callback = credit_callback x source (some r) (caller m) in
    perform_ok (λ s. has_reference (some r) TransactionType.credit source s.transactions ≡ true)
      new_id u callback db a db' (λ mid b. credit_is_logged x source r m mid b a db')
      (raise_if_ok (leb_ℤ x (pos 0)) amount_not_positive
        (perform_atomic_operation new_id u callback) db a db' h).1

-- A reference is credited once from each source: after a credit has succeeded in a valid store, with
-- fresh ids of new rows, and after any further calls, a positive credit with the same reference and source is refused, for any
-- user, and changes nothing.
pub credit_once :
    (new_id : IdSource)
    → IsFresh new_id
    → (u : ℕ) (x : ℤ) (source : TransactionSource) (r m : ℕ) (db : WalletDb) (a : Balance)
      (db' : WalletDb)
    → IsValid db
    → credit new_id u x source (some r) (caller m) db ≡ (ok a, db')
    → (cs : List (ℕ × ℤ × Call)) (w : ℕ) (y : ℤ) (k : ℕ) → leb_ℤ y (pos 0) ≡ false
    → credit new_id w y source (some r) (caller k) (run new_id cs db')
      ≡ (err already_processed, run new_id cs db')
credit_once new_id fresh u x source r m db a db' v h cs w y k positive =
    let moved = credit-Commits new_id fresh u x db v source (some r) m in
    let v' = (subst (Commits u x (pos 0) db) h moved).0 in
    credit_duplicate new_id w y source r k (run new_id cs db') positive (
      (run-Keeps new_id fresh cs db' v').1 (is_duplicate r TransactionType.credit source)
        (credit_logs new_id u x source r m db a db' h))
