-- ===== src/Wallet.antt =====
-- backend/src/wallet/wallet.service.ts: `WalletService`, method by method.
mod Entities
pub mod Rows
pub mod Invariant
pub mod Transactions
pub mod Operations
pub mod Updates
pub mod History
mod Tests
pub use Entities.*
use renaissance_api.Common.{
  ℕ, ◌-◌, ◌*◌, ◌≡◌, Bool, true, false, Option, none, some, List, ◌∷◌, ◌&&◌, ◌==◌, if◌then◌else◌,
  find_by, save_by, select_by, take, length, drop,
}
use renaissance_api.Common.Int.{ℤ, pos, abs, ◌+ℤ◌, ◌-ℤ◌, ltb_ℤ, leb_ℤ}
use renaissance_api.Common.Action.{ok, ◌>>=◌, ◌>>◌, pure, gets, raise_if, modify, in_transaction}

-- `queryRunner.manager.save` of a balance, and of a transaction.
abbrev pub save_balance : Balance → WalletAction Balance
save_balance b db = (ok b, record db { balances = save_by (λ x. x.id) b db.balances })

abbrev pub save_transaction : BalanceTransaction → WalletAction (Unit {0})
save_transaction t = modify λ db. record db { transactions = t ∷ db.transactions }

-- A balance of zero for a user who has none.
abbrev pub new_balance_row : ℕ → ℕ → Balance
new_balance_row i user = record {
  id = i;
  user_id = user;
  available_balance = pos 0;
  locked_balance = pos 0;
}

-- The stored balance, or the one made by `m` where there is none.
abbrev pub or_create : Option Balance → WalletAction Balance → WalletAction Balance
or_create none m = m
or_create (some b) _ = pure b

module _ (new_id : IdSource) where
  unfoldable pub create_row : ℕ → WalletAction Balance
  create_row user db = save_balance (new_balance_row (new_id db.balances) user) db

  unfoldable pub create_wallet : ℕ → WalletAction Balance
  unfolding create_row
  create_wallet user = do or_create (← gets (λ db. find_user user db.balances)) (create_row user)

  unfoldable pub get_balance : ℕ → WalletAction Balance
  unfolding create_wallet
  get_balance user = do or_create (← gets (λ db. find_user user db.balances)) (create_wallet user)

  unfoldable pub perform_atomic_operation :
      ℕ → (Balance → WalletAction Balance) → WalletAction Balance
  unfolding create_row
  perform_atomic_operation user operation = in_transaction do
    balance ← or_create (← gets (λ db. find_user user db.balances)) (create_row user)
    operation balance

-- The `findOne` on the reference that `credit` and `debit` make; an empty one is not looked up.
abbrev pub is_duplicate : ℕ → TransactionType → TransactionSource → BalanceTransaction → Bool
is_duplicate r type source t =
    is_reference r t.reference_id && (same_type t.type type && same_source t.source source)

abbrev pub has_reference :
    Option ℕ → TransactionType → TransactionSource → List BalanceTransaction → Bool
has_reference none type source ts = false
has_reference (some r) type source ts = is_some (find_by (is_duplicate r type source) ts)

-- `queryRunner.manager.create` of a transaction on a balance.
abbrev pub entry :
    Balance
    → ℤ
    → TransactionType
    → TransactionSource
    → Option ℕ
    → Metadata
    → ℤ
    → ℤ
    → BalanceTransaction
entry balance amount type source reference metadata previous new = record {
  balance_id = balance.id;
  amount = amount;
  type = type;
  source = source;
  reference_id = reference;
  metadata = metadata;
  previous_balance = previous;
  new_balance = new;
}

-- The two `save` calls by which an operation ends.
abbrev pub record_change : BalanceTransaction → Balance → WalletAction Balance
record_change t balance = save_transaction t >> save_balance balance

-- `credit`: the callback of its transaction, and the method.
unfoldable pub credit_callback :
    ℤ → TransactionSource → Option ℕ → Metadata → Balance → WalletAction Balance
credit_callback amount source reference metadata balance = do
  processed ← gets (λ db. has_reference reference TransactionType.credit source db.transactions)
  raise_if processed already_processed
  let balance' = record balance { available_balance = balance.available_balance +ℤ amount }
  record_change
      (entry balance amount TransactionType.credit source reference metadata
        (balance.available_balance) balance'.available_balance)
      balance'

unfoldable pub credit :
    IdSource → ℕ → ℤ → TransactionSource → Option ℕ → Metadata → WalletAction Balance
credit new_id user amount source reference metadata = do
  raise_if (leb_ℤ amount (pos 0)) amount_not_positive
  perform_atomic_operation new_id user (credit_callback amount source reference metadata)

-- `debit`: the callback of its transaction, and the method.
unfoldable pub debit_callback :
    ℤ → TransactionSource → Option ℕ → Metadata → Balance → WalletAction Balance
debit_callback amount source reference metadata balance = do
  processed ← gets (λ db. has_reference reference TransactionType.debit source db.transactions)
  raise_if processed already_processed
  raise_if (ltb_ℤ balance.available_balance amount) insufficient_funds
  let balance' = record balance { available_balance = balance.available_balance -ℤ amount }
  record_change
      (entry balance amount TransactionType.debit source reference metadata
        (balance.available_balance) balance'.available_balance)
      balance'

unfoldable pub debit :
    IdSource → ℕ → ℤ → TransactionSource → Option ℕ → Metadata → WalletAction Balance
debit new_id user amount source reference metadata = do
  raise_if (leb_ℤ amount (pos 0)) amount_not_positive
  perform_atomic_operation new_id user (debit_callback amount source reference metadata)

-- `lock_funds`: the callback of its transaction, and the method.
unfoldable pub lock_funds_callback : ℤ → Option ℕ → Balance → WalletAction Balance
lock_funds_callback amount reference balance = do
  raise_if (ltb_ℤ balance.available_balance amount) insufficient_available
  let balance' = record balance {
    available_balance = balance.available_balance -ℤ amount;
    locked_balance = balance.locked_balance +ℤ amount;
  }
  record_change
      (entry balance amount TransactionType.debit bet reference Metadata.lock_funds
        (balance'.available_balance +ℤ amount) balance'.available_balance)
      balance'

unfoldable pub lock_funds : IdSource → ℕ → ℤ → Option ℕ → WalletAction Balance
lock_funds new_id user amount reference = do
  raise_if (leb_ℤ amount (pos 0)) amount_not_positive
  perform_atomic_operation new_id user (lock_funds_callback amount reference)

-- `unlock_funds`: the callback of its transaction, and the method.
unfoldable pub unlock_funds_callback : ℤ → Option ℕ → Balance → WalletAction Balance
unlock_funds_callback amount reference balance = do
  raise_if (ltb_ℤ balance.locked_balance amount) insufficient_locked
  let balance' = record balance {
    available_balance = balance.available_balance +ℤ amount;
    locked_balance = balance.locked_balance -ℤ amount;
  }
  record_change
      (entry balance amount TransactionType.credit bet reference Metadata.unlock_funds
        (balance'.available_balance -ℤ amount) balance'.available_balance)
      balance'

unfoldable pub unlock_funds : IdSource → ℕ → ℤ → Option ℕ → WalletAction Balance
unlock_funds new_id user amount reference = do
  raise_if (leb_ℤ amount (pos 0)) amount_not_positive
  perform_atomic_operation new_id user (unlock_funds_callback amount reference)

-- `consume_locked_funds`: the callback of its transaction, and the method.
unfoldable pub consume_locked_funds_callback : ℤ → Option ℕ → Balance → WalletAction Balance
consume_locked_funds_callback amount reference balance = do
  raise_if (ltb_ℤ balance.locked_balance amount) insufficient_locked
  let balance' = record balance { locked_balance = balance.locked_balance -ℤ amount }
  record_change
      (entry balance amount TransactionType.debit bet reference consume_locked
        (balance'.locked_balance +ℤ amount) balance'.locked_balance)
      balance'

unfoldable pub consume_locked_funds : IdSource → ℕ → ℤ → Option ℕ → WalletAction Balance
consume_locked_funds new_id user amount reference = do
  raise_if (leb_ℤ amount (pos 0)) amount_not_positive
  perform_atomic_operation new_id user (consume_locked_funds_callback amount reference)

-- `updateUserBalanceWithQueryRunner` behind its lookup, and the method, which runs inside the
-- caller's transaction on a signed amount. The result is `true` for `{success: true}`, and
-- `false` for the refusal 'Insufficient funds'.
unfoldable pub apply_update : ℤ → ℕ → Metadata → Balance → WalletAction Bool
apply_update amount reference metadata balance =
    let type = if leb_ℤ (pos 0) amount then TransactionType.credit else TransactionType.debit in
    let balance' = record balance { available_balance = balance.available_balance +ℤ amount } in
    let change =
      entry balance (abs amount) type bet (some reference) metadata balance.available_balance
        balance'.available_balance in
    if ltb_ℤ amount (pos 0) && ltb_ℤ balance.available_balance (abs amount)
    then pure false
    else record_change change balance' >> pure true

unfoldable pub update_user_balance : IdSource → ℕ → ℤ → ℕ → Metadata → WalletAction Bool
unfolding create_row
update_user_balance new_id user amount reference metadata = do
  balance ← or_create (← gets (λ db. find_user user db.balances)) (create_row new_id user)
  apply_update amount reference metadata balance

-- `getTransactionHistory`, for a page from 1 on: the page and the number of all.
unfoldable pub get_transaction_history :
    IdSource → ℕ → ℕ → ℕ → WalletAction (List BalanceTransaction × ℕ)
get_transaction_history new_id user page limit = do
  balance ← get_balance new_id user
  all ← gets (λ db. select_by (λ t. t.balance_id == balance.id) db.transactions)
  pure (take limit (drop ((page - 1) * limit) all), length all)
