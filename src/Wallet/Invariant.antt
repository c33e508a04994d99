-- ===== src/Wallet/Invariant.antt =====
-- The invariant of the wallet's two tables, and the update by which every operation ends.
use renaissance_api.Common.{
  ℕ, ◌≡◌, refl, sym, ◌∙◌, ◌≢◌, Option, none, some, List, [], ◌∷◌, arith, ◌==◌, if◌then◌else◌,
  Bool-cases, eq→==, inl, inr, false,
}
use renaissance_api.Common.Int.{ℤ, pos, ◌+ℤ◌, ◌-ℤ◌, ◌≤ℤ◌, +ℤ-zero}
use renaissance_api.Wallet.{
  Balance, BalanceTransaction, TransactionType, Metadata, caller, consume_locked, WalletDb,
  find_user, find_id,
}
use renaissance_api.Wallet.Rows.{
  save, UniqueIds, id-ne, find_user-save, find_id-save, save-UniqueIds, find_user-save_new,
}

abbrev pub signed : TransactionType → ℤ → ℤ
signed TransactionType.credit x = x
signed TransactionType.debit x = pos 0 -ℤ x

-- What a logged transaction says of the available and of the locked balance.
abbrev pub available_change : Metadata → TransactionType → ℤ → ℤ
available_change consume_locked type x = pos 0
available_change _ type x = signed type x

abbrev pub locked_change : Metadata → ℤ → ℤ
locked_change (caller _) x = pos 0
locked_change Metadata.lock_funds x = x
locked_change Metadata.unlock_funds x = pos 0 -ℤ x
locked_change consume_locked x = pos 0 -ℤ x

abbrev pub available_delta : BalanceTransaction → ℤ
available_delta t = available_change t.metadata t.type t.amount

abbrev pub locked_delta : BalanceTransaction → ℤ
locked_delta t = locked_change t.metadata t.amount

-- The sum of the changes that are logged for the balance `i`.
unfoldable pub replay : (BalanceTransaction → ℤ) → ℕ → List BalanceTransaction → ℤ
replay delta i [] = pos 0
replay delta i (t ∷ ts) = replay delta i ts +ℤ (if t.balance_id == i then delta t else pos 0)

replay-same :
    (delta : BalanceTransaction → ℤ) (i : ℕ) (t : BalanceTransaction) (ts : List BalanceTransaction)
    → t.balance_id ≡ i
    → replay delta i (t ∷ ts) ≡ replay delta i ts +ℤ delta t
unfolding replay
replay-same delta i t ts h = rw (eq→== t.balance_id i h)

replay-other :
    (delta : BalanceTransaction → ℤ) (i : ℕ) (t : BalanceTransaction) (ts : List BalanceTransaction)
    → t.balance_id ≢ i
    → replay delta i (t ∷ ts) ≡ replay delta i ts
unfolding replay
replay-other delta i t ts h =
    let e : (t.balance_id == i) ≡ false = ground arith in rw e (+ℤ-zero (replay delta i ts))

-- A balance is what its log adds up to.
abbrev pub IsLogged : List BalanceTransaction → Balance → Type 0
IsLogged ts b =
    (b.available_balance ≡ replay available_delta b.id ts)
    × (b.locked_balance ≡ replay locked_delta b.id ts)

abbrev pub IsUnlogged : List BalanceTransaction → ℕ → Type 0
IsUnlogged ts i = (replay available_delta i ts ≡ pos 0) × (replay locked_delta i ts ≡ pos 0)

abbrev pub IsNonneg : Balance → Type 0
IsNonneg b = (pos 0 ≤ℤ b.available_balance) × (pos 0 ≤ℤ b.locked_balance)

pub record IsValid (db : WalletDb) : Type 0 where
  pub unique : UniqueIds db.balances
  pub nonneg : (u : ℕ) (b : Balance) → find_user u db.balances ≡ some b → IsNonneg b
  pub logged : (u : ℕ) (b : Balance) → find_user u db.balances ≡ some b → IsLogged db.transactions b
  pub unlogged : (i : ℕ) → find_id i db.balances ≡ none → IsUnlogged db.transactions i

abbrev pub empty : WalletDb
empty = record { balances = []; transactions = [] }

pub empty-IsValid : IsValid empty
unfolding replay
empty-IsValid = record {
  unique = tt;
  nonneg = λ u b h. cc;
  logged = λ u b h. cc;
  unlogged = λ i h. (refl, refl);
}

-- The funds of a user; a user without a row has none.
abbrev pub available_of : Option Balance → ℤ
available_of none = pos 0
available_of (some b) = b.available_balance

abbrev pub locked_of : Option Balance → ℤ
locked_of none = pos 0
locked_of (some b) = b.locked_balance

abbrev pub available : ℕ → WalletDb → ℤ
available u db = available_of (find_user u db.balances)

abbrev pub locked : ℕ → WalletDb → ℤ
locked u db = locked_of (find_user u db.balances)

-- Only `u`'s funds change, by `x`.
abbrev pub only : ℕ → ℤ → ℕ → ℤ
only u x w = if u == w then x else pos 0

-- The tables after a transaction and a balance have been saved.
abbrev pub after : Balance → BalanceTransaction → WalletDb → WalletDb
after b t db = record { balances = save b db.balances; transactions = t ∷ db.transactions }

-- Every operation ends by saving a transaction `t` and the changed balance `b'`.
module _ (u : ℕ) (b b' : Balance) (t : BalanceTransaction) (db : WalletDb) (v : IsValid db)
    (found : find_user u db.balances ≡ some b) (same : b'.id ≡ b.id) (owner : b'.user_id ≡ u)
    (about : t.balance_id ≡ b.id)
    (avail : b'.available_balance ≡ b.available_balance +ℤ available_delta t)
    (lock : b'.locked_balance ≡ b.locked_balance +ℤ locked_delta t) (good : IsNonneg b') where
  abbrev post : WalletDb
  post = after b' t db

  post-find :
      (w : ℕ) → find_user w post.balances ≡ (if u == w then some b' else find_user w db.balances)
  post-find w = find_user-save u w b b' db.balances v.unique found same owner

  post-IsNonneg : (w : ℕ) (c : Balance) → find_user w post.balances ≡ some c → IsNonneg c
  post-IsNonneg w c h = ground (arith, post-find w, v.nonneg w c)

  IsLogged-here : IsLogged post.transactions b'
  IsLogged-here =
      let (p, q) = v.logged u b found in
      (
        cc (p, replay-same available_delta b'.id t db.transactions (cc)),
        cc (q, replay-same locked_delta b'.id t db.transactions (cc)),
      )

  unlogged-elsewhere :
      (delta : BalanceTransaction → ℤ) (i : ℕ)
      → b.id ≢ i
      → replay delta i post.transactions ≡ replay delta i db.transactions
  unlogged-elsewhere delta i ne = replay-other delta i t db.transactions (λ e. ne (sym about ∙ e))

  post-IsLogged :
      (w : ℕ) (c : Balance) → find_user w post.balances ≡ some c → IsLogged post.transactions c
  post-IsLogged w c h = elim (Bool-cases (u == w)) [
    | inl e ↦ let c-eq : c ≡ b' = ground (arith, post-find w) in rw c-eq IsLogged-here
    | inr e ↦
        let h' : find_user w db.balances ≡ some c = ground (arith, post-find w) in
        let ne = id-ne u w db.balances b c v.unique found h' (λ p. cc (eq→== u w p)) in
        rw (unlogged-elsewhere available_delta c.id ne, unlogged-elsewhere locked_delta c.id ne)
          (v.logged w c h')
  ]

  post-IsUnlogged : (i : ℕ) → find_id i post.balances ≡ none → IsUnlogged post.transactions i
  post-IsUnlogged i h =
      let ne : b.id ≢ i = ground (arith, find_id-save i b' db.balances) in
      let h' : find_id i db.balances ≡ none = ground (arith, find_id-save i b' db.balances) in
      rw (unlogged-elsewhere available_delta i ne, unlogged-elsewhere locked_delta i ne)
        (v.unlogged i h')

  pub post-IsValid : IsValid (after b' t db)
  post-IsValid = record {
    unique = save-UniqueIds b' db.balances v.unique;
    nonneg = post-IsNonneg;
    logged = post-IsLogged;
    unlogged = post-IsUnlogged;
  }

  pub post-available :
      (w : ℕ) → available w (after b' t db) ≡ available w db +ℤ only u (available_delta t) w
  post-available w = ground (arith, post-find w, +ℤ-zero (available w db))

  pub post-locked : (w : ℕ) → locked w (after b' t db) ≡ locked w db +ℤ only u (locked_delta t) w
  post-locked w = ground (arith, post-find w, +ℤ-zero (locked w db))

pub created_found :
    (u : ℕ) (b : Balance) (db : WalletDb)
    → find_user u db.balances ≡ none
    → find_id b.id db.balances ≡ none
    → b.user_id ≡ u
    → find_user u (save b db.balances) ≡ some b
created_found u b db missing fresh owner =
    ground (arith, find_user-save_new u u b db.balances missing fresh owner)

-- A row of zero for a user who had none.
module _ (u : ℕ) (b : Balance) (db : WalletDb) (v : IsValid db)
    (missing : find_user u db.balances ≡ none) (fresh : find_id b.id db.balances ≡ none)
    (owner : b.user_id ≡ u) (zero_available : b.available_balance ≡ pos 0)
    (zero_locked : b.locked_balance ≡ pos 0) where
  abbrev created : WalletDb
  created = record db { balances = save b db.balances }

  created-find :
      (w : ℕ) → find_user w created.balances ≡ (if u == w then some b else find_user w db.balances)
  created-find w = find_user-save_new u w b db.balances missing fresh owner

  created-IsLogged :
      (w : ℕ) (c : Balance)
      → find_user w created.balances ≡ some c
      → IsLogged created.transactions c
  created-IsLogged w c h = ground (arith, created-find w, v.logged w c, v.unlogged b.id fresh)

  pub created-IsValid : IsValid (record db { balances = save b db.balances })
  created-IsValid = record {
    unique = save-UniqueIds b db.balances v.unique;
    nonneg = λ w c h. ground (arith, created-find w, v.nonneg w c);
    logged = created-IsLogged;
    unlogged = λ j h. v.unlogged j (ground (arith, find_id-save j b db.balances));
  }

  pub created-available :
      (w : ℕ) → available w (record db { balances = save b db.balances }) ≡ available w db
  created-available w = ground (arith, created-find w)

  pub created-locked :
      (w : ℕ) → locked w (record db { balances = save b db.balances }) ≡ locked w db
  created-locked w = ground (arith, created-find w)
