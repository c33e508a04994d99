-- ===== src/Spins/Play.antt =====
-- `executeSpin` as a whole: how it ends, and what it has done then.
use renaissance_api.Common.{
  arith, ℕ, ◌≡◌, refl, sym, subst, Bool, true, false, not, Option, none, some, [], ◌∷◌, ◌++◌, inl,
  inr, ◌⊎◌, Option-cases,
}
use renaissance_api.Common.Int.{ℤ, pos, ltb_ℤ, ◌+ℤ◌, ◌<ℤ◌, ◌-ℤ◌}
use renaissance_api.Common.Action.{
  Result, ok, err, ◌>>◌, ◌>>=◌, raise_if, refused-or, in_transaction,
}
use renaissance_api.Wallet
use renaissance_api.Wallet.{WalletDb, caller}
use renaissance_api.Wallet.Invariant
use renaissance_api.Wallet.Invariant.{available}
use renaissance_api.Vouchers
use renaissance_api.Wallet.Transactions.{Moves}
use renaissance_api.Wallet.Updates.{Updates, update_user_balance-Updates, Moves-trans}
use renaissance_api.RateLimit
use renaissance_api.Spins.{
  voucher_error, Spin, SpinDb, SpinResult, CreateSpin, Environment, Error, in_wallet, to_result,
  settled_event, new_spin, save_spin, generate_secure_outcome, minimum_stake, minimum_stake_units,
  stake_refused, treasury_unavailable, spin_in_transaction, draw_and_pay, save_and_pay, session_of,
  execute_found, execute_spin, after_commit, find_by_session,
}
use renaissance_api.Spins.Payout.{
  by_voucher, credited, spin_after, db_after, PaysOut, pay_out-PaysOut,
}

-- What a spin adds to its user's funds.
abbrev pub net : Spin → ℤ
net s = (pos 0 -ℤ s.stake_amount) +ℤ credited s

module _ (env : Environment) (now user : ℕ) (dto : CreateSpin) (random : ℕ) where
  -- The spin that is drawn for the request.
  abbrev pub drawn_spin : SpinDb → Spin
  drawn_spin db =
      new_spin env now (env.spin_ids db.spins) user dto.stake_amount (session_of env now user dto)
        (generate_secure_outcome dto.stake_amount random) (env.seed_digest random)

  -- The store after a spin, with its wallet: after its transaction, and in the end.
  abbrev pub stored : WalletDb → SpinDb → SpinDb
  stored w db = let s = drawn_spin db in db_after env now (by_voucher s) s w (save_spin s db).1

  abbrev pub completed : WalletDb → SpinDb → SpinDb
  completed w db = record (stored w db) {
    limits = (RateLimit.record_interaction now user db.limits).1;
    events = db.events ++ settled_event (drawn_spin db) ∷ [];
  }

-- Why a new session is refused: the stake is too low, or would take more than the available funds, the
-- contract refuses the payout, or the voucher service the voucher that pays it.
pub data Refusal (env : Environment) (now user : ℕ) (dto : CreateSpin) (random : ℕ) (db : SpinDb)
    (e : Error) : Type 0 where
  too_low :
      ltb_ℤ dto.stake_amount minimum_stake_units ≡ true
      → e ≡ minimum_stake
      → Refusal env now user dto random db e
  not_covered :
      available user db.wallet +ℤ (pos 0 -ℤ dto.stake_amount) <ℤ pos 0
      → e ≡ stake_refused
      → Refusal env now user dto random db e
  no_treasury :
      env.treasury_check (generate_secure_outcome dto.stake_amount random).1 ≡ false
      → e ≡ treasury_unavailable
      → Refusal env now user dto random db e
  no_voucher :
      by_voucher (drawn_spin env now user dto random db) ≡ true
      → (v : Vouchers.Error) → e ≡ voucher_error v
      → Refusal env now user dto random db e

module _ (env : Environment) (now user : ℕ) (dto : CreateSpin) (random : ℕ) where
  -- The transaction has stored the spin, taken the stake and paid out, or it has thrown.
  abbrev pub Spun : SpinDb → Result Error Spin × SpinDb → Type 0
  Spun db (err e, db') = Refusal env now user dto random db e
  Spun db (ok s', db') =
      let s = drawn_spin env now user dto random db in
      PaysOut env now (by_voucher s) (net s) s (save_spin s db).1 (ok s', db')

  paid-Spun :
      (db : SpinDb) (r : Result Error Spin × SpinDb)
      → (let s = drawn_spin env now user dto random db in
          PaysOut env now (by_voucher s) (net s) s (save_spin s db).1 r)
      → Spun db r
  paid-Spun db (ok s', db') p = p
  paid-Spun db (err e, db') (q, v, same) = no_voucher q v same

  -- A payout after the stake was taken.
  after_stake :
      (q : Bool) (x y : ℤ) (s : Spin) (w : WalletDb) (db : SpinDb) (r : Result Error Spin × SpinDb)
      → Moves s.user_id x (pos 0) db.wallet w
      → PaysOut env now q y s (record db { wallet = w }) r
      → PaysOut env now q (x +ℤ y) s db r
  after_stake q x y s w db (err e, db') first paid = paid
  after_stake true x y s w db (ok s', db') first (w', second, same, after) =
      (w', Moves-trans s.user_id x y db.wallet w w' first second, same, after)
  after_stake false x y s w db (ok s', db') first (w', second, same, after) =
      (w', Moves-trans s.user_id x y db.wallet w w' first second, same, after)

  module _ (fresh : Wallet.IsFresh env.balance_ids) where
    drawn-Spun :
        (db : SpinDb) (w : WalletDb)
        → Moves user (pos 0 -ℤ dto.stake_amount) (pos 0) db.wallet w
        → Spun db (
            draw_and_pay env now user dto.stake_amount
              (session_of env now user dto)
              random
              (record db { wallet = w }))
    drawn-Spun db w moved =
        let s = drawn_spin env now user dto random db in
        let drawn = generate_secure_outcome dto.stake_amount random in
        refused-or (Spun db) (record db { wallet = w }) (not (env.treasury_check drawn.1))
          treasury_unavailable
          (save_and_pay env now user dto.stake_amount (session_of env now user dto) drawn random)
          (λ refused. no_treasury (ground arith) refl)
          λ _. paid-Spun db _ (
            after_stake (by_voucher s) (pos 0 -ℤ dto.stake_amount) (credited s) s w
              (save_spin s db).1 _ moved
              (pay_out-PaysOut env now fresh s (save_spin s (record db { wallet = w })).1 moved.0))

    staked-Spun :
        (db : SpinDb) (r : Result Wallet.Error Bool × WalletDb)
        → Updates user (pos 0 -ℤ dto.stake_amount) db.wallet r
        → Spun db (
            (in_wallet (λ _. r) >>= λ success.
            raise_if (not success) stake_refused
            >> draw_and_pay env now user dto.stake_amount (session_of env now user dto) random)
              db)
    staked-Spun db (ok true, w) moved = drawn-Spun db w moved
    staked-Spun db (ok false, w) u = not_covered u.2 refl
    staked-Spun db (err e, w) u = absurd u

    pub transaction-Spun :
        (db : SpinDb)
        → Invariant.IsValid db.wallet
        → Spun db (
            spin_in_transaction env now user dto.stake_amount
              (session_of env now user dto)
              random
              db)
    unfolding spin_in_transaction
    transaction-Spun db v =
        refused-or (Spun db) db (ltb_ℤ dto.stake_amount minimum_stake_units) minimum_stake
          (in_wallet (
              Wallet.update_user_balance env.balance_ids user (pos 0 -ℤ dto.stake_amount) env.uuid
                (caller (session_of env now user dto)))
            >>= λ success.
                raise_if (not success) stake_refused
                >> draw_and_pay env now user dto.stake_amount (session_of env now user dto) random)
          (λ low. too_low low refl)
          λ _. staked-Spun db _ (
            update_user_balance-Updates env.balance_ids fresh user (pos 0 -ℤ dto.stake_amount)
              env.uuid (session_of env now user dto) db.wallet v)

-- `executeSpin` when it ends in the store `db'`. If it throws, the session was new and was refused, and
-- nothing has changed. Else it answers
-- with the spin that the session has played, and nothing has changed; or, if the session is new, it
-- has drawn and stored a spin and paid it out, noted the interaction and published one event.
abbrev pub Plays :
    Environment → ℕ → ℕ → CreateSpin → ℕ → SpinDb → Result Error SpinResult × SpinDb → Type 0
Plays env now user dto random db (err e, db') =
    (find_by_session (session_of env now user dto) db.spins ≡ none)
    × Refusal env now user dto random db e
    × (db' ≡ db)
Plays env now user dto random db (ok r, db') =
    ((s : Spin) × (find_by_session (session_of env now user dto) db.spins ≡ some s)
      × (r ≡ to_result s)
      × (db' ≡ db))
    ⊎ ((find_by_session (session_of env now user dto) db.spins ≡ none)
        × (r ≡ to_result (drawn_spin env now user dto random db))
        × (w : WalletDb) × Moves user (net (drawn_spin env now user dto random db)) (pos 0)
            db.wallet w
        × (db' ≡ completed env now user dto random w db))

-- The voucher of a payout shows neither in the answer nor in the event.
commit_result :
    (env : Environment) (now : ℕ) (q : Bool) (s : Spin) (w : WalletDb) (db : SpinDb)
    → after_commit env now (spin_after env now q s db) (db_after env now q s w db) ≡ (
      ok (to_result s),
      record (db_after env now q s w db) {
        limits = (RateLimit.record_interaction now s.user_id db.limits).1;
        events = db.events ++ settled_event s ∷ [];
      },
    )
commit_result env now true s w db = refl
commit_result env now false s w db = refl

module _ (env : Environment) (now user : ℕ) (dto : CreateSpin) (random : ℕ) where
  commit-Plays :
      (db : SpinDb) (r : Result Error Spin × SpinDb)
      → find_by_session (session_of env now user dto) db.spins ≡ none
      → Spun env now user dto random db r
      → Plays env now user dto random db ((in_transaction (λ _. r) >>= after_commit env now) db)
  commit-Plays db (err e, db') new p = (new, p, refl)
  commit-Plays db (ok s', db') new (w, moved, same, after) =
      let s = drawn_spin env now user dto random db in
      let ends : after_commit env now s' db'
          ≡ (ok (to_result s), completed env now user dto random w db) =
        rw (same, after) (commit_result env now (by_voucher s) s w (save_spin s db).1) in
      subst (Plays env now user dto random db) (sym ends) (inr (new, refl, w, moved, refl))

  -- In a store whose wallet is valid, with fresh ids of new balances, a spin answers a session that
  -- is known with its stored spin and changes nothing. For a new session it succeeds: the drawn spin
  -- is stored, with its amounts rounded to two decimals, and answered as it was drawn, the user's
  -- available funds change by the payout less the stake, or by the stake alone where a voucher of
  -- the payout is created, no other funds move, the interaction is noted and one event published. Or
  -- it throws and changes nothing: for a stake below the minimum or above the available funds, a
  -- refusal of the payout by the contract, or of the voucher.
  pub execute_spin-Plays :
      (db : SpinDb)
      → Wallet.IsFresh env.balance_ids
      → Invariant.IsValid db.wallet
      → Plays env now user dto random db (execute_spin env now user dto random db)
  unfolding execute_spin
  execute_spin-Plays db fresh v =
      let session = session_of env now user dto in
      let plays = λ (o : Option Spin).
        Plays env now user dto random db (execute_found env now user dto random o db) in
      elim (Option-cases (find_by_session session db.spins)) [
        | inl new ↦
            subst plays (sym new)
              (commit-Plays db _ new (transaction-Spun env now user dto random fresh db v))
        | inr (s, known) ↦ subst plays (sym known) (inl (s, known, refl, refl))
      ]
