-- ===== src/Spins/Replay.antt =====
-- A session that is sent again: the lookup of the spin that it stored.
use renaissance_api.Common.{
  ℕ, ◌≡◌, refl, sym, ap, subst, ◌∙◌, Bool, true, false, none, some, inl, inr, ◌==◌, eq→==, save_by,
  find_by-save_new, save_by-save_by,
}
use renaissance_api.Common.Action.{Result, ok}
use renaissance_api.Common.Int.{two_decimals, ◌-ℤ◌}
use renaissance_api.Wallet
use renaissance_api.Wallet.Invariant
use renaissance_api.Wallet.{WalletDb}
use renaissance_api.Spins.{
  Spin, SpinDb, SpinResult, CreateSpin, Environment, Error, to_result, session_of, execute_found,
  execute_spin, find_by_session, stored_spin,
}
use renaissance_api.Spins.Payout.{by_voucher, spin_after, db_after}
use renaissance_api.Spins.Play.{drawn_spin, Plays, execute_spin-Plays}

-- An answer whose amounts are rounded to the two decimals of the columns.
abbrev pub rounded_answer : SpinResult → SpinResult
rounded_answer r = record r {
  payout_amount = two_decimals r.payout_amount;
  stake_amount = two_decimals r.stake_amount;
  net_result = two_decimals r.payout_amount -ℤ two_decimals r.stake_amount;
}

module _ (env : Environment) (now : ℕ) where
  found_after :
      (q : Bool) (s : Spin) (w : WalletDb) (db : SpinDb)
      → find_by_session s.session_id db.spins ≡ none
      → find_by_session s.session_id
          (db_after env now q s w
            (record db { spins = save_by (λ x. x.id) (stored_spin s) db.spins })).spins
        ≡ some (stored_spin (spin_after env now q s db))
  found_after true s w db new =
      let s' = stored_spin (spin_after env now true s db) in
      ap (find_by_session s.session_id)
        (save_by-save_by (λ x. x.id) (stored_spin s) s' db.spins refl)
      ∙ find_by-save_new (λ x. x.id) (λ x. x.session_id == s.session_id) s' db.spins new
          (eq→== s.session_id s.session_id refl)
  found_after false s w db new =
      find_by-save_new (λ x. x.id) (λ x. x.session_id == s.session_id) (stored_spin s) db.spins new
        (eq→== s.session_id s.session_id refl)

  after_result :
      (q : Bool) (s : Spin) (db : SpinDb)
      → to_result (stored_spin (spin_after env now q s db)) ≡ rounded_answer (to_result s)
  after_result true s db = refl
  after_result false s db = refl

known_spin :
    (env : Environment) (now user : ℕ) (dto : CreateSpin) (random : ℕ) (db : SpinDb) (s : Spin)
    → find_by_session (session_of env now user dto) db.spins ≡ some s
    → execute_spin env now user dto random db ≡ (ok (to_result s), db)
unfolding execute_spin
known_spin env now user dto random db s known =
    ap (λ o. execute_found env now user dto random o db) known

-- The answer to a new session stands in the store after it, rounded.
answer_stored :
    (env : Environment) (now user : ℕ) (dto : CreateSpin) (random : ℕ) (db : SpinDb)
    (r : SpinResult) (db' : SpinDb)
    → find_by_session (session_of env now user dto) db.spins ≡ none
    → Plays env now user dto random db (ok r, db')
    → (s : Spin) × (find_by_session (session_of env now user dto) db'.spins ≡ some s)
      × (to_result s ≡ rounded_answer r)
answer_stored env now user dto random db r db' new (inl (s, known, same, after)) = absurd (cc)
answer_stored env now user dto random db r db' unknown (inr (new, same, w, moved, after)) =
    let s = drawn_spin env now user dto random db in
    let q = by_voucher s in
    (
      stored_spin (spin_after env now q s db),
      rw after (found_after env now q s w db new),
      after_result env now q s db ∙ ap rounded_answer (sym same),
    )

-- A new session whose spin has succeeded, in a store whose wallet is valid, with fresh ids of new
-- balances, is played once: a further request with the same session id, with any random number and at
-- any time, changes nothing, and gets the first answer again, its amounts rounded to two decimals.
pub execute_spin_twice :
    (env : Environment) (now user : ℕ) (dto : CreateSpin) (random : ℕ) (db : SpinDb)
    (r : SpinResult) (db' : SpinDb)
    → Wallet.IsFresh env.balance_ids
    → Invariant.IsValid db.wallet
    → find_by_session (session_of env now user dto) db.spins ≡ none
    → execute_spin env now user dto random db ≡ (ok r, db')
    → (later user' : ℕ) (dto' : CreateSpin) (random' : ℕ)
    → session_of env later user' dto' ≡ session_of env now user dto
    → execute_spin env later user' dto' random' db' ≡ (ok (rounded_answer r), db')
execute_spin_twice env now user dto random db r db' fresh v new e later user' dto' random'
      same_session =
    let plays =
      subst (Plays env now user dto random db) e
        (execute_spin-Plays env now user dto random db fresh v) in
    let (s, stored, same) = answer_stored env now user dto random db r db' new plays in
    known_spin env later user' dto' random' db' s
      (ap (λ i. find_by_session i db'.spins) same_session ∙ stored)
    ∙ ap (λ x. let a : Result Error SpinResult × SpinDb = (ok x, db') in a) same
