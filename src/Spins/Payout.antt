-- ===== src/Spins/Payout.antt =====
-- What `executeSpin` pays out for a stored spin: into the wallet, or by a free-bet voucher.
use renaissance_api.Common.{
  ℕ, ◌≡◌, refl, sym, ap, subst, Bool, true, false, not, arith, ◌&&◌, if◌then◌else◌, save_by, inl,
  inr, Bool-cases,
}
use renaissance_api.Common.Int.{ℤ, pos, ltb_ℤ}
use renaissance_api.Common.Action.{Result, ok, err, pure, ◌>>◌, ◌>>=◌}
use renaissance_api.Wallet
use renaissance_api.Wallet.{WalletDb, caller}
use renaissance_api.Wallet.Invariant
use renaissance_api.Wallet.Transactions.{Moves}
use renaissance_api.Wallet.Updates.{Updates, update_user_balance-Updates, stay-Moves}
use renaissance_api.Vouchers
use renaissance_api.Vouchers.{Voucher, VoucherDb, new_voucher}
use renaissance_api.Vouchers.Rows.{put}
use renaissance_api.Vouchers.Use.{creation_of_request}
use renaissance_api.Spins.{
  voucher_error, Spin, SpinDb, RewardChannel, xlm, nft, free_bet, Environment, Error, in_wallet,
  in_vouchers, pay_channel, pay_out, reward_channel_of, voucher_request, with_voucher, save_spin,
  stored_spin,
}

-- A medium win is paid by a voucher, another win into the wallet.
abbrev pub is_free_bet : RewardChannel → Bool
is_free_bet free_bet = true
is_free_bet _ = false

abbrev pub by_voucher : Spin → Bool
by_voucher s = ltb_ℤ (pos 0) s.payout_amount && is_free_bet (reward_channel_of s.outcome)

abbrev pub credited : Spin → ℤ
credited s = if ltb_ℤ (pos 0) s.payout_amount && not (by_voucher s) then s.payout_amount else pos 0

module _ (env : Environment) (now : ℕ) where
  abbrev pub reward_voucher : Spin → VoucherDb → Voucher
  reward_voucher s vs = new_voucher (env.voucher_ids vs.vouchers) (voucher_request now s)

  -- The spin, with the voucher that paid it if one did.
  abbrev pub spin_after : Bool → Spin → SpinDb → Spin
  spin_after true s db = with_voucher (reward_voucher s db.vouchers).id s
  spin_after false s db = s

  -- The store after a payout, but for the wallet.
  abbrev pub db_after : Bool → Spin → WalletDb → SpinDb → SpinDb
  db_after true s w db = record db {
    spins = save_by (λ x. x.id) (stored_spin (spin_after true s db)) db.spins;
    wallet = w;
    vouchers = record db.vouchers {
      vouchers = put (reward_voucher s db.vouchers) db.vouchers.vouchers;
    };
  }
  db_after false s w db = record db { wallet = w }

  -- What a payout that began at `db` has done: by a voucher or not, and by a credit of `x`. It
  -- throws only what the voucher service throws.
  abbrev pub PaysOut : Bool → ℤ → Spin → SpinDb → Result Error Spin × SpinDb → Type 0
  PaysOut q x s db (err e, db') = (q ≡ true) × (v : Vouchers.Error) × (e ≡ voucher_error v)
  PaysOut q x s db (ok s', db') =
      (w : WalletDb) × Moves s.user_id x (pos 0) db.wallet w
      × (s' ≡ spin_after q s db)
      × (db' ≡ db_after q s w db)

  module _ (fresh : Wallet.IsFresh env.balance_ids) where
    wallet_pays :
        (s : Spin) (db : SpinDb) (r : Result Wallet.Error Bool × WalletDb)
        → Updates s.user_id s.payout_amount db.wallet r
        → ltb_ℤ (pos 0) s.payout_amount ≡ true
        → PaysOut false s.payout_amount s db ((in_wallet (λ _. r) >> pure s) db)
    wallet_pays s db (ok true, w) u p = (w, u, refl, refl)
    wallet_pays s db (ok false, w) u p = absurd (ground arith)
    wallet_pays s db (err e, w) u p = absurd u

    voucher_pays :
        (s : Spin) (db : SpinDb) (r : Result Vouchers.Error Voucher × VoucherDb)
        → Invariant.IsValid db.wallet
        → Vouchers.create_voucher_with_manager env.voucher_ids now
            (voucher_request now s)
            db.vouchers
          ≡ r
        → PaysOut true
            (pos 0)
            s
            db
            ((in_vouchers (λ _. r) >>= λ v. save_spin (with_voucher v.id s)) db)
    voucher_pays s db (ok v, vs) valid e =
        let (same, after) =
          creation_of_request env.voucher_ids now (voucher_request now s) db.vouchers v vs refl e in
        (
          db.wallet,
          stay-Moves s.user_id db.wallet valid,
          ap (λ x. with_voucher x.id s) same,
          rw (same, after) refl,
        )
    voucher_pays s db (err e, vs) valid h = (refl, e, refl)

    channel_pays :
        (s : Spin) (db : SpinDb) (c : RewardChannel)
        → Invariant.IsValid db.wallet
        → ltb_ℤ (pos 0) s.payout_amount ≡ true
        → PaysOut
            (is_free_bet c)
            (if not (is_free_bet c) then s.payout_amount else pos 0)
            s
            db
            (pay_channel env now c s db)
    unfolding pay_channel
    channel_pays s db free_bet v p = voucher_pays s db _ v refl
    channel_pays s db xlm v p =
        wallet_pays s db _
          (update_user_balance-Updates env.balance_ids fresh s.user_id s.payout_amount s.id
            s.session_id db.wallet v)
          p
    channel_pays s db nft v p =
        wallet_pays s db _
          (update_user_balance-Updates env.balance_ids fresh s.user_id s.payout_amount s.id
            s.session_id db.wallet v)
          p

    -- The payout of a spin, in a store whose wallet is valid, with fresh ids of new balances: a
    -- medium win gives one voucher of the payout and leaves the funds as they are; any other payout
    -- above zero is added to the user's available funds; else nothing changes.
    pub pay_out-PaysOut :
        (s : Spin) (db : SpinDb)
        → Invariant.IsValid db.wallet
        → PaysOut (by_voucher s) (credited s) s db (pay_out env now s db)
    unfolding pay_out
    pay_out-PaysOut s db v =
        let c = reward_channel_of s.outcome in
        let by_paid = λ (paid : Bool).
          PaysOut (paid && is_free_bet c)
            (if paid && not (paid && is_free_bet c) then s.payout_amount else pos 0) s db
            ((if paid then pay_channel env now c s else pure s) db) in
        elim (Bool-cases (ltb_ℤ (pos 0) s.payout_amount)) [
          | inl p ↦ subst by_paid (sym p) (channel_pays s db c v p)
          | inr n ↦ subst by_paid (sym n) (db.wallet, stay-Moves s.user_id db.wallet v, refl, refl)
        ]
