-- ===== src/Bets/Cancellation.antt =====
-- `cancelBet`: what it leaves of a bet, of the funds and of the vouchers, error paths included.
use renaissance_api.Common.{
  ℕ, ◌≡◌, refl, sym, ap, subst, ◌∙◌, Bool, true, false, not, Option, none, some, ◌&&◌, ◌||◌, arith,
  ◌==◌, if◌then◌else◌, ◌⊎◌, inl, inr, Option-cases, Bool-cases, save_by,
}
use renaissance_api.Common.Int.{pos}
use renaissance_api.Common.Action.{Result, ok, err, ◌>>=◌, ◌>>◌, pure, raise_if, found-or, guarded}
use renaissance_api.Wallet
use renaissance_api.Wallet.{WalletDb, IdSource, IsFresh, caller}
use renaissance_api.Wallet.Invariant.{IsValid}
use renaissance_api.Wallet.Transactions.{Moves, Commits}
use renaissance_api.Wallet.Operations.{credit-Commits}
use renaissance_api.Vouchers
use renaissance_api.Vouchers.{
  VoucherDb, restored, unused, save_restored, is_other_bet, find_voucher,
  restore_voucher_with_manager,
}
use renaissance_api.Bets.{
  Bet, cancelled, Db, Error, BetAction, cancel_bet, refund, is_pending, find_bet, bet_not_found,
  no_access, already_settled, in_wallet, in_vouchers, save_bet,
}
use renaissance_api.Bets.Batch.{put}

-- The row of the voucher `i` of `user` is unused again, or an error has changed nothing.
abbrev pub Restores :
    ℕ → ℕ → VoucherDb → Result Vouchers.Error Vouchers.Voucher × VoucherDb → Type 0
Restores i user db (ok v, db') =
    (x : Vouchers.Voucher) × (find_voucher i db.vouchers ≡ some x)
    × (x.user_id ≡ user)
    × (v ≡ restored x)
    × (db' ≡ record db { vouchers = save_by (λ y. y.id) (unused x) db.vouchers })
Restores i user db (err e, db') = db' ≡ db

restore_voucher-Restores :
    (i user : ℕ) (bet : Option ℕ) (db : VoucherDb)
    → Restores i user db (restore_voucher_with_manager i user bet db)
unfolding restore_voucher_with_manager
restore_voucher-Restores i user bet db =
    let finish : Vouchers.Voucher → Vouchers.VoucherAction Vouchers.Voucher =
      λ v. save_restored v in
    found-or (Restores i user db) db (find_voucher i db.vouchers) Vouchers.voucher_not_found
      (λ v.
        raise_if (not (v.user_id == user)) Vouchers.no_access
        >> (raise_if (is_other_bet bet v.used_for_bet_id) Vouchers.linked_to_other_bet >> finish v))
      refl
      λ v found.
        guarded (Restores i user db) db (not (v.user_id == user)) Vouchers.no_access
          (raise_if (is_other_bet bet v.used_for_bet_id) Vouchers.linked_to_other_bet >> finish v)
          refl
          λ owner.
            guarded (Restores i user db) db (is_other_bet bet v.used_for_bet_id)
              Vouchers.linked_to_other_bet (finish v) refl
              λ linked. (v, found, ground arith, refl, refl)

-- Whether a cancelled bet gives back its voucher: it has one, which is a free bet that cannot be
-- withdrawn.
abbrev pub returns_voucher : Bet → Bool
returns_voucher b = elim b.metadata.voucher_id [
  | none ↦ false
  | some i ↦ b.metadata.is_free_bet && not b.metadata.is_voucher_withdrawable
]

-- What a cancellation that has ended has done.
abbrev pub Refunds : Bet → Db → Db → Type 0
Refunds b db db' =
    ((returns_voucher b ≡ false)
      × (db'.vouchers ≡ db.vouchers)
      × Moves b.user_id b.stake_amount (pos 0) db.wallet db'.wallet)
    ⊎ ((returns_voucher b ≡ true)
        × (db'.wallet ≡ db.wallet)
        × (i : ℕ) × (x : Vouchers.Voucher) × (b.metadata.voucher_id ≡ some i)
        × (find_voucher i db.vouchers.vouchers ≡ some x)
        × (x.user_id ≡ b.user_id)
        × (db'.vouchers ≡ record db.vouchers {
          vouchers = save_by (λ y. y.id) (unused x) db.vouchers.vouchers;
        }))

returns_of :
    (b : Bet) (o : Option ℕ)
    → b.metadata.voucher_id ≡ o
    → returns_voucher b ≡ elim o as (λ _. Bool) [
      | none ↦ false
      | some i ↦ b.metadata.is_free_bet && not b.metadata.is_voucher_withdrawable
    ]
returns_of b o e =
    ap
      (λ (x : Option ℕ). elim x as (λ _. Bool) [
        | none ↦ false
        | some i ↦ b.metadata.is_free_bet && not b.metadata.is_voucher_withdrawable
      ])
      e

abbrev pub RefundEnds : Bet → Db → Result Error (Unit {0}) × Db → Type 0
RefundEnds b db (ok _, db') =
    (db'.bets ≡ db.bets) × (db'.events ≡ db.events) × (db'.matches ≡ db.matches) × Refunds b db db'
RefundEnds b db (err e, db') = db' ≡ db

-- A step of the refund whose result is dropped.
wallet_refund :
    (b : Bet) (db : Db) (r : Result Wallet.Error Wallet.Balance × WalletDb)
    → returns_voucher b ≡ false
    → Commits b.user_id b.stake_amount (pos 0) db.wallet r
    → RefundEnds b db ((in_wallet (λ _. r) >>= λ _. pure tt) db)
wallet_refund b db (ok t, w') cash h = (refl, refl, refl, inl (cash, refl, h))
wallet_refund b db (err e, w') cash h = ap (λ w. let d : Db = record db { wallet = w } in d) h

voucher_refund :
    (i : ℕ) (b : Bet) (db : Db) (r : Result Vouchers.Error Vouchers.Voucher × VoucherDb)
    → b.metadata.voucher_id ≡ some i
    → returns_voucher b ≡ true
    → Restores i b.user_id db.vouchers r
    → RefundEnds b db ((in_vouchers (λ _. r) >>= λ _. pure tt) db)
voucher_refund i b db (ok v, v') linked p (x, found, owner, same, after) =
    (refl, refl, refl, inr (p, refl, i, x, linked, found, owner, after))
voucher_refund i b db (err e, v') linked p h =
    ap (λ w. let d : Db = record db { vouchers = w } in d) h

-- A cancellation that has ended.
abbrev pub Cancels : ℕ → ℕ → ℕ → Bool → Db → Result Error Bet × Db → Type 0
Cancels now i user is_admin db (ok b', db') =
    (b : Bet) × (find_bet i db.bets ≡ some b)
    × (is_pending b.status ≡ true)
    × ((is_admin || b.user_id == user) ≡ true)
    × (b' ≡ record b { status = cancelled; settled_at = some now })
    × (db'.bets ≡ put b' db.bets)
    × (db'.events ≡ db.events)
    × Refunds b db db'
Cancels now i user is_admin db (err e, db') = db' ≡ db

finish_cancel :
    (now i user : ℕ) (is_admin : Bool) (b : Bet) (db : Db) (r : Result Error (Unit {0}) × Db)
    → find_bet i db.bets ≡ some b
    → is_pending b.status ≡ true
    → (is_admin || b.user_id == user) ≡ true
    → RefundEnds b db r
    → Cancels now i user is_admin db
        (((λ _. r) >> save_bet (record b { status = cancelled; settled_at = some now })) db)
finish_cancel now i user is_admin b db (ok _, db') found waiting allowed
      (rows, events, matches, paid) =
    (
      b,
      found,
      waiting,
      allowed,
      refl,
      ap (put (record b { status = cancelled; settled_at = some now })) rows,
      events,
      paid,
    )
finish_cancel now i user is_admin b db (err e, db') found waiting allowed h = h

module _ (new_id : IdSource) (fresh : IsFresh new_id) (reference : ℕ) where
  refund-RefundEnds :
      (b : Bet) (db : Db) → IsValid db.wallet → RefundEnds b db (refund new_id reference b db)
  refund-RefundEnds b db v =
      let to_wallet : BetAction (Unit {0}) =
        in_wallet
          (Wallet.credit new_id b.user_id b.stake_amount Wallet.bet (some reference) (caller b.id))
        >>= λ _. pure tt in
      let to_voucher : ℕ → BetAction (Unit {0}) =
        λ i. in_vouchers (restore_voucher_with_manager i b.user_id (some b.id)) >>= λ _. pure tt in
      let body : Option ℕ → BetAction (Unit {0}) = λ o. elim o [
        | none ↦ to_wallet
        | some i ↦
            if b.metadata.is_free_bet && not b.metadata.is_voucher_withdrawable
            then to_voucher i
            else to_wallet
      ] in
      let credited : returns_voucher b ≡ false → RefundEnds b db (to_wallet db) = λ cash.
        wallet_refund b db
          (Wallet.credit new_id b.user_id b.stake_amount Wallet.bet (some reference) (caller b.id)
            db.wallet)
          cash
          (credit-Commits new_id fresh b.user_id b.stake_amount db.wallet v Wallet.bet
            (some reference) b.id) in
      elim (Option-cases b.metadata.voucher_id) [
        | inl e ↦ subst (λ o. RefundEnds b db (body o db)) (sym e) (credited (returns_of b none e))
        | inr (i, e) ↦
            subst (λ o. RefundEnds b db (body o db)) (sym e)
              (elim (Bool-cases
                (b.metadata.is_free_bet && not b.metadata.is_voucher_withdrawable)) [
                  | inl free ↦
                      subst (λ c. RefundEnds b db ((if c then to_voucher i else to_wallet) db))
                        (sym free)
                        (voucher_refund i b db
                          (restore_voucher_with_manager i b.user_id (some b.id) db.vouchers) e
                          (returns_of b (some i) e ∙ free)
                          (restore_voucher-Restores i b.user_id (some b.id) db.vouchers))
                  | inr paid ↦
                      subst (λ c. RefundEnds b db ((if c then to_voucher i else to_wallet) db))
                        (sym paid) (credited (returns_of b (some i) e ∙ paid))
                ])
      ]

  -- `cancelBet` on a database whose wallet is valid, with ids of new rows that are fresh: where it
  -- succeeds, the bet was pending, the caller owns it or is an admin, it is saved as cancelled, and
  -- its stake comes back: by its voucher, if it is a free bet of one that is not withdrawable, which is
  -- unused again while the wallet stays; else as a credit to its owner's available funds while the
  -- vouchers stay. Where it throws, nothing changes.
  pub cancel_bet-Cancels :
      (now i user : ℕ) (is_admin : Bool) (db : Db)
      → IsValid db.wallet
      → Cancels now i user is_admin db (cancel_bet new_id reference now i user is_admin db)
  unfolding cancel_bet
  cancel_bet-Cancels now i user is_admin db v =
      let done : Bet → Bet = λ b. record b { status = cancelled; settled_at = some now } in
      found-or (Cancels now i user is_admin db) db (find_bet i db.bets) bet_not_found
        (λ b.
          raise_if (not is_admin && not (b.user_id == user)) no_access
          >> (raise_if (not (is_pending b.status)) already_settled
              >> (refund new_id reference b >> save_bet (done b))))
        refl
        λ b found.
          guarded (Cancels now i user is_admin db) db (not is_admin && not (b.user_id == user))
            no_access
            (raise_if (not (is_pending b.status)) already_settled
              >> (refund new_id reference b >> save_bet (done b)))
            refl
            λ allowed.
              guarded (Cancels now i user is_admin db) db (not (is_pending b.status))
                already_settled (refund new_id reference b >> save_bet (done b)) refl
                λ waiting.
                  finish_cancel now i user is_admin b db (refund new_id reference b db) found
                    (ground arith) (ground arith) (refund-RefundEnds b db v)
