-- ===== src/Bets/Payment.antt =====
-- What a batch of a settlement pays into the wallet, and what it adds to the summary.
use renaissance_api.Common.{
  ℕ, ◌≡◌, refl, sym, ap, subst, ◌∙◌, Bool, true, false, not, List, [], ◌∷◌, ◌++◌, ◌&&◌, ◌||◌, arith,
  if◌then◌else◌, All, Bool-cases, inl, inr,
}
use renaissance_api.Common.Int.{ℤ, pos, ◌+ℤ◌, ltb_ℤ, int_laws, +ℤ-zero, +ℤ_assoc}
use renaissance_api.Common.Action.{Result, ok, err, ◌>>=◌}
use renaissance_api.Wallet
use renaissance_api.Wallet.{WalletDb, IdSource, IsFresh, caller}
use renaissance_api.Wallet.Invariant.{IsValid, available, locked, only}
use renaissance_api.Wallet.Transactions.{Moves}
use renaissance_api.Wallet.Updates.{update_user_balance-Updates, positive_update, stay-Moves}
use renaissance_api.Bets.{
  Bet, BetSettled, MatchOutcome, Db, Error, same_outcome, Summary, winnings, settled_bet,
  settled_event, count_settled, credit_winnings, settle_bet, settle_loop,
}
use renaissance_api.Bets.Batch.{put, put_all, settled_rows}

-- The amount of a bet's event, and what its owner is paid.
abbrev pub payout : Bool → Bet → ℤ
payout true b = winnings b
payout false b = pos 0

abbrev pub paid : Bool → Bet → ℤ
paid w b = if ltb_ℤ (pos 0) (payout w b) then payout w b else pos 0

abbrev pub paid_to : Bool → ℕ → List Bet → ℤ
paid_to w u [] = pos 0
paid_to w u (b ∷ bs) = only b.user_id (paid w b) u +ℤ paid_to w u bs

abbrev pub payouts : Bool → List Bet → ℤ
payouts w [] = pos 0
payouts w (b ∷ bs) = payout w b +ℤ payouts w bs

-- The wallet has paid the bets `bs`, and nothing else has changed in it.
abbrev pub Pays : Bool → List Bet → WalletDb → WalletDb → Type 0
Pays w bs old new =
    IsValid new
    × ((u : ℕ) → available u new ≡ available u old +ℤ paid_to w u bs)
    × ((u : ℕ) → locked u new ≡ locked u old)

put_all_next : (b : Bet) (bs rows : List Bet) → put_all (b ∷ bs) rows ≡ put_all bs (put b rows)
unfolding put_all
put_all_next b bs rows = refl

add-nothing : (i u : ℕ) (x : ℤ) → x +ℤ only i (pos 0) u ≡ x
add-nothing i u x = grind int_laws

-- The summary and the events after the bets of a batch.
abbrev pub add_batch : Bool → List Bet → Summary × List BetSettled → Summary × List BetSettled
add_batch w [] acc = acc
add_batch w (b ∷ bs) (s, events) =
    add_batch w bs (count_settled w (payout w b) s, events ++ settled_event w (payout w b) b ∷ [])

module _ (new_id : IdSource) (fresh : IsFresh new_id) (now : ℕ) where
  credit_pays :
      (amount : ℤ) (b : Bet) (db : Db)
      → IsValid db.wallet
      → (w' : WalletDb) × (credit_winnings new_id amount b db ≡ (ok tt, record db { wallet = w' }))
        × Moves b.user_id (if ltb_ℤ (pos 0) amount then amount else pos 0) (pos 0) db.wallet w'
  credit_pays amount b db v = elim (Bool-cases (ltb_ℤ (pos 0) amount)) [
    | inl p ↦
        let (w', e, moved) =
          positive_update b.user_id amount db.wallet
            (Wallet.update_user_balance new_id b.user_id amount b.id (caller b.id) db.wallet) p
            (update_user_balance-Updates new_id fresh b.user_id amount b.id b.id db.wallet v) in
        (
          w',
          ground (arith, p, e),
          subst (λ c. Moves b.user_id (if c then amount else pos 0) (pos 0) db.wallet w') (sym p)
              moved,
        )
    | inr p ↦ (
      db.wallet,
      ground arith,
      subst (λ c. Moves b.user_id (if c then amount else pos 0) (pos 0) db.wallet db.wallet) (sym p)
          (stay-Moves b.user_id db.wallet v),
    )
  ]

  settle_bet_pays :
      (w : Bool) (b : Bet) (db : Db)
      → IsValid db.wallet
      → (w' : WalletDb) × (settle_bet new_id now w b db ≡ (
        ok (settled_event w (payout w b) b),
        record db { bets = put (settled_bet now w b) db.bets; wallet = w' },
      ))
        × Moves b.user_id (paid w b) (pos 0) db.wallet w'
  unfolding settle_bet
  settle_bet_pays true b db v =
      let (w', e, moved) = credit_pays (winnings b) b db v in (w', ground (arith, e), moved)
  settle_bet_pays false b db v = (db.wallet, refl, stay-Moves b.user_id db.wallet v)

  module _ (outcome : MatchOutcome) where
    loop_step :
        (w : Bool) (b : Bet) (bs : List Bet) (s : Summary) (events : List BetSettled) (db : Db)
        → same_outcome b.predicted_outcome outcome ≡ w
        → settle_loop new_id now outcome w (b ∷ bs) (s, events) db
          ≡ (settle_bet new_id now w b >>= λ e.
                settle_loop new_id now outcome w bs
                  (count_settled w e.winnings_amount s, events ++ e ∷ []))
              db
    unfolding settle_loop
    loop_step true b bs s events db h =
        subst
          (λ win.
            ((if (true && not win || not true && win)
                then settle_loop new_id now outcome true bs (s, events)
                else (settle_bet new_id now win b >>= λ e.
                    settle_loop new_id now outcome true bs
                      (count_settled win e.winnings_amount s, events ++ e ∷ [])))
              db)
            ≡ (settle_bet new_id now true b >>= λ e.
                  settle_loop new_id now outcome true bs
                    (count_settled true e.winnings_amount s, events ++ e ∷ []))
                db)
          (sym h) refl
    loop_step false b bs s events db h =
        subst
          (λ win.
            ((if (false && not win || not false && win)
                then settle_loop new_id now outcome false bs (s, events)
                else (settle_bet new_id now win b >>= λ e.
                    settle_loop new_id now outcome false bs
                      (count_settled win e.winnings_amount s, events ++ e ∷ [])))
              db)
            ≡ (settle_bet new_id now false b >>= λ e.
                  settle_loop new_id now outcome false bs
                    (count_settled false e.winnings_amount s, events ++ e ∷ []))
                db)
          (sym h) refl

    -- A batch of due bets is settled without a throw: the rows are saved, the winners are paid.
    pub settle_loop-Pays :
        (w : Bool) (bs : List Bet) (acc : Summary × List BetSettled) (db : Db)
        → IsValid db.wallet
        → All (λ b. same_outcome b.predicted_outcome outcome ≡ w) bs
        → (w' : WalletDb) × (settle_loop new_id now outcome w bs acc db ≡ (
          ok (add_batch w bs acc),
          record db { bets = put_all (settled_rows now w bs) db.bets; wallet = w' },
        ))
          × Pays w bs db.wallet w'
    settle_loop-Pays w [] acc db v h = (
      db.wallet,
      unfold settle_loop put_all in refl,
      (v, λ u. sym (+ℤ-zero (available u db.wallet)), λ u. refl),
    )
    settle_loop-Pays w (b ∷ bs) (s, events) db v h =
        let (w1, e1, moved) = settle_bet_pays w b db v in
        let rows : List Bet = put (settled_bet now w b) db.bets in
        let acc : Summary × List BetSettled =
          (count_settled w (payout w b) s, events ++ settled_event w (payout w b) b ∷ []) in
        let db1 : Db = record db { bets = rows; wallet = w1 } in
        let (w2, e2, pays) = settle_loop-Pays w bs acc db1 moved.0 h.1 in
        (
          w2,
          loop_step w b bs s events db h.0
              ∙ ap
                  (λ r.
                    let (x, db') = r in
                    let after : Result Error (Summary × List BetSettled) × Db = elim x [
                      | ok a ↦
                          settle_loop new_id now outcome w bs
                            (count_settled w a.winnings_amount s, events ++ a ∷ []) db'
                      | err e ↦ (err e, db')
                    ] in
                    after)
                  e1
              ∙ e2
              ∙ ap
                  (λ l.
                    let r : Result Error (Summary × List BetSettled) × Db =
                      (ok (add_batch w bs acc), record db { bets = l; wallet = w2 }) in
                    r)
                  (sym (put_all_next (settled_bet now w b) (settled_rows now w bs) db.bets)),
          (
            pays.0,
            λ u.
                pays.1 u
                ∙ ap (λ z. z +ℤ paid_to w u bs) (moved.1 u)
                ∙ +ℤ_assoc (available u db.wallet) (only b.user_id (paid w b) u) (paid_to w u bs),
            λ u. pays.2 u ∙ moved.2 u ∙ add-nothing b.user_id u (locked u db.wallet),
          ),
        )
