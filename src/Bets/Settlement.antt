-- ===== src/Bets/Settlement.antt =====
-- The settlement of a match: its batches, the loop over them, and the whole of `settleMatchBets`.
use renaissance_api.Common.{
  ℕ, zero, suc, ◌≡◌, refl, sym, ap, subst, ◌∙◌, Bool, List, [], ◌∷◌, ◌++◌, arith, take, drop,
  length, ◌<◌, All, ◌⊎◌, inl, inr,
}
use mathlib.Core.List.{append_assoc, append-nil}
use renaissance_api.Common.Int.{◌+ℤ◌, +ℤ-zero, +ℤ_assoc}
use renaissance_api.Common.Action.{Result, ok, ◌>>=◌, pure, in_transaction}
use renaissance_api.Wallet.{WalletDb, IdSource, IsFresh}
use renaissance_api.Wallet.Invariant.{IsValid, available}
use renaissance_api.Bets.{
  Bet, BetSettled, MatchOutcome, Db, Error, BetAction, Summary, no_bets, add_summary, same_outcome,
  settle_loop, settle_bet_batch, process_settlement_batches, publish,
}
use renaissance_api.Bets.Batch.{
  put_all, settled_rows, settle_first, settle_all, chosen, put_all-settle_first,
  chosen-settle_first, settle_all-settle_first, settle_all-none, settle_first-UniqueIds, UniqueIds,
}
use renaissance_api.Bets.Locked.{IsDue, batch-IsDue, ordered-batch}
use renaissance_api.Bets.Payment.{paid_to, Pays, settle_loop-Pays}
use renaissance_api.Bets.Sums.{
  tally, settled_events, add_batch_lem, paid_to-take-drop, settled_events-take-drop,
  tally-take-drop, length-take-drop, add_no_bets, tally-nil,
}

due_outcomes :
    (outcome : MatchOutcome) (w : Bool) (rows bs : List Bet)
    → All (IsDue outcome w rows) bs
    → All (λ b. same_outcome b.predicted_outcome outcome ≡ w) bs
due_outcomes outcome w rows [] h = tt
due_outcomes outcome w rows (b ∷ bs) h = (h.0.1, due_outcomes outcome w rows bs h.1)

-- The database after `events` are published and the bets and the wallet are written.
abbrev pub settled_db : List Bet → WalletDb → List BetSettled → Db → Db
settled_db rows w' events db = record db { bets = rows; wallet = w'; events = db.events ++ events }

-- The end of a batch: the commit, then the events.
abbrev finish_batch : BetAction (Summary × List BetSettled) → BetAction Summary
finish_batch work = in_transaction work >>= λ r. publish r.1 >>= λ _. pure r.0

tail-of-Pays :
    (w : Bool) (n : ℕ) (bs : List Bet) (old mid new : WalletDb)
    → Pays w (take n bs) old mid
    → Pays w (drop n bs) mid new
    → Pays w bs old new
tail-of-Pays w n bs old mid new p q = (
  q.0,
  λ u.
      q.1 u
      ∙ ap (λ z. z +ℤ paid_to w u (drop n bs)) (p.1 u)
      ∙ +ℤ_assoc (available u old) (paid_to w u (take n bs)) (paid_to w u (drop n bs))
      ∙ ap (λ z. available u old +ℤ z) (paid_to-take-drop w u n bs),
  λ u. q.2 u ∙ p.2 u,
)

List-cases : (bs : List Bet) → (bs ≡ []) ⊎ ((b : Bet) × (rest : List Bet) × (bs ≡ b ∷ rest))
List-cases [] = inl refl
List-cases (b ∷ bs) = inr (b, bs, refl)

take-nil : (n : ℕ) (bs : List Bet) → take (suc n) bs ≡ [] → bs ≡ []
take-nil n [] h = refl
take-nil n (b ∷ bs) h = cc

module _ (new_id : IdSource) (fresh : IsFresh new_id) (now m : ℕ) (outcome : MatchOutcome)
    (w : Bool) where
  -- What a settlement of the bets `bs` leaves, where `rows` are the saved rows.
  abbrev pub Settles : List Bet → List Bet → Summary → Db → Result Error Summary × Db → Type 0
  Settles bs rows s db r =
      (w' : WalletDb) × (r ≡ (ok s, settled_db rows w' (settled_events w bs) db))
      × Pays w bs db.wallet w'

  settle_bet_batch-Settles :
      (bs : List Bet) (db : Db)
      → IsValid db.wallet
      → All (IsDue outcome w db.bets) bs
      → Settles bs
          (put_all (settled_rows now w bs) db.bets)
          (tally w bs)
          db
          (settle_bet_batch new_id now m outcome w bs db)
  unfolding settle_bet_batch
  settle_bet_batch-Settles bs db v due =
      let (w', e, pays) =
        settle_loop-Pays new_id fresh now outcome w bs (no_bets, []) db v
          (due_outcomes outcome w db.bets bs due) in
      (
        w',
        ap (λ l. finish_batch (settle_loop new_id now outcome w l (no_bets, [])) db)
              (ordered-batch outcome w db.bets bs due)
            ∙ ap (λ r. finish_batch (λ _. r) db)
                (e
                  ∙ ap
                      (λ a.
                        let r : Result Error (Summary × List BetSettled) × Db = (
                          ok a,
                          record db { bets = put_all (settled_rows now w bs) db.bets; wallet = w' },
                        ) in
                        r)
                      (add_batch_lem w bs no_bets []
                        ∙ ap
                            (λ t. let r : Summary × List BetSettled = (t, settled_events w bs) in r)
                            (add_no_bets (tally w bs)))),
        pays,
      )

  abbrev loop_body : ℕ → ℕ → Summary → List Bet → BetAction Summary
  loop_body fuel size s batch = elim batch [
    | [] ↦ pure s
    | b ∷ bs ↦ settle_bet_batch new_id now m outcome w (b ∷ bs) >>= λ t.
        process_settlement_batches new_id now m outcome fuel size w (add_summary s t)
  ]

  body_next :
      (fuel size : ℕ) (s : Summary) (batch : List Bet) (b : Bet) (bs : List Bet)
      → batch ≡ b ∷ bs
      → loop_body fuel size s batch ≡ (
          settle_bet_batch new_id now m outcome w batch >>= λ t.
          process_settlement_batches new_id now m outcome fuel size w (add_summary s t))
  body_next fuel size s batch b bs e =
      subst
        (λ l. loop_body fuel size s l ≡ (
          settle_bet_batch new_id now m outcome w l >>= λ t.
          process_settlement_batches new_id now m outcome fuel size w (add_summary s t)))
        (sym e) refl

  -- A batch that is loaded, in the table that it leaves.
  first-Settles :
      (n : ℕ) (db : Db)
      → IsValid db.wallet
      → UniqueIds db.bets
      → Settles
          (take n (chosen m outcome w now db.bets))
          (settle_first m outcome w now n db.bets)
          (tally w (take n (chosen m outcome w now db.bets)))
          db
          (settle_bet_batch new_id now m outcome w (take n (chosen m outcome w now db.bets)) db)
  first-Settles n db v u =
      let batch = take n (chosen m outcome w now db.bets) in
      subst
        (λ rows.
          Settles batch rows (tally w batch) db (settle_bet_batch new_id now m outcome w batch db))
        (put_all-settle_first m outcome w now n db.bets u)
        (settle_bet_batch-Settles batch db v (batch-IsDue m outcome w n db.bets u))

  stay_settles :
      (s : Summary) (all : List Bet) (db : Db)
      → all ≡ []
      → settle_all m outcome w now db.bets ≡ db.bets
      → (let r : Result Error Summary × Db = (ok s, db) in r) ≡ (
        ok (add_summary s (tally w all)),
        settled_db (settle_all m outcome w now db.bets) db.wallet (settled_events w all) db,
      )
  stay_settles s all db e f = cc (e, f, tally-nil w s, append-nil db.events)

  -- What a batch and then the rest leave, together.
  join_settles :
      (n : ℕ) (s : Summary) (all rows rows' rest : List Bet) (w1 w2 : WalletDb) (db : Db)
      → rest ≡ drop n all
      → rows ≡ rows'
      → (let r : Result Error Summary × Db = (
        ok (add_summary (add_summary s (tally w (take n all))) (tally w rest)),
        settled_db rows w2
            (settled_events w rest)
            (settled_db rows w1 (settled_events w (take n all)) db),
      ) in
          r)
        ≡ (ok (add_summary s (tally w all)), settled_db rows' w2 (settled_events w all) db)
  join_settles n s all rows rows' rest w1 w2 db e f = cc (
    e,
    f,
    tally-take-drop w n all s,
    settled_events-take-drop w n all,
    append_assoc db.events (settled_events w (take n all)) (settled_events w (drop n all)),
  )

  -- Enough fuel settles every chosen bet.
  pub process-Settles :
      (fuel n : ℕ) (s : Summary) (db : Db)
      → IsValid db.wallet
      → UniqueIds db.bets
      → length (chosen m outcome w now db.bets) < fuel
      → Settles
          (chosen m outcome w now db.bets)
          (settle_all m outcome w now db.bets)
          (add_summary s (tally w (chosen m outcome w now db.bets)))
          db
          (process_settlement_batches new_id now m outcome fuel (suc n) w s db)
  unfolding process_settlement_batches
  process-Settles zero n s db v u f = absurd (omega (arith, f))
  process-Settles (suc fuel) n s db v u f =
      let all = chosen m outcome w now db.bets in
      let batch = take (suc n) all in
      elim (List-cases batch) [
        | inl e ↦ (
          db.wallet,
          ap (λ l. loop_body fuel (suc n) s l db) e
              ∙ stay_settles s all db (take-nil n all e)
                  (settle_all-none m outcome w now db.bets (take-nil n all e)),
          subst (λ l. Pays w l db.wallet db.wallet) (sym (take-nil n all e))
              (v, λ i. sym (+ℤ-zero (available i db.wallet)), λ i. refl),
        )
        | inr (b, bs, e) ↦
            let (w1, e1, pays1) = first-Settles (suc n) db v u in
            let rows = settle_first m outcome w now (suc n) db.bets in
            let db1 : Db = settled_db rows w1 (settled_events w batch) db in
            let left = chosen-settle_first m outcome w now (suc n) db.bets in
            let (w2, e2, pays2) =
              process-Settles fuel n (add_summary s (tally w batch)) db1 pays1.0
                (settle_first-UniqueIds m outcome w now (suc n) db.bets u)
                (omega (arith, f, ap length left, ap length e, length-take-drop (suc n) all)) in
            (
              w2,
              ap (λ k. k db) (body_next fuel (suc n) s batch b bs e)
                  ∙ ap
                      (λ r.
                        ((λ _. r) >>= λ t.
                        process_settlement_batches new_id now m outcome fuel (suc n) w
                          (add_summary s t))
                          db)
                      e1
                  ∙ e2
                  ∙ join_settles (suc n) s all (settle_all m outcome w now rows)
                      (settle_all m outcome w now db.bets) (chosen m outcome w now rows) w1 w2 db
                      left (settle_all-settle_first m outcome w now (suc n) db.bets),
              tail-of-Pays w (suc n) all db.wallet w1 w2 pays1
                  (subst (λ l. Pays w l w1 w2) left pays2),
            )
      ]

  -- With nothing to settle, the loop ends at once and changes nothing.
  pub process_stays :
      (fuel n : ℕ) (s : Summary) (db : Db)
      → chosen m outcome w now db.bets ≡ []
      → process_settlement_batches new_id now m outcome (suc fuel) (suc n) w s db ≡ (ok s, db)
  unfolding process_settlement_batches
  process_stays fuel n s db e = ap (λ l. loop_body fuel (suc n) s (take (suc n) l) db) e
