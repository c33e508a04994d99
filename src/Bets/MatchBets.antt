-- ===== src/Bets/MatchBets.antt =====
-- `settleMatchBets` as a whole: the winners, then the losers of a finished match.
use renaissance_api.Common.{
  ℕ, zero, suc, ◌≡◌, refl, sym, ap, subst, ◌∙◌, true, false, List, [], ◌++◌, arith, length, ◌<◌,
  ◌≤◌, not, Option, none, some, map,
}
use mathlib.Core.List.{append_assoc}
use renaissance_api.Common.Int.{◌+ℤ◌, +ℤ-zero}
use renaissance_api.Common.Action.{Result, ok, ◌>>=◌, ◌>>◌, pure, raise_if, or_raise}
use renaissance_api.Wallet.{WalletDb, IdSource, IsFresh}
use renaissance_api.Wallet.Invariant.{IsValid, available}
use renaissance_api.Bets.{
  Bet, MatchOutcome, finished, Db, Error, BetAction, Summary, no_bets, add_summary, is_finished,
  find_match, process_settlement_batches, batch_size, settle_match_bets, match_not_found,
  match_not_finished, outcome_not_set,
}
use renaissance_api.Bets.Batch.{settle_all, chosen, UniqueIds}
use renaissance_api.Bets.Payment.{Pays}
use renaissance_api.Bets.Sums.{tally, settled_events, add_no_bets}
use renaissance_api.Bets.Settlement.{process-Settles, process_stays, settled_db}
use renaissance_api.Bets.Outcomes.{
  pending_bets, after_match, settle_all-both, losers-left, settle_all-UniqueIds, none-pending,
  length-pending_bets, paid_to-lost,
}

suc_of_pos : (n : ℕ) → 1 ≤ n → (k : ℕ) × (n ≡ suc k)
suc_of_pos zero h = absurd (omega (arith, h))
suc_of_pos (suc k) h = (k, refl)

batch_size-suc : (size : Option ℕ) → (n : ℕ) × (batch_size size ≡ suc n)
batch_size-suc none = (199, refl)
batch_size-suc (some n) = suc_of_pos (batch_size (some n)) (omega arith)

-- What the settlement of a match leaves.
abbrev pub SettlesMatch : ℕ → MatchOutcome → ℕ → Db → Result Error Summary × Db → Type 0
SettlesMatch m outcome now db r =
    let winners = pending_bets m outcome true db.bets in
    let losers = pending_bets m outcome false db.bets in
    (w' : WalletDb) × (r ≡ (
      ok (add_summary (tally true winners) (tally false losers)),
      settled_db (map (after_match m outcome now) db.bets) w'
          (settled_events true winners ++ settled_events false losers) db,
    ))
    × Pays true winners db.wallet w'

abbrev both_loops : IdSource → ℕ → ℕ → ℕ → ℕ → MatchOutcome → BetAction Summary
both_loops new_id fuel now size m outcome =
    process_settlement_batches new_id now m outcome fuel size true no_bets >>= λ winners.
    process_settlement_batches new_id now m outcome fuel size false no_bets >>= λ losers.
    pure (add_summary winners losers)

join_phases :
    (m : ℕ) (outcome : MatchOutcome) (now : ℕ) (rows winners losers left final : List Bet)
    (w1 w2 : WalletDb) (db : Db)
    → left ≡ losers
    → final ≡ map (after_match m outcome now) db.bets
    → (let r : Result Error Summary × Db = (
      ok (
          add_summary
            (add_summary no_bets (tally true winners))
            (add_summary no_bets (tally false left))),
      settled_db final w2
          (settled_events false left)
          (settled_db rows w1 (settled_events true winners) db),
    ) in
        r)
      ≡ (
        ok (add_summary (tally true winners) (tally false losers)),
        settled_db
            (map (after_match m outcome now) db.bets)
            w2
            (settled_events true winners ++ settled_events false losers)
            db,
      )
join_phases m outcome now rows winners losers left final w1 w2 db e f = cc (
  e,
  f,
  add_no_bets (tally true winners),
  add_no_bets (tally false left),
  append_assoc db.events (settled_events true winners) (settled_events false losers),
)

two_loops :
    (new_id : IdSource) (fuel now m : ℕ) (outcome : MatchOutcome) (size : Option ℕ) (db : Db)
    → find_match m db.matches ≡ some (record { id = m; status = finished; outcome = some outcome })
    → settle_match_bets new_id fuel now m size db
      ≡ both_loops new_id fuel now (batch_size size) m outcome db
unfolding settle_match_bets
two_loops new_id fuel now m outcome size db found =
    ap
      (λ o.
        (or_raise o match_not_found >>= λ x.
        raise_if (not (is_finished x.status)) match_not_finished
        >> (or_raise x.outcome outcome_not_set >>= λ out.
            both_loops new_id fuel now (batch_size size) x.id out))
          db)
      found

module _ (new_id : IdSource) (fresh : IsFresh new_id) (fuel now m : ℕ)
    (outcome : MatchOutcome) where
  both_settle :
      (n : ℕ) (db : Db)
      → IsValid db.wallet
      → UniqueIds db.bets
      → length db.bets < fuel
      → SettlesMatch m outcome now db (both_loops new_id fuel now (suc n) m outcome db)
  both_settle n db v u f =
      let winners = pending_bets m outcome true db.bets in
      let losers = pending_bets m outcome false db.bets in
      let rows = settle_all m outcome true now db.bets in
      let (w1, e1, pays1) =
        process-Settles new_id fresh now m outcome true fuel n no_bets db v u
          (omega (arith, f, length-pending_bets m outcome now true db.bets)) in
      let db1 : Db = settled_db rows w1 (settled_events true winners) db in
      let left = losers-left m outcome now db.bets in
      let (w2, e2, pays2) =
        process-Settles new_id fresh now m outcome false fuel n no_bets db1 pays1.0
          (settle_all-UniqueIds m outcome now true db.bets u)
          (omega (arith, f, ap length left, length-pending_bets m outcome now false db.bets)) in
      (
        w2,
        ap
              (λ r.
                ((λ _. r) >>= λ s.
                process_settlement_batches new_id now m outcome fuel (suc n) false no_bets >>= λ t.
                pure (add_summary s t))
                  db)
              e1
            ∙ ap
                (λ r.
                  ((λ _. r) >>= λ t.
                  pure (add_summary (add_summary no_bets (tally true winners)) t))
                    db1)
                e2
            ∙ join_phases m outcome now rows winners losers (chosen m outcome false now rows)
                (settle_all m outcome false now rows) w1 w2 db left
                (settle_all-both m outcome now db.bets),
        (
          pays2.0,
          λ i.
              pays2.1 i
              ∙ ap (λ z. available i w1 +ℤ z) (paid_to-lost i (chosen m outcome false now rows))
              ∙ +ℤ-zero (available i w1)
              ∙ pays1.1 i,
          λ i. pays2.2 i ∙ pays1.2 i,
        ),
      )

  pub settle_match_bets-SettlesMatch :
      (size : Option ℕ) (db : Db)
      → find_match m db.matches
        ≡ some (record { id = m; status = finished; outcome = some outcome })
      → IsValid db.wallet
      → UniqueIds db.bets
      → length db.bets < fuel
      → SettlesMatch m outcome now db (settle_match_bets new_id fuel now m size db)
  settle_match_bets-SettlesMatch size db found v u f =
      let (n, e) = batch_size-suc size in
      subst (SettlesMatch m outcome now db)
        (ap (λ k. both_loops new_id fuel now k m outcome db) (sym e)
          ∙ sym (two_loops new_id fuel now m outcome size db found))
        (both_settle n db v u f)

  nothing_pending :
      (fuel' now' : ℕ) (size : Option ℕ) (db : Db)
      → find_match m db.matches
        ≡ some (record { id = m; status = finished; outcome = some outcome })
      → pending_bets m outcome true db.bets ≡ []
      → pending_bets m outcome false db.bets ≡ []
      → settle_match_bets new_id (suc fuel') now' m size db ≡ (ok no_bets, db)
  nothing_pending fuel' now' size db found won lost =
      let (n, e) = batch_size-suc size in
      two_loops new_id (suc fuel') now' m outcome size db found
      ∙ ap (λ k. both_loops new_id (suc fuel') now' k m outcome db) e
      ∙ ap
          (λ r.
            ((λ _. r) >>= λ s.
            process_settlement_batches new_id now' m outcome (suc fuel') (suc n) false no_bets
            >>= λ t. pure (add_summary s t))
              db)
          (process_stays new_id fresh now' m outcome true fuel' n no_bets db won)
      ∙ ap (λ r. ((λ _. r) >>= λ t. pure (add_summary no_bets t)) db)
          (process_stays new_id fresh now' m outcome false fuel' n no_bets db lost)
      ∙ ap (λ s. let r : Result Error Summary × Db = (ok s, db) in r) (add_no_bets no_bets)

  -- After `settleMatchBets` of a stored, finished match with an outcome, where the wallet is valid,
  -- bets have distinct ids, ids of new balances are fresh and the fuel exceeds the number of bets, a
  -- second call for the match, at any time, with any size of a batch and with fuel above 0, settles
  -- nothing and changes nothing.
  pub settle_match_bets_once :
      (fuel' now' : ℕ) (size size' : Option ℕ) (db : Db)
      → find_match m db.matches
        ≡ some (record { id = m; status = finished; outcome = some outcome })
      → IsValid db.wallet
      → UniqueIds db.bets
      → length db.bets < fuel
      → settle_match_bets new_id
          (suc fuel')
          now'
          m
          size'
          (settle_match_bets new_id fuel now m size db).1
        ≡ (ok no_bets, (settle_match_bets new_id fuel now m size db).1)
  settle_match_bets_once fuel' now' size size' db found v u f =
      let (w', e, pays) = settle_match_bets-SettlesMatch size db found v u f in
      subst (λ r. settle_match_bets new_id (suc fuel') now' m size' r.1 ≡ (ok no_bets, r.1)) (sym e)
        (nothing_pending fuel' now' size'
          (settled_db (map (after_match m outcome now) db.bets) w'
            (settled_events true (pending_bets m outcome true db.bets)
              ++ settled_events false (pending_bets m outcome false db.bets))
            db)
          found (none-pending m outcome now true db.bets)
          (none-pending m outcome now false db.bets))
