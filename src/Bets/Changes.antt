-- ===== src/Bets/Changes.antt =====
-- `updateBetStatus`: what it leaves of a bet, error paths included.
use renaissance_api.Common.{
  ℕ, ◌≡◌, refl, true, false, not, some, List, [], ◌∷◌, ◌++◌, arith, if◌then◌else◌,
}
use renaissance_api.Common.Int.{pos}
use renaissance_api.Common.Action.{Result, ok, err, ◌>>◌, pure, found-or, guarded_twice}
use renaissance_api.Bets.{
  Bet, BetStatus, BetSettled, Db, Error, update_bet_status, is_pending, is_decided, is_won,
  settled_event, find_bet, bet_not_found, already_settled, invalid_transition, save_bet, publish,
  validate_status_transition,
}
use renaissance_api.Bets.Batch.{put}

-- A change of a status that has ended: only a pending bet takes a status, which is not `pending`;
-- the wallet and the vouchers stay; an error changes nothing.
abbrev pub Decides : ℕ → ℕ → BetStatus → Db → Result Error Bet × Db → Type 0
Decides now i status db (ok b', db') =
    (b : Bet) × (find_bet i db.bets ≡ some b)
    × (is_pending b.status ≡ true)
    × (is_pending status ≡ false)
    × (b' ≡ record b { status = status; settled_at = some now })
    × (db' ≡ record db {
      bets = put b' db.bets;
      events =
          db.events
          ++ (if is_decided status
              then settled_event (is_won status)
                  (if is_won status then b'.potential_payout else pos 0) b'
                ∷ []
              else []);
    })
Decides now i status db (err e, db') = db' ≡ db

-- `updateBetStatus` on any database: where it succeeds, the bet was pending and the new status is
-- not `pending`, the bet is saved with the status and the time, an event is published where the
-- status is `won` or `lost`, and nothing else changes; where it throws, nothing changes.
pub update_bet_status-Decides :
    (now i : ℕ) (status : BetStatus) (db : Db)
    → Decides now i status db (update_bet_status now i status db)
unfolding update_bet_status
update_bet_status-Decides now i status db =
    let event : Bet → List BetSettled = λ b'.
      if is_decided status
      then settled_event (is_won status) (if is_won status then b'.potential_payout else pos 0) b'
        ∷ []
      else [] in
    found-or (Decides now i status db) db (find_bet i db.bets) bet_not_found
      (λ b.
        validate_status_transition b.status status
        >> (save_bet (record b { status = status; settled_at = some now })
            >> (publish (event (record b { status = status; settled_at = some now }))
                >> pure (record b { status = status; settled_at = some now }))))
      refl
      λ b found.
        guarded_twice (Decides now i status db) db (not (is_pending b.status)) (is_pending status)
          already_settled invalid_transition
          (save_bet (record b { status = status; settled_at = some now })
            >> (publish (event (record b { status = status; settled_at = some now }))
                >> pure (record b { status = status; settled_at = some now })))
          refl refl λ waiting new. (b, found, ground arith, new, refl, refl)
