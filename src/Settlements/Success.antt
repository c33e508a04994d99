-- ===== src/Settlements/Success.antt =====
-- An attempt at the job of a match that can be settled.
use renaissance_api.Common.{
  ℕ, ◌+◌, ◌≡◌, refl, ap, ◌∙◌, true, false, some, none, length, ◌<◌, eq→==, if◌then◌else◌,
}
use renaissance_api.Common.Action.{Result, ok}
use renaissance_api.Wallet.{IdSource, IsFresh}
use renaissance_api.Wallet.Invariant.{IsValid}
use renaissance_api.Bets.{MatchOutcome, finished, find_match, add_summary}
use renaissance_api.Bets.Batch.{UniqueIds}
use renaissance_api.Bets.Sums.{tally}
use renaissance_api.Bets.Outcomes.{pending_bets}
use renaissance_api.Bets.MatchBets.{settle_match_bets-SettlesMatch}
use renaissance_api.Settlements.{
  Job, QueueDb, Error, processing_started, completed_job, finish_job, process_job, started,
  write_audit, save_job,
}
use renaissance_api.Common.Action.{◌>>◌}
use renaissance_api.Settlements.Attempts.{find_job, saved_twice}

ended_ok : (r : Result Error (Unit {0}) × QueueDb) → r.0 ≡ ok tt → r ≡ (ok tt, r.1)
ended_ok r h = ap (λ x. let y : Result Error (Unit {0}) × QueueDb = (x, r.1) in y) h

module _ (new_id : IdSource) (fresh : IsFresh new_id) (fuel now : ℕ) (outcome : MatchOutcome) where
  -- An attempt at the job of a stored, finished match with an outcome, where the wallet is valid,
  -- bets have distinct ids, ids of new balances are fresh and the fuel exceeds the number of bets,
  -- ends without a throw, and saves the job as completed with the summary of all the pending bets of
  -- the match.
  pub process_job_completes :
      (job : Job) (db : QueueDb)
      → find_match job.match_id db.bets.matches
        ≡ some (record { id = job.match_id; status = finished; outcome = some outcome })
      → IsValid db.bets.wallet
      → UniqueIds db.bets.bets
      → length db.bets.bets < fuel
      → (db' : QueueDb) × (process_job new_id fuel now job db ≡ (ok tt, db'))
        × (find_job job.id db'.jobs
            ≡ some (
                completed_job now
                  (add_summary
                    (tally true (pending_bets job.match_id outcome true db.bets.bets))
                    (tally false (pending_bets job.match_id outcome false db.bets.bets)))
                  (started now job)))
  unfolding process_job finish_job
  process_job_completes job db found v u f =
      let (w', e, pays) =
        settle_match_bets-SettlesMatch new_id fresh fuel now job.match_id outcome (some 200) db.bets
          found v u f in
      let mid : QueueDb =
        ((save_job (started now job)
            >> write_audit (some job.id) job.match_id processing_started
                (some (job.attempt_count + 1)) none)
          db).1 in
      let all =
        add_summary (tally true (pending_bets job.match_id outcome true db.bets.bets))
          (tally false (pending_bets job.match_id outcome false db.bets.bets)) in
      let done = completed_job now all (started now job) in
      (
        (process_job new_id fuel now job db).1,
        ended_ok (process_job new_id fuel now job db)
            (ap (λ r. (finish_job now (started now job) r.0 (record mid { bets = r.1 })).0) e),
        ap
              (λ r.
                find_job job.id
                  (finish_job now (started now job) r.0 (record mid { bets = r.1 })).1.jobs)
              e
            ∙ saved_twice (started now job) done job.id db.jobs refl
            ∙ ap (λ c. if c then some done else find_job job.id db.jobs) (eq→== job.id job.id refl),
      )
