-- ===== src/Settlements/Tests.antt =====
-- The theorems about the settlement queue at a small database.
use renaissance_api.Common.{suc, ◌≡◌, refl, true, false, [], ◌∷◌, none, some, arith}
use renaissance_api.Common.Int.{pos}
use renaissance_api.Common.Action.{ok}
use renaissance_api.Common.Fresh.{max_key, max_key-fresh}
use renaissance_api.Wallet.{IdSource, IsFresh}
use renaissance_api.Wallet.Invariant.{empty, empty-IsValid}
use renaissance_api.Bets
use renaissance_api.Bets.{Bet, home_win, draw, finished, add_summary, settle_match_bets}
use renaissance_api.Bets.Sums.{tally}
use renaissance_api.Bets.Outcomes.{pending_bets}
use renaissance_api.Settlements.{
  Job, QueueDb, JobIds, enqueue_match_settlement, process_job, process_pending_jobs, new_job,
  completed_job, started,
}
use renaissance_api.Settlements.Attempts.{Attempted, find_job, process_job-Attempted}
use renaissance_api.Settlements.Jobs.{
  AtMostOne, HasFreshIds, enqueue_match_settlement-AtMostOne, process_pending_jobs_end,
}
use renaissance_api.Settlements.Success.{process_job_completes}

abbrev next_id : IdSource
next_id rows = suc (max_key (λ b. b.id) rows)

next_id-IsFresh : IsFresh next_id
next_id-IsFresh rows = max_key-fresh (λ b. b.id) rows

abbrev next_job : JobIds
next_job jobs = suc (max_key (λ x. x.id) jobs)

next_job-HasFreshIds : HasFreshIds next_job
next_job-HasFreshIds jobs = max_key-fresh (λ x. x.id) jobs

abbrev job : Job
job = new_job 1 50 4 none

abbrev sample_bet : Bet
sample_bet = record {
  id = 1;
  user_id = 7;
  match_id = 4;
  stake_amount = pos 10;
  predicted_outcome = home_win;
  potential_payout = pos 25;
  status = Bets.pending;
  settled_at = none;
  metadata = record { is_free_bet = false; is_voucher_withdrawable = false; voucher_id = none };
}

abbrev queue : QueueDb
queue = record {
  jobs = job ∷ [];
  audits = [];
  is_processing_queue = false;
  bets = record {
    matches = record { id = 4; status = finished; outcome = some home_win } ∷ [];
    bets = sample_bet ∷ [];
    wallet = empty;
    vouchers = record { users = []; vouchers = [] };
    events = [];
  };
}

queue-AtMostOne : AtMostOne queue
queue-AtMostOne m = ground arith

enqueue_match_settlement-AtMostOne_example :
    AtMostOne (enqueue_match_settlement next_job 60 4 none queue).1
enqueue_match_settlement-AtMostOne_example =
    enqueue_match_settlement-AtMostOne next_job next_job-HasFreshIds 60 4 none queue queue-AtMostOne

process_job-Attempted_example :
    Attempted 100 job
      (settle_match_bets next_id 1 100 4 (some 200) queue.bets)
      queue
      (process_job next_id 1 100 job queue)
process_job-Attempted_example = process_job-Attempted next_id 1 100 job queue

process_pending_jobs_end_example :
    (db' : QueueDb) × (process_pending_jobs next_id 3 100 queue ≡ (ok tt, db'))
    × (db'.is_processing_queue ≡ false)
    × (false ≡ true → db' ≡ queue)
process_pending_jobs_end_example = process_pending_jobs_end next_id 3 100 queue

process_job_completes_example :
    (db' : QueueDb) × (process_job next_id 3 100 job queue ≡ (ok tt, db'))
    × (find_job 1 db'.jobs
        ≡ some (
            completed_job 100
              (add_summary
                (tally true (pending_bets 4 home_win true queue.bets.bets))
                (tally false (pending_bets 4 home_win false queue.bets.bets)))
              (started 100 job)))
process_job_completes_example =
    process_job_completes next_id next_id-IsFresh 3 100 home_win job queue refl empty-IsValid
      (refl, tt) (omega arith)
