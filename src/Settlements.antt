-- ===== src/Settlements.antt =====
-- backend/src/bet-settlement/bet-settlement.service.ts: the queue of settlement jobs.
mod Entities
pub mod Attempts
pub mod Jobs
pub mod Success
mod Tests
pub use Entities.*
use renaissance_api.Common.{
  ℕ, zero, suc, ◌+◌, ◌-◌, ◌*◌, ◌^◌, Bool, true, false, not, Option, none, some, List, [], ◌∷◌, ◌++◌,
  ◌&&◌, ◌||◌, ◌==◌, leb, if◌then◌else◌, min, find_by, select_by, count_by, save_by, take,
}
use renaissance_api.Common.Action.{ok, err, ◌>>=◌, ◌>>◌, pure, gets, or_raise, modify, Result}
use mathlib.Core.List.{reverse}
use renaissance_api.Wallet.{IdSource}
use renaissance_api.Bets
use renaissance_api.Bets.{Summary, settle_match_bets}

abbrev pub write_audit :
    Option ℕ → ℕ → AuditAction → Option ℕ → Option Bets.Error → QueueAction (Unit {0})
write_audit job_id match_id action attempt error = modify λ db. record db {
  audits =
      db.audits
      ++ record {
        job_id = job_id;
        match_id = match_id;
        action = action;
        attempt = attempt;
        error_message = error;
      }
        ∷ [];
}

abbrev pub save_job : Job → QueueAction Job
save_job job db = (ok job, record db { jobs = save_by (λ x. x.id) job db.jobs })

-- The pending bets of a match.
abbrev pub pending_bet_count : ℕ → QueueDb → ℕ
pending_bet_count m db = count_by (λ b. b.match_id == m && Bets.is_pending b.status) db.bets.bets

-- A job of the match that waits or runs.
abbrev pub is_active_for : ℕ → Job → Bool
is_active_for m job = job.match_id == m && is_active job.status

abbrev pub new_job : ℕ → ℕ → ℕ → Option ℕ → Job
new_job i now match_id requested_by = record {
  id = i;
  match_id = match_id;
  status = pending;
  attempt_count = 0;
  max_attempts = 5;
  next_retry_at = some now;
  started_at = none;
  completed_at = none;
  last_error = none;
  requested_by = requested_by;
  last_summary = none;
}

-- `enqueueMatchSettlement` behind its two searches: the number of pending bets, and the active job.
abbrev pub enqueue_found : JobIds → ℕ → ℕ → Option ℕ → Bool → Option Job → QueueAction (Option Job)
enqueue_found new_id now match_id requested_by true active = do
  write_audit none match_id skipped none none
  pure none
enqueue_found new_id now match_id requested_by false (some job) = do
  write_audit (some job.id) match_id skipped (some job.attempt_count) none
  pure (some job)
enqueue_found new_id now match_id requested_by false none = do
  i ← gets (λ db. new_id db.jobs)
  job ← save_job (new_job i now match_id requested_by)
  write_audit (some job.id) match_id enqueued (some job.attempt_count) none
  pure (some job)

unfoldable pub enqueue_match_settlement : JobIds → ℕ → ℕ → Option ℕ → QueueAction (Option Job)
enqueue_match_settlement new_id now match_id requested_by db =
    enqueue_found new_id now match_id requested_by (pending_bet_count match_id db == 0)
      (find_last_by (is_active_for match_id) db.jobs) db

abbrev pub get_job : ℕ → QueueAction Job
get_job i = do or_raise (← gets (λ db. find_by (λ x. x.id == i) db.jobs)) job_not_found

-- `getJobs` and `getAuditLogs`, of a match if one is given, the newest first.
abbrev get_jobs : Option ℕ → QueueDb → List Job
get_jobs none db = reverse db.jobs
get_jobs (some m) db = reverse (select_by (λ x. x.match_id == m) db.jobs)

abbrev get_audit_logs : Option ℕ → QueueDb → List AuditLog
get_audit_logs none db = reverse db.audits
get_audit_logs (some m) db = reverse (select_by (λ x. x.match_id == m) db.audits)

unfoldable pub retry_failed_job : ℕ → ℕ → QueueAction Job
retry_failed_job now i = do
  job ← get_job i
  let job' = record job {
    status = pending;
    next_retry_at = some now;
    last_error = none;
    completed_at = none;
  }
  save_job job'
  write_audit (some job'.id) job'.match_id enqueued (some job'.attempt_count) none
  pure job'

-- The delay before the next attempt, after `attempts` of them.
abbrev pub retry_delay_ms : ℕ → ℕ
retry_delay_ms attempts = min (60000 * 2 ^ (attempts - 1)) (15 * 60000)

abbrev pub started : ℕ → Job → Job
started now job = record job { status = processing; started_at = some now; last_error = none }

-- The job after a settlement that succeeded, or failed.
abbrev pub completed_job : ℕ → Summary → Job → Job
completed_job now s job = record job {
  attempt_count = job.attempt_count + 1;
  status = completed;
  completed_at = some now;
  next_retry_at = none;
  last_summary = some s;
}

abbrev pub failed_job : ℕ → Bets.Error → Job → Job
failed_job now e job = record job {
  attempt_count = job.attempt_count + 1;
  last_error = some e;
  status = failed;
  next_retry_at = none;
  completed_at = some now;
}

abbrev pub retried_job : ℕ → Bets.Error → Job → Job
retried_job now e job = record job {
  attempt_count = job.attempt_count + 1;
  last_error = some e;
  status = pending;
  next_retry_at = some (now + retry_delay_ms (job.attempt_count + 1));
}

-- The rest of `processJob`, by how the settlement ended.
unfoldable pub finish_job : ℕ → Job → Result Bets.Error Summary → QueueAction (Unit {0})
finish_job now job (ok s) = do
  save_job (completed_job now s job)
  write_audit (some job.id) job.match_id completed_settlement (some (job.attempt_count + 1)) none
finish_job now job (err e) =
    if leb job.max_attempts (job.attempt_count + 1)
    then (save_job (failed_job now e job)
        >> write_audit (some job.id) job.match_id failed_settlement (some (job.attempt_count + 1))
            (some e))
    else (save_job (retried_job now e job)
        >> write_audit (some job.id) job.match_id retry_scheduled (some (job.attempt_count + 1))
            (some e))

-- A waiting job whose time has come.
abbrev pub is_due : ℕ → Job → Bool
is_due now job =
    is_waiting job.status && elim job.next_retry_at [ none ↦ true | some t ↦ leb t now ]

abbrev pub set_processing : Bool → QueueAction (Unit {0})
set_processing flag = modify λ db. record db { is_processing_queue = flag }

module _ (new_id : IdSource) (fuel now : ℕ) where
  -- `settleMatchBets` as the queue calls it: what it throws is caught.
  abbrev pub settle_in_queue : ℕ → QueueAction (Result Bets.Error Summary)
  settle_in_queue match_id db =
      let (r, b) = settle_match_bets new_id fuel now match_id (some 200) db.bets in
      (ok r, record db { bets = b })

  unfoldable pub process_job : Job → QueueAction (Unit {0})
  process_job job = do
    save_job (started now job)
    write_audit (some job.id) job.match_id processing_started (some (job.attempt_count + 1)) none
    r ← settle_in_queue job.match_id
    finish_job now (started now job) r

  -- The loop of `processPendingJobs`.
  unfoldable pub process_jobs : List Job → QueueAction (Unit {0})
  process_jobs [] = pure tt
  process_jobs (job ∷ jobs) = let rest = process_jobs jobs in process_job job >> rest

  unfoldable pub process_pending_jobs : QueueAction (Unit {0})
  process_pending_jobs db =
      let run = do
        set_processing true
        due ← gets (λ d. take 5 (select_by (is_due now) d.jobs))
        process_jobs due
        set_processing false
      in if db.is_processing_queue then (ok tt, db) else run db
