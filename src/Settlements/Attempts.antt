-- ===== src/Settlements/Attempts.antt =====
-- An attempt at a job of the settlement queue: the row, the bets and the log that it leaves.
use renaissance_api.Common.{
  ℕ, zero, suc, ◌+◌, ◌-◌, ◌^◌, ◌≤◌, ◌<◌, ◌≡◌, refl, sym, ap, subst, ◌∙◌, Bool, Option, none, some,
  List, [], ◌∷◌, ◌++◌, ◌==◌, leb, if◌then◌else◌, arith, find_by, save_by, Bool-cases, eq→==,
  find_by-save_by, save_by-save_by, inl, inr,
}
use renaissance_api.Common.Action.{Result, ok, err, ◌>>◌}
use renaissance_api.Wallet.{IdSource}
use renaissance_api.Bets
use renaissance_api.Bets.{Summary, settle_match_bets}
use renaissance_api.Settlements.{
  Job, AuditLog, JobStatus, pending, completed, failed, QueueDb, Error, save_job, started,
  finish_job, process_job, failed_job, retried_job, completed_job, completed_settlement,
  AuditAction, retry_delay_ms, settle_in_queue, write_audit, failed_settlement, retry_scheduled,
  processing_started,
}

-- How an attempt whose settlement ended in `r` may leave the row of the job `job`.
abbrev pub Ended : ℕ → Job → Result Bets.Error Summary → JobStatus → Job → Type 0
Ended now job (ok s) completed job' =
    (job'.next_retry_at ≡ none) × (job'.last_summary ≡ some s) × (job'.completed_at ≡ some now)
Ended now job (err e) failed job' =
    (job.max_attempts ≤ job'.attempt_count)
    × (job'.next_retry_at ≡ none)
    × (job'.last_error ≡ some e)
Ended now job (err e) pending job' =
    (job'.attempt_count < job.max_attempts)
    × (job'.last_error ≡ some e)
    × (t : ℕ) × (job'.next_retry_at ≡ some t)
    × (now + 60000 ≤ t)
    × (t ≤ now + 900000)
Ended now job _ _ job' = ⊥

abbrev pub find_job : ℕ → List Job → Option Job
find_job i = find_by λ x. x.id == i

-- The entries of the log for an attempt: its start, and how it left the job.
abbrev pub end_action : JobStatus → AuditAction
end_action completed = completed_settlement
end_action failed = failed_settlement
end_action _ = retry_scheduled

abbrev pub error_of : Result Bets.Error Summary → Option Bets.Error
error_of (ok s) = none
error_of (err e) = some e

abbrev pub entry_of : Job → AuditAction → Option Bets.Error → AuditLog
entry_of job action e = record {
  job_id = some job.id;
  match_id = job.match_id;
  action = action;
  attempt = some (job.attempt_count + 1);
  error_message = e;
}

-- An attempt has saved the job, counted, in a state that it may end in; all other jobs and the flag of
-- the queue stay, the bets are those that the settlement left, and the log has two entries more.
abbrev pub Attempted :
    ℕ
    → Job
    → Result Bets.Error Summary × Bets.Db
    → QueueDb
    → Result Error (Unit {0}) × QueueDb
    → Type 0
Attempted now job (r, bets) db (ok _, db') =
    (job' : Job) × (find_job job.id db'.jobs ≡ some job')
    × (job'.attempt_count ≡ job.attempt_count + 1)
    × (job'.match_id ≡ job.match_id)
    × Ended now job r job'.status job'
    × ((i : ℕ) → find_job i db'.jobs ≡ (if job.id == i then some job' else find_job i db.jobs))
    × (db'.bets ≡ bets)
    × (db'.is_processing_queue ≡ db.is_processing_queue)
    × (db'.audits
        ≡ (db.audits ++ entry_of job processing_started none ∷ [])
          ++ entry_of job (end_action job'.status) (error_of r) ∷ [])
Attempted now job r db (err e, db') = ⊥

pow_pos : (n : ℕ) → 1 ≤ 2 ^ n
pow_pos zero = omega arith
pow_pos (suc n) = omega (arith, pow_pos n)

delay_bounds : (n : ℕ) → (60000 ≤ retry_delay_ms (n + 1)) × (retry_delay_ms (n + 1) ≤ 900000)
delay_bounds n = (omega (arith, pow_pos (n + 1 - 1)), omega arith)

-- Two saves of one job.
pub saved_twice :
    (a b : Job) (i : ℕ) (jobs : List Job)
    → b.id ≡ a.id
    → find_job i (save_by (λ x. x.id) b (save_by (λ x. x.id) a jobs))
      ≡ (if b.id == i then some b else find_job i jobs)
saved_twice a b i jobs same =
    ap (find_job i) (save_by-save_by (λ x. x.id) a b jobs same)
    ∙ find_by-save_by (λ x. x.id) b i jobs

module _ (now : ℕ) (job : Job) (r : Result Bets.Error Summary) (bets : Bets.Db) (db mid : QueueDb)
    (jobs : mid.jobs ≡ save_by (λ x. x.id) (started now job) db.jobs) (left : mid.bets ≡ bets)
    (flag : mid.is_processing_queue ≡ db.is_processing_queue)
    (log : mid.audits ≡ db.audits ++ entry_of job processing_started none ∷ []) where
  -- A job that is saved in a state that it may end in.
  saved-Attempted :
      (job' : Job)
      → job'.id ≡ job.id
      → job'.match_id ≡ job.match_id
      → job'.attempt_count ≡ job.attempt_count + 1
      → Ended now job r job'.status job'
      → Attempted now job
          (r, bets)
          db
          ((save_job job'
              >> write_audit
                  (some job.id)
                  job.match_id
                  (end_action job'.status)
                  (some (job.attempt_count + 1))
                  (error_of r))
            mid)
  saved-Attempted job' same match_kept count ended =
      let after = λ (i : ℕ).
        ap (λ js. find_job i (save_by (λ x. x.id) job' js)) jobs
        ∙ saved_twice (started now job) job' i db.jobs same
        ∙ ap (λ n. if n == i then some job' else find_job i db.jobs) same in
      (
        job',
        after job.id
            ∙ ap (λ c. if c then some job' else find_job job.id db.jobs) (eq→== job.id job.id refl),
        count,
        match_kept,
        ended,
        after,
        left,
        flag,
        ap (λ xs. xs ++ entry_of job (end_action job'.status) (error_of r) ∷ []) log,
      )

module _ (now : ℕ) (job : Job) (bets : Bets.Db) (db mid : QueueDb)
    (jobs : mid.jobs ≡ save_by (λ x. x.id) (started now job) db.jobs) (left : mid.bets ≡ bets)
    (flag : mid.is_processing_queue ≡ db.is_processing_queue)
    (log : mid.audits ≡ db.audits ++ entry_of job processing_started none ∷ []) where
  finish_job-Attempted :
      (r : Result Bets.Error Summary)
      → Attempted now job (r, bets) db (finish_job now (started now job) r mid)
  unfolding finish_job
  finish_job-Attempted (ok s) =
      saved-Attempted now job (ok s) bets db mid jobs left flag log
        (completed_job now s (started now job)) refl refl refl (refl, refl, refl)
  finish_job-Attempted (err e) =
      let given_up =
        saved-Attempted now job (err e) bets db mid jobs left flag log
          (failed_job now e (started now job)) refl refl refl in
      let again =
        saved-Attempted now job (err e) bets db mid jobs left flag log
          (retried_job now e (started now job)) refl refl refl in
      let ends = λ (c : Bool).
        Attempted now job (err e, bets) db
          ((if c
              then (save_job (failed_job now e (started now job))
                  >> write_audit (some job.id) job.match_id failed_settlement
                      (some (job.attempt_count + 1)) (some e))
              else (save_job (retried_job now e (started now job))
                  >> write_audit (some job.id) job.match_id retry_scheduled
                      (some (job.attempt_count + 1)) (some e)))
            mid) in
      elim (Bool-cases (leb job.max_attempts (job.attempt_count + 1))) [
        | inl spent ↦ subst ends (sym spent) (given_up (ground (arith, spent), refl, refl))
        | inr more ↦ subst ends (sym more) (
            again (
              ground (arith, more),
              refl,
              now + retry_delay_ms (job.attempt_count + 1),
              refl,
              omega (arith, (delay_bounds job.attempt_count).0),
              omega (arith, (delay_bounds job.attempt_count).1),
            ))
      ]

module _ (new_id : IdSource) (fuel now : ℕ) where
  -- An attempt at a job catches what the settlement throws. It saves the job, counted: completed, with
  -- the summary and with no further attempt, if the settlement succeeded; if it threw, with the error,
  -- failed for good when its attempts are spent, or waiting for an attempt in one to fifteen minutes
  -- when they are not. The other jobs and the flag of the queue stay, the bets are left as the
  -- settlement leaves them, and the log gets two entries, of the start and of how the attempt ended.
  pub process_job-Attempted :
      (job : Job) (db : QueueDb)
      → Attempted now job
          (settle_match_bets new_id fuel now job.match_id (some 200) db.bets)
          db
          (process_job new_id fuel now job db)
  unfolding process_job
  process_job-Attempted job db =
      let settled = settle_match_bets new_id fuel now job.match_id (some 200) db.bets in
      let mid =
        ((save_job (started now job)
            >> (write_audit (some job.id) job.match_id processing_started
                  (some (job.attempt_count + 1)) none
                >> settle_in_queue new_id fuel now job.match_id))
          db).1 in
      finish_job-Attempted now job settled.1 db mid refl refl refl refl settled.0
