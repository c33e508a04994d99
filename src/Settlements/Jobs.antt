-- ===== src/Settlements/Jobs.antt =====
-- The settlement queue: at most one active job for a match, and that a tick of the queue ends.
use renaissance_api.Common.{
  ℕ, ◌+◌, ◌≤◌, ◌≡◌, refl, sym, ap, subst, ◌∙◌, Bool, true, false, Option, none, List, [], ◌∷◌, ◌==◌,
  if◌then◌else◌, arith, find_by, count_by, save_by, Bool-cases, ==→eq, Option-cases, inl, inr,
  select_by, take,
}
use renaissance_api.Common.Action.{Result, ok, err, ◌>>=◌, ◌>>◌, gets}
use renaissance_api.Wallet.{IdSource}
use renaissance_api.Bets
use renaissance_api.Bets.{Summary, settle_match_bets}
use renaissance_api.Settlements.{
  Job, QueueDb, QueueAction, Error, JobIds, find_last_by, is_active_for, new_job, enqueue_found,
  enqueue_match_settlement, pending_bet_count, process_job, process_jobs, process_pending_jobs,
  is_due, set_processing,
}
use renaissance_api.Settlements.Attempts.{Attempted, process_job-Attempted}

find_last_by-none : (p : Job → Bool) (xs : List Job) → find_last_by p xs ≡ none → count_by p xs ≡ 0
find_last_by-none p [] h = refl
find_last_by-none p (x ∷ xs) h = ground (arith, find_last_by-none p xs)

count_by-save_by :
    (p : Job → Bool) (row : Job) (xs : List Job)
    → find_by (λ x. x.id == row.id) xs ≡ none
    → count_by p (save_by (λ x. x.id) row xs) ≡ count_by p xs + (if p row then 1 else 0)
count_by-save_by p row [] h = ground arith
count_by-save_by p row (x ∷ xs) h = ground (arith, count_by-save_by p row xs)

-- No match has two jobs that wait or run.
abbrev pub AtMostOne : QueueDb → Type 0
AtMostOne db = (m : ℕ) → count_by (is_active_for m) db.jobs ≤ 1

abbrev pub HasFreshIds : JobIds → Type 0
HasFreshIds new_id = (jobs : List Job) → find_by (λ x. x.id == new_id jobs) jobs ≡ none

one_at_most : (c : Bool) → (if c then 1 else 0) ≤ 1
one_at_most c = ground arith

enqueue_found-AtMostOne :
    (new_id : JobIds)
    → HasFreshIds new_id
    → (now i : ℕ) (by : Option ℕ) (settled : Bool) (db : QueueDb) → AtMostOne db
    → AtMostOne
        (enqueue_found new_id now i by settled (find_last_by (is_active_for i) db.jobs) db).1
enqueue_found-AtMostOne new_id fresh now i by true db h = h
enqueue_found-AtMostOne new_id fresh now i by false db h =
    elim (Option-cases (find_last_by (is_active_for i) db.jobs)) [
      | inl e ↦
          subst (λ o. AtMostOne (enqueue_found new_id now i by false o db).1) (sym e)
            λ m.
              let row = new_job (new_id db.jobs) now i by in
              let added = count_by-save_by (is_active_for m) row db.jobs (fresh db.jobs) in
              elim (Bool-cases (i == m)) [
                | inl same ↦ omega (
                  arith,
                  added,
                  one_at_most (is_active_for m row),
                  subst (λ k. count_by (is_active_for k) db.jobs ≡ 0) (==→eq i m same)
                      (find_last_by-none (is_active_for i) db.jobs e),
                )
                | inr other ↦ ground (arith, added, h m, other)
              ]
      | inr (job, e) ↦ subst (λ o. AtMostOne (enqueue_found new_id now i by false o db).1) (sym e) h
    ]

-- `enqueueMatchSettlement` keeps the number of active jobs of every match at one at most, if the ids
-- of new jobs are fresh.
pub enqueue_match_settlement-AtMostOne :
    (new_id : JobIds)
    → HasFreshIds new_id
    → (now i : ℕ) (by : Option ℕ) (db : QueueDb) → AtMostOne db
    → AtMostOne (enqueue_match_settlement new_id now i by db).1
unfolding enqueue_match_settlement
enqueue_match_settlement-AtMostOne new_id fresh now i by db h =
    enqueue_found-AtMostOne new_id fresh now i by (pending_bet_count i db == 0) db h

attempt_ok :
    (now : ℕ) (job : Job) (b : Result Bets.Error Summary × Bets.Db) (db : QueueDb)
    (r : Result Error (Unit {0}) × QueueDb)
    → Attempted now job b db r
    → (db' : QueueDb) × (r ≡ (ok tt, db')) × (db'.is_processing_queue ≡ db.is_processing_queue)
attempt_ok now job b db (ok _, db') h = (db', refl, h.7)
attempt_ok now job b db (err e, db') h = absurd h

module _ (new_id : IdSource) (fuel now : ℕ) where
  abbrev tick : QueueAction (Unit {0})
  tick = do
    set_processing true
    due ← gets (λ d. take 5 (select_by (is_due now) d.jobs))
    process_jobs new_id fuel now due
    set_processing false

  process_jobs_end :
      (jobs : List Job) (db : QueueDb)
      → (db' : QueueDb) × (process_jobs new_id fuel now jobs db ≡ (ok tt, db'))
  unfolding process_jobs
  process_jobs_end [] db = (db, refl)
  process_jobs_end (job ∷ jobs) db =
      let (mid, e, flag) =
        attempt_ok now job _ db (process_job new_id fuel now job db)
          (process_job-Attempted new_id fuel now job db) in
      let (db', e') = process_jobs_end jobs mid in
      (db', ap (λ r. ((λ _. r) >> process_jobs new_id fuel now jobs) db) e ∙ e')

  -- A tick of the queue never throws: it ends with the flag of the queue down, or as it was where
  -- another tick holds it, and then nothing has changed.
  pub process_pending_jobs_end :
      (db : QueueDb)
      → (db' : QueueDb) × (process_pending_jobs new_id fuel now db ≡ (ok tt, db'))
        × (db'.is_processing_queue ≡ db.is_processing_queue)
        × (db.is_processing_queue ≡ true → db' ≡ db)
  unfolding process_pending_jobs
  process_pending_jobs_end db = elim (Bool-cases db.is_processing_queue) [
    | inl busy ↦ (
      db,
      ap
          (λ c.
            if c then (let r : Result Error (Unit {0}) × QueueDb = (ok tt, db) in r) else tick db)
          busy,
      refl,
      λ _. refl,
    )
    | inr idle ↦
        let (mid, e) =
          process_jobs_end (take 5 (select_by (is_due now) db.jobs))
            (record db { is_processing_queue = true }) in
        (
          record mid { is_processing_queue = false },
          ap
                (λ c.
                  if c
                  then (let r : Result Error (Unit {0}) × QueueDb = (ok tt, db) in r)
                  else tick db)
                idle
              ∙ ap (λ r. ((λ _. r) >> set_processing false) db) e,
          sym idle,
          λ busy. absurd (cc),
        )
  ]
