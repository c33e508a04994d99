-- ===== src/Settlements/Entities.antt =====
-- backend/src/bet-settlement/entities: the settlement jobs and their audit log.
use renaissance_api.Common.{ℕ, Bool, true, false, Option, some, none, List, [], ◌∷◌, if◌then◌else◌}
use renaissance_api.Common.Action.{Action}
use renaissance_api.Bets
use renaissance_api.Bets.{Summary}

pub data JobStatus : Type 0 where
  pending processing completed failed : JobStatus

-- `last_error` is the error whose message the code keeps.
pub record Job : Type 0 where
  pub id : ℕ
  pub match_id : ℕ
  pub status : JobStatus
  pub attempt_count : ℕ
  pub max_attempts : ℕ
  pub next_retry_at : Option ℕ
  pub started_at : Option ℕ
  pub completed_at : Option ℕ
  pub last_error : Option Bets.Error
  pub requested_by : Option ℕ
  pub last_summary : Option Summary

pub data AuditAction : Type 0 where
  skipped enqueued processing_started completed_settlement failed_settlement retry_scheduled :
      AuditAction

-- The texts and the metadata of an entry, which nothing reads, are left out.
pub record AuditLog : Type 0 where
  pub job_id : Option ℕ
  pub match_id : ℕ
  pub action : AuditAction
  pub attempt : Option ℕ
  pub error_message : Option Bets.Error

-- Jobs and entries stand in the order of creation. `is_processing_queue` is the field of the service.
pub record QueueDb : Type 0 where
  pub jobs : List Job
  pub audits : List AuditLog
  pub is_processing_queue : Bool
  pub bets : Bets.Db

pub data Error : Type 0 where
  job_not_found : Error

abbrev pub QueueAction : Type 0 → Type 0
QueueAction = Action Error QueueDb

-- The id that the database gives to a new job.
abbrev pub JobIds : Type 0
JobIds = List Job → ℕ

abbrev pub is_waiting : JobStatus → Bool
is_waiting pending = true
is_waiting _ = false

abbrev pub is_active : JobStatus → Bool
is_active pending = true
is_active processing = true
is_active _ = false

-- `findOne` with the newest row first.
abbrev pub find_last_by {ℓ} : {A : Type ℓ} → (A → Bool) → List A → Option A
find_last_by p [] = none
find_last_by p (x ∷ xs) = elim (find_last_by p xs) [
  | some y ↦ some y
  | none ↦ if p x then some x else none
]
