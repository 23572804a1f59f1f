-- ===== src/Types.antt =====
-- packages/core/src/types.ts: jobs, their states, configuration and recovery options.
use queueway.Base.{ℕ, String, Bool, Option, none, some}

pub data BrokerType : Type 0 where
  in_memory rabbitmq redis : BrokerType

pub data StoreType : Type 0 where
  in_memory sqlite postgres : StoreType

pub data JobStatus : Type 0 where
  pending processing completed failed retrying archived : JobStatus

-- The text that the records and the API hold for a status.
abbrev pub status_name : JobStatus → String
status_name pending = "pending"
status_name processing = "processing"
status_name completed = "completed"
status_name failed = "failed"
status_name retrying = "retrying"
status_name archived = "archived"

-- `data` is carried as its JSON text, which the program never looks into. `created_at` is in
-- milliseconds.
pub record Job : Type 0 where
  pub id : String
  pub event_name : String
  pub payload : String
  pub status : JobStatus
  pub attempts : ℕ
  pub created_at : ℕ

pub record RecoverOptions : Type 0 where
  pub include_pending : Option Bool
  pub include_processing : Option Bool
  pub stale_after_ms : Option ℕ

pub data Health : Type 0 where
  up down : Health

-- `latency` and the error's text are not modelled, and `kind` is the field `type`.
pub record ComponentHealth : Type 0 where
  pub status : Health
  pub kind : Option String

-- `attempts` is only written where it is given: `if (attempts !== undefined)`.
abbrev pub or_else {ℓ} : {A : Type ℓ} → Option A → A → A
or_else none d = d
or_else (some a) d = a

-- What `updateJob` makes of the record that it finds.
abbrev pub patch : JobStatus → Option ℕ → Job → Job
patch st a job = record job { status = st; attempts = or_else a job.attempts }
