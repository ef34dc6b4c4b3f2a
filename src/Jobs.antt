-- ===== src/Jobs.antt =====
-- The data of the job runner (internal/jobs/jobs.go). An error is its text, and none is `""`; a
-- result is its encoded text.
pub mod Feed
pub mod Runner
pub mod Handle
pub mod Steady
pub mod Reaches
mod Samples
use better_amp_backup.Prelude.{ℕ, ℤ, Bool, true, false, String, Option}
use better_amp_backup.Clock.{Instant}
use better_amp_backup.Paths.{Text}

pub data Kind : Type 0 where
  backup restore housekeeping check stop start : Kind

pub data State : Type 0 where
  running succeeded failed cancelled : State

-- `State.Done`
abbrev pub is_done : State → Bool
is_done running = false
is_done succeeded = true
is_done failed = true
is_done cancelled = true

pub record Job : Type 0 where
  pub id : Text
  pub kind : Kind
  pub state : State
  pub started_by : String
  pub started_at : Instant
  pub ended_at : Instant
  pub stage : Text
  pub done : ℤ
  pub total : ℤ
  pub error : String
  pub result : Option String
  pub cancelling : Bool

pub record LogLine : Type 0 where
  pub at : Instant
  pub level : String
  pub text : String

pub data EventType : Type 0 where
  job progress log reset : EventType

pub record Event : Type 0 where
  pub seq : ℕ
  pub at : Instant
  pub type : EventType
  pub job : Option Job
  pub log : Option LogLine
