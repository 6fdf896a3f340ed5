-- ===== src/Protocol.antt =====
-- packages/protocol/src/index.ts: the frames between a connector and the gateway.
pub mod Frames
use superbull.Common.{ℕ, ℤ, List, Option, Text}

abbrev pub max_events_per_batch : ℕ
max_events_per_batch = 500

-- `job_id` is a string or a number.
pub data JobId : Type 0 where
  text : Text → JobId
  num : ℕ → JobId

-- An optional field is an `Option`; in one that is nullable too, `some none` is the null.
pub record IngestEvent : Type 0 where
  pub uuid : Text
  pub type : Text
  pub queue_name : Text
  pub ts : ℕ
  pub job_name : Option Text
  pub job_id : Option JobId
  pub duration_ms : Option (Option ℤ)
  pub wait_ms : Option (Option ℤ)
  pub failed_reason : Option Text
  pub counts : Option (List (Text × ℕ))
  pub worker_count : Option ℕ
  pub oldest_waiting_ms : Option (Option ℕ)

pub record EventsFrame : Type 0 where
  pub batch_id : Text
  pub events : List IngestEvent
