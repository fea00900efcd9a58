-- ===== src/Errors.antt =====
-- The errors of the subsystems that the model returns:
-- packages/wavs/src/subsystems/trigger/error.rs.
use wavs.Prelude.{ℕ, Bytes}

pub data TriggerError : Type 0 where
  no_such_service : Bytes → TriggerError
  no_such_workflow : Bytes → Bytes → TriggerError
  no_such_trigger_data : ℕ → TriggerError
  cron : Bytes → TriggerError
  interval_start_after_end : TriggerError
  uri_creation : TriggerError
