-- ===== src/Commands/Types.antt =====
-- internal/commands/types.go. A time is a number, 0 the zero time; a duration is an integer. The
-- channel of a command, which holds one result, is an Option.
use df_ai.Base.{Bool, Option, String, false, true, ℕ, ℤ, ◌||◌}
use df_ai.Protocol.Command.Message.{CommandMessage}
use df_ai.Protocol.Messages.Queries.{CommandAckMessage}

pub data CommandStatus : Type 0 where
  command_pending command_sent command_acked command_timeout command_failed : CommandStatus

abbrev pub same_command_status : CommandStatus → CommandStatus → Bool
same_command_status command_pending command_pending = true
same_command_status command_sent command_sent = true
same_command_status command_acked command_acked = true
same_command_status command_timeout command_timeout = true
same_command_status command_failed command_failed = true
same_command_status s t = false

pub record CommandResult : Type 0 where
  pub success : Bool
  pub status : ℕ
  pub error_msg : String
  pub response : Option CommandAckMessage
  pub duration : ℤ

-- `kind` is the field Type.
pub record Command : Type 0 where
  pub id : ℕ
  pub kind : ℕ
  pub message : CommandMessage
  pub status : CommandStatus
  pub response : Option CommandAckMessage
  pub sent_at : ℕ
  pub acked_at : ℕ
  pub timeout_at : ℕ
  pub result_chan : Option CommandResult

unfoldable pub is_complete : Command → Bool
is_complete c =
    same_command_status c.status command_acked
    || same_command_status c.status command_timeout
    || same_command_status c.status command_failed

unfoldable pub is_pending : Command → Bool
is_pending c = same_command_status c.status command_sent

pub data TaskStatus : Type 0 where
  task_not_started task_in_progress task_completed task_stalled task_failed : TaskStatus

-- The Command of a PendingCommand, which the tracker tests for nil, is there or not.
pub record PendingCommand : Type 0 where
  pub command : Option Command
  pub task_status : TaskStatus
  pub expected_tiles : ℤ
  pub completed_tiles : ℤ
  pub last_progress_time : ℕ
  pub start_time : ℕ
  pub description : String
