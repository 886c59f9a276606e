-- ===== src/Commands/Send/Burrows.antt =====
-- internal/commands/executor.go: the commands about burrows and the alert. The last argument of each function
-- is the id that GenerateCommandID gives.
use df_ai.Base.{Bool, ℕ, ℤ}
use df_ai.Protocol.Wire.{Bytes}
use df_ai.Protocol.Command.Types.{
  assign_burrow, command_type_byte, designate_burrow, remove_burrow, set_alert,
}
use df_ai.Protocol.Command.Message.{CommandMessage, zero_command}

unfoldable pub send_designate_burrow : (name : Bytes) (x1 y1 z1 x2 y2 z2 : ℤ) → ℕ → CommandMessage
unfolding command_type_byte
send_designate_burrow name x1 y1 z1 x2 y2 z2 id = record zero_command {
  command_id = id;
  command_type = command_type_byte designate_burrow;
  designate_burrow = record { name = name; x1 = x1; y1 = y1; z1 = z1; x2 = x2; y2 = y2; z2 = z2 };
}

unfoldable pub send_remove_burrow : (name : Bytes) → ℕ → CommandMessage
unfolding command_type_byte
send_remove_burrow name id = record zero_command {
  command_id = id;
  command_type = command_type_byte remove_burrow;
  remove_burrow = record { name = name };
}

unfoldable pub send_assign_burrow :
    (name : Bytes) (unit_id : ℤ) (all_citizens assign : Bool) → ℕ → CommandMessage
unfolding command_type_byte
send_assign_burrow name unit_id all_citizens assign id = record zero_command {
  command_id = id;
  command_type = command_type_byte assign_burrow;
  assign_burrow = record {
    name = name;
    assign = assign;
    all_citizens = all_citizens;
    unit_id = unit_id;
  };
}

unfoldable pub send_set_alert : (name : Bytes) (active : Bool) → ℕ → CommandMessage
unfolding command_type_byte
send_set_alert name active id = record zero_command {
  command_id = id;
  command_type = command_type_byte set_alert;
  set_alert = record { name = name; active = active };
}
