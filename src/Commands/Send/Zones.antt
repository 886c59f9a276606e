-- ===== src/Commands/Send/Zones.antt =====
-- internal/commands/executor.go: the commands about zones and the locations in them. The last argument of each function
-- is the id that GenerateCommandID gives.
use df_ai.Base.{ℕ, ℤ}
use df_ai.Protocol.Wire.{Bytes}
use df_ai.Protocol.Command.Types.{
  assign_lodging, assign_zone, command_type_byte, create_location, remove_zone, unassign_lodging,
  unassign_zone,
}
use df_ai.Protocol.Command.Message.{CommandMessage, zero_command}

unfoldable pub send_assign_zone : (x y z unit_id : ℤ) → ℕ → CommandMessage
unfolding command_type_byte
send_assign_zone x y z unit_id id = record zero_command {
  command_id = id;
  command_type = command_type_byte assign_zone;
  assign_zone = record { x = x; y = y; z = z; unit_id = unit_id };
}

unfoldable pub send_unassign_zone : (x y z unit_id : ℤ) → ℕ → CommandMessage
unfolding command_type_byte
send_unassign_zone x y z unit_id id = record zero_command {
  command_id = id;
  command_type = command_type_byte unassign_zone;
  unassign_zone = record { x = x; y = y; z = z; unit_id = unit_id };
}

unfoldable pub send_create_location :
    (x y z : ℤ) (location_type : ℕ) (profession : Bytes) → ℕ → CommandMessage
unfolding command_type_byte
send_create_location x y z location_type profession id = record zero_command {
  command_id = id;
  command_type = command_type_byte create_location;
  create_location = record {
    x = x;
    y = y;
    z = z;
    location_type = location_type;
    profession = profession;
  };
}

unfoldable pub send_assign_lodging :
    (tavern_x tavern_y tavern_z bedroom_x bedroom_y bedroom_z : ℤ) → ℕ → CommandMessage
unfolding command_type_byte
send_assign_lodging tavern_x tavern_y tavern_z bedroom_x bedroom_y bedroom_z id =
    record zero_command {
      command_id = id;
      command_type = command_type_byte assign_lodging;
      assign_lodging = record {
        tavern_x = tavern_x;
        tavern_y = tavern_y;
        tavern_z = tavern_z;
        bedroom_x = bedroom_x;
        bedroom_y = bedroom_y;
        bedroom_z = bedroom_z;
      };
    }

unfoldable pub send_unassign_lodging : (bedroom_x bedroom_y bedroom_z : ℤ) → ℕ → CommandMessage
unfolding command_type_byte
send_unassign_lodging bedroom_x bedroom_y bedroom_z id = record zero_command {
  command_id = id;
  command_type = command_type_byte unassign_lodging;
  unassign_lodging = record { bedroom_x = bedroom_x; bedroom_y = bedroom_y; bedroom_z = bedroom_z };
}

unfoldable pub send_remove_zone : (x y z : ℤ) → ℕ → CommandMessage
unfolding command_type_byte
send_remove_zone x y z id = record zero_command {
  command_id = id;
  command_type = command_type_byte remove_zone;
  remove_zone = record { x = x; y = y; z = z };
}
