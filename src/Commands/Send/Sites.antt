-- ===== src/Commands/Send/Sites.antt =====
-- internal/commands/executor.go: the commands about one tile or building. The last argument of each function
-- is the id that GenerateCommandID gives.
use df_ai.Base.{Bool, ℕ, ℤ}
use df_ai.Protocol.Wire.{Bytes}
use df_ai.Protocol.Command.Types.{
  command_type_byte, link_building, pull_lever, remove_building, set_depot_trade_flags,
  set_farm_crop, set_workshop_profile, unsuspend,
}
use df_ai.Protocol.Command.Message.{CommandMessage, zero_command}

unfoldable pub send_unsuspend_command : (x y z : ℤ) → ℕ → CommandMessage
unfolding command_type_byte
send_unsuspend_command x y z id = record zero_command {
  command_id = id;
  command_type = command_type_byte unsuspend;
  unsuspend = record { x = x; y = y; z = z };
}

unfoldable pub send_remove_building : (x y z : ℤ) → ℕ → CommandMessage
unfolding command_type_byte
send_remove_building x y z id = record zero_command {
  command_id = id;
  command_type = command_type_byte remove_building;
  remove = record { x = x; y = y; z = z };
}

unfoldable pub send_set_farm_crop :
    (x y z : ℤ) (season : ℕ) (crop_name : Bytes) → ℕ → CommandMessage
unfolding command_type_byte
send_set_farm_crop x y z season crop_name id = record zero_command {
  command_id = id;
  command_type = command_type_byte set_farm_crop;
  set_farm_crop = record { x = x; y = y; z = z; season = season; crop_name = crop_name };
}

unfoldable pub send_link_building :
    (lever_x lever_y lever_z target_x target_y target_z : ℤ) → ℕ → CommandMessage
unfolding command_type_byte
send_link_building lever_x lever_y lever_z target_x target_y target_z id = record zero_command {
  command_id = id;
  command_type = command_type_byte link_building;
  link_building = record {
    lever_x = lever_x;
    lever_y = lever_y;
    lever_z = lever_z;
    target_x = target_x;
    target_y = target_y;
    target_z = target_z;
  };
}

unfoldable pub send_pull_lever : (x y z : ℤ) → ℕ → CommandMessage
unfolding command_type_byte
send_pull_lever x y z id = record zero_command {
  command_id = id;
  command_type = command_type_byte pull_lever;
  pull_lever = record { x = x; y = y; z = z };
}

unfoldable pub send_set_workshop_profile :
    (x y z min_skill_level max_skill_level worker_unit_id : ℤ) → ℕ → CommandMessage
unfolding command_type_byte
send_set_workshop_profile x y z min_skill_level max_skill_level worker_unit_id id =
    record zero_command {
      command_id = id;
      command_type = command_type_byte set_workshop_profile;
      set_workshop_profile = record {
        x = x;
        y = y;
        z = z;
        min_skill_level = min_skill_level;
        max_skill_level = max_skill_level;
        worker_unit_id = worker_unit_id;
      };
    }

unfoldable pub send_set_depot_trade_flags :
    (x y z : ℤ) (trader_requested anyone_can_trade : Bool) → ℕ → CommandMessage
unfolding command_type_byte
send_set_depot_trade_flags x y z trader_requested anyone_can_trade id = record zero_command {
  command_id = id;
  command_type = command_type_byte set_depot_trade_flags;
  set_depot_trade_flags = record {
    x = x;
    y = y;
    z = z;
    trader_requested = trader_requested;
    anyone_can_trade = anyone_can_trade;
  };
}
