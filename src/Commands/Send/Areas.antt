-- ===== src/Commands/Send/Areas.antt =====
-- internal/commands/executor.go: the commands about rectangles of tiles: digging, chopping, gathering, smoothing, zones, stockpiles, farm plots and bridges. The last argument of each function
-- is the id that GenerateCommandID gives.
use df_ai.Base.{if◌then◌else◌, ltb_ℤ, ℕ, ℤ}
use df_ai.Protocol.Command.Types.{
  build_bridge, build_farm_plot, cancel, chop, command_type_byte, dig, gather, smooth, stockpile,
  zone,
}
use df_ai.Protocol.Command.Message.{CommandMessage, zero_command}

unfoldable pub send_cancel_command : (x1 y1 z x2 y2 : ℤ) → ℕ → CommandMessage
unfolding command_type_byte
send_cancel_command x1 y1 z x2 y2 id = record zero_command {
  command_id = id;
  command_type = command_type_byte cancel;
  region = record { x1 = x1; y1 = y1; z1 = z; x2 = x2; y2 = y2; z2 = z };
}

unfoldable pub send_chop_command : (x1 y1 z x2 y2 : ℤ) → ℕ → CommandMessage
unfolding command_type_byte
send_chop_command x1 y1 z x2 y2 id = record zero_command {
  command_id = id;
  command_type = command_type_byte chop;
  region = record { x1 = x1; y1 = y1; z1 = z; x2 = x2; y2 = y2; z2 = z };
}

unfoldable pub send_gather_command : (x1 y1 z x2 y2 : ℤ) → ℕ → CommandMessage
unfolding command_type_byte
send_gather_command x1 y1 z x2 y2 id = record zero_command {
  command_id = id;
  command_type = command_type_byte gather;
  region = record { x1 = x1; y1 = y1; z1 = z; x2 = x2; y2 = y2; z2 = z };
}

unfoldable pub send_smooth_command : (smooth_type : ℕ) (x1 y1 z x2 y2 : ℤ) → ℕ → CommandMessage
unfolding command_type_byte
send_smooth_command smooth_type x1 y1 z x2 y2 id = record zero_command {
  command_id = id;
  command_type = command_type_byte smooth;
  smooth = record { smooth_type = smooth_type; x1 = x1; y1 = y1; z = z; x2 = x2; y2 = y2 };
}

unfoldable pub send_zone_command : (zone_type : ℕ) (x1 y1 z x2 y2 : ℤ) → ℕ → CommandMessage
unfolding command_type_byte
send_zone_command zone_type x1 y1 z x2 y2 id = record zero_command {
  command_id = id;
  command_type = command_type_byte zone;
  zone = record { zone_type = zone_type; x1 = x1; y1 = y1; z = z; x2 = x2; y2 = y2 };
}

unfoldable pub send_stockpile_command : (x1 y1 z x2 y2 : ℤ) (group_mask : ℕ) → ℕ → CommandMessage
unfolding command_type_byte
send_stockpile_command x1 y1 z x2 y2 group_mask id = record zero_command {
  command_id = id;
  command_type = command_type_byte stockpile;
  stockpile = record { x1 = x1; y1 = y1; z = z; x2 = x2; y2 = y2; group_mask = group_mask };
}

unfoldable pub send_build_farm_plot : (x1 y1 z x2 y2 : ℤ) → ℕ → CommandMessage
unfolding command_type_byte
send_build_farm_plot x1 y1 z x2 y2 id = record zero_command {
  command_id = id;
  command_type = command_type_byte build_farm_plot;
  farm_plot = record { x1 = x1; y1 = y1; z = z; x2 = x2; y2 = y2 };
}

unfoldable pub send_build_bridge : (x1 y1 z x2 y2 : ℤ) (direction : ℕ) → ℕ → CommandMessage
unfolding command_type_byte
send_build_bridge x1 y1 z x2 y2 direction id = record zero_command {
  command_id = id;
  command_type = command_type_byte build_bridge;
  build_bridge = record { x1 = x1; y1 = y1; z = z; x2 = x2; y2 = y2; direction = direction };
}

-- The two levels are swapped if they come top down.
unfoldable pub send_dig_region : (dig_type : ℕ) (x1 y1 z1 x2 y2 z2 : ℤ) → ℕ → CommandMessage
unfolding command_type_byte
send_dig_region dig_type x1 y1 z1 x2 y2 z2 id = record zero_command {
  command_id = id;
  command_type = command_type_byte dig;
  dig_type = dig_type;
  region = record {
    x1 = x1;
    y1 = y1;
    z1 = if ltb_ℤ z2 z1 then z2 else z1;
    x2 = x2;
    y2 = y2;
    z2 = if ltb_ℤ z2 z1 then z1 else z2;
  };
}

unfoldable pub send_dig_command : (dig_type : ℕ) (x1 y1 z x2 y2 : ℤ) → ℕ → CommandMessage
unfolding send_dig_region
send_dig_command dig_type x1 y1 z x2 y2 = send_dig_region dig_type x1 y1 z x2 y2 z
