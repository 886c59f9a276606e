-- ===== src/Commands/Send/People.antt =====
-- internal/commands/executor.go: the commands about units, work details, positions and squads. The last argument of each function
-- is the id that GenerateCommandID gives.
use df_ai.Base.{Bool, [], pos, ℕ, ℤ}
use df_ai.Protocol.Wire.{Bytes}
use df_ai.Protocol.Command.Types.{
  appoint_position, assign_squad, assign_work_detail, command_type_byte, create_squad,
  create_work_detail, set_bookkeeper_precision, set_labor, set_work_detail_mode, squad_order,
}
use df_ai.Protocol.Command.Message.{CommandMessage, zero_command}

unfoldable pub send_set_labor : (unit_id : ℤ) (labor_id : ℕ) (enable : Bool) → ℕ → CommandMessage
unfolding command_type_byte
send_set_labor unit_id labor_id enable id = record zero_command {
  command_id = id;
  command_type = command_type_byte set_labor;
  set_labor = record { unit_id = unit_id; labor_id = labor_id; enable = enable };
}

unfoldable pub send_assign_work_detail :
    (detail_index : ℕ) (unit_id : ℤ) (add : Bool) → ℕ → CommandMessage
unfolding command_type_byte
send_assign_work_detail detail_index unit_id add id = record zero_command {
  command_id = id;
  command_type = command_type_byte assign_work_detail;
  assign_work_detail = record { detail_index = detail_index; unit_id = unit_id; add = add };
}

unfoldable pub send_set_work_detail_mode : (detail_index mode : ℕ) → ℕ → CommandMessage
unfolding command_type_byte
send_set_work_detail_mode detail_index mode id = record zero_command {
  command_id = id;
  command_type = command_type_byte set_work_detail_mode;
  set_work_detail_mode = record { detail_index = detail_index; mode = mode };
}

unfoldable pub send_create_work_detail :
    (name : Bytes) (mode : ℕ) (labor_ids : Bytes) → ℕ → CommandMessage
unfolding command_type_byte
send_create_work_detail name mode labor_ids id = record zero_command {
  command_id = id;
  command_type = command_type_byte create_work_detail;
  create_work_detail = record { name = name; mode = mode; labor_ids = labor_ids };
}

unfoldable pub send_appoint_position : (unit_id : ℤ) (position_code : Bytes) → ℕ → CommandMessage
unfolding command_type_byte
send_appoint_position unit_id position_code id = record zero_command {
  command_id = id;
  command_type = command_type_byte appoint_position;
  appoint_position = record { unit_id = unit_id; position_code = position_code };
}

unfoldable pub send_set_bookkeeper_precision : (precision : ℕ) → ℕ → CommandMessage
unfolding command_type_byte
send_set_bookkeeper_precision precision id = record zero_command {
  command_id = id;
  command_type = command_type_byte set_bookkeeper_precision;
  set_bookkeeper_precision = record { precision = precision };
}

unfoldable pub send_create_squad : (position_code : Bytes) → ℕ → CommandMessage
unfolding command_type_byte
send_create_squad position_code id = record zero_command {
  command_id = id;
  command_type = command_type_byte create_squad;
  create_squad = record { position_code = position_code };
}

unfoldable pub send_assign_squad : (squad_id unit_id : ℤ) (add : Bool) → ℕ → CommandMessage
unfolding command_type_byte
send_assign_squad squad_id unit_id add id = record zero_command {
  command_id = id;
  command_type = command_type_byte assign_squad;
  assign_squad = record { squad_id = squad_id; unit_id = unit_id; add = add };
}

unfoldable pub send_squad_order :
    (squad_id : ℤ) (order_type : ℕ) (x y z : ℤ) (burrow_name : Bytes) → ℕ → CommandMessage
unfolding command_type_byte
send_squad_order squad_id order_type x y z burrow_name id = record zero_command {
  command_id = id;
  command_type = command_type_byte squad_order;
  squad_order = record {
    squad_id = squad_id;
    order = order_type;
    x = x;
    y = y;
    z = z;
    burrow_name = burrow_name;
  };
}

abbrev pub squad_order_station : ℕ
squad_order_station = 0x00

abbrev pub squad_order_defend_burrow : ℕ
squad_order_defend_burrow = 0x01

abbrev pub squad_order_cancel : ℕ
squad_order_cancel = 0x02

unfoldable pub send_squad_order_station : (squad_id x y z : ℤ) → ℕ → CommandMessage
unfolding send_squad_order
send_squad_order_station squad_id x y z = send_squad_order squad_id squad_order_station x y z []

unfoldable pub send_squad_order_defend_burrow :
    (squad_id : ℤ) (burrow_name : Bytes) → ℕ → CommandMessage
unfolding send_squad_order
send_squad_order_defend_burrow squad_id burrow_name =
    send_squad_order squad_id squad_order_defend_burrow (pos 0) (pos 0) (pos 0) burrow_name

unfoldable pub send_squad_order_cancel : (squad_id : ℤ) → ℕ → CommandMessage
unfolding send_squad_order
send_squad_order_cancel squad_id =
    send_squad_order squad_id squad_order_cancel (pos 0) (pos 0) (pos 0) []
