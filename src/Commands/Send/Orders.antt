-- ===== src/Commands/Send/Orders.antt =====
-- internal/commands/executor.go: the commands about work orders, jobs, the trade depot and the clock of the game. The last argument of each function
-- is the id that GenerateCommandID gives.
use df_ai.Base.{Bool, [], if◌then◌else◌, ℕ, ℤ, ◌==◌}
use df_ai.Protocol.Wire.{Bytes}
use df_ai.Protocol.Command.Types.{
  bring_goods_to_depot, cancel_order, command_type_byte, edit_order, pause, queue_job,
  unmark_trade_goods, work_order,
}
use df_ai.Protocol.Command.Message.{CommandMessage, zero_command}
use df_ai.Protocol.Command.Jobs.{order_type_by_name, order_type_custom_reaction}

unfoldable pub send_bring_goods_to_depot :
    (x y z : ℤ) (item_type_filter material_filter : Bytes) (item_class : ℕ)
    (max_count max_total_value : ℤ)
    → ℕ
    → CommandMessage
unfolding command_type_byte
send_bring_goods_to_depot x y z item_type_filter material_filter item_class max_count
      max_total_value id =
    record zero_command {
      command_id = id;
      command_type = command_type_byte bring_goods_to_depot;
      bring_goods_to_depot = record {
        x = x;
        y = y;
        z = z;
        item_type_filter = item_type_filter;
        material_filter = material_filter;
        max_count = max_count;
        max_total_value = max_total_value;
        item_class = item_class;
      };
    }

unfoldable pub send_unmark_trade_goods :
    (x y z : ℤ) (item_type_filter material_filter : Bytes) (item_class : ℕ) (max_count : ℤ)
    → ℕ
    → CommandMessage
unfolding command_type_byte
send_unmark_trade_goods x y z item_type_filter material_filter item_class max_count id =
    record zero_command {
      command_id = id;
      command_type = command_type_byte unmark_trade_goods;
      unmark_trade_goods = record {
        x = x;
        y = y;
        z = z;
        item_type_filter = item_type_filter;
        material_filter = material_filter;
        item_class = item_class;
        max_count = max_count;
      };
    }

unfoldable pub send_cancel_order : (order_id : ℤ) → ℕ → CommandMessage
unfolding command_type_byte
send_cancel_order order_id id = record zero_command {
  command_id = id;
  command_type = command_type_byte cancel_order;
  cancel_order = record { order_id = order_id };
}

unfoldable pub send_edit_order :
    (order_id : ℤ) (has_amount : Bool) (amount : ℕ) (has_frequency : Bool) (frequency : ℕ)
    → ℕ
    → CommandMessage
unfolding command_type_byte
send_edit_order order_id has_amount amount has_frequency frequency id = record zero_command {
  command_id = id;
  command_type = command_type_byte edit_order;
  edit_order = record {
    order_id = order_id;
    has_amount = has_amount;
    amount = amount;
    has_frequency = has_frequency;
    frequency = frequency;
  };
}

unfoldable pub send_work_order_command :
    (order_type quantity : ℕ) (job_type_name material subtype : Bytes) (frequency : ℕ)
    → ℕ
    → CommandMessage
unfolding command_type_byte
send_work_order_command order_type quantity job_type_name material subtype frequency id =
    record zero_command {
      command_id = id;
      command_type = command_type_byte work_order;
      order = record {
        order_type = order_type;
        quantity = quantity;
        material = material;
        frequency = frequency;
        subtype = subtype;
        job_type_name = if order_type == order_type_by_name then job_type_name else [];
      };
    }

unfoldable pub send_queue_job :
    (x y z : ℤ) (order_type : ℕ) (name material subtype : Bytes) → ℕ → CommandMessage
unfolding command_type_byte
send_queue_job x y z order_type name material subtype id = record zero_command {
  command_id = id;
  command_type = command_type_byte queue_job;
  queue_job = record {
    x = x;
    y = y;
    z = z;
    order_type = order_type;
    job_type_name = if order_type == order_type_by_name then name else [];
    reaction_code =
        if order_type == order_type_by_name
        then []
        else (if order_type == order_type_custom_reaction then name else []);
    material = material;
    subtype = subtype;
  };
}

abbrev pub pause_mode_unpause : ℕ
pause_mode_unpause = 0x00

abbrev pub pause_mode_pause : ℕ
pause_mode_pause = 0x01

abbrev pub pause_mode_step : ℕ
pause_mode_step = 0x02

unfoldable pub send_pause_command : (paused : Bool) → ℕ → CommandMessage
unfolding command_type_byte
send_pause_command paused id = record zero_command {
  command_id = id;
  command_type = command_type_byte pause;
  pause = record { mode = if paused then pause_mode_pause else pause_mode_unpause; ticks = 0 };
}

-- Without the check of the ticks, which `refused` makes.
unfoldable pub send_step_command : (ticks : ℕ) → ℕ → CommandMessage
unfolding command_type_byte
send_step_command ticks id = record zero_command {
  command_id = id;
  command_type = command_type_byte pause;
  pause = record { mode = pause_mode_step; ticks = ticks };
}
