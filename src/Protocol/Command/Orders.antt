-- ===== src/Protocol/Command/Orders.antt =====
-- Command payloads about manager orders, trade goods and the pause control: the structs of
-- internal/protocol/message.go and their cases of serializeCommand and deserializeCommand in
-- internal/protocol/codec.go.
pub mod RoundTrip
use df_ai.Base.{Bool, Result, [], false, ok, pos, ℕ, ℤ, ◌∷◌}
use df_ai.Protocol.Wire.{
  Bytes, IsI16, IsI32, IsI64, IsName, IsU16, IsU32, IsU8, Reader, limited, or_at_eof, pure,
  put_bool, put_i16, put_i32, put_i64, put_text, put_u16, put_u32, put_u8, read_bool, read_i16,
  read_i32, read_i64, read_text, read_u16, read_u32, read_u8, written, ◌>>=◌,
}

-- ItemClassAny
abbrev item_class_any : ℕ
item_class_any = 0

pub record CancelOrderDesignation : Type 0 where
  pub order_id : ℤ

abbrev pub FitsCancelOrderDesignation : CancelOrderDesignation → Type 0
FitsCancelOrderDesignation d = IsI32 d.order_id

abbrev pub zero_cancel_order : CancelOrderDesignation
zero_cancel_order = record { order_id = pos 0 }

pub write_cancel_order : CancelOrderDesignation → Bytes
write_cancel_order d = written (put_i32 d.order_id ∷ [])

pub read_cancel_order : Reader CancelOrderDesignation
read_cancel_order = do order_id ← read_i32; pure (record { order_id = order_id })

pub record EditOrderDesignation : Type 0 where
  pub order_id : ℤ
  pub has_amount : Bool
  pub amount : ℕ
  pub has_frequency : Bool
  pub frequency : ℕ

abbrev pub FitsEditOrderDesignation : EditOrderDesignation → Type 0
FitsEditOrderDesignation d = IsI32 d.order_id × IsU16 d.amount × IsU8 d.frequency

abbrev pub zero_edit_order : EditOrderDesignation
zero_edit_order = record {
  order_id = pos 0;
  has_amount = false;
  amount = 0;
  has_frequency = false;
  frequency = 0;
}

pub write_edit_order : EditOrderDesignation → Bytes
write_edit_order d = written (
    put_i32 d.order_id
    ∷ put_bool d.has_amount
    ∷ put_u16 d.amount
    ∷ put_bool d.has_frequency
    ∷ put_u8 d.frequency
    ∷ [])

pub read_edit_order : Reader EditOrderDesignation
read_edit_order = do
  order_id ← read_i32
  has_amount ← read_bool
  amount ← read_u16
  has_frequency ← read_bool
  frequency ← read_u8
  pure (record {
    order_id = order_id;
    has_amount = has_amount;
    amount = amount;
    has_frequency = has_frequency;
    frequency = frequency;
  })

pub record BringGoodsToDepotDesignation : Type 0 where
  pub x : ℤ
  pub y : ℤ
  pub z : ℤ
  pub item_type_filter : Bytes
  pub material_filter : Bytes
  pub max_count : ℤ
  pub max_total_value : ℤ
  pub item_class : ℕ

abbrev pub FitsBringGoodsToDepotDesignation : BringGoodsToDepotDesignation → Type 0
FitsBringGoodsToDepotDesignation d =
    IsI16 d.x
    × IsI16 d.y
    × IsI16 d.z
    × IsName d.item_type_filter
    × IsName d.material_filter
    × IsI32 d.max_count
    × IsI64 d.max_total_value
    × IsU8 d.item_class

abbrev pub zero_bring_goods_to_depot : BringGoodsToDepotDesignation
zero_bring_goods_to_depot = record {
  x = pos 0;
  y = pos 0;
  z = pos 0;
  item_type_filter = [];
  material_filter = [];
  max_count = pos 0;
  max_total_value = pos 0;
  item_class = 0;
}

pub write_bring_goods_to_depot : BringGoodsToDepotDesignation → Result Bytes
write_bring_goods_to_depot d = limited 255 d.item_type_filter (
    limited 255 d.material_filter (
      ok (
        written (
          put_i16 d.x
          ∷ put_i16 d.y
          ∷ put_i16 d.z
          ∷ put_text d.item_type_filter
          ∷ put_text d.material_filter
          ∷ put_i32 d.max_count
          ∷ put_i64 d.max_total_value
          ∷ put_u8 d.item_class
          ∷ []))))

pub read_bring_goods_to_depot : Reader BringGoodsToDepotDesignation
read_bring_goods_to_depot = do
  x ← read_i16
  y ← read_i16
  z ← read_i16
  item_type_filter ← read_text
  material_filter ← read_text
  max_count ← read_i32
  max_total_value ← read_i64
  item_class ← or_at_eof item_class_any read_u8
  pure (record {
    x = x;
    y = y;
    z = z;
    item_type_filter = item_type_filter;
    material_filter = material_filter;
    max_count = max_count;
    max_total_value = max_total_value;
    item_class = item_class;
  })

pub record UnmarkTradeGoodsDesignation : Type 0 where
  pub x : ℤ
  pub y : ℤ
  pub z : ℤ
  pub item_type_filter : Bytes
  pub material_filter : Bytes
  pub item_class : ℕ
  pub max_count : ℤ

abbrev pub FitsUnmarkTradeGoodsDesignation : UnmarkTradeGoodsDesignation → Type 0
FitsUnmarkTradeGoodsDesignation d =
    IsI16 d.x
    × IsI16 d.y
    × IsI16 d.z
    × IsName d.item_type_filter
    × IsName d.material_filter
    × IsU8 d.item_class
    × IsI32 d.max_count

abbrev pub zero_unmark_trade_goods : UnmarkTradeGoodsDesignation
zero_unmark_trade_goods = record {
  x = pos 0;
  y = pos 0;
  z = pos 0;
  item_type_filter = [];
  material_filter = [];
  item_class = 0;
  max_count = pos 0;
}

pub write_unmark_trade_goods : UnmarkTradeGoodsDesignation → Result Bytes
write_unmark_trade_goods d = limited 255 d.item_type_filter (
    limited 255 d.material_filter (
      ok (
        written (
          put_i16 d.x
          ∷ put_i16 d.y
          ∷ put_i16 d.z
          ∷ put_text d.item_type_filter
          ∷ put_text d.material_filter
          ∷ put_u8 d.item_class
          ∷ put_i32 d.max_count
          ∷ []))))

pub read_unmark_trade_goods : Reader UnmarkTradeGoodsDesignation
read_unmark_trade_goods = do
  x ← read_i16
  y ← read_i16
  z ← read_i16
  item_type_filter ← read_text
  material_filter ← read_text
  item_class ← read_u8
  max_count ← read_i32
  pure (record {
    x = x;
    y = y;
    z = z;
    item_type_filter = item_type_filter;
    material_filter = material_filter;
    item_class = item_class;
    max_count = max_count;
  })

pub record PauseControl : Type 0 where
  pub mode : ℕ
  pub ticks : ℕ

abbrev pub FitsPauseControl : PauseControl → Type 0
FitsPauseControl d = IsU8 d.mode × IsU32 d.ticks

abbrev pub zero_pause : PauseControl
zero_pause = record { mode = 0; ticks = 0 }

pub write_pause : PauseControl → Bytes
write_pause d = written (put_u8 d.mode ∷ put_u32 d.ticks ∷ [])

pub read_pause : Reader PauseControl
read_pause = do mode ← read_u8; ticks ← read_u32; pure (record { mode = mode; ticks = ticks })
