-- ===== src/Protocol/Command/Orders/RoundTrip.antt =====
-- Reading back the payloads that Command/Orders.antt writes.
use df_ai.Protocol.Wire.{Bytes}
use df_ai.Protocol.Wire.Reads.{IsName-IsText, reads}
use df_ai.Base.{ok, ◌++◌, ◌>>=◌, ◌≡◌}
use df_ai.Protocol.Command.Orders.{
  BringGoodsToDepotDesignation, CancelOrderDesignation, EditOrderDesignation,
  FitsBringGoodsToDepotDesignation, FitsCancelOrderDesignation, FitsEditOrderDesignation,
  FitsPauseControl, FitsUnmarkTradeGoodsDesignation, PauseControl, UnmarkTradeGoodsDesignation,
  read_bring_goods_to_depot, read_cancel_order, read_edit_order, read_pause,
  read_unmark_trade_goods, write_bring_goods_to_depot, write_cancel_order, write_edit_order,
  write_pause, write_unmark_trade_goods,
}

pub read_cancel_order-write_cancel_order :
    (d : CancelOrderDesignation) (rest : Bytes)
    → FitsCancelOrderDesignation d
    → read_cancel_order (write_cancel_order d ++ rest) ≡ ok (d, rest)
unfolding write_cancel_order read_cancel_order
read_cancel_order-write_cancel_order d rest h = simp (reads, h)

pub read_edit_order-write_edit_order :
    (d : EditOrderDesignation) (rest : Bytes)
    → FitsEditOrderDesignation d
    → read_edit_order (write_edit_order d ++ rest) ≡ ok (d, rest)
unfolding write_edit_order read_edit_order
read_edit_order-write_edit_order d rest h = simp (reads, h.0, h.1, h.2)

pub read_bring_goods_to_depot-write_bring_goods_to_depot :
    (d : BringGoodsToDepotDesignation) (rest : Bytes)
    → FitsBringGoodsToDepotDesignation d
    → (write_bring_goods_to_depot d >>= λ bs. read_bring_goods_to_depot (bs ++ rest)) ≡ ok (d, rest)
unfolding write_bring_goods_to_depot read_bring_goods_to_depot
read_bring_goods_to_depot-write_bring_goods_to_depot d rest h = simp (
  reads,
  h.0,
  h.1,
  h.2,
  h.3,
  IsName-IsText d.item_type_filter h.3,
  h.4,
  IsName-IsText d.material_filter h.4,
  h.5,
  h.6,
  h.7,
)

pub read_unmark_trade_goods-write_unmark_trade_goods :
    (d : UnmarkTradeGoodsDesignation) (rest : Bytes)
    → FitsUnmarkTradeGoodsDesignation d
    → (write_unmark_trade_goods d >>= λ bs. read_unmark_trade_goods (bs ++ rest)) ≡ ok (d, rest)
unfolding write_unmark_trade_goods read_unmark_trade_goods
read_unmark_trade_goods-write_unmark_trade_goods d rest h = simp (
  reads,
  h.0,
  h.1,
  h.2,
  h.3,
  IsName-IsText d.item_type_filter h.3,
  h.4,
  IsName-IsText d.material_filter h.4,
  h.5,
  h.6,
)

pub read_pause-write_pause :
    (d : PauseControl) (rest : Bytes)
    → FitsPauseControl d
    → read_pause (write_pause d ++ rest) ≡ ok (d, rest)
unfolding write_pause read_pause
read_pause-write_pause d rest h = simp (reads, h.0, h.1)
