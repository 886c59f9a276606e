-- ===== src/Protocol/Command/Areas.antt =====
-- Command payloads about rectangles of tiles: regions, zones, stockpiles, smoothing, farm plots and
-- bridges: the structs of internal/protocol/message.go and their cases of serializeCommand and
-- deserializeCommand in internal/protocol/codec.go.
pub mod RoundTrip
use df_ai.Base.{[], pos, ℕ, ℤ, ◌∷◌}
use df_ai.Protocol.Wire.{
  Bytes, IsI16, IsU32, IsU8, Reader, pure, put_i16, put_u32, put_u8, read_i16, read_u32, read_u8,
  written, ◌>>=◌,
}

pub record Region : Type 0 where
  pub x1 : ℤ
  pub y1 : ℤ
  pub z1 : ℤ
  pub x2 : ℤ
  pub y2 : ℤ
  pub z2 : ℤ

abbrev pub FitsRegion : Region → Type 0
FitsRegion d = IsI16 d.x1 × IsI16 d.y1 × IsI16 d.z1 × IsI16 d.x2 × IsI16 d.y2 × IsI16 d.z2

abbrev pub zero_region : Region
zero_region = record { x1 = pos 0; y1 = pos 0; z1 = pos 0; x2 = pos 0; y2 = pos 0; z2 = pos 0 }

pub write_region : Region → Bytes
write_region d =
    written
      (put_i16 d.x1 ∷ put_i16 d.y1 ∷ put_i16 d.z1 ∷ put_i16 d.x2 ∷ put_i16 d.y2 ∷ put_i16 d.z2 ∷ [])

pub read_region : Reader Region
read_region = do
  x1 ← read_i16
  y1 ← read_i16
  z1 ← read_i16
  x2 ← read_i16
  y2 ← read_i16
  z2 ← read_i16
  pure (record { x1 = x1; y1 = y1; z1 = z1; x2 = x2; y2 = y2; z2 = z2 })

pub record ZoneDesignation : Type 0 where
  pub zone_type : ℕ
  pub x1 : ℤ
  pub y1 : ℤ
  pub z : ℤ
  pub x2 : ℤ
  pub y2 : ℤ

abbrev pub FitsZoneDesignation : ZoneDesignation → Type 0
FitsZoneDesignation d =
    IsU8 d.zone_type × IsI16 d.x1 × IsI16 d.y1 × IsI16 d.z × IsI16 d.x2 × IsI16 d.y2

abbrev pub zero_zone : ZoneDesignation
zero_zone = record { zone_type = 0; x1 = pos 0; y1 = pos 0; z = pos 0; x2 = pos 0; y2 = pos 0 }

pub write_zone : ZoneDesignation → Bytes
write_zone d = written (
    put_u8 d.zone_type
    ∷ put_i16 d.x1
    ∷ put_i16 d.y1
    ∷ put_i16 d.z
    ∷ put_i16 d.x2
    ∷ put_i16 d.y2
    ∷ [])

pub read_zone : Reader ZoneDesignation
read_zone = do
  zone_type ← read_u8
  x1 ← read_i16
  y1 ← read_i16
  z ← read_i16
  x2 ← read_i16
  y2 ← read_i16
  pure (record { zone_type = zone_type; x1 = x1; y1 = y1; z = z; x2 = x2; y2 = y2 })

pub record StockpileDesignation : Type 0 where
  pub x1 : ℤ
  pub y1 : ℤ
  pub z : ℤ
  pub x2 : ℤ
  pub y2 : ℤ
  pub group_mask : ℕ

abbrev pub FitsStockpileDesignation : StockpileDesignation → Type 0
FitsStockpileDesignation d =
    IsI16 d.x1 × IsI16 d.y1 × IsI16 d.z × IsI16 d.x2 × IsI16 d.y2 × IsU32 d.group_mask

abbrev pub zero_stockpile : StockpileDesignation
zero_stockpile = record {
  x1 = pos 0;
  y1 = pos 0;
  z = pos 0;
  x2 = pos 0;
  y2 = pos 0;
  group_mask = 0;
}

pub write_stockpile : StockpileDesignation → Bytes
write_stockpile d = written (
    put_i16 d.x1
    ∷ put_i16 d.y1
    ∷ put_i16 d.z
    ∷ put_i16 d.x2
    ∷ put_i16 d.y2
    ∷ put_u32 d.group_mask
    ∷ [])

pub read_stockpile : Reader StockpileDesignation
read_stockpile = do
  x1 ← read_i16
  y1 ← read_i16
  z ← read_i16
  x2 ← read_i16
  y2 ← read_i16
  group_mask ← read_u32
  pure (record { x1 = x1; y1 = y1; z = z; x2 = x2; y2 = y2; group_mask = group_mask })

pub record SmoothDesignation : Type 0 where
  pub smooth_type : ℕ
  pub x1 : ℤ
  pub y1 : ℤ
  pub z : ℤ
  pub x2 : ℤ
  pub y2 : ℤ

abbrev pub FitsSmoothDesignation : SmoothDesignation → Type 0
FitsSmoothDesignation d =
    IsU8 d.smooth_type × IsI16 d.x1 × IsI16 d.y1 × IsI16 d.z × IsI16 d.x2 × IsI16 d.y2

abbrev pub zero_smooth : SmoothDesignation
zero_smooth = record { smooth_type = 0; x1 = pos 0; y1 = pos 0; z = pos 0; x2 = pos 0; y2 = pos 0 }

pub write_smooth : SmoothDesignation → Bytes
write_smooth d = written (
    put_u8 d.smooth_type
    ∷ put_i16 d.x1
    ∷ put_i16 d.y1
    ∷ put_i16 d.z
    ∷ put_i16 d.x2
    ∷ put_i16 d.y2
    ∷ [])

pub read_smooth : Reader SmoothDesignation
read_smooth = do
  smooth_type ← read_u8
  x1 ← read_i16
  y1 ← read_i16
  z ← read_i16
  x2 ← read_i16
  y2 ← read_i16
  pure (record { smooth_type = smooth_type; x1 = x1; y1 = y1; z = z; x2 = x2; y2 = y2 })

pub record FarmPlotDesignation : Type 0 where
  pub x1 : ℤ
  pub y1 : ℤ
  pub z : ℤ
  pub x2 : ℤ
  pub y2 : ℤ

abbrev pub FitsFarmPlotDesignation : FarmPlotDesignation → Type 0
FitsFarmPlotDesignation d = IsI16 d.x1 × IsI16 d.y1 × IsI16 d.z × IsI16 d.x2 × IsI16 d.y2

abbrev pub zero_farm_plot : FarmPlotDesignation
zero_farm_plot = record { x1 = pos 0; y1 = pos 0; z = pos 0; x2 = pos 0; y2 = pos 0 }

pub write_farm_plot : FarmPlotDesignation → Bytes
write_farm_plot d =
    written (put_i16 d.x1 ∷ put_i16 d.y1 ∷ put_i16 d.z ∷ put_i16 d.x2 ∷ put_i16 d.y2 ∷ [])

pub read_farm_plot : Reader FarmPlotDesignation
read_farm_plot = do
  x1 ← read_i16
  y1 ← read_i16
  z ← read_i16
  x2 ← read_i16
  y2 ← read_i16
  pure (record { x1 = x1; y1 = y1; z = z; x2 = x2; y2 = y2 })

pub record BuildBridgeDesignation : Type 0 where
  pub x1 : ℤ
  pub y1 : ℤ
  pub z : ℤ
  pub x2 : ℤ
  pub y2 : ℤ
  pub direction : ℕ

abbrev pub FitsBuildBridgeDesignation : BuildBridgeDesignation → Type 0
FitsBuildBridgeDesignation d =
    IsI16 d.x1 × IsI16 d.y1 × IsI16 d.z × IsI16 d.x2 × IsI16 d.y2 × IsU8 d.direction

abbrev pub zero_build_bridge : BuildBridgeDesignation
zero_build_bridge = record {
  x1 = pos 0;
  y1 = pos 0;
  z = pos 0;
  x2 = pos 0;
  y2 = pos 0;
  direction = 0;
}

pub write_build_bridge : BuildBridgeDesignation → Bytes
write_build_bridge d = written (
    put_i16 d.x1
    ∷ put_i16 d.y1
    ∷ put_i16 d.z
    ∷ put_i16 d.x2
    ∷ put_i16 d.y2
    ∷ put_u8 d.direction
    ∷ [])

pub read_build_bridge : Reader BuildBridgeDesignation
read_build_bridge = do
  x1 ← read_i16
  y1 ← read_i16
  z ← read_i16
  x2 ← read_i16
  y2 ← read_i16
  direction ← read_u8
  pure (record { x1 = x1; y1 = y1; z = z; x2 = x2; y2 = y2; direction = direction })
