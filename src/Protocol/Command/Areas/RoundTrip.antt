-- ===== src/Protocol/Command/Areas/RoundTrip.antt =====
-- Reading back the payloads that Command/Areas.antt writes.
use df_ai.Protocol.Wire.{Bytes}
use df_ai.Protocol.Wire.Reads.{reads}
use df_ai.Base.{ok, ◌++◌, ◌≡◌}
use df_ai.Protocol.Command.Areas.{
  BuildBridgeDesignation, FarmPlotDesignation, FitsBuildBridgeDesignation, FitsFarmPlotDesignation,
  FitsRegion, FitsSmoothDesignation, FitsStockpileDesignation, FitsZoneDesignation, Region,
  SmoothDesignation, StockpileDesignation, ZoneDesignation, read_build_bridge, read_farm_plot,
  read_region, read_smooth, read_stockpile, read_zone, write_build_bridge, write_farm_plot,
  write_region, write_smooth, write_stockpile, write_zone,
}

pub read_region-write_region :
    (d : Region) (rest : Bytes) → FitsRegion d → read_region (write_region d ++ rest) ≡ ok (d, rest)
unfolding write_region read_region
read_region-write_region d rest h = simp (reads, h.0, h.1, h.2, h.3, h.4, h.5)

pub read_zone-write_zone :
    (d : ZoneDesignation) (rest : Bytes)
    → FitsZoneDesignation d
    → read_zone (write_zone d ++ rest) ≡ ok (d, rest)
unfolding write_zone read_zone
read_zone-write_zone d rest h = simp (reads, h.0, h.1, h.2, h.3, h.4, h.5)

pub read_stockpile-write_stockpile :
    (d : StockpileDesignation) (rest : Bytes)
    → FitsStockpileDesignation d
    → read_stockpile (write_stockpile d ++ rest) ≡ ok (d, rest)
unfolding write_stockpile read_stockpile
read_stockpile-write_stockpile d rest h = simp (reads, h.0, h.1, h.2, h.3, h.4, h.5)

pub read_smooth-write_smooth :
    (d : SmoothDesignation) (rest : Bytes)
    → FitsSmoothDesignation d
    → read_smooth (write_smooth d ++ rest) ≡ ok (d, rest)
unfolding write_smooth read_smooth
read_smooth-write_smooth d rest h = simp (reads, h.0, h.1, h.2, h.3, h.4, h.5)

pub read_farm_plot-write_farm_plot :
    (d : FarmPlotDesignation) (rest : Bytes)
    → FitsFarmPlotDesignation d
    → read_farm_plot (write_farm_plot d ++ rest) ≡ ok (d, rest)
unfolding write_farm_plot read_farm_plot
read_farm_plot-write_farm_plot d rest h = simp (reads, h.0, h.1, h.2, h.3, h.4)

pub read_build_bridge-write_build_bridge :
    (d : BuildBridgeDesignation) (rest : Bytes)
    → FitsBuildBridgeDesignation d
    → read_build_bridge (write_build_bridge d ++ rest) ≡ ok (d, rest)
unfolding write_build_bridge read_build_bridge
read_build_bridge-write_build_bridge d rest h = simp (reads, h.0, h.1, h.2, h.3, h.4, h.5)
