-- ===== src/Protocol/Command/Tests.antt =====
-- The theorems on BUILD, WORK_ORDER and QUEUE_JOB payloads at concrete designations.
use df_ai.Protocol.Command.Jobs.{
  BuildDesignation, QueueJobDesignation, WorkOrderDesignation, build_orient_any, build_type_by_name,
  material_class_any, order_type_by_name, order_type_custom_reaction, quality_tier_any, read_build,
  read_work_order, work_order_frequency_one_time,
}
use df_ai.Protocol.Command.Jobs.Legacy.{
  build_payload, order_payload, read_build_legacy, read_work_order_legacy,
}
use df_ai.Protocol.Wire.{put_text, put_u8}
use df_ai.Base.{[], arith, ok, pos, ◌∷◌, ◌≡◌, ◌≢◌}

abbrev bed : BuildDesignation
bed = record {
  x = pos 10;
  y = pos 11;
  z = pos 150;
  build_type = 0x30;
  material = 1;
  quality = 2;
  orientation = 3;
  build_type_name = 66 ∷ [];
}

abbrev named : BuildDesignation
named = record bed { build_type = build_type_by_name }

abbrev beds : WorkOrderDesignation
beds = record {
  order_type = 4;
  quantity = 500;
  job_type_name = [];
  material = 79 ∷ 65 ∷ [];
  frequency = 1;
  subtype = 83 ∷ [];
}

abbrev brew : QueueJobDesignation
brew = record {
  x = pos 1;
  y = pos 2;
  z = pos 3;
  order_type = order_type_custom_reaction;
  job_type_name = 65 ∷ [];
  reaction_code = 66 ∷ 67 ∷ [];
  material = [];
  subtype = [];
}

curated : bed.build_type ≢ build_type_by_name
curated e = absurd (omega arith)

plain : beds.order_type ≢ order_type_by_name
plain e = absurd (omega arith)

read_build_legacy_example :
    (read_build (build_payload bed [])
      ≡ ok (
        record bed {
          material = material_class_any;
          quality = quality_tier_any;
          orientation = build_orient_any;
          build_type_name = [];
        },
        [],
      ))
    × (read_build (build_payload bed (put_u8 bed.material ∷ []))
        ≡ ok (
          record bed {
            quality = quality_tier_any;
            orientation = build_orient_any;
            build_type_name = [];
          },
          [],
        ))
    × (read_build (build_payload bed (put_u8 bed.material ∷ put_u8 bed.quality ∷ []))
        ≡ ok (record bed { orientation = build_orient_any; build_type_name = [] }, []))
read_build_legacy_example = read_build_legacy bed (ground arith) curated

read_work_order_legacy_example :
    (read_work_order (order_payload beds [])
      ≡ ok (
        record beds {
          job_type_name = [];
          material = [];
          frequency = work_order_frequency_one_time;
          subtype = [];
        },
        [],
      ))
    × (read_work_order (order_payload beds (put_text beds.material ∷ []))
        ≡ ok (
          record beds {
            job_type_name = [];
            frequency = work_order_frequency_one_time;
            subtype = [];
          },
          [],
        ))
    × (read_work_order (order_payload beds (put_text beds.material ∷ put_u8 beds.frequency ∷ []))
        ≡ ok (record beds { job_type_name = []; subtype = [] }, []))
read_work_order_legacy_example =
    read_work_order_legacy beds (omega arith) (omega arith) (omega arith) (omega arith) plain
