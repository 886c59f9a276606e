-- ===== src/Protocol/Command/Jobs/Legacy.antt =====
-- Payloads of peers that predate the optional tails of BUILD, WORK_ORDER and QUEUE_JOB.
use df_ai.Base.{List, [], arith, false, ok, refl, ℕ, ◌==◌, ◌∷◌, ◌≡◌, ◌≢◌}
use df_ai.Protocol.Wire.{
  Bytes, IsText, IsU16, IsU8, or_at_eof, put_i16, put_text, put_u16, put_u8, read_text_tail,
  read_u16, read_u8, short, written,
}
use df_ai.Protocol.Wire.Reads.{reads}
use df_ai.Protocol.Command.Jobs.{
  BuildDesignation, FitsBuildDesignation, WorkOrderDesignation, build_orient_any,
  build_type_by_name, material_class_any, order_type_by_name, quality_tier_any, read_build,
  read_work_order, work_order_frequency_one_time,
}

absent_byte : (default : ℕ) → or_at_eof default read_u8 [] ≡ ok (default, [])
unfolding or_at_eof read_u8
absent_byte default = refl

absent_text : read_text_tail [] ≡ ok ([], [])
unfolding read_text_tail read_u16
absent_text = refl

-- What every peer sends, and the tail that this one does.
abbrev pub build_payload : BuildDesignation → List Bytes → Bytes
build_payload d tail =
    written (put_i16 d.x ∷ put_i16 d.y ∷ put_i16 d.z ∷ put_u8 d.build_type ∷ tail)

abbrev pub order_payload : WorkOrderDesignation → List Bytes → Bytes
order_payload d tail = written (put_u8 d.order_type ∷ put_u16 d.quantity ∷ tail)

-- A BUILD payload with values of their Go types and another type than the by-name one, which ends
-- after the build type, after the material or after the quality, is read with the any-value of each
-- byte that it lacks and with no name.
pub read_build_legacy :
    (d : BuildDesignation)
    → FitsBuildDesignation d
    → d.build_type ≢ build_type_by_name
    → (read_build (build_payload d [])
        ≡ ok (
          record d {
            material = material_class_any;
            quality = quality_tier_any;
            orientation = build_orient_any;
            build_type_name = [];
          },
          [],
        ))
      × (read_build (build_payload d (put_u8 d.material ∷ []))
          ≡ ok (
            record d {
              quality = quality_tier_any;
              orientation = build_orient_any;
              build_type_name = [];
            },
            [],
          ))
      × (read_build (build_payload d (put_u8 d.material ∷ put_u8 d.quality ∷ []))
          ≡ ok (record d { orientation = build_orient_any; build_type_name = [] }, []))
unfolding read_build
read_build_legacy d h curated =
    let plain : (d.build_type == build_type_by_name) ≡ false = ground arith in
    (
      simp (reads, absent_byte, plain, h.0, h.1, h.2, h.3),
      simp (reads, absent_byte, plain, h.0, h.1, h.2, h.3, h.4),
      simp (reads, absent_byte, plain, h.0, h.1, h.2, h.3, h.4, h.5),
    )

-- A WORK_ORDER payload of a uint8 type other than the by-name one, a uint16 quantity, a material of
-- at most 65535 bytes and a uint8 frequency, which ends after the quantity, after the material or
-- after the frequency, is read as a one-time order where it lacks the frequency, with no material
-- and no subtype where it lacks them, and with no name.
pub read_work_order_legacy :
    (d : WorkOrderDesignation)
    → IsU8 d.order_type
    → IsU16 d.quantity
    → IsText d.material
    → IsU8 d.frequency
    → d.order_type ≢ order_type_by_name
    → (read_work_order (order_payload d [])
        ≡ ok (
          record d {
            job_type_name = [];
            material = [];
            frequency = work_order_frequency_one_time;
            subtype = [];
          },
          [],
        ))
      × (read_work_order (order_payload d (put_text d.material ∷ []))
          ≡ ok (
            record d {
              job_type_name = [];
              frequency = work_order_frequency_one_time;
              subtype = [];
            },
            [],
          ))
      × (read_work_order (order_payload d (put_text d.material ∷ put_u8 d.frequency ∷ []))
          ≡ ok (record d { job_type_name = []; subtype = [] }, []))
unfolding read_work_order
read_work_order_legacy d type_fits quantity_fits short frequency_fits curated =
    let plain : (d.order_type == order_type_by_name) ≡ false = ground arith in
    (
      simp (reads, absent_byte, absent_text, plain, type_fits, quantity_fits),
      simp (reads, absent_byte, absent_text, plain, type_fits, quantity_fits, short),
      simp (reads, absent_text, plain, type_fits, quantity_fits, short, frequency_fits),
    )
