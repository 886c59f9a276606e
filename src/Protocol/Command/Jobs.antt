-- ===== src/Protocol/Command/Jobs.antt =====
-- Command payloads with conditional and optional tails: BUILD, WORK_ORDER and QUEUE_JOB, the structs
-- of internal/protocol/message.go and their cases of serializeCommand and deserializeCommand in
-- internal/protocol/codec.go. A tail that an older peer leaves out is read as its default.
pub mod RoundTrip
pub mod Legacy
use df_ai.Base.{List, Result, [], if◌then◌else◌, ok, pos, ℕ, ℤ, ◌++◌, ◌==◌, ◌∷◌}
use df_ai.Protocol.Wire.{
  Bytes, IsI16, IsName, IsU16, IsU8, Reader, limited, or_at_eof, pure, put_i16, put_text, put_u16,
  put_u8, read_i16, read_text, read_text_tail, read_u16, read_u8, written, ◌>>=◌,
}

abbrev pub build_type_by_name : ℕ
build_type_by_name = 0x00

abbrev pub order_type_by_name : ℕ
order_type_by_name = 0x00

abbrev pub order_type_custom_reaction : ℕ
order_type_custom_reaction = 0x0d

abbrev pub material_class_any : ℕ
material_class_any = 0x00

abbrev pub quality_tier_any : ℕ
quality_tier_any = 0xff

abbrev pub build_orient_any : ℕ
build_orient_any = 0xff

abbrev pub work_order_frequency_one_time : ℕ
work_order_frequency_one_time = 0x00

pub record BuildDesignation : Type 0 where
  pub x : ℤ
  pub y : ℤ
  pub z : ℤ
  pub build_type : ℕ
  pub material : ℕ
  pub quality : ℕ
  pub orientation : ℕ
  pub build_type_name : Bytes

abbrev pub FitsBuildDesignation : BuildDesignation → Type 0
FitsBuildDesignation d =
    IsI16 d.x
    × IsI16 d.y
    × IsI16 d.z
    × IsU8 d.build_type
    × IsU8 d.material
    × IsU8 d.quality
    × IsU8 d.orientation
    × IsName d.build_type_name

abbrev pub zero_build : BuildDesignation
zero_build = record {
  x = pos 0;
  y = pos 0;
  z = pos 0;
  build_type = 0;
  material = 0;
  quality = 0;
  orientation = 0;
  build_type_name = [];
}

-- The bytes that every BUILD payload has.
build_head : BuildDesignation → List Bytes → Bytes
build_head d tail = written (
    put_i16 d.x
    ∷ put_i16 d.y
    ∷ put_i16 d.z
    ∷ put_u8 d.build_type
    ∷ put_u8 d.material
    ∷ put_u8 d.quality
    ∷ put_u8 d.orientation
    ∷ tail)

pub write_build : BuildDesignation → Result Bytes
unfolding build_head
write_build d =
    if d.build_type == build_type_by_name
    then limited 255 d.build_type_name (ok (build_head d (put_text d.build_type_name ∷ [])))
    else ok (build_head d [])

pub read_build : Reader BuildDesignation
read_build = do
  x ← read_i16
  y ← read_i16
  z ← read_i16
  build_type ← read_u8
  material ← or_at_eof material_class_any read_u8
  quality ← or_at_eof quality_tier_any read_u8
  orientation ← or_at_eof build_orient_any read_u8
  build_type_name ← (if build_type == build_type_by_name then read_text else pure [])
  pure (record {
    x = x;
    y = y;
    z = z;
    build_type = build_type;
    material = material;
    quality = quality;
    orientation = orientation;
    build_type_name = build_type_name;
  })

pub record WorkOrderDesignation : Type 0 where
  pub order_type : ℕ
  pub quantity : ℕ
  pub job_type_name : Bytes
  pub material : Bytes
  pub frequency : ℕ
  pub subtype : Bytes

abbrev pub FitsWorkOrderDesignation : WorkOrderDesignation → Type 0
FitsWorkOrderDesignation d =
    IsU8 d.order_type
    × IsU16 d.quantity
    × IsName d.job_type_name
    × IsName d.material
    × IsU8 d.frequency
    × IsName d.subtype

abbrev pub zero_work_order : WorkOrderDesignation
zero_work_order = record {
  order_type = 0;
  quantity = 0;
  job_type_name = [];
  material = [];
  frequency = 0;
  subtype = [];
}

-- The material, the frequency and the subtype, after what precedes them.
order_tails : WorkOrderDesignation → List Bytes → Result Bytes
order_tails d front = limited 255 d.material (
    limited 255 d.subtype (
      ok (
        written front
        ++ written (put_text d.material ∷ put_u8 d.frequency ∷ put_text d.subtype ∷ []))))

pub write_work_order : WorkOrderDesignation → Result Bytes
unfolding order_tails
write_work_order d =
    if d.order_type == order_type_by_name
    then limited 255 d.job_type_name
        (order_tails d (put_u8 d.order_type ∷ put_u16 d.quantity ∷ put_text d.job_type_name ∷ []))
    else order_tails d (put_u8 d.order_type ∷ put_u16 d.quantity ∷ [])

pub read_work_order : Reader WorkOrderDesignation
read_work_order = do
  order_type ← read_u8
  quantity ← read_u16
  job_type_name ← (if order_type == order_type_by_name then read_text else pure [])
  material ← read_text_tail
  frequency ← or_at_eof work_order_frequency_one_time read_u8
  subtype ← read_text_tail
  pure (record {
    order_type = order_type;
    quantity = quantity;
    job_type_name = job_type_name;
    material = material;
    frequency = frequency;
    subtype = subtype;
  })

pub record QueueJobDesignation : Type 0 where
  pub x : ℤ
  pub y : ℤ
  pub z : ℤ
  pub order_type : ℕ
  pub job_type_name : Bytes
  pub reaction_code : Bytes
  pub material : Bytes
  pub subtype : Bytes

abbrev pub FitsQueueJobDesignation : QueueJobDesignation → Type 0
FitsQueueJobDesignation d =
    IsI16 d.x
    × IsI16 d.y
    × IsI16 d.z
    × IsU8 d.order_type
    × IsName d.job_type_name
    × IsName d.reaction_code
    × IsName d.material
    × IsName d.subtype

abbrev pub zero_queue_job : QueueJobDesignation
zero_queue_job = record {
  x = pos 0;
  y = pos 0;
  z = pos 0;
  order_type = 0;
  job_type_name = [];
  reaction_code = [];
  material = [];
  subtype = [];
}

job_tails : QueueJobDesignation → List Bytes → Result Bytes
job_tails d name = limited 255 d.material (
    limited 255 d.subtype (
      ok (
        written (put_i16 d.x ∷ put_i16 d.y ∷ put_i16 d.z ∷ put_u8 d.order_type ∷ name)
        ++ written (put_text d.material ∷ put_text d.subtype ∷ []))))

-- The trailing name is the one that the order type calls for, if it calls for one.
pub write_queue_job : QueueJobDesignation → Result Bytes
unfolding job_tails
write_queue_job d =
    if d.order_type == order_type_by_name
    then limited 255 d.job_type_name (job_tails d (put_text d.job_type_name ∷ []))
    else (if d.order_type == order_type_custom_reaction
        then limited 255 d.reaction_code (job_tails d (put_text d.reaction_code ∷ []))
        else job_tails d [])

-- The name goes to the field that the order type says.
pub read_queue_job : Reader QueueJobDesignation
read_queue_job = do
  x ← read_i16
  y ← read_i16
  z ← read_i16
  order_type ← read_u8
  job_type_name ← (if order_type == order_type_by_name then read_text else pure [])
  reaction_code ← (if order_type == order_type_custom_reaction then read_text else pure [])
  material ← read_text_tail
  subtype ← read_text_tail
  pure (record {
    x = x;
    y = y;
    z = z;
    order_type = order_type;
    job_type_name = job_type_name;
    reaction_code = reaction_code;
    material = material;
    subtype = subtype;
  })
