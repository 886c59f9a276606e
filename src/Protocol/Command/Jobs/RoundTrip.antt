-- ===== src/Protocol/Command/Jobs/RoundTrip.antt =====
-- Reading back the payloads that Command/Jobs.antt writes.
use df_ai.Protocol.Wire.{Bytes}
use df_ai.Protocol.Wire.Reads.{IsName-IsText, reads}
use df_ai.Base.{
  Bool-cases, [], arith, false, if◌then◌else◌, inl, inr, ok, true, ℕ, ◌++◌, ◌==◌, ◌>>=◌, ◌≡◌,
}
use df_ai.Protocol.Command.Jobs.{
  BuildDesignation, FitsBuildDesignation, FitsQueueJobDesignation, FitsWorkOrderDesignation,
  QueueJobDesignation, WorkOrderDesignation, build_type_by_name, order_type_by_name,
  order_type_custom_reaction, read_build, read_queue_job, read_work_order, write_build,
  write_queue_job, write_work_order,
}

-- What of a designation is on the wire.
abbrev pub sent_build : BuildDesignation → BuildDesignation
sent_build d = if d.build_type == build_type_by_name then d else record d { build_type_name = [] }

abbrev pub sent_work_order : WorkOrderDesignation → WorkOrderDesignation
sent_work_order d =
    if d.order_type == order_type_by_name then d else record d { job_type_name = [] }

abbrev pub sent_queue_job : QueueJobDesignation → QueueJobDesignation
sent_queue_job d =
    if d.order_type == order_type_by_name
    then record d { reaction_code = [] }
    else (if d.order_type == order_type_custom_reaction
        then record d { job_type_name = [] }
        else record d { job_type_name = []; reaction_code = [] })

-- A BUILD designation with values of their Go types and a name of at most 255 bytes is written and
-- read back, whatever bytes follow, with its name if its type is the by-name one and with no name
-- otherwise.
pub read_build-write_build :
    (d : BuildDesignation) (rest : Bytes)
    → FitsBuildDesignation d
    → (write_build d >>= λ bs. read_build (bs ++ rest)) ≡ ok (sent_build d, rest)
unfolding write_build read_build
read_build-write_build d rest h = elim (Bool-cases (d.build_type == build_type_by_name)) [
  | inl named ↦
      simp
        (reads, named, h.0, h.1, h.2, h.3, h.4, h.5, h.6, h.7, IsName-IsText d.build_type_name h.7)
  | inr plain ↦ simp (reads, plain, h.0, h.1, h.2, h.3, h.4, h.5, h.6)
]

-- A WORK_ORDER designation with values of their Go types and texts of at most 255 bytes is written
-- and read back, whatever bytes follow, with its job name if its type is the by-name one and with
-- no job name otherwise.
pub read_work_order-write_work_order :
    (d : WorkOrderDesignation) (rest : Bytes)
    → FitsWorkOrderDesignation d
    → (write_work_order d >>= λ bs. read_work_order (bs ++ rest)) ≡ ok (sent_work_order d, rest)
unfolding write_work_order read_work_order
read_work_order-write_work_order d rest h = elim (Bool-cases (d.order_type == order_type_by_name)) [
  | inl named ↦ simp (
    reads,
    named,
    h.0,
    h.1,
    h.2,
    h.3,
    h.4,
    h.5,
    IsName-IsText d.job_type_name h.2,
    IsName-IsText d.material h.3,
    IsName-IsText d.subtype h.5,
  )
  | inr plain ↦ simp (
    reads,
    plain,
    h.0,
    h.1,
    h.3,
    h.4,
    h.5,
    IsName-IsText d.material h.3,
    IsName-IsText d.subtype h.5,
  )
]

not_reaction :
    (t : ℕ) → (t == order_type_by_name) ≡ true → (t == order_type_custom_reaction) ≡ false
not_reaction t h = ground arith

-- A QUEUE_JOB designation with values of their Go types and texts within their limits is written
-- and read back, whatever bytes follow, with the job name or the reaction code that its type calls
-- for and without the others.
pub read_queue_job-write_queue_job :
    (d : QueueJobDesignation) (rest : Bytes)
    → FitsQueueJobDesignation d
    → (write_queue_job d >>= λ bs. read_queue_job (bs ++ rest)) ≡ ok (sent_queue_job d, rest)
unfolding write_queue_job read_queue_job
read_queue_job-write_queue_job d rest h = elim (Bool-cases (d.order_type == order_type_by_name)) [
  | inl named ↦ simp (
    reads,
    named,
    not_reaction d.order_type named,
    h.0,
    h.1,
    h.2,
    h.3,
    h.4,
    h.6,
    h.7,
    IsName-IsText d.job_type_name h.4,
    IsName-IsText d.material h.6,
    IsName-IsText d.subtype h.7,
  )
  | inr unnamed ↦ elim (Bool-cases (d.order_type == order_type_custom_reaction)) [
    | inl reaction ↦ simp (
      reads,
      unnamed,
      reaction,
      h.0,
      h.1,
      h.2,
      h.3,
      h.5,
      h.6,
      h.7,
      IsName-IsText d.reaction_code h.5,
      IsName-IsText d.material h.6,
      IsName-IsText d.subtype h.7,
    )
    | inr plain ↦ simp (
      reads,
      unnamed,
      plain,
      h.0,
      h.1,
      h.2,
      h.3,
      h.6,
      h.7,
      IsName-IsText d.material h.6,
      IsName-IsText d.subtype h.7,
    )
  ]
]
