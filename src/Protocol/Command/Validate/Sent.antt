-- ===== src/Protocol/Command/Validate/Sent.antt =====
-- CommandMessage.Validate of internal/protocol/message.go on what a receiver gets.
use df_ai.Base.{arith, guard_then, ok, refl, then_guard, ◌≡◌}
use df_ai.Protocol.Command.Types.{
  CommandType, build, command_type_of, queue_job, unknown, work_order,
}
use df_ai.Protocol.Command.Message.{CommandMessage}
use df_ai.Protocol.Command.Carry.{carry}
use df_ai.Protocol.Command.Jobs.{BuildDesignation, QueueJobDesignation, WorkOrderDesignation}
use df_ai.Protocol.Command.Jobs.RoundTrip.{sent_build, sent_queue_job, sent_work_order}
use df_ai.Protocol.Command.Validate.{
  validate_build, validate_command, validate_payload, validate_queue_job, validate_work_order,
}
use df_ai.Protocol.Command.RoundTrip.{blank, sent_command}

validate_build-sent_build :
    (d : BuildDesignation) → validate_build d ≡ ok tt → validate_build (sent_build d) ≡ ok tt
unfolding validate_build
validate_build-sent_build d h = ground arith

validate_work_order-sent :
    (d : WorkOrderDesignation)
    → validate_work_order d ≡ ok tt
    → validate_work_order (sent_work_order d) ≡ ok tt
unfolding validate_work_order
validate_work_order-sent d h = ground arith

validate_queue_job-sent :
    (d : QueueJobDesignation)
    → validate_queue_job d ≡ ok tt
    → validate_queue_job (sent_queue_job d) ≡ ok tt
unfolding validate_queue_job
validate_queue_job-sent d h = ground arith

carry_type : (t : CommandType) (m z : CommandMessage) → (carry t m z).command_type ≡ z.command_type
carry_type unknown m z = refl
carry_type other m z = refl

validate_payload-carry :
    (t : CommandType) (m z : CommandMessage)
    → validate_payload t m ≡ ok tt
    → validate_payload t (carry t m z) ≡ ok tt
unfolding validate_payload
validate_payload-carry build m z h = validate_build-sent_build m.build h
validate_payload-carry work_order m z h = validate_work_order-sent m.order h
validate_payload-carry queue_job m z h = validate_queue_job-sent m.queue_job h
validate_payload-carry other m z h = h

-- A command that passes Validate still passes it as the receiver gets it, with only the fields that
-- its type sends.
pub validate_command-sent_command :
    (m : CommandMessage) → validate_command m ≡ ok tt → validate_command (sent_command m) ≡ ok tt
unfolding validate_command
validate_command-sent_command m h =
    let t = command_type_of m.command_type in
    let (in_range, valid) = guard_then _ _ (validate_payload t m) h in
    rw (carry_type t m (blank m)) (
      then_guard _ _ (validate_payload t (sent_command m)) in_range
        (validate_payload-carry t m (blank m) valid))
