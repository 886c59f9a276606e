-- ===== src/Commands/Tests.antt =====
-- The theorems on commands at concrete runs of the executor.
use mathlib.Core.Option
use df_ai.Base.{
  List, [], arith, false, insert, lookup, none, ok, pos, refl, remove, some, true, ◌++◌, ◌+◌, ◌>>=◌,
  ◌∷◌, ◌≡◌, ◌≢◌,
}
use df_ai.Commands.Executor.{
  Event, ack_arrives, begin_command, begin_request, client_sends, confirm_command, happen, id_at,
  new_command, receive_result, request_begins, run_events, sent,
}
use df_ai.Protocol.Frame.Commands.{decode_command, encode_command}
use df_ai.Protocol.Command.Validate.{need, validate_command}
use df_ai.Protocol.Command.Types.{command_type_of}
use df_ai.Protocol.Messages.Queries.{CommandAckMessage, ack_status_failure, ack_status_success}
use df_ai.Commands.Send.Areas.{send_dig_region}
use df_ai.Commands.Tracker.{
  check_timeouts, cleanup_old_commands, count_status, generate_command_id, get_command, get_stats,
  handle_ack, mark_acked, new_command_tracker, timeout_text,
}
use df_ai.Commands.Types.{
  Command, CommandResult, PendingCommand, command_pending, command_timeout, is_complete,
  task_not_started, task_stalled,
}
use df_ai.Commands.Request.{Request, dig_region_request, message_of, refused}
use df_ai.Commands.Request.Wire.{decode_command-message_of, validate_command-send_dig_region}
use df_ai.Commands.Tracker.Timeouts.{check_timeouts_lem}
use df_ai.Commands.Tracker.Progress.{run_checks, run_checks_never_stalled}
use df_ai.Commands.Tracker.Ids.{nth_id, nth_id_distinct}
use df_ai.Commands.Executor.Results.{receive_result_genuine}
use df_ai.Commands.Executor.Orders.{ack_in_flight, early_ack_times_out}
use df_ai.Commands.Executor.Cleanup.{cleanup_old_commands_lem}
use df_ai.Commands.Executor.Counts.{get_stats_lem}

abbrev shaft : Request
shaft = dig_region_request 0 (pos 3) (pos 4) (pos 9) (pos 5) (pos 6) (pos 2)

decode_command-message_of_example :
    (encode_command (message_of shaft 7) >>= decode_command) ≡ ok (message_of shaft 7)
unfolding message_of send_dig_region validate_command command_type_of
decode_command-message_of_example =
    decode_command-message_of shaft 7 (omega arith)
      (omega arith, omega arith, omega arith, omega arith, omega arith, omega arith, omega arith)
      refl

validate_command-send_dig_region_example :
    validate_command (send_dig_region 0 (pos 3) (pos 4) (pos 9) (pos 5) (pos 6) (pos 2) 7)
    ≡ need true
validate_command-send_dig_region_example =
    validate_command-send_dig_region 0 (pos 3) (pos 4) (pos 9) (pos 5) (pos 6) (pos 2) 7

-- The answer to the first command.
abbrev answer : CommandAckMessage
answer = record { command_id = 2; status = 0; error_msg = [] }

abbrev digging : List Event
digging = request_begins true 100 50 shaft ∷ client_sends 101 50 0 ∷ []

abbrev dug : List Event
dug = digging ++ ack_arrives 120 answer ∷ []

abbrev overdue_command : Command
overdue_command = sent 101 50 (new_command 100 50 (message_of shaft 2))

check_timeouts_lem_example :
    get_command (check_timeouts 200 (run_events digging new_command_tracker)).1 2
    ≡ some (record overdue_command {
      status = command_timeout;
      result_chan = some (record {
        success = false;
        status = ack_status_failure;
        error_msg = timeout_text;
        response = none;
        duration = pos 99;
      });
    })
unfolding run_events happen begin_request begin_command confirm_command message_of send_dig_region
    refused generate_command_id lookup insert get_command
check_timeouts_lem_example =
    check_timeouts_lem 200 2 (run_events digging new_command_tracker) overdue_command refl

nth_id_distinct_example : nth_id 0 new_command_tracker ≢ nth_id 5 new_command_tracker
nth_id_distinct_example = nth_id_distinct 0 5 new_command_tracker (omega arith) (omega arith)

receive_result_genuine_example :
    (a : CommandAckMessage) × (some answer ≡ some a)
    × (id_at 0 (run_events dug new_command_tracker).cells ≡ some a.command_id)
    × (a.status ≡ ack_status_success)
unfolding run_events happen begin_request begin_command confirm_command handle_ack mark_acked
    receive_result message_of send_dig_region refused generate_command_id lookup insert remove
receive_result_genuine_example =
    receive_result_genuine dug 0
      (record {
        success = true;
        status = 0;
        error_msg = [];
        response = some answer;
        duration = pos 19;
      })
      refl refl

ack_in_flight_example :
    (r : CommandResult) × ((receive_result 0 (
        run_events
          (ack_arrives 102 answer ∷ client_sends 103 50 0 ∷ [])
          (happen (request_begins true 100 50 shaft) new_command_tracker))).0
      ≡ some r)
    × (r.success ≡ true)
    × (r.status ≡ 0)
    × (r.response ≡ some answer)
unfolding refused
ack_in_flight_example =
    (ack_in_flight 100 50 103 102 shaft answer new_command_tracker refl refl true).0

early_ack_times_out_example :
    Option.map
      (λ c. c.status)
      (get_command
        (check_timeouts 154 (
          run_events
            (ack_arrives 102 answer ∷ client_sends 103 50 0 ∷ [])
            (happen (request_begins true 100 50 shaft) new_command_tracker))).1
        2)
    ≡ some command_timeout
unfolding refused
early_ack_times_out_example =
    early_ack_times_out 100 50 103 102 shaft answer new_command_tracker refl refl 154 (omega arith)

cleanup_old_commands_lem_example :
    get_command (cleanup_old_commands 900 (pos 300) (run_events dug new_command_tracker)).1 2 ≡ none
unfolding run_events happen begin_request begin_command confirm_command handle_ack mark_acked
    message_of send_dig_region refused generate_command_id lookup insert remove get_command
    is_complete
cleanup_old_commands_lem_example = cleanup_old_commands_lem dug 900 2 (pos 300)

get_stats_lem_example :
    let t = run_events dug new_command_tracker in
    let s = get_stats t in
    count_status command_pending t.cells t.commands + s.pending + s.acked + s.timeout + s.failed
    ≡ s.total
get_stats_lem_example = get_stats_lem dug

-- A task of four tiles.
abbrev task : PendingCommand
task = record {
  command = some (new_command 100 50 (message_of shaft 2));
  task_status = task_not_started;
  expected_tiles = pos 4;
  completed_tiles = pos 0;
  last_progress_time = 0;
  start_time = 0;
  description = [];
}

run_checks_never_stalled_example :
    (run_checks
      ((1000, pos 1) ∷ (90000000000, pos 1) ∷ (270000000000, pos 1) ∷ [])
      (task_not_started, task)).0
    ≢ task_stalled
run_checks_never_stalled_example =
    run_checks_never_stalled task
      ((1000, pos 1) ∷ (90000000000, pos 1) ∷ (270000000000, pos 1) ∷ []) refl
      (refl, (refl, (refl, tt)))
