-- ===== src/Commands/Executor.antt =====
-- internal/commands/executor.go: SendCommand in its parts between which other goroutines run, and what
-- the goroutines of the executor and the tracker do, as events in the order in which they happen. What
-- the client's SendCommand answers is an argument.
pub mod Indexed
pub mod Results
pub mod Orders
pub mod Cleanup
pub mod Counts
use df_ai.Base.{
  Bool, List, Option, [], get_elem?, if◌then◌else◌, insert, length, lookup, nat_key, none, pos,
  some, ℕ, ℤ, ◌++◌, ◌+◌, ◌∷◌,
}
use df_ai.Protocol.Command.Message.{CommandMessage}
use df_ai.Protocol.Messages.Queries.{CommandAckMessage}
use df_ai.Commands.Types.{Command, CommandResult, command_failed, command_pending, command_sent}
use df_ai.Commands.Tracker.{
  CommandTracker, check_timeouts, cleanup_old_commands, generate_command_id, handle_ack,
  remove_command, timeout_result, write_command,
}
use df_ai.Commands.Request.{Request, message_of, refused}

abbrev pub new_command : ℕ → ℕ → CommandMessage → Command
new_command now timeout m = record {
  id = m.command_id;
  kind = m.command_type;
  message = m;
  status = command_pending;
  response = none;
  sent_at = now;
  acked_at = 0;
  timeout_at = now + timeout;
  result_chan = none;
}

-- SendCommand on a client that is connected, up to its call of the client: the new command has the
-- next cell.
unfoldable pub begin_command : ℕ → ℕ → CommandMessage → CommandTracker → CommandTracker
unfolding insert
begin_command now timeout m t = record t {
  cells = t.cells ++ new_command now timeout m ∷ [];
  commands = insert m.command_id (length t.cells) t.commands;
}

-- A method Send… up to the call of the client, for a call that is not refused. Without a connection
-- only the id is gone.
unfoldable pub begin_request : Bool → ℕ → ℕ → Request → CommandTracker → CommandTracker
unfolding generate_command_id begin_command
begin_request connected now timeout r t =
    let (id, t') = generate_command_id t in
    if connected then begin_command now timeout (message_of r id) t' else t'

abbrev pub give_up : Command → Command
give_up c = record c { status = command_failed }

abbrev pub sent : ℕ → ℕ → Command → Command
sent now timeout c = record c { status = command_sent; sent_at = now; timeout_at = now + timeout }

-- The id of the command that a pointer points to.
abbrev pub id_at : ℕ → List Command → Option ℕ
id_at p cells = elim (get_elem? cells p) [ none ↦ none | some c ↦ some c.id ]

-- After the client's error.
abbrev pub drop_command : ℕ → CommandTracker → Option ℕ → CommandTracker
drop_command p t none = t
drop_command p t (some id) = remove_command id (write_command p give_up t)

unfoldable pub fail_command : ℕ → CommandTracker → CommandTracker
unfolding remove_command
fail_command p t = drop_command p t (id_at p t.cells)

-- After the client has sent the message.
unfoldable pub confirm_command : ℕ → ℕ → ℕ → CommandTracker → CommandTracker
confirm_command now timeout p t = write_command p (sent now timeout) t

abbrev pub taken : Command → Command
taken c = record c { result_chan = none }

-- The receive of the select: what is in the channel, which is empty after it.
unfoldable pub receive_result : ℕ → CommandTracker → Option CommandResult × CommandTracker
receive_result p t =
    (elim (get_elem? t.cells p) [ none ↦ none | some c ↦ c.result_chan ], write_command p taken t)

-- WaitForAck: nothing for an id without a command; no result if its timeout is over first.
unfoldable pub wait_for_ack : ℕ → CommandTracker → Option (Option CommandResult × CommandTracker)
unfolding lookup receive_result
wait_for_ack id t = elim (lookup id t.commands) [ none ↦ none | some p ↦ some (receive_result p t) ]

-- What SendCommand returns when a second more than its timeout is over first.
unfoldable pub give_up_result : ℕ → Command → CommandResult
give_up_result now c = timeout_result now c

pub data Event : Type 0 where
  request_begins : (connected : Bool) (now timeout : ℕ) (r : Request) → Event
  client_fails : (pointer : ℕ) → Event
  client_sends : (now timeout pointer : ℕ) → Event
  ack_arrives : (now : ℕ) (ack : CommandAckMessage) → Event
  timeouts_checked : (now : ℕ) → Event
  commands_cleaned : (now : ℕ) → Event
  result_received : (pointer : ℕ) → Event

-- 5 * time.Minute
abbrev pub five_minutes : ℤ
five_minutes = pos 300000000000

unfoldable pub happen : Event → CommandTracker → CommandTracker
unfolding begin_request fail_command confirm_command receive_result handle_ack check_timeouts
    cleanup_old_commands
happen (request_begins connected now timeout r) t =
    if refused r then t else begin_request connected now timeout r t
happen (client_fails p) t = fail_command p t
happen (client_sends now timeout p) t = confirm_command now timeout p t
happen (ack_arrives now ack) t = (handle_ack now ack t).1
happen (timeouts_checked now) t = (check_timeouts now t).1
happen (commands_cleaned now) t = (cleanup_old_commands now five_minutes t).1
happen (result_received p) t = (receive_result p t).1

unfoldable pub run_events : List Event → CommandTracker → CommandTracker
unfolding happen
run_events [] t = t
run_events (e ∷ es) t = run_events es (happen e t)
