-- ===== src/Commands/Tracker.antt =====
-- internal/commands/tracker.go, and SendCommand and HandleAck of internal/commands/executor.go. A
-- pointer to a command is the index of a cell, so that SendCommand and the tracker share it. The locks
-- are not modelled: what a method does under its lock is one step. The clock is an argument.
pub mod Timeouts
pub mod Ids
pub mod Progress
use df_ai.Base.{
  Bool, List, Option, String, [], false, get_elem?, if◌then◌else◌, length, lookup, ltb, ltb_ℤ,
  modify, nat_key, none, remove, some, sub_ℕ, suc, true, ℕ, ℤ, ◌%◌, ◌&&◌, ◌+◌, ◌==◌, ◌^◌, ◌∷◌,
}
use df_ai.Protocol.Messages.Queries.{CommandAckMessage, ack_status_failure, ack_status_success}
use df_ai.Commands.Types.{
  Command, CommandResult, CommandStatus, command_acked, command_failed, command_sent,
  command_timeout, is_complete, is_pending, same_command_status,
}

pub record CommandTracker : Type 0 where
  pub cells : List Command
  pub commands : List (ℕ × ℕ)
  pub next_id : ℕ

abbrev pub new_command_tracker : CommandTracker
new_command_tracker = record { cells = []; commands = []; next_id = 1 }

-- atomic.AddUint32, which gives the new value.
unfoldable pub generate_command_id : CommandTracker → ℕ × CommandTracker
generate_command_id t = let id = (t.next_id + 1) % 2 ^ 32 in (id, record t { next_id = id })

-- The command that a pointer, if there is one, points to.
abbrev pub at_pointer : List Command → Option ℕ → Option Command
at_pointer cells none = none
at_pointer cells (some p) = get_elem? cells p

unfoldable pub get_command : CommandTracker → ℕ → Option Command
unfolding lookup
get_command t id = at_pointer t.cells (lookup id t.commands)

-- A change of a command through its pointer.
abbrev pub write_command : ℕ → (Command → Command) → CommandTracker → CommandTracker
write_command p f t = record t { cells = modify p f t.cells }

-- A send on the channel that gives up where it is full.
abbrev pub offer : CommandResult → Option CommandResult → Option CommandResult
offer r none = some r
offer r (some earlier) = some earlier

abbrev pub ack_result : ℕ → CommandAckMessage → Command → CommandResult
ack_result now ack c = record {
  success = ack.status == ack_status_success;
  status = ack.status;
  error_msg = ack.error_msg;
  response = some ack;
  duration = sub_ℕ now c.sent_at;
}

abbrev pub acked : ℕ → CommandAckMessage → Command → Command
acked now ack c = record c {
  status = command_acked;
  response = some ack;
  acked_at = now;
  result_chan = offer (ack_result now ack c) c.result_chan;
}

-- Whether there is a command, by the pointer of the map, and what the tracker is then.
abbrev pub acknowledge : ℕ → CommandAckMessage → CommandTracker → Option ℕ → Bool × CommandTracker
acknowledge now ack t none = (false, t)
acknowledge now ack t (some p) = (true, write_command p (acked now ack) t)

unfoldable pub mark_acked : ℕ → ℕ → CommandAckMessage → CommandTracker → Bool × CommandTracker
unfolding lookup
mark_acked now id ack t = acknowledge now ack t (lookup id t.commands)

unfoldable pub handle_ack : ℕ → CommandAckMessage → CommandTracker → Bool × CommandTracker
unfolding mark_acked
handle_ack now ack t = mark_acked now ack.command_id ack t

-- "timeout waiting for acknowledgment"
abbrev pub timeout_text : String
timeout_text =
    116 ∷ 105 ∷ 109 ∷ 101 ∷ 111 ∷ 117 ∷ 116 ∷ 32 ∷ 119 ∷ 97 ∷ 105 ∷ 116 ∷ 105 ∷ 110 ∷ 103 ∷ 32 ∷ 102
    ∷ 111 ∷ 114 ∷ 32 ∷ 97 ∷ 99 ∷ 107 ∷ 110 ∷ 111 ∷ 119 ∷ 108 ∷ 101 ∷ 100 ∷ 103 ∷ 109 ∷ 101 ∷ 110
    ∷ 116 ∷ []

abbrev pub timeout_result : ℕ → Command → CommandResult
timeout_result now c = record {
  success = false;
  status = ack_status_failure;
  error_msg = timeout_text;
  response = none;
  duration = sub_ℕ now c.sent_at;
}

abbrev pub is_overdue : ℕ → Command → Bool
is_overdue now c = is_pending c && ltb c.timeout_at now

abbrev pub expire : ℕ → Command → Command
expire now c =
    if is_overdue now c
    then record c {
      status = command_timeout;
      result_chan = offer (timeout_result now c) c.result_chan;
    }
    else c

abbrev pub holds : (Command → Bool) → Option Command → Bool
holds test none = false
holds test (some c) = test c

-- The loop of CheckTimeouts: how many commands have timed out, and the cells then.
unfoldable pub expire_all : ℕ → List (ℕ × ℕ) → List Command → ℕ × List Command
unfolding is_pending
expire_all now [] cells = (0, cells)
expire_all now ((id, p) ∷ m) cells =
    let (count, after) = expire_all now m (modify p (expire now) cells) in
    (if holds (is_overdue now) (get_elem? cells p) then suc count else count, after)

unfoldable pub check_timeouts : ℕ → CommandTracker → ℕ × CommandTracker
unfolding expire_all
check_timeouts now t =
    let (count, cells) = expire_all now t.commands t.cells in (count, record t { cells = cells })

unfoldable pub remove_command : ℕ → CommandTracker → CommandTracker
unfolding remove
remove_command id t = record t { commands = remove id t.commands }

-- The time at which a command was complete.
abbrev pub completed_at : Command → ℕ
completed_at c = if c.acked_at == 0 then c.sent_at else c.acked_at

abbrev pub is_old : ℕ → ℤ → Command → Bool
is_old now max_age c = is_complete c && ltb_ℤ max_age (sub_ℕ now (completed_at c))

-- The loop of cleanupOldCommands over the entries.
unfoldable pub clean_all : ℕ → ℤ → List Command → List (ℕ × ℕ) → List (ℕ × ℕ) → ℕ × List (ℕ × ℕ)
unfolding is_complete remove
clean_all now max_age cells [] m = (0, m)
clean_all now max_age cells ((id, p) ∷ entries) m =
    let (removed, after) = clean_all now max_age cells entries m in
    if holds (is_old now max_age) (get_elem? cells p)
    then (suc removed, remove id after)
    else (removed, after)

unfoldable pub cleanup_old_commands : ℕ → ℤ → CommandTracker → ℕ × CommandTracker
unfolding clean_all
cleanup_old_commands now max_age t =
    let (removed, m) = clean_all now max_age t.cells t.commands t.commands in
    (removed, record t { commands = m })

pub record TrackerStats : Type 0 where
  pub total : ℕ
  pub pending : ℕ
  pub acked : ℕ
  pub timeout : ℕ
  pub failed : ℕ

unfoldable pub count_status : CommandStatus → List Command → List (ℕ × ℕ) → ℕ
count_status s cells [] = 0
count_status s cells ((id, p) ∷ m) =
    let rest = count_status s cells m in
    if holds (λ c. same_command_status c.status s) (get_elem? cells p) then suc rest else rest

unfoldable pub get_stats : CommandTracker → TrackerStats
unfolding count_status
get_stats t = record {
  total = length t.commands;
  pending = count_status command_sent t.cells t.commands;
  acked = count_status command_acked t.cells t.commands;
  timeout = count_status command_timeout t.cells t.commands;
  failed = count_status command_failed t.cells t.commands;
}

unfoldable pub pending_pointers : List Command → List (ℕ × ℕ) → List ℕ
unfolding is_pending
pending_pointers cells [] = []
pending_pointers cells ((id, p) ∷ m) =
    let rest = pending_pointers cells m in
    if holds is_pending (get_elem? cells p) then p ∷ rest else rest

-- The pointers to the commands.
unfoldable pub get_pending_commands : CommandTracker → List ℕ
unfolding pending_pointers
get_pending_commands t = pending_pointers t.cells t.commands
