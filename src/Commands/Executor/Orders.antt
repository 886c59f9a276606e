-- ===== src/Commands/Executor/Orders.antt =====
-- SendCommand of internal/commands/executor.go, whose acknowledgement arrives after or before the
-- client's call returns.
use mathlib.Core.Option
use mathlib.Core.Path.{subst}
use df_ai.Commands.Types.{
  Command, CommandResult, CommandStatus, command_acked, command_sent, command_timeout, is_pending,
}
use df_ai.Base.{
  ==_iff, Bool, List, Option, [], ap, arith, false, get_elem?, get_elem?_end, if◌then◌else◌, insert,
  length, lookup, lookup-insert, modify_end, nat_key, refl, some, sym, true, ℕ, ◌%◌, ◌++◌, ◌+◌, ◌<◌,
  ◌==◌, ◌^◌, ◌∙◌, ◌∷◌, ◌≡◌,
}
use df_ai.Protocol.Messages.Queries.{CommandAckMessage, ack_status_success}
use df_ai.Commands.Tracker.{
  CommandTracker, ack_result, acked, acknowledge, at_pointer, check_timeouts, expire,
  generate_command_id, get_command, handle_ack, mark_acked,
}
use df_ai.Commands.Request.{Request, message_of, refused, step_request}
use df_ai.Commands.Executor.{
  Event, ack_arrives, begin_command, begin_request, client_sends, confirm_command, happen,
  new_command, receive_result, request_begins, run_events, sent,
}
use df_ai.Commands.Tracker.Timeouts.{get_command-check_timeouts}

-- A tracker whose last command is `c`, and finds it by the id `id`.
abbrev with_last : CommandTracker → Command → CommandTracker
with_last t c = record t { cells = t.cells ++ c ∷ [] }

module _ (t : CommandTracker) (id : ℕ)
    (registered : lookup id t.commands ≡ some (length t.cells)) where
  ack_last :
      (now : ℕ) (ack : CommandAckMessage) (c : Command)
      → ack.command_id ≡ id
      → happen (ack_arrives now ack) (with_last t c) ≡ with_last t (acked now ack c)
  unfolding happen handle_ack mark_acked
  ack_last now ack c own =
      ap (λ o. (acknowledge now ack (with_last t c) o).1)
        (ap (λ i. lookup i t.commands) own ∙ registered)
      ∙ ap (λ l. record t { cells = l }) (modify_end t.cells c (acked now ack))

expired :
    (now : ℕ) (c : Command)
    → c.status ≡ command_sent
    → c.timeout_at < now
    → (expire now c).status ≡ command_timeout
unfolding is_pending
expired now c pending over = ground arith

sends_last :
    (t : CommandTracker) (now timeout : ℕ) (c : Command)
    → happen (client_sends now timeout (length t.cells)) (with_last t c)
      ≡ with_last t (sent now timeout c)
unfolding happen confirm_command
sends_last t now timeout c =
    ap (λ l. record t { cells = l }) (modify_end t.cells c (sent now timeout))

receives_last :
    (t : CommandTracker) (c : Command)
    → (receive_result (length t.cells) (with_last t c)).0 ≡ c.result_chan
unfolding receive_result
receives_last t c = rw (get_elem?_end t.cells c, receive_result) refl

-- The tracker when SendCommand calls the client.
abbrev sending : ℕ → ℕ → Request → CommandTracker → CommandTracker
sending now timeout r t = happen (request_begins true now timeout r) t

abbrev next_id : CommandTracker → ℕ
next_id t = (t.next_id + 1) % 2 ^ 32

abbrev begun : ℕ → ℕ → Request → CommandTracker → CommandTracker
begun now timeout r t = record t {
  commands = insert (message_of r (next_id t)).command_id (length t.cells) t.commands;
  next_id = next_id t;
}

abbrev begun_command : ℕ → ℕ → Request → CommandTracker → Command
begun_command now timeout r t = new_command now timeout (message_of r (next_id t))

sending_lem :
    (now timeout : ℕ) (r : Request) (t : CommandTracker)
    → refused r ≡ false
    → sending now timeout r t ≡ with_last (begun now timeout r t) (begun_command now timeout r t)
unfolding happen begin_request generate_command_id begin_command
sending_lem now timeout r t accepted = rw accepted refl

message_of_id : (r : Request) (id : ℕ) → (message_of r id).command_id ≡ id
unfolding message_of
message_of_id (step_request ticks) id = refl
message_of_id r id = refl

begun_registered :
    (now timeout : ℕ) (r : Request) (t : CommandTracker)
    → lookup (next_id t) (begun now timeout r t).commands ≡ some (length t.cells)
begun_registered now timeout r t =
    let own = message_of_id r (next_id t) in
    lookup-insert (message_of r (next_id t)).command_id (next_id t) (length t.cells) t.commands
    ∙ rw ((==_iff (message_of r (next_id t)).command_id (next_id t)).1 own) refl

-- The result of the acknowledgement `ack`.
abbrev Answers : CommandAckMessage → Option CommandResult → Type 0
Answers ack o =
    (r : CommandResult) × (o ≡ some r)
    × (r.success ≡ (ack.status == ack_status_success))
    × (r.status ≡ ack.status)
    × (r.response ≡ some ack)

-- The status of the command that a pointer points to.
abbrev status_at : ℕ → CommandTracker → Option CommandStatus
status_at p t = Option.map (λ c. c.status) (get_elem? t.cells p)

status_at_end :
    (t : CommandTracker) (c : Command) → status_at (length t.cells) (with_last t c) ≡ some c.status
status_at_end t c = ap (Option.map (λ (d : Command). d.status)) (get_elem?_end t.cells c)

-- The acknowledgement arrives before the client's call returns, or after it.
abbrev arrival : Bool → ℕ → ℕ → ℕ → ℕ → CommandAckMessage → List Event
arrival true returned timeout p arrived ack =
    ack_arrives arrived ack ∷ client_sends returned timeout p ∷ []
arrival false returned timeout p arrived ack =
    client_sends returned timeout p ∷ ack_arrives arrived ack ∷ []

module _ (start timeout returned arrived : ℕ) (r : Request) (ack : CommandAckMessage)
    (t : CommandTracker) (accepted : refused r ≡ false)
    (own : ack.command_id ≡ (t.next_id + 1) % 2 ^ 32) where
  abbrev before : Command
  before = begun_command start timeout r t

  abbrev base : CommandTracker
  base = begun start timeout r t

  registered : lookup (next_id t) base.commands ≡ some (length t.cells)
  registered = begun_registered start timeout r t

  -- The tracker after the two events.
  abbrev ended : Bool → CommandTracker
  ended early =
      run_events (arrival early returned timeout (length t.cells) arrived ack)
        (sending start timeout r t)

  abbrev final_command : Bool → Command
  final_command true = sent returned timeout (acked arrived ack before)
  final_command false = acked arrived ack (sent returned timeout before)

  ended_lem : (early : Bool) → ended early ≡ with_last base (final_command early)
  unfolding run_events
  ended_lem true =
      ap
        (λ s.
          happen (client_sends returned timeout (length t.cells))
            (happen (ack_arrives arrived ack) s))
        (sending_lem start timeout r t accepted)
      ∙ ap (happen (client_sends returned timeout (length t.cells)))
          (ack_last base (next_id t) registered arrived ack before own)
      ∙ sends_last base returned timeout (acked arrived ack before)
  ended_lem false =
      ap
        (λ s.
          happen (ack_arrives arrived ack)
            (happen (client_sends returned timeout (length t.cells)) s))
        (sending_lem start timeout r t accepted)
      ∙ ap (happen (ack_arrives arrived ack)) (sends_last base returned timeout before)
      ∙ ack_last base (next_id t) registered arrived ack (sent returned timeout before) own

  answered : (early : Bool) → Answers ack (final_command early).result_chan
  answered true = (ack_result arrived ack before, refl, refl, refl, refl)
  answered false = (ack_result arrived ack (sent returned timeout before), refl, refl, refl, refl)

  final_status :
      (early : Bool)
      → (final_command early).status ≡ (if early then command_sent else command_acked)
  final_status true = refl
  final_status false = refl

  -- Where a request that is not refused is registered and its command is acknowledged before or
  -- after the client's call returns, the caller receives the result of that acknowledgement, and
  -- the status of the command ends as sent if the acknowledgement came first and as acked
  -- otherwise.
  pub ack_in_flight :
      (early : Bool)
      → Answers ack (receive_result (length t.cells) (ended early)).0
        × (status_at (length t.cells) (ended early)
            ≡ some (if early then command_sent else command_acked))
  ack_in_flight early =
      let whole = ended_lem early in
      (
        subst (Answers ack)
            (sym (
              ap (λ s. (receive_result (length t.cells) s).0) whole
              ∙ receives_last base (final_command early)))
            (answered early),
        ap (status_at (length t.cells)) whole
            ∙ status_at_end base (final_command early)
            ∙ ap some (final_status early),
      )

  found_last :
      (early : Bool) → get_command (ended early) ack.command_id ≡ some (final_command early)
  unfolding get_command
  found_last early =
      ap (λ s. get_command s ack.command_id) (ended_lem early)
      ∙ ap (at_pointer (t.cells ++ final_command early ∷ []))
          (ap (λ i. lookup i base.commands) own ∙ registered)
      ∙ get_elem?_end t.cells (final_command early)

  -- A command whose acknowledgement came before the client's call returned, and whose deadline then
  -- passes before the next check, is marked as timed out by CheckTimeouts although it was
  -- acknowledged.
  pub early_ack_times_out :
      (later : ℕ)
      → returned + timeout < later
      → Option.map
          (λ c. c.status)
          (get_command (check_timeouts later (ended true)).1 ack.command_id)
        ≡ some command_timeout
  early_ack_times_out later over =
      ap (Option.map (λ (c : Command). c.status)) (
        get_command-check_timeouts later ack.command_id (ended true)
        ∙ ap (Option.map (expire later)) (found_last true))
      ∙ ap some (expired later (final_command true) refl over)
