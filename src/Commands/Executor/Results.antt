-- ===== src/Commands/Executor/Results.antt =====
-- The results of internal/commands/executor.go and the acknowledgements that they come from.
use df_ai.Base.{
  ==_iff, All, All-append, All-get_elem?, All-modify, List, Option, [], ap, either_branch,
  get_elem?, lookup, modify, nat_key, none, refl, some, sym, true, ℕ, ◌%◌, ◌+◌, ◌^◌, ◌∙◌, ◌∷◌, ◌≡◌,
}
use df_ai.Protocol.Messages.Queries.{CommandAckMessage, ack_status_success}
use df_ai.Commands.Types.{Command, CommandResult}
use df_ai.Commands.Tracker.{
  CommandTracker, ack_result, acked, acknowledge, expire, expire_all, generate_command_id,
  is_overdue, new_command_tracker, offer, remove_command, timeout_result,
}
use df_ai.Commands.Executor.{
  Event, ack_arrives, begin_command, begin_request, client_fails, client_sends, commands_cleaned,
  confirm_command, drop_command, fail_command, give_up, happen, id_at, new_command, receive_result,
  request_begins, result_received, run_events, sent, taken, timeouts_checked,
}
use df_ai.Commands.Executor.Indexed.{IsIndexed, happen-IsIndexed, new_command_tracker-IsIndexed}
use df_ai.Commands.Request.{message_of, refused}
use df_ai.Protocol.Command.Message.{CommandMessage}

-- A successful result carries an acknowledgement of the command `id`.
abbrev pub IsGenuine : ℕ → CommandResult → Type 0
IsGenuine id r =
    r.success ≡ true
    → (a : CommandAckMessage) × (r.response ≡ some a)
      × (a.command_id ≡ id)
      × (a.status ≡ ack_status_success)

abbrev pub ChannelIsGenuine : ℕ → Option CommandResult → Type 0
ChannelIsGenuine id none = Unit
ChannelIsGenuine id (some r) = IsGenuine id r

abbrev CommandIsGenuine : Command → Type 0
CommandIsGenuine c = ChannelIsGenuine c.id c.result_chan

offer-ChannelIsGenuine :
    (id : ℕ) (r : CommandResult) (chan : Option CommandResult)
    → IsGenuine id r
    → ChannelIsGenuine id chan
    → ChannelIsGenuine id (offer r chan)
offer-ChannelIsGenuine id r none g h = g
offer-ChannelIsGenuine id r (some earlier) g h = h

acked-CommandIsGenuine :
    (now : ℕ) (ack : CommandAckMessage) (c : Command)
    → ack.command_id ≡ c.id
    → CommandIsGenuine c
    → CommandIsGenuine (acked now ack c)
acked-CommandIsGenuine now ack c own h =
    offer-ChannelIsGenuine c.id (ack_result now ack c) c.result_chan
      (λ good. (ack, refl, own, (==_iff ack.status ack_status_success).0 good)) h

expire-CommandIsGenuine :
    (now : ℕ) (c : Command) → CommandIsGenuine c → CommandIsGenuine (expire now c)
expire-CommandIsGenuine now c h =
    either_branch CommandIsGenuine (is_overdue now c)
      (offer-ChannelIsGenuine c.id (timeout_result now c) c.result_chan (λ good. cc) h) h

expire_all-All :
    (now : ℕ) (m : List (ℕ × ℕ)) (cells : List Command)
    → All CommandIsGenuine cells
    → All CommandIsGenuine (expire_all now m cells).1
unfolding expire_all
expire_all-All now [] cells h = h
expire_all-All now ((id, p) ∷ m) cells h = expire_all-All now m (modify p (expire now) cells) (
    All-modify CommandIsGenuine p (expire now) cells (λ c found g. expire-CommandIsGenuine now c g)
      h)

-- All results that wait in a channel are genuine.
abbrev HasGenuine : CommandTracker → Type 0
HasGenuine t = All CommandIsGenuine t.cells

id_of :
    (p : ℕ) (cells : List Command) {c : Command} {id : ℕ}
    → get_elem? cells p ≡ some c
    → id_at p cells ≡ some id
    → id ≡ c.id
id_of p cells found named = cc

acknowledge-HasGenuine :
    (now : ℕ) (ack : CommandAckMessage) (t : CommandTracker) (o : Option ℕ)
    → ((p : ℕ) → o ≡ some p → id_at p t.cells ≡ some ack.command_id)
    → HasGenuine t
    → HasGenuine (acknowledge now ack t o).1
acknowledge-HasGenuine now ack t none points h = h
acknowledge-HasGenuine now ack t (some p) points h =
    All-modify CommandIsGenuine p (acked now ack) t.cells
      (λ c found g. acked-CommandIsGenuine now ack c (id_of p t.cells found (points p refl)) g) h

begin_command-HasGenuine :
    (now timeout : ℕ) (m : CommandMessage) (t : CommandTracker)
    → HasGenuine t
    → HasGenuine (begin_command now timeout m t)
unfolding begin_command
begin_command-HasGenuine now timeout m t h =
    All-append CommandIsGenuine t.cells (new_command now timeout m ∷ []) h (tt, tt)

happen-HasGenuine :
    (e : Event) (t : CommandTracker) → IsIndexed t → HasGenuine t → HasGenuine (happen e t)
unfolding happen begin_request generate_command_id fail_command confirm_command receive_result
    remove_command
happen-HasGenuine (request_begins connected now timeout r) t v h =
    let id = (t.next_id + 1) % 2 ^ 32 in
    either_branch HasGenuine (refused r) h (
      either_branch HasGenuine connected
        (begin_command-HasGenuine now timeout (message_of r id) (record t { next_id = id }) h) h)
happen-HasGenuine (client_fails p) t v h =
    elim (id_at p t.cells) as (λ o. HasGenuine (drop_command p t o)) [
      | none ↦ h
      | some id ↦ All-modify CommandIsGenuine p give_up t.cells (λ c found g. g) h
    ]
happen-HasGenuine (client_sends now timeout p) t v h =
    All-modify CommandIsGenuine p (sent now timeout) t.cells (λ c found g. g) h
happen-HasGenuine (ack_arrives now ack) t v h =
    acknowledge-HasGenuine now ack t (lookup ack.command_id t.commands) (v.points ack.command_id) h
happen-HasGenuine (timeouts_checked now) t v h = expire_all-All now t.commands t.cells h
happen-HasGenuine (commands_cleaned now) t v h = h
happen-HasGenuine (result_received p) t v h =
    All-modify CommandIsGenuine p taken t.cells (λ c found g. tt) h

run_events-HasGenuine :
    (es : List Event) (t : CommandTracker)
    → IsIndexed t
    → HasGenuine t
    → HasGenuine (run_events es t)
unfolding run_events
run_events-HasGenuine [] t v h = h
run_events-HasGenuine (e ∷ es) t v h =
    run_events-HasGenuine es (happen e t) (happen-IsIndexed e t v) (happen-HasGenuine e t v h)

in_channel :
    (id : ℕ) (chan : Option CommandResult) (r : CommandResult)
    → ChannelIsGenuine id chan
    → chan ≡ some r
    → IsGenuine id r
in_channel id none r h e = cc
in_channel id (some s) r h e = let same : s ≡ r = cc in rw (← same) h

id_at_found :
    (p : ℕ) (cells : List Command) {c : Command}
    → get_elem? cells p ≡ some c
    → id_at p cells ≡ some c.id
id_at_found p cells found = cc

in_cell :
    (cells : List Command) (p : ℕ) (o : Option Command) (r : CommandResult)
    → get_elem? cells p ≡ o
    → All CommandIsGenuine cells
    → (elim o [ none ↦ none | some c ↦ c.result_chan ]) ≡ some r
    → r.success ≡ true
    → (a : CommandAckMessage) × (r.response ≡ some a)
      × (id_at p cells ≡ some a.command_id)
      × (a.status ≡ ack_status_success)
in_cell cells p none r e h got good = cc
in_cell cells p (some c) r e h got good =
    let (a, answer, own, status) =
      in_channel c.id c.result_chan r (All-get_elem? CommandIsGenuine cells p h e) got good in
    (a, answer, id_at_found p cells e ∙ ap some (sym own), status)

-- Whatever the events of the executor were, in any order, a successful result that a call takes
-- from the channel of its command holds an acknowledgement of that command's id with the status of
-- success.
pub receive_result_genuine :
    (es : List Event) (p : ℕ) (r : CommandResult)
    → (receive_result p (run_events es new_command_tracker)).0 ≡ some r
    → r.success ≡ true
    → (a : CommandAckMessage) × (r.response ≡ some a)
      × (id_at p (run_events es new_command_tracker).cells ≡ some a.command_id)
      × (a.status ≡ ack_status_success)
unfolding receive_result
receive_result_genuine es p r got good =
    let t = run_events es new_command_tracker in
    in_cell t.cells p (get_elem? t.cells p) r refl
      (run_events-HasGenuine es new_command_tracker new_command_tracker-IsIndexed tt) got good
