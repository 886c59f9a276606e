-- ===== src/Commands/Executor/Indexed.antt =====
-- The map of internal/commands/tracker.go while the goroutines of internal/commands/executor.go run.
use df_ai.Base.{
  ==_iff, Bool, Bool-cases, IsKeyed, List, [], ap, arith, either_branch, get_elem?, inl, inr,
  insert, insert-IsKeyed, length, lookup, lookup-insert, lookup-remove, modify, nat_key, none, refl,
  remove-IsKeyed, some, suc, zero, ℕ, ℤ, ◌%◌, ◌++◌, ◌+◌, ◌==◌, ◌^◌, ◌∙◌, ◌∷◌, ◌≡◌,
}
use df_ai.Commands.Types.{Command}
use df_ai.Commands.Tracker.{
  CommandTracker, acked, acknowledge, clean_all, expire, expire_all, generate_command_id, holds,
  is_old, is_overdue, mark_acked, new_command_tracker, remove_command, write_command,
}
use df_ai.Commands.Executor.{
  Event, ack_arrives, begin_command, begin_request, client_fails, client_sends, commands_cleaned,
  drop_command, fail_command, five_minutes, give_up, happen, id_at, new_command, request_begins,
  result_received, run_events, sent, taken, timeouts_checked,
}
use df_ai.Protocol.Command.Message.{CommandMessage}
use df_ai.Commands.Request.{Request, message_of, refused}
use df_ai.Protocol.Messages.Queries.{CommandAckMessage}

-- The map has one entry for an id, and it points to a command of that id.
pub record IsIndexed (t : CommandTracker) : Type 0 where
  pub keyed : IsKeyed t.commands
  pub points : (id p : ℕ) → lookup id t.commands ≡ some p → id_at p t.cells ≡ some id

pub id_at-modify :
    (p q : ℕ) (f : Command → Command) (cells : List Command)
    → ((c : Command) → (f c).id ≡ c.id)
    → id_at p (modify q f cells) ≡ id_at p cells
id_at-modify p q f [] keeps = refl
id_at-modify zero zero f (c ∷ cells) keeps = ap some (keeps c)
id_at-modify zero (suc q) f (c ∷ cells) keeps = refl
id_at-modify (suc p) zero f (c ∷ cells) keeps = refl
id_at-modify (suc p) (suc q) f (c ∷ cells) keeps = id_at-modify p q f cells keeps

id_at-append :
    (p : ℕ) (cells : List Command) (c : Command) {id : ℕ}
    → id_at p cells ≡ some id
    → id_at p (cells ++ c ∷ []) ≡ some id
id_at-append p [] c h = cc
id_at-append zero (d ∷ cells) c h = h
id_at-append (suc p) (d ∷ cells) c h = id_at-append p cells c h

id_at_end :
    (cells : List Command) (c : Command) → id_at (length cells) (cells ++ c ∷ []) ≡ some c.id
id_at_end [] c = refl
id_at_end (d ∷ cells) c = id_at_end cells c

pub write_command-IsIndexed :
    (q : ℕ) (f : Command → Command) (t : CommandTracker)
    → ((c : Command) → (f c).id ≡ c.id)
    → IsIndexed t
    → IsIndexed (write_command q f t)
write_command-IsIndexed q f t keeps v = record {
  keyed = v.keyed;
  points = λ id p e. rw (id_at-modify p q f t.cells keeps) (v.points id p e);
}

points-insert :
    (cells : List Command) (m : List (ℕ × ℕ)) (c : Command)
    → ((id p : ℕ) → lookup id m ≡ some p → id_at p cells ≡ some id)
    → (id p : ℕ) → lookup id (insert c.id (length cells) m) ≡ some p
    → id_at p (cells ++ c ∷ []) ≡ some id
points-insert cells m c old id p e = elim (Bool-cases (c.id == id)) [
  | inl new ↦
      let last : length cells ≡ p = ground (arith, lookup-insert c.id id (length cells) m) in
      let own : c.id ≡ id = (==_iff c.id id).0 new in rw (← last, ← own) (id_at_end cells c)
  | inr other ↦
      id_at-append p cells c (old id p (ground (arith, lookup-insert c.id id (length cells) m)))
]

begin_command-IsIndexed :
    (now timeout : ℕ) (m : CommandMessage) (t : CommandTracker)
    → IsIndexed t
    → IsIndexed (begin_command now timeout m t)
unfolding begin_command
begin_command-IsIndexed now timeout m t v = record {
  keyed = insert-IsKeyed m.command_id (length t.cells) t.commands v.keyed;
  points = points-insert t.cells t.commands (new_command now timeout m) v.points;
}

remove_command-IsIndexed :
    (id : ℕ) (t : CommandTracker) → IsIndexed t → IsIndexed (remove_command id t)
unfolding remove_command
remove_command-IsIndexed id t v = record {
  keyed = remove-IsKeyed id t.commands v.keyed;
  points = λ j p e. v.points j p (ground (arith, lookup-remove id j t.commands));
}

expire_id : (now : ℕ) (c : Command) → (expire now c).id ≡ c.id
expire_id now c = either_branch (λ (d : Command). d.id ≡ c.id) (is_overdue now c) refl refl

expire_all-id_at :
    (now p : ℕ) (m : List (ℕ × ℕ)) (cells : List Command)
    → id_at p (expire_all now m cells).1 ≡ id_at p cells
unfolding expire_all
expire_all-id_at now p [] cells = refl
expire_all-id_at now p ((id, q) ∷ m) cells =
    expire_all-id_at now p m (modify q (expire now) cells)
    ∙ id_at-modify p q (expire now) cells (λ c. expire_id now c)

clean_all-lookup-some :
    (now : ℕ) (max_age : ℤ) (cells : List Command) (entries m : List (ℕ × ℕ)) (id p : ℕ)
    → lookup id (clean_all now max_age cells entries m).1 ≡ some p
    → lookup id m ≡ some p
unfolding clean_all
clean_all-lookup-some now max_age cells [] m id p e = e
clean_all-lookup-some now max_age cells ((j, q) ∷ entries) m id p e = ground (
  arith,
  lookup-remove j id (clean_all now max_age cells entries m).1,
  clean_all-lookup-some now max_age cells entries m id p,
)

clean_all-IsKeyed :
    (now : ℕ) (max_age : ℤ) (cells : List Command) (entries m : List (ℕ × ℕ))
    → IsKeyed m
    → IsKeyed (clean_all now max_age cells entries m).1
unfolding clean_all
clean_all-IsKeyed now max_age cells [] m h = h
clean_all-IsKeyed now max_age cells ((j, q) ∷ entries) m h =
    let rest = clean_all-IsKeyed now max_age cells entries m h in
    either_branch (λ (r : ℕ × List (ℕ × ℕ)). IsKeyed r.1)
      (holds (is_old now max_age) (get_elem? cells q))
      (remove-IsKeyed j (clean_all now max_age cells entries m).1 rest) rest

begin_request-IsIndexed :
    (connected : Bool) (now timeout : ℕ) (r : Request) (t : CommandTracker)
    → IsIndexed t
    → IsIndexed (begin_request connected now timeout r t)
unfolding begin_request generate_command_id
begin_request-IsIndexed connected now timeout r t v =
    let id = (t.next_id + 1) % 2 ^ 32 in
    let counted : IsIndexed (record t { next_id = id }) = record {
      keyed = v.keyed;
      points = v.points;
    } in
    either_branch IsIndexed connected
      (begin_command-IsIndexed now timeout (message_of r id) (record t { next_id = id }) counted)
      counted

fail_command-IsIndexed : (p : ℕ) (t : CommandTracker) → IsIndexed t → IsIndexed (fail_command p t)
unfolding fail_command
fail_command-IsIndexed p t v = elim (id_at p t.cells) as (λ o. IsIndexed (drop_command p t o)) [
  | none ↦ v
  | some id ↦
      remove_command-IsIndexed id (write_command p give_up t)
        (write_command-IsIndexed p give_up t (λ c. refl) v)
]

mark_acked-IsIndexed :
    (now id : ℕ) (ack : CommandAckMessage) (t : CommandTracker)
    → IsIndexed t
    → IsIndexed (mark_acked now id ack t).1
unfolding mark_acked
mark_acked-IsIndexed now id ack t v =
    elim (lookup id t.commands) as (λ o. IsIndexed ((acknowledge now ack t o).1)) [
      | none ↦ v
      | some p ↦ write_command-IsIndexed p (acked now ack) t (λ c. refl) v
    ]

pub happen-IsIndexed : (e : Event) (t : CommandTracker) → IsIndexed t → IsIndexed (happen e t)
unfolding happen
happen-IsIndexed (request_begins connected now timeout r) t v =
    either_branch IsIndexed (refused r) v (begin_request-IsIndexed connected now timeout r t v)
happen-IsIndexed (client_fails p) t v = fail_command-IsIndexed p t v
happen-IsIndexed (client_sends now timeout p) t v =
    write_command-IsIndexed p (sent now timeout) t (λ c. refl) v
happen-IsIndexed (ack_arrives now ack) t v = mark_acked-IsIndexed now ack.command_id ack t v
happen-IsIndexed (timeouts_checked now) t v = record {
  keyed = v.keyed;
  points = λ id p e. expire_all-id_at now p t.commands t.cells ∙ v.points id p e;
}
happen-IsIndexed (commands_cleaned now) t v = record {
  keyed = clean_all-IsKeyed now five_minutes t.cells t.commands t.commands v.keyed;
  points = λ id p e.
      v.points id p (clean_all-lookup-some now five_minutes t.cells t.commands t.commands id p e);
}
happen-IsIndexed (result_received p) t v = write_command-IsIndexed p taken t (λ c. refl) v

pub run_events-IsIndexed :
    (es : List Event) (t : CommandTracker) → IsIndexed t → IsIndexed (run_events es t)
unfolding run_events
run_events-IsIndexed [] t v = v
run_events-IsIndexed (e ∷ es) t v = run_events-IsIndexed es (happen e t) (happen-IsIndexed e t v)

pub new_command_tracker-IsIndexed : IsIndexed new_command_tracker
unfolding lookup
new_command_tracker-IsIndexed = record { keyed = tt; points = λ id p e. cc }
