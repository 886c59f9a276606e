-- ===== src/Protocol/Connection/States.antt =====
-- The states of a Connection of internal/protocol/connection.go and its steps.
use df_ai.Protocol.Wire.{Bytes, read_full}
use df_ai.Protocol.Connection.{
  Connection, Socket, accept_connection, begin_connect, close, drained, end_connect, new_connection,
  on_socket, receive, receive_body, send, send_bytes, state_connected, state_disconnected, usable,
}
use df_ai.Base.{
  Bool, Option, Result, arith, err, false, none, not_connected, ok, refl, some, true, ◌↔◌, ◌≡◌, ◌≢◌,
}
use df_ai.Protocol.Frame.{Message, serialize_message}

-- The critical sections, as they can follow each other.
pub data Step : Connection → Connection → Type 0 where
  begin_step : (c : Connection) → Step c (begin_connect c)
  end_step : (answer : Result Socket) (c : Connection) → Step c (end_connect answer c).1
  accept_step : (s : Socket) (c : Connection) → Step c (accept_connection s c)
  send_step : (m : Message) (c : Connection) → Step c (send m c).1
  receive_step : (c : Connection) → Step c (receive c).1
  close_step : (c : Connection) → Step c (close c).1

pub data Reachable : Connection → Type 0 where
  at_start : Reachable new_connection
  after : {c d : Connection} → Reachable c → Step c d → Reachable d

-- Connected with a socket, disconnected without, and anything in the two other states.
unfoldable pub is_consistent : Connection → Bool
is_consistent c = elim c.state [
  | state_connected ↦ elim c.conn [ none ↦ false | some s ↦ true ]
  | state_disconnected ↦ elim c.conn [ none ↦ true | some s ↦ false ]
  | other ↦ true
]

send_bytes_consistent : (bs : Bytes) (s : Socket) → is_consistent (send_bytes bs s).1 ≡ true
unfolding is_consistent send_bytes
send_bytes_consistent bs s = ground arith

on_socket_consistent :
    {A : Type 0} (u : Option Socket) (c : Connection) (operation : Socket → Result A × Connection)
    → is_consistent c ≡ true
    → ((s : Socket) → is_consistent (operation s).1 ≡ true)
    → is_consistent (on_socket u c operation).1 ≡ true
on_socket_consistent none c operation h each = h
on_socket_consistent (some s) c operation h each = each s

sent_consistent :
    (w : Result Bytes) (s : Socket) (c : Connection)
    → is_consistent c ≡ true
    → is_consistent
        (elim w as (λ x. Result (Unit {0}) × Connection) [
          | ok bs ↦ send_bytes bs s
          | err e ↦ (err e, c)
        ]).1
      ≡ true
sent_consistent (ok bs) s c h = send_bytes_consistent bs s
sent_consistent (err e) s c h = h

receive_body_consistent :
    (header rest : Bytes) (s : Socket) → is_consistent (receive_body header rest s).1 ≡ true
unfolding receive_body is_consistent
receive_body_consistent header rest s = ground arith

received_consistent :
    (r : Result (Bytes × Bytes)) (s : Socket)
    → is_consistent
        (elim r as (λ x. Result Message × Connection) [
          | ok (header, rest) ↦ receive_body header rest s
          | err e ↦ (err e, drained s)
        ]).1
      ≡ true
unfolding is_consistent
received_consistent (ok hr) s = receive_body_consistent hr.0 hr.1 s
received_consistent (err e) s = refl

close_consistent : (c : Connection) → is_consistent (close c).1 ≡ true
unfolding close is_consistent
close_consistent c = ground arith

Step-is_consistent : (c d : Connection) → Step c d → is_consistent c ≡ true → is_consistent d ≡ true
unfolding send receive begin_connect end_connect accept_connection is_consistent
Step-is_consistent _ _ (begin_step c) h = refl
Step-is_consistent _ _ (end_step (ok s) c) h = refl
Step-is_consistent _ _ (end_step (err e) c) h = refl
Step-is_consistent _ _ (accept_step s c) h = refl
Step-is_consistent _ _ (send_step m c) h =
    on_socket_consistent (usable c) c _ h (λ s. sent_consistent (serialize_message m) s c h)
Step-is_consistent _ _ (receive_step c) h =
    on_socket_consistent (usable c) c _ h (λ s. received_consistent (read_full 6 s.incoming) s)
Step-is_consistent _ _ (close_step c) h = close_consistent c

-- A connection that the critical sections of Connect, and AcceptConnection, Send, Receive and Close
-- can have led to, in any order, has a socket if it is connected, and has none if it is
-- disconnected.
pub Reachable-is_consistent : (c : Connection) → Reachable c → is_consistent c ≡ true
unfolding is_consistent new_connection
Reachable-is_consistent _ at_start = refl
Reachable-is_consistent d (after {c} past step) =
    Step-is_consistent c d step (Reachable-is_consistent c past)

connected-usable :
    (c : Connection) → is_consistent c ≡ true → usable c ≡ none → c.state ≢ state_connected
unfolding is_consistent usable
connected-usable c h e = ground arith

usable-connected : (c : Connection) → c.state ≢ state_connected → usable c ≡ none
unfolding usable
usable-connected c n = ground arith

-- On a connection that the operations can have led to, Send and Receive find no socket to use
-- exactly where the state is not connected.
pub Reachable-usable :
    (c : Connection) → Reachable c → (usable c ≡ none) ↔ (c.state ≢ state_connected)
Reachable-usable c h = (connected-usable c (Reachable-is_consistent c h), usable-connected c)

closed : (c : Connection) → (close c).1 ≡ new_connection
unfolding close new_connection
closed c = ground arith

-- After Close the state is disconnected, and Send and Receive give the error of a connection that
-- is not there and change nothing.
pub close_lem :
    (c : Connection) (m : Message)
    → ((close c).1.state ≡ state_disconnected)
      × (send m (close c).1 ≡ (err not_connected, (close c).1))
      × (receive (close c).1 ≡ (err not_connected, (close c).1))
unfolding send receive usable new_connection
close_lem c m = rw (closed c) (refl, refl, refl)
