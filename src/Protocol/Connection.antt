-- ===== src/Protocol/Connection.antt =====
-- Connection of internal/protocol/connection.go. A net.Conn is its bytes to come, the bytes written to
-- it, and what it answers to Write and Close; the lock is not modelled, since an operation is one
-- step here.
pub mod Delivery
pub mod States
use df_ai.Protocol.Frame.{Message, deserialize_message, disconnect, serialize_message}
use df_ai.Protocol.Wire.{Bytes, read_full}
use df_ai.Base.{
  Bool, Error, Option, Result, [], err, false, if◌then◌else◌, invalid_message_length, ltb, none,
  not_connected, ok, some, true, ℕ, ◌*◌, ◌++◌, ◌+◌, ◌-◌, ◌^◌, ◌||◌, ◌∷◌,
}

pub data ConnectionState : Type 0 where
  state_disconnected state_connecting state_connected state_error : ConnectionState

abbrev pub is_connected : ConnectionState → Bool
is_connected state_connected = true
is_connected other = false

-- `incoming` is all that will arrive before the end of the stream.
pub record Socket : Type 0 where
  pub incoming : Bytes
  pub outgoing : Bytes
  pub write_error : Option Error
  pub close_error : Option Error

pub record Connection : Type 0 where
  pub conn : Option Socket
  pub state : ConnectionState

unfoldable pub new_connection : Connection
new_connection = record { conn = none; state = state_disconnected }

-- Connect has two critical sections, before net.Dial and after it.
unfoldable pub begin_connect : Connection → Connection
begin_connect c = record c { state = state_connecting }

-- The answer of net.Dial is the first argument; a failure keeps the socket of before.
unfoldable pub end_connect : Result Socket → Connection → Result (Unit {0}) × Connection
end_connect (err e) c = (err e, record c { state = state_error })
end_connect (ok s) c = (ok tt, record { conn = some s; state = state_connected })

unfoldable pub connect : Result Socket → Connection → Result (Unit {0}) × Connection
unfolding begin_connect end_connect
connect answer c = end_connect answer (begin_connect c)

unfoldable pub accept_connection : Socket → Connection → Connection
accept_connection s c = record { conn = some s; state = state_connected }

-- `c.state != StateConnected || c.conn == nil`, and the socket where this is false.
unfoldable pub usable : Connection → Option Socket
usable c = if is_connected c.state then c.conn else none

-- An operation that needs the connection.
abbrev pub on_socket :
    {A : Type 0}
    → Option Socket
    → Connection
    → (Socket → Result A × Connection)
    → Result A × Connection
on_socket none c operation = (err not_connected, c)
on_socket (some s) c operation = operation s

-- conn.Write: all bytes, or an error.
unfoldable pub write_socket : Bytes → Socket → Result (Unit {0}) × Socket
write_socket bs s = elim s.write_error [
  | none ↦ (ok tt, record s { outgoing = s.outgoing ++ bs })
  | some e ↦ (err e, s)
]

unfoldable pub send_bytes : Bytes → Socket → Result (Unit {0}) × Connection
unfolding write_socket
send_bytes bs s =
    let (answer, after) = write_socket bs s in
    elim answer [
      | ok done ↦ (ok tt, record { conn = some after; state = state_connected })
      | err e ↦ (err e, record { conn = some after; state = state_error })
    ]

unfoldable pub send : Message → Connection → Result (Unit {0}) × Connection
unfolding usable send_bytes
send m c =
    on_socket (usable c) c
      (λ s. elim (serialize_message m) [ ok bs ↦ send_bytes bs s | err e ↦ (err e, c) ])

-- `100*1024*1024`
abbrev pub max_message_length : ℕ
max_message_length = 100 * 1024 * 1024

-- `binary.BigEndian.Uint32(header[0:4])`
unfoldable pub header_length : Bytes → ℕ
header_length (a ∷ b ∷ c ∷ d ∷ rest) = a * 2 ^ 24 + b * 2 ^ 16 + c * 2 ^ 8 + d
header_length bs = 0

-- A read that ends early has taken what there was.
abbrev pub drained : Socket → Connection
drained s = record { conn = some (record s { incoming = [] }); state = state_error }

abbrev pub still_connected : Socket → Bytes → Connection
still_connected s rest = record {
  conn = some (record s { incoming = rest });
  state = state_connected;
}

unfoldable pub receive_body : Bytes → Bytes → Socket → Result Message × Connection
unfolding header_length
receive_body header rest s =
    let len = header_length header in
    if ltb len 6 || ltb max_message_length len
    then (err invalid_message_length, still_connected s rest)
    else elim (if ltb 6 len then read_full (len - 6) rest else ok ([], rest)) [
      | ok (payload, rest') ↦ (deserialize_message (header ++ payload), still_connected s rest')
      | err e ↦ (err e, drained s)
    ]

unfoldable pub receive : Connection → Result Message × Connection
unfolding usable receive_body
receive c = on_socket (usable c) c (λ s. elim (read_full 6 s.incoming) [
  | ok (header, rest) ↦ receive_body header rest s
  | err e ↦ (err e, drained s)
])

-- `&DisconnectMessage{Reason: ReasonNormalShutdown}`
abbrev pub goodbye : Message
goodbye = disconnect (record { reason = 0x00 })

-- The disconnect message is written on a best effort.
unfoldable pub say_goodbye : Socket → Socket
unfolding write_socket
say_goodbye s = elim (serialize_message goodbye) [ ok bs ↦ (write_socket bs s).1 | err e ↦ s ]

-- The answer is that of conn.Close(); the socket is as Close leaves it.
unfoldable pub close : Connection → Result (Unit {0}) × Connection × Option Socket
unfolding say_goodbye
close c = elim c.conn [
  | none ↦ (ok tt, record { conn = none; state = state_disconnected }, none)
  | some s ↦ (
    elim s.close_error [ none ↦ ok tt | some e ↦ err e ],
    record { conn = none; state = state_disconnected },
    some (say_goodbye s),
  )
]
