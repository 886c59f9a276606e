-- ===== src/Protocol/Connection/Delivery.antt =====
-- Send, Receive and Close of internal/protocol/connection.go at the two ends of a byte stream.
use df_ai.Protocol.Messages.Session.{protocol_version, serialize_disconnect, validate_disconnect}
use df_ai.Protocol.Frame.RoundTrip.{
  FitsMessage, big_endian, deserialize_message-serialize_message, frame, sent_message,
  serialize_message-frame,
}
use df_ai.Protocol.Connection.{
  Connection, Socket, close, goodbye, header_length, max_message_length, new_connection, on_socket,
  receive, receive_body, say_goodbye, send, send_bytes, state_connected, still_connected, usable,
  write_socket,
}
use df_ai.Base.{
  >>=-eq-ok, All, List, Result, [], ap, append-nil, append_assoc, arith, err, false, if◌then◌else◌,
  inl, inr, invalid_message_length, length, ltb, map, none, ok, refl, some, suc, sym, true, zero, ℕ,
  ◌%◌, ◌++◌, ◌+◌, ◌-◌, ◌/◌, ◌<◌, ◌^◌, ◌||◌, ◌∙◌, ◌∷◌, ◌≡◌, ◌≤◌, ◌⊎◌,
}
use df_ai.Protocol.Frame.{
  Message, deserialize_message, fill_in_length, message_type, serialize_message, serialize_payload,
  validate_message,
}
use df_ai.Protocol.Wire.{Bytes, IsU32, put_u32, put_u8, read_full}
use df_ai.Protocol.Wire.Reads.{read_full-append}

-- A connection on a socket that works.
abbrev pub socket : Bytes → Bytes → Socket
socket incoming outgoing = record {
  incoming = incoming;
  outgoing = outgoing;
  write_error = none;
  close_error = none;
}

abbrev pub open_on : Bytes → Bytes → Connection
open_on incoming outgoing = record {
  conn = some (socket incoming outgoing);
  state = state_connected;
}

send_open :
    (m : Message) (bs incoming outgoing : Bytes)
    → serialize_message m ≡ ok bs
    → send m (open_on incoming outgoing) ≡ (ok tt, open_on incoming (outgoing ++ bs))
unfolding send usable send_bytes write_socket
send_open m bs incoming outgoing e = rw (e, send) refl

read_rest :
    (n : ℕ) (payload rest : Bytes)
    → n ≡ 6 + length payload
    → (if ltb 6 n then read_full (n - 6) (payload ++ rest) else ok ([], payload ++ rest))
      ≡ ok (payload, rest)
read_rest n [] rest e = let small : ltb 6 n ≡ false = ground arith in rw small refl
read_rest n (b ∷ bs) rest e =
    let large : ltb 6 n ≡ true = ground arith in
    let len : n - 6 ≡ length (b ∷ bs) = omega arith in
    rw (large, len) (read_full-append (b ∷ bs) rest)

accepted : (n : ℕ) → 6 ≤ n → n ≤ max_message_length → (ltb n 6 || ltb max_message_length n) ≡ false
accepted n lo hi = ground arith

refused :
    (n : ℕ) → (n < 6) ⊎ (max_message_length < n) → (ltb n 6 || ltb max_message_length n) ≡ true
refused n (inl lo) = ground arith
refused n (inr hi) = ground arith

receive_body_lem :
    (header payload rest : Bytes) (s : Socket)
    → header_length header ≡ 6 + length payload
    → 6 + length payload ≤ max_message_length
    → receive_body header (payload ++ rest) s
      ≡ (deserialize_message (header ++ payload), still_connected s rest)
unfolding receive_body
receive_body_lem header payload rest s e le =
    rw
      (
        e,
        accepted (6 + length payload) (omega arith) le,
        read_rest (6 + length payload) payload rest refl,
        receive_body,
      )
      refl

receive_frame :
    (n : ℕ) (v t : ℕ) (payload rest outgoing : Bytes)
    → n ≡ 6 + length payload
    → n ≤ max_message_length
    → receive (open_on (put_u32 n ++ (v ∷ t ∷ (payload ++ rest))) outgoing)
      ≡ (deserialize_message (put_u32 n ++ (v ∷ t ∷ payload)), open_on rest outgoing)
unfolding receive usable put_u32 header_length
receive_frame n v t payload rest outgoing e le =
    let header = n / 2 ^ 24 % 256 ∷ n / 2 ^ 16 % 256 ∷ n / 2 ^ 8 % 256 ∷ n % 256 ∷ v ∷ t ∷ [] in
    let stream = put_u32 n ++ (v ∷ t ∷ (payload ++ rest)) in
    rw (read_full-append header (payload ++ rest), receive, on_socket)
      (receive_body_lem header payload rest (socket stream outgoing)
        (let big = big_endian n in omega arith) (omega arith))

receive_message :
    (m : Message) (payload rest outgoing : Bytes)
    → length (frame m payload) ≤ max_message_length
    → receive (open_on (frame m payload ++ rest) outgoing)
      ≡ (deserialize_message (frame m payload), open_on rest outgoing)
unfolding frame fill_in_length put_u32 put_u8
receive_message m payload rest outgoing le =
    receive_frame (suc (suc (suc (suc (suc (suc (length payload))))))) protocol_version
      (message_type m % 256) payload rest outgoing (omega arith) le

-- The length of the message on the wire; 0 where it is not sent.
unfoldable pub message_size : Message → ℕ
message_size m = elim (serialize_message m) [ ok bs ↦ length bs | err e ↦ 0 ]

-- What Receive can give back.
abbrev pub IsDeliverable : Message → Type 0
IsDeliverable m =
    FitsMessage m × (validate_message m ≡ ok tt) × (message_size m ≤ max_message_length)

message_size_lem :
    (m : Message) (bs : Bytes) → serialize_message m ≡ ok bs → message_size m ≡ length bs
unfolding message_size
message_size_lem m bs e = rw (e, message_size) refl

receive_bytes :
    (m : Message) (bs payload : Bytes) {answer : Result Message}
    → bs ≡ frame m payload
    → deserialize_message bs ≡ answer
    → length bs ≤ max_message_length
    → (rest outgoing : Bytes)
    → receive (open_on (bs ++ rest) outgoing) ≡ (answer, open_on rest outgoing)
receive_bytes m bs payload whole back size rest outgoing =
    let back' = rw whole at back in
    let size' = rw whole at size in
    rw whole
      (receive_message m payload rest outgoing size' ∙ ap (λ r. (r, open_on rest outgoing)) back')

deliver_one :
    (m : Message)
    → IsDeliverable m
    → (bs : Bytes) × (serialize_message m ≡ ok bs)
      × ((rest outgoing : Bytes)
          → receive (open_on (bs ++ rest) outgoing) ≡ (ok (sent_message m), open_on rest outgoing))
deliver_one m h =
    let (bs, e, back) =
      >>=-eq-ok (serialize_message m) deserialize_message
        (deserialize_message-serialize_message m h.0 h.1) in
    let (payload, whole) = serialize_message-frame m bs e in
    let size = message_size_lem m bs e in
    (bs, e, receive_bytes m bs payload whole back (omega (arith, size, h.2)))

-- Sends one message after the other, up to the first that fails.
unfoldable pub send_all : List Message → Connection → Result (Unit {0}) × Connection
send_all [] c = (ok tt, c)
send_all (m ∷ ms) c =
    let (answer, after) = send m c in
    let others = send_all ms after in elim answer [ ok done ↦ others | err e ↦ (err e, after) ]

unfoldable pub receive_many : ℕ → Connection → List (Result Message) × Connection
receive_many zero c = ([], c)
receive_many (suc n) c =
    let (message, after) = receive c in
    let (others, last) = receive_many n after in (message ∷ others, last)

send_all_ok :
    (m : Message) (ms : List Message) (c after : Connection)
    → send m c ≡ (ok tt, after)
    → send_all (m ∷ ms) c ≡ send_all ms after
unfolding send_all
send_all_ok m ms c after e =
    ap (λ r. elim (r.0) [ ok done ↦ send_all ms r.1 | err x ↦ (err x, r.1) ]) e

-- Messages that are valid and of at most 100 MB on the wire, whose fields hold values of their Go
-- types, whose lists are as long as their counts or dimensions say, and that keep these limits: a
-- text has at most 65535 bytes, that of an ERROR 65531, those of a command and its list of labor
-- ids 255, the body of a QUERY_RESPONSE fewer than 2 ^ 32, and an ENTITY_UPDATE has fewer than 2 ^
-- 32 zones with at most 65535 assigned units each, are written by Send to a working socket one
-- after the other without an error; and on the bytes written, followed by any others, Receive gives
-- each message in order, as the receiver gets it, and leaves the other bytes.
pub receive_many-send_all :
    (ms : List Message) (outgoing : Bytes)
    → All IsDeliverable ms
    → (bs : Bytes) × ((incoming : Bytes)
        → send_all ms (open_on incoming outgoing) ≡ (ok tt, open_on incoming (outgoing ++ bs)))
      × ((rest other : Bytes)
          → receive_many (length ms) (open_on (bs ++ rest) other)
            ≡ (map (λ m. ok (sent_message m)) ms, open_on rest other))
unfolding send_all receive_many
receive_many-send_all [] outgoing h = (
  [],
  λ incoming. ap (λ l. (ok tt, open_on incoming l)) (sym (append-nil outgoing)),
  λ rest other. refl,
)
receive_many-send_all (m ∷ ms) outgoing h =
    let (bs, e, one) = deliver_one m h.0 in
    let (more, sent, received) = receive_many-send_all ms (outgoing ++ bs) h.1 in
    (
      bs ++ more,
      λ incoming.
          send_all_ok m ms _ _ (send_open m bs incoming outgoing e)
          ∙ sent incoming
          ∙ ap (λ l. (ok tt, open_on incoming l)) (append_assoc outgoing bs more),
      λ rest other.
          rw (append_assoc bs more rest, one (more ++ rest) other, received rest other) refl,
    )

-- Where the length in a header is below 6 or above 100 MB, Receive gives an error, has consumed the
-- six bytes of the header and no more, and stays connected.
pub receive_bad_length :
    (n v t : ℕ) (rest outgoing : Bytes)
    → IsU32 n
    → (n < 6) ⊎ (max_message_length < n)
    → receive (open_on (put_u32 n ++ (v ∷ t ∷ rest)) outgoing)
      ≡ (err invalid_message_length, open_on rest outgoing)
unfolding receive usable put_u32 receive_body header_length
receive_bad_length n v t rest outgoing fits out =
    let header = n / 2 ^ 24 % 256 ∷ n / 2 ^ 16 % 256 ∷ n / 2 ^ 8 % 256 ∷ n % 256 ∷ v ∷ t ∷ [] in
    let whole : n % 2 ^ 32 ≡ n = omega arith in
    rw (read_full-append header rest, receive, on_socket)
      (rw (big_endian n ∙ whole, refused n out, receive_body) refl)

pub goodbye-IsDeliverable : IsDeliverable goodbye
unfolding message_size serialize_message validate_message validate_disconnect serialize_payload
    serialize_disconnect fill_in_length put_u32 put_u8 message_type
goodbye-IsDeliverable = (omega arith, refl, omega arith)

-- Close of a connection on a working socket writes one message to it and leaves the connection as a
-- new one, and on the bytes written, followed by any others, Receive gives the disconnect message
-- of a normal shutdown and leaves the other bytes.
pub close-receive :
    (incoming outgoing : Bytes)
    → (bs : Bytes) × (close (open_on incoming outgoing)
        ≡ (ok tt, new_connection, some (socket incoming (outgoing ++ bs))))
      × ((rest other : Bytes)
          → receive (open_on (bs ++ rest) other) ≡ (ok goodbye, open_on rest other))
unfolding close say_goodbye write_socket new_connection
close-receive incoming outgoing =
    let (bs, e, one) = deliver_one goodbye goodbye-IsDeliverable in
    (bs, rw (e, say_goodbye) refl, one)
