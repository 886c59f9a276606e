-- ===== src/Protocol/Tests.antt =====
-- The theorems on the protocol at concrete messages.
use df_ai.Protocol.Connection.{
  Connection, accept_connection, close, goodbye, new_connection, receive,
}
use df_ai.Protocol.Connection.States.{
  Reachable, Reachable-is_consistent, accept_step, after, at_start, is_consistent,
}
use df_ai.Protocol.Connection.Delivery.{
  IsDeliverable, close-receive, goodbye-IsDeliverable, message_size, open_on, receive_bad_length,
  receive_many, receive_many-send_all, send_all, socket,
}
use df_ai.Protocol.Wire.{Bytes, parse, put_text, put_u16, put_u32, put_u8, read_u32, read_u8}
use df_ai.Protocol.Command.Types.{command_type_byte, command_type_of}
use df_ai.Protocol.Frame.{
  Message, command, deserialize_message, deserialize_payload, error, fill_in_length, handshake,
  message_type, serialize_message, serialize_payload, validate_message,
}
use df_ai.Protocol.Command.Burrows.{DesignateBurrowDesignation}
use df_ai.Protocol.Command.Deserialize.{deserialize_command}
use df_ai.Protocol.Command.Message.{CommandMessage, zero_command}
use df_ai.Protocol.Command.RoundTrip.{
  FitsCommand, deserialize_command-serialize_command, sent_command,
}
use df_ai.Protocol.Command.Serialize.{serialize_command}
use df_ai.Protocol.Command.Validate.{validate_command}
use df_ai.Protocol.Frame.RoundTrip.{deserialize_message-serialize_message, sent_message}
use df_ai.Protocol.Messages.Session.{
  deserialize_disconnect, protocol_version, serialize_error, serialize_handshake,
  validate_disconnect, validate_handshake,
}
use df_ai.Base.{
  List, [], arith, err, inr, invalid_message_length, length, map, negsuc, ok, pos, refl, some, true,
  ◌%◌, ◌++◌, ◌>>=◌, ◌^◌, ◌∷◌, ◌≡◌,
}
use df_ai.Protocol.Frame.Header.{deserialize_message_checks}

abbrev hello : Message
hello = handshake (record { version = 1; connection_id = 7; capabilities = 65 ∷ 73 ∷ [] })

abbrev trouble : Message
trouble = error (record { code = 3; message = 110 ∷ 111 ∷ [] })

abbrev talk : List Message
talk = hello ∷ trouble ∷ goodbye ∷ []

hello-IsDeliverable : IsDeliverable hello
unfolding message_size serialize_message validate_message validate_handshake serialize_payload
    serialize_handshake fill_in_length put_u32 put_u16 put_text put_u8 message_type
hello-IsDeliverable = (ground arith, refl, omega arith)

trouble-IsDeliverable : IsDeliverable trouble
unfolding message_size serialize_message validate_message serialize_payload serialize_error
    fill_in_length put_u32 put_u16 put_text put_u8 message_type
trouble-IsDeliverable = (ground arith, refl, omega arith)

receive_many-send_all_example :
    (bs : Bytes) × ((incoming : Bytes)
      → send_all talk (open_on incoming []) ≡ (ok tt, open_on incoming ([] ++ bs)))
    × ((rest other : Bytes)
        → receive_many 3 (open_on (bs ++ rest) other)
          ≡ (map (λ m. ok (sent_message m)) talk, open_on rest other))
receive_many-send_all_example =
    receive_many-send_all talk []
      (hello-IsDeliverable, (trouble-IsDeliverable, (goodbye-IsDeliverable, tt)))

abbrev burrow : DesignateBurrowDesignation
burrow = record {
  name = 83 ∷ 97 ∷ 102 ∷ 101 ∷ [];
  x1 = negsuc 4;
  y1 = pos 2;
  z1 = pos 10;
  x2 = pos 8;
  y2 = pos 9;
  z2 = pos 10;
}

abbrev burrow_command : CommandMessage
burrow_command = record zero_command {
  command_id = 41;
  command_type = 0x18;
  designate_burrow = burrow;
}

burrow_command-Fits : FitsCommand burrow_command
unfolding command_type_of command_type_byte
burrow_command-Fits = ground arith

burrow_command-valid : validate_command burrow_command ≡ ok tt
unfolding validate_command command_type_of command_type_byte
burrow_command-valid = refl

deserialize_command-serialize_command_example :
    (serialize_command burrow_command >>= λ bs. deserialize_command (bs ++ (9 ∷ [])))
    ≡ ok (sent_command burrow_command)
deserialize_command-serialize_command_example =
    deserialize_command-serialize_command burrow_command (9 ∷ []) burrow_command-Fits

burrow_message-valid : validate_message (command burrow_command) ≡ ok tt
unfolding validate_message
burrow_message-valid = burrow_command-valid

deserialize_message-serialize_message_example :
    (serialize_message (command burrow_command) >>= deserialize_message)
    ≡ ok (sent_message (command burrow_command))
deserialize_message-serialize_message_example =
    deserialize_message-serialize_message (command burrow_command) burrow_command-Fits
      burrow_message-valid

abbrev goodbye_bytes : Bytes
goodbye_bytes = 0 ∷ 0 ∷ 0 ∷ 7 ∷ 1 ∷ 7 ∷ 0 ∷ []

goodbye_read : deserialize_message goodbye_bytes ≡ ok goodbye
unfolding deserialize_message deserialize_payload deserialize_disconnect parse read_u8
    validate_message validate_disconnect
goodbye_read = refl

deserialize_message_checks_example :
    (payload : Bytes) × (read_u32 goodbye_bytes
      ≡ ok (length goodbye_bytes % 2 ^ 32, protocol_version ∷ message_type goodbye ∷ payload))
    × (validate_message goodbye ≡ ok tt)
deserialize_message_checks_example = deserialize_message_checks goodbye_bytes goodbye goodbye_read

receive_bad_length_example :
    receive (open_on (put_u32 104857601 ++ (1 ∷ 2 ∷ (8 ∷ 9 ∷ []))) [])
    ≡ (err invalid_message_length, open_on (8 ∷ 9 ∷ []) [])
receive_bad_length_example =
    receive_bad_length 104857601 1 2 (8 ∷ 9 ∷ []) [] (omega arith) (inr (omega arith))

abbrev accepted : Connection
accepted = accept_connection (socket goodbye_bytes []) new_connection

accepted-Reachable : Reachable accepted
accepted-Reachable = after at_start (accept_step (socket goodbye_bytes []) new_connection)

Reachable-is_consistent_example : is_consistent accepted ≡ true
Reachable-is_consistent_example = Reachable-is_consistent accepted accepted-Reachable

close-receive_example :
    (bs : Bytes) × (close (open_on [] (5 ∷ []))
      ≡ (ok tt, new_connection, some (socket [] ((5 ∷ []) ++ bs))))
    × ((rest other : Bytes)
        → receive (open_on (bs ++ rest) other) ≡ (ok goodbye, open_on rest other))
close-receive_example = close-receive [] (5 ∷ [])
