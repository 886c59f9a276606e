-- ===== src/Protocol/Frame/Commands.antt =====
-- EncodeCommand and DecodeCommand of internal/protocol/codec.go.
use df_ai.Protocol.Wire.{Bytes}
use df_ai.Protocol.Frame.{
  Message, command, deserialize_message, serialize_message, validate_message,
}
use df_ai.Protocol.Command.Message.{CommandMessage}
use df_ai.Protocol.Command.RoundTrip.{FitsCommand, sent_command}
use df_ai.Protocol.Command.Validate.{validate_command}
use df_ai.Protocol.Frame.RoundTrip.{deserialize_message-serialize_message}
use df_ai.Base.{Result, err, ok, refl, unexpected_message, ◌>>=◌, ◌≡◌}

unfoldable pub encode_command : CommandMessage → Result Bytes
encode_command m = serialize_message (command m)

-- The assertion `msg.(*CommandMessage)`.
unfoldable pub as_command : Message → Result CommandMessage
as_command (command m) = ok m
as_command other = err unexpected_message

unfoldable pub decode_command : Bytes → Result CommandMessage
unfolding as_command
decode_command bs = deserialize_message bs >>= as_command

bind_twice :
    (w : Result Bytes) (read : Bytes → Result Message) (next : Message → Result CommandMessage)
    {m : Message}
    → (w >>= read) ≡ ok m
    → (w >>= λ bs. read bs >>= next) ≡ next m
bind_twice (ok bs) read next h = rw h refl
bind_twice (err e) read next h = cc

-- A valid command of a known type, with values of their Go types and names within their limits, is
-- encoded by EncodeCommand, and DecodeCommand gives it back with only the fields that its type
-- sends.
pub decode_command-encode_command :
    (m : CommandMessage)
    → FitsCommand m
    → validate_command m ≡ ok tt
    → (encode_command m >>= decode_command) ≡ ok (sent_command m)
unfolding encode_command decode_command as_command validate_message
decode_command-encode_command m h v =
    bind_twice (serialize_message (command m)) deserialize_message as_command
      (deserialize_message-serialize_message (command m) h v)
