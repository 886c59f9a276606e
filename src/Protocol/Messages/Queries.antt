-- ===== src/Protocol/Messages/Queries.antt =====
-- The request and reply messages: COMMAND_ACK, QUERY and QUERY_RESPONSE, of
-- internal/protocol/message.go and internal/protocol/codec.go.
pub mod RoundTrip
use df_ai.Base.{
  Result, [], guard, leb, length, ltb, not, ok, validation_failed, ℕ, ◌==◌, ◌>>◌, ◌||◌, ◌∷◌,
}
use df_ai.Protocol.Wire.{
  Bytes, Reader, limited, parse, pure, put_text, put_u32, put_u8, read_full, read_text, read_u32,
  read_u8, written, ◌>>=◌,
}

abbrev pub ack_status_success : ℕ
ack_status_success = 0x00

abbrev pub ack_status_partial : ℕ
ack_status_partial = 0x01

abbrev pub ack_status_failure : ℕ
ack_status_failure = 0x02

pub record CommandAckMessage : Type 0 where
  pub command_id : ℕ
  pub status : ℕ
  pub error_msg : Bytes

unfoldable pub validate_command_ack : CommandAckMessage → Result (Unit {0})
validate_command_ack m = guard (leb m.status ack_status_failure) validation_failed

unfoldable pub serialize_command_ack : CommandAckMessage → Result Bytes
serialize_command_ack m =
    limited 65535 m.error_msg
      (ok (written (put_u32 m.command_id ∷ put_u8 m.status ∷ put_text m.error_msg ∷ [])))

unfoldable pub read_command_ack : Reader CommandAckMessage
read_command_ack = do
  command_id ← read_u32
  status ← read_u8
  error_msg ← read_text
  pure (record { command_id = command_id; status = status; error_msg = error_msg })

unfoldable pub deserialize_command_ack : Bytes → Result CommandAckMessage
unfolding read_command_ack
deserialize_command_ack = parse 7 read_command_ack

pub record QueryMessage : Type 0 where
  pub query_id : ℕ
  pub name : Bytes
  pub args : Bytes

unfoldable pub validate_query : QueryMessage → Result (Unit {0})
validate_query m =
    guard (not (m.query_id == 0)) validation_failed
    >> guard (not (length m.name == 0 || ltb 64 (length m.name))) validation_failed
    >> guard (leb (length m.args) 4096) validation_failed

unfoldable pub serialize_query : QueryMessage → Bytes
serialize_query m = written (put_u32 m.query_id ∷ put_text m.name ∷ put_text m.args ∷ [])

unfoldable pub read_query : Reader QueryMessage
read_query = do
  query_id ← read_u32
  name ← read_text
  args ← read_text
  pure (record { query_id = query_id; name = name; args = args })

unfoldable pub deserialize_query : Bytes → Result QueryMessage
unfolding read_query
deserialize_query = parse 8 read_query

-- `body` is the field Data.
pub record QueryResponseMessage : Type 0 where
  pub query_id : ℕ
  pub status : ℕ
  pub body : Bytes

unfoldable pub validate_query_response : QueryResponseMessage → Result (Unit {0})
validate_query_response m =
    guard (not (m.query_id == 0)) validation_failed >> guard (leb m.status 0x02) validation_failed

unfoldable pub serialize_query_response : QueryResponseMessage → Bytes
serialize_query_response m =
    written (put_u32 m.query_id ∷ put_u8 m.status ∷ put_u32 (length m.body) ∷ m.body ∷ [])

unfoldable pub read_query_response : Reader QueryResponseMessage
read_query_response = do
  query_id ← read_u32
  status ← read_u8
  size ← read_u32
  body ← read_full size
  pure (record { query_id = query_id; status = status; body = body })

unfoldable pub deserialize_query_response : Bytes → Result QueryResponseMessage
unfolding read_query_response
deserialize_query_response = parse 9 read_query_response
