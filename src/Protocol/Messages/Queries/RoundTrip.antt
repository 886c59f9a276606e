-- ===== src/Protocol/Messages/Queries/RoundTrip.antt =====
-- Writing and reading COMMAND_ACK, QUERY and QUERY_RESPONSE, of internal/protocol/codec.go.
use df_ai.Protocol.Wire.{Bytes, IsText, IsU32, IsU8, put_text, put_u32, put_u8, written}
use df_ai.Protocol.Wire.Reads.{lengths, limited_within, parse_ok, read_full-append, reads}
use df_ai.Protocol.Messages.Queries.{
  CommandAckMessage, QueryMessage, QueryResponseMessage, deserialize_command_ack, deserialize_query,
  deserialize_query_response, read_command_ack, read_query, read_query_response,
  serialize_command_ack, serialize_query, serialize_query_response,
}
use df_ai.Base.{[], arith, length, ok, ◌++◌, ◌>>=◌, ◌∷◌, ◌≡◌}

abbrev pub FitsCommandAck : CommandAckMessage → Type 0
FitsCommandAck m = IsU32 m.command_id × IsU8 m.status × IsText m.error_msg

ack_bytes : CommandAckMessage → Bytes
ack_bytes m = written (put_u32 m.command_id ∷ put_u8 m.status ∷ put_text m.error_msg ∷ [])

deserialize-ack_bytes :
    (m : CommandAckMessage) (rest : Bytes)
    → FitsCommandAck m
    → deserialize_command_ack (ack_bytes m ++ rest) ≡ ok m
unfolding deserialize_command_ack ack_bytes
deserialize-ack_bytes m rest h =
    parse_ok 7 read_command_ack (ack_bytes m ++ rest) {rest = rest} (simp lengths (omega arith))
      (simp (reads, h.0, h.1, h.2))

-- A COMMAND_ACK with values of their Go types and a text of at most 65535 bytes is serialized and
-- read back as it was, whatever bytes follow.
pub deserialize_command_ack-serialize_command_ack :
    (m : CommandAckMessage) (rest : Bytes)
    → FitsCommandAck m
    → (serialize_command_ack m >>= λ bs. deserialize_command_ack (bs ++ rest)) ≡ ok m
unfolding serialize_command_ack ack_bytes
deserialize_command_ack-serialize_command_ack m rest h =
    rw (limited_within 65535 m.error_msg _ h.2) (deserialize-ack_bytes m rest h)

pub deserialize_query-serialize_query :
    (m : QueryMessage) (rest : Bytes)
    → IsU32 m.query_id × IsText m.name × IsText m.args
    → deserialize_query (serialize_query m ++ rest) ≡ ok m
unfolding deserialize_query serialize_query
deserialize_query-serialize_query m rest h =
    parse_ok 8 read_query (serialize_query m ++ rest) {rest = rest} (simp lengths (omega arith))
      (simp (reads, h.0, h.1, h.2))

-- A QUERY_RESPONSE with values of their Go types and a body whose length a uint32 counts is read
-- back as it was, whatever bytes follow.
pub deserialize_query_response-serialize_query_response :
    (m : QueryResponseMessage) (rest : Bytes)
    → IsU32 m.query_id × IsU8 m.status × IsU32 (length m.body)
    → deserialize_query_response (serialize_query_response m ++ rest) ≡ ok m
unfolding deserialize_query_response serialize_query_response
deserialize_query_response-serialize_query_response m rest h =
    parse_ok 9 read_query_response (serialize_query_response m ++ rest) {rest = rest}
      (simp lengths (omega arith)) (simp (reads, h.0, h.1, h.2, read_full-append))
