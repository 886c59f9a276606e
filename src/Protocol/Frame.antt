-- ===== src/Protocol/Frame.antt =====
-- SerializeMessage and DeserializeMessage of internal/protocol/codec.go: the six bytes of the header
-- (length, version, type) around the payload of each of the 13 message types.
pub mod RoundTrip
pub mod Header
pub mod Commands
use df_ai.Protocol.Command.Deserialize.{deserialize_command}
use df_ai.Protocol.Command.Message.{CommandMessage}
use df_ai.Protocol.Command.Serialize.{serialize_command}
use df_ai.Protocol.Command.Validate.{validate_command}
use df_ai.Protocol.Messages.Announcements.{
  AnnouncementUpdateMessage, deserialize_announcement_update, serialize_announcement_update,
  validate_announcement_update,
}
use df_ai.Protocol.Messages.Entities.{
  EntityUpdateMessage, deserialize_entity_update, serialize_entity_update, validate_entity_update,
}
use df_ai.Protocol.Messages.Queries.{
  CommandAckMessage, QueryMessage, QueryResponseMessage, deserialize_command_ack, deserialize_query,
  deserialize_query_response, serialize_command_ack, serialize_query, serialize_query_response,
  validate_command_ack, validate_query, validate_query_response,
}
use df_ai.Protocol.Messages.Session.{
  DisconnectMessage, ErrorMessage, HandshakeMessage, HeartbeatMessage, ResyncRequestMessage,
  deserialize_disconnect, deserialize_error, deserialize_handshake, deserialize_heartbeat,
  deserialize_resync_request, protocol_version, serialize_disconnect, serialize_error,
  serialize_handshake, serialize_heartbeat, serialize_resync_request, validate_disconnect,
  validate_handshake, validate_resync_request,
}
use df_ai.Protocol.Messages.Tiles.{
  FullStateMessage, TileUpdateMessage, deserialize_full_state, deserialize_tile_update,
  serialize_full_state, serialize_tile_update, validate_full_state, validate_tile_update,
}
use df_ai.Protocol.Wire.{Bytes, put_u32, put_u8}
use df_ai.Base.{
  List, Result, [], drop, err, if◌then◌else◌, invalid_message_length, invalid_message_type, length,
  not, ok, version_mismatch, ℕ, ◌%◌, ◌*◌, ◌++◌, ◌+◌, ◌==◌, ◌>>=◌, ◌>>◌, ◌^◌, ◌∷◌,
}

-- The interface Message of internal/protocol/message.go, by what implements it.
pub data Message : Type 0 where
  handshake : HandshakeMessage → Message
  full_state : FullStateMessage → Message
  tile_update : TileUpdateMessage → Message
  resync_request : ResyncRequestMessage → Message
  heartbeat : HeartbeatMessage → Message
  error : ErrorMessage → Message
  disconnect : DisconnectMessage → Message
  entity_update : EntityUpdateMessage → Message
  command : CommandMessage → Message
  command_ack : CommandAckMessage → Message
  query : QueryMessage → Message
  query_response : QueryResponseMessage → Message
  announcement_update : AnnouncementUpdateMessage → Message

-- The MessageType constants, and `unknown_kind` for any other byte.
pub data Kind : Type 0 where
  handshake_kind : Kind
  full_state_kind : Kind
  tile_update_kind : Kind
  resync_request_kind : Kind
  heartbeat_kind : Kind
  error_kind : Kind
  disconnect_kind : Kind
  entity_update_kind : Kind
  command_kind : Kind
  command_ack_kind : Kind
  query_kind : Kind
  query_response_kind : Kind
  announcement_update_kind : Kind
  unknown_kind : Kind

unfoldable pub kind_byte : Kind → ℕ
kind_byte handshake_kind = 0x01
kind_byte full_state_kind = 0x02
kind_byte tile_update_kind = 0x03
kind_byte resync_request_kind = 0x04
kind_byte heartbeat_kind = 0x05
kind_byte error_kind = 0x06
kind_byte disconnect_kind = 0x07
kind_byte entity_update_kind = 0x08
kind_byte command_kind = 0x09
kind_byte command_ack_kind = 0x0a
kind_byte query_kind = 0x0b
kind_byte query_response_kind = 0x0c
kind_byte announcement_update_kind = 0x0d
kind_byte unknown_kind = 0x00

abbrev pub kinds : List Kind
kinds =
    handshake_kind ∷ full_state_kind ∷ tile_update_kind ∷ resync_request_kind ∷ heartbeat_kind
    ∷ error_kind ∷ disconnect_kind ∷ entity_update_kind ∷ command_kind ∷ command_ack_kind
    ∷ query_kind ∷ query_response_kind ∷ announcement_update_kind ∷ []

unfoldable pub find_kind : List Kind → ℕ → Kind
find_kind [] b = unknown_kind
find_kind (k ∷ ks) b = if kind_byte k == b then k else find_kind ks b

unfoldable pub kind_of : Message → Kind
kind_of (handshake m) = handshake_kind
kind_of (full_state m) = full_state_kind
kind_of (tile_update m) = tile_update_kind
kind_of (resync_request m) = resync_request_kind
kind_of (heartbeat m) = heartbeat_kind
kind_of (error m) = error_kind
kind_of (disconnect m) = disconnect_kind
kind_of (entity_update m) = entity_update_kind
kind_of (command m) = command_kind
kind_of (command_ack m) = command_ack_kind
kind_of (query m) = query_kind
kind_of (query_response m) = query_response_kind
kind_of (announcement_update m) = announcement_update_kind

-- Message.Type()
unfoldable pub message_type : Message → ℕ
unfolding kind_byte kind_of
message_type m = kind_byte (kind_of m)

-- Message.Validate(); two of the types have nothing to check.
unfoldable pub validate_message : Message → Result (Unit {0})
validate_message (handshake m) = validate_handshake m
validate_message (full_state m) = validate_full_state m
validate_message (tile_update m) = validate_tile_update m
validate_message (resync_request m) = validate_resync_request m
validate_message (heartbeat m) = ok tt
validate_message (error m) = ok tt
validate_message (disconnect m) = validate_disconnect m
validate_message (entity_update m) = validate_entity_update m
validate_message (command m) = validate_command m
validate_message (command_ack m) = validate_command_ack m
validate_message (query m) = validate_query m
validate_message (query_response m) = validate_query_response m
validate_message (announcement_update m) = validate_announcement_update m

-- `switch m := msg.(type)`
unfoldable pub serialize_payload : Message → Result Bytes
serialize_payload (handshake m) = ok (serialize_handshake m)
serialize_payload (full_state m) = ok (serialize_full_state m)
serialize_payload (tile_update m) = ok (serialize_tile_update m)
serialize_payload (resync_request m) = ok (serialize_resync_request m)
serialize_payload (heartbeat m) = ok (serialize_heartbeat m)
serialize_payload (error m) = ok (serialize_error m)
serialize_payload (disconnect m) = ok (serialize_disconnect m)
serialize_payload (entity_update m) = ok (serialize_entity_update m)
serialize_payload (command m) = serialize_command m
serialize_payload (command_ack m) = serialize_command_ack m
serialize_payload (query m) = ok (serialize_query m)
serialize_payload (query_response m) = ok (serialize_query_response m)
serialize_payload (announcement_update m) = ok (serialize_announcement_update m)

-- `binary.BigEndian.PutUint32(data[0:4], uint32(len(data)))`
unfoldable pub fill_in_length : Bytes → Bytes
fill_in_length bs = put_u32 (length bs) ++ drop 4 bs

-- The space for the length is written as 0 and filled in at the end.
unfoldable pub serialize_message : Message → Result Bytes
serialize_message m =
    validate_message m
    >> (serialize_payload m >>= λ payload. ok (
        fill_in_length
          (put_u32 0 ++ (put_u8 protocol_version ++ (put_u8 (message_type m) ++ payload)))))

-- `switch msgType`
unfoldable pub deserialize_payload : Kind → Bytes → Result Message
deserialize_payload handshake_kind payload = deserialize_handshake payload >>= λ m. ok (handshake m)
deserialize_payload full_state_kind payload =
    deserialize_full_state payload >>= λ m. ok (full_state m)
deserialize_payload tile_update_kind payload =
    deserialize_tile_update payload >>= λ m. ok (tile_update m)
deserialize_payload resync_request_kind payload =
    deserialize_resync_request payload >>= λ m. ok (resync_request m)
deserialize_payload heartbeat_kind payload = deserialize_heartbeat payload >>= λ m. ok (heartbeat m)
deserialize_payload error_kind payload = deserialize_error payload >>= λ m. ok (error m)
deserialize_payload disconnect_kind payload =
    deserialize_disconnect payload >>= λ m. ok (disconnect m)
deserialize_payload entity_update_kind payload =
    deserialize_entity_update payload >>= λ m. ok (entity_update m)
deserialize_payload command_kind payload = deserialize_command payload >>= λ m. ok (command m)
deserialize_payload command_ack_kind payload =
    deserialize_command_ack payload >>= λ m. ok (command_ack m)
deserialize_payload query_kind payload = deserialize_query payload >>= λ m. ok (query m)
deserialize_payload query_response_kind payload =
    deserialize_query_response payload >>= λ m. ok (query_response m)
deserialize_payload announcement_update_kind payload =
    deserialize_announcement_update payload >>= λ m. ok (announcement_update m)
deserialize_payload unknown_kind payload = err invalid_message_type

-- `if err := msg.Validate(); err != nil { return nil, … }`
abbrev pub validated : Message → Result Message
validated m = validate_message m >> ok m

-- The header's length is compared with `uint32(len(data))`.
unfoldable pub deserialize_message : Bytes → Result Message
unfolding find_kind kind_byte
deserialize_message (a ∷ b ∷ c ∷ d ∷ version ∷ type ∷ payload) =
    if not ((6 + length payload) % 2 ^ 32 == a * 2 ^ 24 + b * 2 ^ 16 + c * 2 ^ 8 + d)
    then err invalid_message_length
    else if not (version == protocol_version)
    then err version_mismatch
    else deserialize_payload (find_kind kinds type) payload >>= validated
deserialize_message bs = err invalid_message_length
