-- ===== src/Protocol/Messages/Session.antt =====
-- The messages that open, keep and end a session: HANDSHAKE, RESYNC_REQUEST, HEARTBEAT, DISCONNECT and
-- ERROR, of internal/protocol/message.go and internal/protocol/codec.go.
pub mod RoundTrip
pub mod ErrorText
use df_ai.Base.{
  Result, [], drop, err, guard, if◌then◌else◌, leb, length, ltb, not, ok, payload_too_short,
  payload_truncated, slice_panic, take, validation_failed, version_mismatch, ℕ, ◌%◌, ◌*◌, ◌++◌, ◌+◌,
  ◌-◌, ◌==◌, ◌>>◌, ◌^◌, ◌∷◌,
}
use df_ai.Protocol.Wire.{
  Bytes, Reader, parse, pure, put_text, put_u16, put_u32, put_u64, put_u8, read_text, read_u32,
  read_u64, read_u8, written, ◌>>=◌,
}

abbrev pub protocol_version : ℕ
protocol_version = 1

pub record HandshakeMessage : Type 0 where
  pub version : ℕ
  pub connection_id : ℕ
  pub capabilities : Bytes

unfoldable pub validate_handshake : HandshakeMessage → Result (Unit {0})
validate_handshake m =
    guard (m.version == protocol_version) version_mismatch
    >> guard (not (m.connection_id == 0)) validation_failed

unfoldable pub serialize_handshake : HandshakeMessage → Bytes
serialize_handshake m =
    written (put_u8 m.version ∷ put_u32 m.connection_id ∷ put_text m.capabilities ∷ [])

unfoldable pub read_handshake : Reader HandshakeMessage
read_handshake = do
  version ← read_u8
  connection_id ← read_u32
  capabilities ← read_text
  pure (record { version = version; connection_id = connection_id; capabilities = capabilities })

unfoldable pub deserialize_handshake : Bytes → Result HandshakeMessage
unfolding read_handshake
deserialize_handshake = parse 7 read_handshake

pub record ResyncRequestMessage : Type 0 where
  pub reason : ℕ

unfoldable pub validate_resync_request : ResyncRequestMessage → Result (Unit {0})
validate_resync_request m = guard (leb m.reason 0x04) validation_failed

unfoldable pub serialize_resync_request : ResyncRequestMessage → Bytes
serialize_resync_request m = put_u8 m.reason

unfoldable pub read_resync_request : Reader ResyncRequestMessage
read_resync_request = do reason ← read_u8; pure (record { reason = reason })

unfoldable pub deserialize_resync_request : Bytes → Result ResyncRequestMessage
unfolding read_resync_request
deserialize_resync_request = parse 1 read_resync_request

pub record HeartbeatMessage : Type 0 where
  pub timestamp : ℕ
  pub sequence : ℕ

unfoldable pub serialize_heartbeat : HeartbeatMessage → Bytes
serialize_heartbeat m = written (put_u64 m.timestamp ∷ put_u8 m.sequence ∷ [])

unfoldable pub read_heartbeat : Reader HeartbeatMessage
read_heartbeat = do
  timestamp ← read_u64
  sequence ← read_u8
  pure (record { timestamp = timestamp; sequence = sequence })

unfoldable pub deserialize_heartbeat : Bytes → Result HeartbeatMessage
unfolding read_heartbeat
deserialize_heartbeat = parse 9 read_heartbeat

pub record DisconnectMessage : Type 0 where
  pub reason : ℕ

unfoldable pub validate_disconnect : DisconnectMessage → Result (Unit {0})
validate_disconnect m = guard (leb m.reason 0x03) validation_failed

unfoldable pub serialize_disconnect : DisconnectMessage → Bytes
serialize_disconnect m = put_u8 m.reason

unfoldable pub read_disconnect : Reader DisconnectMessage
read_disconnect = do reason ← read_u8; pure (record { reason = reason })

unfoldable pub deserialize_disconnect : Bytes → Result DisconnectMessage
unfolding read_disconnect
deserialize_disconnect = parse 1 read_disconnect

pub record ErrorMessage : Type 0 where
  pub code : ℕ
  pub message : Bytes

unfoldable pub serialize_error : ErrorMessage → Bytes
serialize_error m = put_u16 m.code ++ put_text m.message

-- `payload[4 : 4+msgLen]`: the end is computed in uint16 and wraps, and an end before the start is a
-- panic.
unfoldable pub slice_from_4 : ℕ → Bytes → Result Bytes
slice_from_4 len payload =
    let end = (4 + len) % 2 ^ 16 in
    if ltb end 4 then err slice_panic else ok (take (end - 4) (drop 4 payload))

error_body : Bytes → (code len : ℕ) → Result ErrorMessage
error_body payload code len =
    if ltb (length payload) (4 + len)
    then err payload_truncated
    else elim (slice_from_4 len payload) [
      | ok text ↦ ok (record { code = code; message = text })
      | err e ↦ err e
    ]

-- The two numbers stand in the first four bytes, which the length check has found to be there.
unfoldable pub deserialize_error : Bytes → Result ErrorMessage
unfolding error_body slice_from_4
deserialize_error (a ∷ b ∷ c ∷ d ∷ rest) =
    error_body (a ∷ b ∷ c ∷ d ∷ rest) (a * 2 ^ 8 + b) (c * 2 ^ 8 + d)
deserialize_error payload = err payload_too_short
