-- ===== src/Protocol/Messages/Session/RoundTrip.antt =====
-- Writing and reading HANDSHAKE, RESYNC_REQUEST, HEARTBEAT and DISCONNECT, of
-- internal/protocol/codec.go.
use df_ai.Base.{arith, ok, ◌++◌, ◌≡◌}
use df_ai.Protocol.Wire.{Bytes, IsText, IsU32, IsU64, IsU8}
use df_ai.Protocol.Wire.Reads.{lengths, parse_ok, reads}
use df_ai.Protocol.Messages.Session.{
  DisconnectMessage, HandshakeMessage, HeartbeatMessage, ResyncRequestMessage,
  deserialize_disconnect, deserialize_handshake, deserialize_heartbeat, deserialize_resync_request,
  read_disconnect, read_handshake, read_heartbeat, read_resync_request, serialize_disconnect,
  serialize_handshake, serialize_heartbeat, serialize_resync_request,
}

abbrev pub FitsHandshake : HandshakeMessage → Type 0
FitsHandshake m = IsU8 m.version × IsU32 m.connection_id × IsText m.capabilities

pub deserialize_handshake-serialize_handshake :
    (m : HandshakeMessage) (rest : Bytes)
    → FitsHandshake m
    → deserialize_handshake (serialize_handshake m ++ rest) ≡ ok m
unfolding deserialize_handshake serialize_handshake
deserialize_handshake-serialize_handshake m rest h =
    parse_ok 7 read_handshake (serialize_handshake m ++ rest) {rest = rest}
      (simp lengths (omega arith)) (simp (reads, h.0, h.1, h.2))

pub deserialize_resync_request-serialize_resync_request :
    (m : ResyncRequestMessage) (rest : Bytes)
    → IsU8 m.reason
    → deserialize_resync_request (serialize_resync_request m ++ rest) ≡ ok m
unfolding deserialize_resync_request serialize_resync_request
deserialize_resync_request-serialize_resync_request m rest h =
    parse_ok 1 read_resync_request (serialize_resync_request m ++ rest) {rest = rest}
      (simp lengths (omega arith)) (simp (reads, h))

pub deserialize_heartbeat-serialize_heartbeat :
    (m : HeartbeatMessage) (rest : Bytes)
    → IsU64 m.timestamp × IsU8 m.sequence
    → deserialize_heartbeat (serialize_heartbeat m ++ rest) ≡ ok m
unfolding deserialize_heartbeat serialize_heartbeat
deserialize_heartbeat-serialize_heartbeat m rest h =
    parse_ok 9 read_heartbeat (serialize_heartbeat m ++ rest) {rest = rest}
      (simp lengths (omega arith)) (simp (reads, h.0, h.1))

pub deserialize_disconnect-serialize_disconnect :
    (m : DisconnectMessage) (rest : Bytes)
    → IsU8 m.reason
    → deserialize_disconnect (serialize_disconnect m ++ rest) ≡ ok m
unfolding deserialize_disconnect serialize_disconnect
deserialize_disconnect-serialize_disconnect m rest h =
    parse_ok 1 read_disconnect (serialize_disconnect m ++ rest) {rest = rest}
      (simp lengths (omega arith)) (simp (reads, h))
