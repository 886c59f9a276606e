-- ===== src/Protocol/Frame/RoundTrip.antt =====
-- SerializeMessage and DeserializeMessage of internal/protocol/codec.go, one after the other.
use df_ai.Protocol.Frame.{
  Message, announcement_update, command, command_ack, deserialize_message, deserialize_payload,
  disconnect, entity_update, error, fill_in_length, find_kind, full_state, handshake, heartbeat,
  kind_byte, kind_of, kinds, message_type, query, query_response, resync_request, serialize_message,
  serialize_payload, tile_update, validate_message, validated,
}
use df_ai.Protocol.Command.Deserialize.{deserialize_command}
use df_ai.Protocol.Command.RoundTrip.{
  FitsCommand, deserialize_command-serialize_command, sent_command,
}
use df_ai.Protocol.Command.Serialize.{serialize_command}
use df_ai.Protocol.Command.Validate.Sent.{validate_command-sent_command}
use df_ai.Protocol.Messages.Announcements.RoundTrip.{
  FitsAnnouncementUpdate, deserialize_announcement_update-serialize_announcement_update,
}
use df_ai.Protocol.Messages.Entities.{
  EntityUpdateMessage, deserialize_entity_update, validate_entity_update,
}
use df_ai.Protocol.Messages.Entities.RoundTrip.{
  FitsEntityUpdate, deserialize_entity_update-serialize_entity_update, sent_entity_update,
}
use df_ai.Protocol.Messages.Queries.{
  deserialize_command_ack, deserialize_query, deserialize_query_response, serialize_command_ack,
}
use df_ai.Protocol.Messages.Queries.RoundTrip.{
  FitsCommandAck, deserialize_command_ack-serialize_command_ack, deserialize_query-serialize_query,
  deserialize_query_response-serialize_query_response,
}
use df_ai.Protocol.Messages.Session.{
  deserialize_disconnect, deserialize_error, deserialize_handshake, deserialize_heartbeat,
  deserialize_resync_request, protocol_version,
}
use df_ai.Protocol.Messages.Session.ErrorText.{deserialize_error-serialize_error}
use df_ai.Protocol.Messages.Session.RoundTrip.{
  FitsHandshake, deserialize_disconnect-serialize_disconnect,
  deserialize_handshake-serialize_handshake, deserialize_heartbeat-serialize_heartbeat,
  deserialize_resync_request-serialize_resync_request,
}
use df_ai.Protocol.Messages.Tiles.{
  deserialize_full_state, deserialize_tile_update, validate_full_state,
}
use df_ai.Protocol.Messages.Tiles.RoundTrip.{
  FitsFullState, FitsTileUpdate, deserialize_full_state-serialize_full_state,
  deserialize_tile_update-serialize_tile_update,
}
use df_ai.Protocol.Wire.{Bytes, IsText, IsU16, IsU32, IsU64, IsU8, put_u32, put_u8}
use df_ai.Base.{
  >>=-eq-ok, Result, [], ap, append-nil, arith, err, length, length-map, ok, refl, suc, true, ℕ,
  ◌%◌, ◌*◌, ◌++◌, ◌+◌, ◌/◌, ◌==◌, ◌>>=◌, ◌^◌, ◌∙◌, ◌∷◌, ◌≡◌, ◌≤◌,
}

-- What the receiver gets.
abbrev pub sent_message : Message → Message
sent_message (full_state m) = full_state (record m { is_soil_layer = [] })
sent_message (entity_update m) = entity_update (sent_entity_update m)
sent_message (command m) = command (sent_command m)
sent_message other = other

-- The fields hold values of their Go types, and texts are not longer than their length fields count.
abbrev pub FitsMessage : Message → Type 0
FitsMessage (handshake m) = FitsHandshake m
FitsMessage (full_state m) = FitsFullState m
FitsMessage (tile_update m) = FitsTileUpdate m
FitsMessage (resync_request m) = IsU8 m.reason
FitsMessage (heartbeat m) = IsU64 m.timestamp × IsU8 m.sequence
FitsMessage (error m) = IsU16 m.code × (length m.message ≤ 65531)
FitsMessage (disconnect m) = IsU8 m.reason
FitsMessage (entity_update m) = FitsEntityUpdate m
FitsMessage (command m) = FitsCommand m
FitsMessage (command_ack m) = FitsCommandAck m
FitsMessage (query m) = IsU32 m.query_id × IsText m.name × IsText m.args
FitsMessage (query_response m) = IsU32 m.query_id × IsU8 m.status × IsU32 (length m.body)
FitsMessage (announcement_update m) = FitsAnnouncementUpdate m

-- A payload that reads back with nothing after it, wrapped in its constructor.
wrapped :
    {A : Type 0} (deserialize : Bytes → Result A) (wrap : A → Message) (bs : Bytes) {a : A}
    → deserialize (bs ++ []) ≡ ok a
    → (deserialize bs >>= λ m. ok (wrap m)) ≡ ok (wrap a)
wrapped deserialize wrap bs e = let e' = rw (append-nil bs) at e in rw e' refl

wrapped_result :
    {A : Type 0} (deserialize : Bytes → Result A) (wrap : A → Message) (w : Result Bytes) {a : A}
    → (w >>= λ bs. deserialize (bs ++ [])) ≡ ok a
    → (w >>= λ bs. deserialize bs >>= λ m. ok (wrap m)) ≡ ok (wrap a)
wrapped_result deserialize wrap (ok bs) e = wrapped deserialize wrap bs e
wrapped_result deserialize wrap (err x) e = cc

deserialize_payload-serialize_payload :
    (m : Message)
    → FitsMessage m
    → (serialize_payload m >>= deserialize_payload (kind_of m)) ≡ ok (sent_message m)
unfolding serialize_payload deserialize_payload kind_of
deserialize_payload-serialize_payload (handshake m) h =
    wrapped deserialize_handshake handshake _ (deserialize_handshake-serialize_handshake m [] h)
deserialize_payload-serialize_payload (full_state m) h =
    wrapped deserialize_full_state full_state _ (deserialize_full_state-serialize_full_state m [] h)
deserialize_payload-serialize_payload (tile_update m) h =
    wrapped deserialize_tile_update tile_update _
      (deserialize_tile_update-serialize_tile_update m [] h)
deserialize_payload-serialize_payload (resync_request m) h =
    wrapped deserialize_resync_request resync_request _
      (deserialize_resync_request-serialize_resync_request m [] h)
deserialize_payload-serialize_payload (heartbeat m) h =
    wrapped deserialize_heartbeat heartbeat _ (deserialize_heartbeat-serialize_heartbeat m [] h)
deserialize_payload-serialize_payload (error m) h =
    wrapped deserialize_error error _ (deserialize_error-serialize_error m [] h.0 h.1)
deserialize_payload-serialize_payload (disconnect m) h =
    wrapped deserialize_disconnect disconnect _ (deserialize_disconnect-serialize_disconnect m [] h)
deserialize_payload-serialize_payload (entity_update m) h =
    wrapped deserialize_entity_update entity_update _
      (deserialize_entity_update-serialize_entity_update m [] h)
deserialize_payload-serialize_payload (command m) h =
    wrapped_result deserialize_command command (serialize_command m)
      (deserialize_command-serialize_command m [] h)
deserialize_payload-serialize_payload (command_ack m) h =
    wrapped_result deserialize_command_ack command_ack (serialize_command_ack m)
      (deserialize_command_ack-serialize_command_ack m [] h)
deserialize_payload-serialize_payload (query m) h =
    wrapped deserialize_query query _ (deserialize_query-serialize_query m [] h)
deserialize_payload-serialize_payload (query_response m) h =
    wrapped deserialize_query_response query_response _
      (deserialize_query_response-serialize_query_response m [] h)
deserialize_payload-serialize_payload (announcement_update m) h =
    rw (deserialize_announcement_update-serialize_announcement_update m h) refl

validate_entity_update-sent :
    (m : EntityUpdateMessage)
    → validate_entity_update m ≡ ok tt
    → validate_entity_update (sent_entity_update m) ≡ ok tt
unfolding validate_entity_update
validate_entity_update-sent m h = rw (length-map, length-map) h

validate_message-sent_message :
    (m : Message) → validate_message m ≡ ok tt → validate_message (sent_message m) ≡ ok tt
unfolding validate_message validate_full_state
validate_message-sent_message (full_state m) h = h
validate_message-sent_message (entity_update m) h = validate_entity_update-sent m h
validate_message-sent_message (command m) h = validate_command-sent_command m h
validate_message-sent_message other h = h

-- The thirteen types have a case each.
find_kind_of : (m : Message) → find_kind kinds (message_type m % 256) ≡ kind_of m
unfolding find_kind message_type kind_byte kind_of
find_kind_of (handshake m) = refl
find_kind_of other = refl

pub big_endian :
    (n : ℕ)
    → n / 2 ^ 24 % 256 * 2 ^ 24 + n / 2 ^ 16 % 256 * 2 ^ 16 + n / 2 ^ 8 % 256 * 2 ^ 8 + n % 256
      ≡ n % 2 ^ 32
big_endian n = omega arith

self_eq : (n : ℕ) → (n == n) ≡ true
self_eq n = ground arith

unfoldable pub frame : Message → Bytes → Bytes
unfolding message_type
frame m payload =
    fill_in_length (put_u32 0 ++ (put_u8 protocol_version ++ (put_u8 (message_type m) ++ payload)))

deserialize_message_header :
    (n type : ℕ) (payload : Bytes)
    → n ≡ 6 + length payload
    → deserialize_message (
        n / 2 ^ 24 % 256
        ∷ n / 2 ^ 16 % 256
        ∷ n / 2 ^ 8 % 256
        ∷ n % 256
        ∷ protocol_version
        ∷ type
        ∷ payload)
      ≡ (deserialize_payload (find_kind kinds type) payload >>= validated)
unfolding deserialize_message
deserialize_message_header n type payload e = rw (← e) (rw (big_endian n, self_eq) refl)

deserialize_message-frame :
    (m : Message) (payload : Bytes)
    → deserialize_message (frame m payload)
      ≡ (deserialize_payload (kind_of m) payload >>= validated)
unfolding frame fill_in_length put_u32 put_u8
deserialize_message-frame m payload =
    deserialize_message_header (suc (suc (suc (suc (suc (suc (length payload)))))))
      (message_type m % 256) payload (omega arith)
    ∙ ap (λ k. deserialize_payload k payload >>= validated) (find_kind_of m)

valid_payload :
    (m sent : Message) (w : Result Bytes)
    → (w >>= deserialize_payload (kind_of m)) ≡ ok sent
    → validate_message sent ≡ ok tt
    → (w >>= (λ payload. ok (frame m payload)) >>= deserialize_message) ≡ ok sent
valid_payload m sent (ok bs) e v = rw (deserialize_message-frame m bs, e, v) refl
valid_payload m sent (err x) e v = cc

pub serialize_message-frame :
    (m : Message) (bs : Bytes)
    → serialize_message m ≡ ok bs
    → (payload : Bytes) × (bs ≡ frame m payload)
unfolding serialize_message frame
serialize_message-frame m bs h =
    let (valid, v, e) = >>=-eq-ok (validate_message m) _ h in
    let (payload, w, f) = >>=-eq-ok (serialize_payload m) _ e in (payload, cc)

-- A message of any of the 13 types that is valid, whose fields hold values of their Go types, whose
-- lists are as long as their counts or dimensions say, and that keeps these limits: a text has at
-- most 65535 bytes, that of an ERROR 65531, those of a command and its list of labor ids 255, the
-- body of a QUERY_RESPONSE fewer than 2 ^ 32, and an ENTITY_UPDATE has fewer than 2 ^ 32 zones with
-- at most 65535 assigned units each, is serialized, and DeserializeMessage accepts the bytes and
-- gives the message with the fields that its type sends.
pub deserialize_message-serialize_message :
    (m : Message)
    → FitsMessage m
    → validate_message m ≡ ok tt
    → (serialize_message m >>= deserialize_message) ≡ ok (sent_message m)
unfolding serialize_message frame
deserialize_message-serialize_message m h v = rw v (
    valid_payload m (sent_message m) (serialize_payload m)
      (deserialize_payload-serialize_payload m h) (validate_message-sent_message m v))
