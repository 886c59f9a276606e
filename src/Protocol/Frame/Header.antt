-- ===== src/Protocol/Frame/Header.antt =====
-- The checks of DeserializeMessage of internal/protocol/codec.go.
use df_ai.Protocol.Frame.{
  Kind, Message, announcement_update, announcement_update_kind, command, command_ack,
  command_ack_kind, command_kind, deserialize_message, deserialize_payload, disconnect,
  disconnect_kind, entity_update, entity_update_kind, error, error_kind, find_kind, full_state,
  full_state_kind, handshake, handshake_kind, heartbeat, heartbeat_kind, kind_byte, kind_of, kinds,
  message_type, query, query_kind, query_response, query_response_kind, resync_request,
  resync_request_kind, tile_update, tile_update_kind, unknown_kind, validate_message, validated,
}
use df_ai.Protocol.Command.Deserialize.{deserialize_command}
use df_ai.Protocol.Messages.Announcements.{deserialize_announcement_update}
use df_ai.Protocol.Messages.Entities.{deserialize_entity_update}
use df_ai.Protocol.Messages.Queries.{
  deserialize_command_ack, deserialize_query, deserialize_query_response,
}
use df_ai.Protocol.Messages.Session.{
  deserialize_disconnect, deserialize_error, deserialize_handshake, deserialize_heartbeat,
  deserialize_resync_request, protocol_version,
}
use df_ai.Protocol.Messages.Tiles.{deserialize_full_state, deserialize_tile_update}
use df_ai.Protocol.Wire.{Bytes, read_u32}
use df_ai.Base.{
  >>=-eq-ok, Bool, List, Result, [], ap, arith, err, false, if◌then◌else◌, inl, inr,
  invalid_message_length, length, not, ok, refl, sym, true, version_mismatch, ℕ, ◌%◌, ◌*◌, ◌+◌,
  ◌==◌, ◌>>=◌, ◌>>◌, ◌^◌, ◌∙◌, ◌∷◌, ◌≡◌, ◌⊎◌,
}

kind_of_wrapped :
    {A : Type 0} (w : Result A) (wrap : A → Message) (k : Kind) (m : Message)
    → ((a : A) → kind_of (wrap a) ≡ k)
    → (w >>= λ a. ok (wrap a)) ≡ ok m
    → kind_of m ≡ k
kind_of_wrapped (ok a) wrap k m same h = let s = same a in cc
kind_of_wrapped (err e) wrap k m same h = cc

deserialize_payload-kind_of :
    (k : Kind) (payload : Bytes) (m : Message)
    → deserialize_payload k payload ≡ ok m
    → kind_of m ≡ k
unfolding deserialize_payload kind_of
deserialize_payload-kind_of handshake_kind payload m h =
    kind_of_wrapped (deserialize_handshake payload) handshake _ m (λ a. refl) h
deserialize_payload-kind_of full_state_kind payload m h =
    kind_of_wrapped (deserialize_full_state payload) full_state _ m (λ a. refl) h
deserialize_payload-kind_of tile_update_kind payload m h =
    kind_of_wrapped (deserialize_tile_update payload) tile_update _ m (λ a. refl) h
deserialize_payload-kind_of resync_request_kind payload m h =
    kind_of_wrapped (deserialize_resync_request payload) resync_request _ m (λ a. refl) h
deserialize_payload-kind_of heartbeat_kind payload m h =
    kind_of_wrapped (deserialize_heartbeat payload) heartbeat _ m (λ a. refl) h
deserialize_payload-kind_of error_kind payload m h =
    kind_of_wrapped (deserialize_error payload) error _ m (λ a. refl) h
deserialize_payload-kind_of disconnect_kind payload m h =
    kind_of_wrapped (deserialize_disconnect payload) disconnect _ m (λ a. refl) h
deserialize_payload-kind_of entity_update_kind payload m h =
    kind_of_wrapped (deserialize_entity_update payload) entity_update _ m (λ a. refl) h
deserialize_payload-kind_of command_kind payload m h =
    kind_of_wrapped (deserialize_command payload) command _ m (λ a. refl) h
deserialize_payload-kind_of command_ack_kind payload m h =
    kind_of_wrapped (deserialize_command_ack payload) command_ack _ m (λ a. refl) h
deserialize_payload-kind_of query_kind payload m h =
    kind_of_wrapped (deserialize_query payload) query _ m (λ a. refl) h
deserialize_payload-kind_of query_response_kind payload m h =
    kind_of_wrapped (deserialize_query_response payload) query_response _ m (λ a. refl) h
deserialize_payload-kind_of announcement_update_kind payload m h =
    kind_of_wrapped (deserialize_announcement_update payload) announcement_update _ m (λ a. refl) h
deserialize_payload-kind_of unknown_kind payload m h = cc

find_kind_byte :
    (ks : List Kind) (b : ℕ) → (find_kind ks b ≡ unknown_kind) ⊎ (kind_byte (find_kind ks b) ≡ b)
unfolding find_kind
find_kind_byte [] b = inl refl
find_kind_byte (k ∷ ks) b = ground (arith, find_kind_byte ks b)

deserialize_payload-message_type :
    (b : ℕ) (payload : Bytes) (m : Message)
    → deserialize_payload (find_kind kinds b) payload ≡ ok m
    → message_type m ≡ b
unfolding deserialize_payload message_type
deserialize_payload-message_type b payload m h = elim (find_kind_byte kinds b) [
  | inl unknown ↦ let h' : deserialize_payload unknown_kind payload ≡ ok m = rw unknown at h in cc
  | inr byte ↦ ap kind_byte (deserialize_payload-kind_of (find_kind kinds b) payload m h) ∙ byte
]

checked : (u : Result (Unit {0})) (a m : Message) → (u >> ok a) ≡ ok m → (a ≡ m) × (u ≡ ok tt)
checked (ok tt) a m h = (cc, refl)
checked (err e) a m h = cc

validated_ok :
    (w : Result Message) (m : Message)
    → (w >>= validated) ≡ ok m
    → (w ≡ ok m) × (validate_message m ≡ ok tt)
validated_ok w m h =
    let (a, e, f) = >>=-eq-ok w validated h in
    let (same, valid) = checked (validate_message a) a m f in
    (e ∙ ap ok same, ap validate_message (sym same) ∙ valid)

both_tests :
    (length_ok version_ok : Bool) (w : Result Message) (m : Message)
    → (if not length_ok
        then err invalid_message_length
        else if not version_ok
        then err version_mismatch
        else w)
      ≡ ok m
    → (length_ok ≡ true) × (version_ok ≡ true) × (w ≡ ok m)
both_tests true true w m h = (refl, refl, h)
both_tests true false w m h = cc
both_tests false version_ok w m h = cc

eq_of_test : (a b : ℕ) → (a == b) ≡ true → a ≡ b
eq_of_test a b h = ground arith

-- The bytes of a message that DeserializeMessage accepts begin with a header that holds their
-- number modulo 2 ^ 32, the version of the protocol and the type of the message, and the message is
-- valid.
pub deserialize_message_checks :
    (bs : Bytes) (m : Message)
    → deserialize_message bs ≡ ok m
    → (payload : Bytes) × (read_u32 bs
        ≡ ok (length bs % 2 ^ 32, protocol_version ∷ message_type m ∷ payload))
      × (validate_message m ≡ ok tt)
unfolding deserialize_message read_u32
deserialize_message_checks (a ∷ b ∷ c ∷ d ∷ version ∷ type ∷ payload) m h =
    let (l, v, w) =
      both_tests ((6 + length payload) % 2 ^ 32 == a * 2 ^ 24 + b * 2 ^ 16 + c * 2 ^ 8 + d)
        (version == protocol_version)
        (deserialize_payload (find_kind kinds type) payload >>= validated) m h in
    let (e, valid) = validated_ok (deserialize_payload (find_kind kinds type) payload) m w in
    let len = eq_of_test _ _ l in
    (
      payload,
      rw
          (
            ← eq_of_test version protocol_version v,
            ← deserialize_payload-message_type type payload m e,
          )
          (ap (λ n. ok (n, version ∷ message_type m ∷ payload)) (omega (arith, len))),
      valid,
    )
deserialize_message_checks other m h = cc
