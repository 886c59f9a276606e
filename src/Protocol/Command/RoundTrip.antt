-- ===== src/Protocol/Command/RoundTrip.antt =====
-- serializeCommand and deserializeCommand of internal/protocol/codec.go, one after the other.
use df_ai.Protocol.Wire.{Bytes, IsU32, IsU8, put_u32, put_u8}
use df_ai.Protocol.Wire.Reads.{reads}
use df_ai.Base.{Result, arith, err, false, length, ltb, ok, ℕ, ◌++◌, ◌>>=◌, ◌≡◌}
use df_ai.Protocol.Command.Types.{command_type_of}
use df_ai.Protocol.Command.Message.{CommandMessage, zero_command}
use df_ai.Protocol.Command.Carry.{FitsPayload, carry}
use df_ai.Protocol.Command.Serialize.{serialize_command, write_payload}
use df_ai.Protocol.Command.Payload.{payload_lem}
use df_ai.Protocol.Command.Deserialize.{deserialize_command, read_command, read_payload}

-- A message with the same id and type, and nothing else.
abbrev pub blank : CommandMessage → CommandMessage
blank m = record zero_command { command_id = m.command_id; command_type = m.command_type }

-- What the receiver gets.
abbrev pub sent_command : CommandMessage → CommandMessage
sent_command m = carry (command_type_of m.command_type) m (blank m)

abbrev pub FitsCommand : CommandMessage → Type 0
FitsCommand m =
    IsU32 m.command_id × IsU8 m.command_type × FitsPayload (command_type_of m.command_type) m

header_long :
    (id t : ℕ) (payload rest : Bytes)
    → ltb (length ((put_u32 id ++ (put_u8 t ++ payload)) ++ rest)) 5 ≡ false
unfolding put_u32 put_u8
header_long id t payload rest = ground arith

read_command_header :
    (id t : ℕ) (payload rest : Bytes)
    → IsU32 id
    → IsU8 t
    → read_command ((put_u32 id ++ (put_u8 t ++ payload)) ++ rest)
      ≡ read_payload
          (command_type_of t)
          (record zero_command { command_id = id; command_type = t })
          (payload ++ rest)
unfolding read_command
read_command_header id t payload rest hi ht = simp (reads, hi, ht)

-- With any payload that reads back, so does the message.
whole :
    (m : CommandMessage) (rest : Bytes) (w : Result Bytes) {sent : CommandMessage}
    → IsU32 m.command_id
    → IsU8 m.command_type
    → (w >>= λ bs. read_payload (command_type_of m.command_type) (blank m) (bs ++ rest))
      ≡ ok (sent, rest)
    → ((w >>= λ p. ok (put_u32 m.command_id ++ (put_u8 m.command_type ++ p))) >>= λ bs.
        deserialize_command (bs ++ rest))
      ≡ ok sent
unfolding deserialize_command
whole m rest (ok p) hi ht e =
    rw (header_long m.command_id m.command_type p rest)
      (rw (read_command_header m.command_id m.command_type p rest hi ht) (rw e))
whole m rest (err x) hi ht e = cc

-- A command of a known type, with values of their Go types and names within their limits, is
-- serialized, and deserializeCommand returns its id, its type and the fields that its type sends,
-- all other fields zero, whatever bytes follow.
pub deserialize_command-serialize_command :
    (m : CommandMessage) (rest : Bytes)
    → FitsCommand m
    → (serialize_command m >>= λ bs. deserialize_command (bs ++ rest)) ≡ ok (sent_command m)
unfolding serialize_command
deserialize_command-serialize_command m rest h =
    let t = command_type_of m.command_type in
    whole m rest (write_payload t m) h.0 h.1 (payload_lem t m (blank m) rest h.2)
