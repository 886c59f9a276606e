-- ===== src/Protocol/Messages/Entities/RoundTrip.antt =====
-- serializeEntityUpdate and deserializeEntityUpdate of internal/protocol/codec.go, one after the
-- other.
use mathlib.Core.Option
use mathlib.Core.Path.{ap, sym, ◌∙◌}
use df_ai.Base.{
  All, Bool, Bool-cases, List, Option, [], ap, arith, false, if◌then◌else◌, inl, inr, length, map,
  none, ok, refl, some, sym, true, ℕ, ◌++◌, ◌∙◌, ◌∷◌, ◌≡◌, ◌≤◌,
}
use df_ai.Protocol.Wire.{Bytes, IsU32}
use df_ai.Protocol.Wire.Reads.{lengths, parse_ok, reads}
use df_ai.Protocol.Messages.Entities.{
  EntityInfo, EntityUpdateMessage, FortInfo, ZoneData, dead_ids, deserialize_entity_update, is_in,
  mark, read_block, read_dead, read_entity_update, read_fort_info, read_world, read_zones,
  serialize_entity_update, write_block, write_dead, write_fort_info, write_world, write_zones,
}
use df_ai.Protocol.Messages.Entities.Blocks.{
  FitsEntity, FitsFortInfo, FitsWorld, FitsZoneData, OnSome, cut, flat, read_block-write_block,
  read_dead-write_dead, read_entities, read_fort_info-write_fort_info, read_world-write_world,
  read_zones-write_zones, undead,
}

abbrev pub FitsEntityUpdate : EntityUpdateMessage → Type 0
FitsEntityUpdate m =
    IsU32 m.count
    × (length m.entities ≡ m.count)
    × All FitsEntity m.entities
    × OnSome FitsFortInfo m.fort_info
    × IsU32 (length m.zones)
    × All FitsZoneData m.zones
    × OnSome FitsWorld m.world

-- What the receiver gets.
abbrev pub sent_entity_update : EntityUpdateMessage → EntityUpdateMessage
sent_entity_update m = record m {
  entities = map (mark (dead_ids m.entities)) (map undead m.entities);
  zones = map flat m.zones;
  world = Option.map cut m.world;
}

length-dead_ids-le : (es : List EntityInfo) → length (dead_ids es) ≤ length es
unfolding dead_ids
length-dead_ids-le [] = omega arith
length-dead_ids-le (e ∷ es) = ground (arith, length-dead_ids-le es)

dead_ids-All : (es : List EntityInfo) → All FitsEntity es → All IsU32 (dead_ids es)
unfolding dead_ids
dead_ids-All [] h = tt
dead_ids-All (e ∷ es) h = ground (arith, dead_ids-All es)

map-id : {A : Type 0} (o : Option A) → Option.map (λ a. a) o ≡ o
map-id none = refl
map-id (some a) = refl

read_fort_block :
    (o : Option FortInfo) (rest : Bytes)
    → OnSome FitsFortInfo o
    → read_block read_fort_info (write_block write_fort_info o ++ rest) ≡ ok (o, rest)
read_fort_block o rest h =
    read_block-write_block FitsFortInfo (λ a. a) write_fort_info read_fort_info
      read_fort_info-write_fort_info o rest h
    ∙ ap (λ m. ok (m, rest)) (map-id o)

read_zones_block :
    (zs : List ZoneData) (rest : Bytes)
    → IsU32 (length zs)
    → All FitsZoneData zs
    → read_block read_zones (write_block write_zones (some zs) ++ rest)
      ≡ ok (some (map flat zs), rest)
read_zones_block zs rest n h =
    read_block-write_block (λ zs. IsU32 (length zs) × All FitsZoneData zs) (map flat) write_zones
      read_zones read_zones-write_zones (some zs) rest (n, h)

read_dead_block :
    (m : EntityUpdateMessage) (rest : Bytes)
    → FitsEntityUpdate m
    → read_block read_dead (write_block write_dead (some (dead_ids m.entities)) ++ rest)
      ≡ ok (some (dead_ids m.entities), rest)
read_dead_block m rest h =
    let fewer = length-dead_ids-le m.entities in
    let count = h.0 in
    let full = h.1 in
    read_block-write_block (λ ids. IsU32 (length ids) × All IsU32 ids) (λ ids. ids) write_dead
      read_dead read_dead-write_dead (some (dead_ids m.entities)) rest
      (omega arith, dead_ids-All m.entities h.2)

-- An ENTITY_UPDATE with values of their Go types, as many units as its count, and fewer than 2 ^ 32
-- zones with at most 65535 assigned units each is read back, whatever bytes follow, with the units
-- of the ids of dead ones dead, each zone on the one level that is sent for it, and the directory
-- name cut to 65535 bytes.
pub deserialize_entity_update-serialize_entity_update :
    (m : EntityUpdateMessage) (rest : Bytes)
    → FitsEntityUpdate m
    → deserialize_entity_update (serialize_entity_update m ++ rest) ≡ ok (sent_entity_update m)
unfolding deserialize_entity_update serialize_entity_update
deserialize_entity_update-serialize_entity_update m rest h =
    parse_ok 4 read_entity_update (serialize_entity_update m ++ rest) {rest = rest}
      (simp lengths (omega arith))
      (simp (
        reads,
        h.0,
        read_entities m.count m.entities _ h.1 h.2,
        read_fort_block m.fort_info _ h.3,
        read_zones_block m.zones _ h.4 h.5,
        read_dead_block m _ h,
        read_block-write_block FitsWorld cut write_world read_world read_world-write_world m.world
            rest h.6,
      ))

abbrev pub Distinct : List EntityInfo → Type 0
Distinct [] = Unit {0}
Distinct (e ∷ es) = (is_in e.id (map EntityInfo.id es) ≡ false) × Distinct es

is_in-dead_ids :
    (id : ℕ) (es : List EntityInfo)
    → is_in id (map EntityInfo.id es) ≡ false
    → is_in id (dead_ids es) ≡ false
unfolding dead_ids
is_in-dead_ids id [] h = refl
is_in-dead_ids id (e ∷ es) h = ground (arith, is_in-dead_ids id es)

HasFlags : List ℕ → List EntityInfo → Type 0
HasFlags ids es = All (λ e. is_in e.id ids ≡ e.dead) es

HasFlags-∷ :
    (id : ℕ) (ids : List ℕ) (es : List EntityInfo)
    → is_in id (map EntityInfo.id es) ≡ false
    → HasFlags ids es
    → HasFlags (id ∷ ids) es
unfolding HasFlags
HasFlags-∷ id ids [] n h = tt
HasFlags-∷ id ids (e ∷ es) n h = ground (arith, HasFlags-∷ id ids es)

marked_head :
    (e : EntityInfo) (ids : List ℕ)
    → is_in e.id ids ≡ false
    → is_in e.id (if e.dead then e.id ∷ ids else ids) ≡ e.dead
marked_head e ids h = ground arith

marked_tail :
    (b : Bool) (id : ℕ) (ids : List ℕ) (es : List EntityInfo)
    → is_in id (map EntityInfo.id es) ≡ false
    → HasFlags ids es
    → HasFlags (if b then id ∷ ids else ids) es
marked_tail true id ids es n h = HasFlags-∷ id ids es n h
marked_tail false id ids es n h = h

dead_ids-HasFlags : (es : List EntityInfo) → Distinct es → HasFlags (dead_ids es) es
unfolding HasFlags dead_ids
dead_ids-HasFlags [] h = tt
dead_ids-HasFlags (e ∷ es) h = (
  marked_head e (dead_ids es) (is_in-dead_ids e.id es h.0),
  marked_tail e.dead e.id (dead_ids es) es h.0 (dead_ids-HasFlags es h.1),
)

mark-undead : (ids : List ℕ) (e : EntityInfo) → is_in e.id ids ≡ e.dead → mark ids (undead e) ≡ e
mark-undead ids e h = elim (Bool-cases e.dead) [
  | inl d ↦ rw (h ∙ d) (λ i. record e { dead = sym d i })
  | inr a ↦ rw (h ∙ a) (λ i. record e { dead = sym a i })
]

map-mark-undead :
    (ids : List ℕ) (es : List EntityInfo) → HasFlags ids es → map (mark ids) (map undead es) ≡ es
unfolding HasFlags
map-mark-undead ids [] h = refl
map-mark-undead ids (e ∷ es) h =
    rw (mark-undead ids e h.0) (ap (λ l. e ∷ l) (map-mark-undead ids es h.1))

-- An ENTITY_UPDATE with values of their Go types, as many units as its count, no two of them with
-- the same id, and fewer than 2 ^ 32 zones with at most 65535 assigned units each is read back,
-- whatever bytes follow, as it was, its dead units included, but for the level of its zones, each
-- of which is on the one that is sent for it, and the directory name, which is cut to 65535 bytes.
pub deserialize_own_ids :
    (m : EntityUpdateMessage) (rest : Bytes)
    → FitsEntityUpdate m
    → Distinct m.entities
    → deserialize_entity_update (serialize_entity_update m ++ rest)
      ≡ ok (record m { zones = map flat m.zones; world = Option.map cut m.world })
deserialize_own_ids m rest h distinct =
    deserialize_entity_update-serialize_entity_update m rest h
    ∙ ap
        (λ es.
          ok (record m { entities = es; zones = map flat m.zones; world = Option.map cut m.world }))
        (map-mark-undead (dead_ids m.entities) m.entities (dead_ids-HasFlags m.entities distinct))
