-- ===== src/Protocol/Messages/Tests.antt =====
-- The theorems on the messages at concrete values.
use df_ai.Protocol.Messages.Entities.{
  EntityInfo, EntityUpdateMessage, ZoneData, deserialize_entity_update, serialize_entity_update,
}
use df_ai.Protocol.Messages.Announcements.{
  AnnouncementInfo, AnnouncementUpdateMessage, deserialize_announcement_update,
  serialize_announcement_update, write_announcement,
}
use df_ai.Protocol.Messages.Announcements.RoundTrip.{
  deserialize_announcement_update-serialize_announcement_update,
  deserialize_announcement_update_legacy, unrepeated,
}
use df_ai.Protocol.Messages.Entities.RoundTrip.{
  deserialize_own_ids, deserialize_entity_update-serialize_entity_update, sent_entity_update,
}
use df_ai.Protocol.Messages.Queries.{CommandAckMessage, QueryResponseMessage, ack_status_partial}
use df_ai.Protocol.Messages.Session.{ErrorMessage, deserialize_error, serialize_error}
use df_ai.Protocol.Messages.Session.ErrorText.{deserialize_error_panics}
use df_ai.Protocol.Messages.Tiles.{TileState}
use df_ai.Protocol.Wire.{Bytes, put_u32, write_all}
use df_ai.Base.{
  [], ap, arith, err, false, inr, length, map, negsuc, ok, pos, refl, slice_panic, some, suc, true,
  zero, ℕ, ◌++◌, ◌∷◌, ◌≡◌,
}

abbrev alive : EntityInfo
alive = record { id = 300; x = pos 4; y = pos 5; z = negsuc 2; kind = 1; subtype = 9; dead = false }

abbrev corpse : EntityInfo
corpse = record { id = 301; x = pos 4; y = pos 6; z = pos 2; kind = 1; subtype = 9; dead = true }

abbrev bedroom : ZoneData
bedroom = record {
  zone_id = 12;
  zone_type = 2;
  x1 = pos 1;
  y1 = pos 2;
  z1 = pos 3;
  x2 = pos 4;
  y2 = pos 5;
  z2 = pos 3;
  owner_unit_id = negsuc 0;
  assigned_units = pos 300 ∷ [];
}

abbrev entities : EntityUpdateMessage
entities = record {
  count = 2;
  entities = alive ∷ corpse ∷ [];
  fort_info = some (record { days_elapsed = 40; created_wealth = 70000; season = 1; year = 250 });
  zones = bedroom ∷ [];
  world = some (record { save_dir = 114 ∷ 49 ∷ []; id1 = 5; id2 = 6 });
}

deserialize_entity_update-serialize_entity_update_example :
    deserialize_entity_update (serialize_entity_update entities ++ (7 ∷ []))
    ≡ ok (sent_entity_update entities)
deserialize_entity_update-serialize_entity_update_example =
    deserialize_entity_update-serialize_entity_update entities (7 ∷ []) (ground arith)

deserialize_own_ids_example :
    deserialize_entity_update (serialize_entity_update entities ++ (7 ∷ [])) ≡ ok entities
deserialize_own_ids_example =
    deserialize_own_ids entities (7 ∷ []) (ground arith) (refl, (refl, tt))

abbrev siege : AnnouncementInfo
siege = record {
  id = 8;
  type_id = 2;
  severity = 3;
  x = pos 1;
  y = pos 1;
  z = pos 1;
  game_year = 250;
  game_tick = 1200;
  text = 65 ∷ 66 ∷ [];
  repeat_count = 2;
}

abbrev news : AnnouncementUpdateMessage
news = record { count = 1; announcements = siege ∷ [] }

deserialize_announcement_update-serialize_announcement_update_example :
    deserialize_announcement_update (serialize_announcement_update news) ≡ ok news
deserialize_announcement_update-serialize_announcement_update_example =
    deserialize_announcement_update-serialize_announcement_update news (ground arith)

deserialize_announcement_update_legacy_example :
    deserialize_announcement_update (put_u32 1 ++ (write_all write_announcement (siege ∷ []) ++ []))
    ≡ ok (record news { announcements = map unrepeated (siege ∷ []) })
deserialize_announcement_update_legacy_example =
    deserialize_announcement_update_legacy news [] (ground arith) (inr (ground arith))

pad : ℕ → Bytes
pad zero = []
pad (suc n) = 33 ∷ pad n

length-pad : (n : ℕ) → length (pad n) ≡ n
unfolding pad
length-pad zero = refl
length-pad (suc n) = ap suc (length-pad n)

abbrev long_error : ErrorMessage
long_error = record { code = 4; message = pad 65533 }

deserialize_error_panics_example :
    deserialize_error (serialize_error long_error ++ []) ≡ err slice_panic
deserialize_error_panics_example =
    deserialize_error_panics long_error [] (omega arith) (omega (arith, length-pad 65533))
      (omega (arith, length-pad 65533))

abbrev tile : TileState
tile = record { x = pos 1; y = pos 2; z = negsuc 9; tile_type = 260; flags = 5 }

abbrev ack : CommandAckMessage
ack = record { command_id = 41; status = ack_status_partial; error_msg = 111 ∷ 107 ∷ [] }

abbrev answer : QueryResponseMessage
answer = record { query_id = 5; status = 0; body = 123 ∷ 125 ∷ [] }
