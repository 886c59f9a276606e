-- ===== src/Protocol/Messages/Announcements.antt =====
-- ANNOUNCEMENT_UPDATE, of internal/protocol/message.go and internal/protocol/codec.go: the entries,
-- and behind them a block of repeat counts that an older plugin does not send.
pub mod RoundTrip
use df_ai.Base.{
  Bool, List, Result, [], guard, if◌then◌else◌, leb, length, ltb, ok, true, validation_failed, ℕ, ℤ,
  ◌%◌, ◌&&◌, ◌*◌, ◌==◌, ◌>>◌, ◌^◌, ◌∷◌,
}
use df_ai.Protocol.Wire.{
  Bytes, Reader, parse, pure, put_i16, put_text, put_u16, put_u32, put_u8, read_i16, read_many,
  read_text, read_u16, read_u32, read_u8, write_all, written, ◌>>=◌,
}

pub record AnnouncementInfo : Type 0 where
  pub id : ℕ
  pub type_id : ℕ
  pub severity : ℕ
  pub x : ℤ
  pub y : ℤ
  pub z : ℤ
  pub game_year : ℕ
  pub game_tick : ℕ
  pub text : Bytes
  pub repeat_count : ℕ

pub record AnnouncementUpdateMessage : Type 0 where
  pub count : ℕ
  pub announcements : List AnnouncementInfo

texts_fit : List AnnouncementInfo → Bool
texts_fit [] = true
texts_fit (a ∷ rest) = leb (length a.text) 4096 && texts_fit rest

unfoldable pub validate_announcement_update : AnnouncementUpdateMessage → Result (Unit {0})
unfolding texts_fit
validate_announcement_update m =
    guard (length m.announcements % 2 ^ 32 == m.count) validation_failed
    >> guard (texts_fit m.announcements) validation_failed

unfoldable pub write_announcement : AnnouncementInfo → Bytes
write_announcement a = written (
    put_u32 a.id
    ∷ put_u16 a.type_id
    ∷ put_u8 a.severity
    ∷ put_i16 a.x
    ∷ put_i16 a.y
    ∷ put_i16 a.z
    ∷ put_u32 a.game_year
    ∷ put_u32 a.game_tick
    ∷ put_text a.text
    ∷ [])

-- The repeat count stays 0 until the trailing block is read.
unfoldable pub read_announcement : Reader AnnouncementInfo
read_announcement = do
  id ← read_u32
  type_id ← read_u16
  severity ← read_u8
  x ← read_i16
  y ← read_i16
  z ← read_i16
  game_year ← read_u32
  game_tick ← read_u32
  text ← read_text
  pure (record {
    id = id;
    type_id = type_id;
    severity = severity;
    x = x;
    y = y;
    z = z;
    game_year = game_year;
    game_tick = game_tick;
    text = text;
    repeat_count = 0;
  })

unfoldable pub write_repeat : AnnouncementInfo → Bytes
write_repeat a = put_u32 a.repeat_count

unfoldable pub serialize_announcement_update : AnnouncementUpdateMessage → Bytes
serialize_announcement_update m = written (
    put_u32 m.count
    ∷ write_all write_announcement m.announcements
    ∷ write_all write_repeat m.announcements
    ∷ [])

unfoldable pub set_repeats : List AnnouncementInfo → List ℕ → List AnnouncementInfo
set_repeats (a ∷ rest) (r ∷ rs) = record a { repeat_count = r } ∷ set_repeats rest rs
set_repeats entries rs = entries

-- The block is read only if it is exactly as long as the entries ask for.
unfoldable pub read_repeats : ℕ → List AnnouncementInfo → Reader (List AnnouncementInfo)
read_repeats count entries bs =
    if ltb 0 (count * 4) && length bs == count * 4
    then (read_many count read_u32 >>= λ rs. pure (set_repeats entries rs)) bs
    else ok (entries, bs)

unfoldable pub read_announcement_update : Reader AnnouncementUpdateMessage
read_announcement_update = do
  count ← read_u32
  entries ← read_many count read_announcement
  announcements ← read_repeats count entries
  pure (record { count = count; announcements = announcements })

unfoldable pub deserialize_announcement_update : Bytes → Result AnnouncementUpdateMessage
unfolding read_announcement_update
deserialize_announcement_update = parse 4 read_announcement_update
