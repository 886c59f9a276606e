-- ===== src/Protocol/Messages/Announcements/RoundTrip.antt =====
-- Writing and reading ANNOUNCEMENT_UPDATE, with and without its trailing block, of
-- internal/protocol/codec.go.
use df_ai.Base.{
  All, List, [], ap, append-nil, arith, false, length, ltb, map, ok, refl, true, ℕ, ◌&&◌, ◌*◌, ◌++◌,
  ◌<◌, ◌==◌, ◌∷◌, ◌≡◌, ◌≢◌, ◌⊎◌,
}
use df_ai.Protocol.Wire.{
  Bytes, IsI16, IsText, IsU16, IsU32, IsU8, pure, put_u32, read_many, read_u32, write_all,
}
use df_ai.Protocol.Wire.Reads.{
  bind_ok, lengths, parse_ok, read_many-write_all-map, read_u32-put_u32, reads,
}
use df_ai.Protocol.Messages.Announcements.{
  AnnouncementInfo, AnnouncementUpdateMessage, deserialize_announcement_update, read_announcement,
  read_announcement_update, read_repeats, serialize_announcement_update, set_repeats,
  write_announcement, write_repeat,
}

abbrev pub FitsAnnouncement : AnnouncementInfo → Type 0
FitsAnnouncement a =
    IsU32 a.id
    × IsU16 a.type_id
    × IsU8 a.severity
    × IsI16 a.x
    × IsI16 a.y
    × IsI16 a.z
    × IsU32 a.game_year
    × IsU32 a.game_tick
    × IsText a.text
    × IsU32 a.repeat_count

abbrev pub unrepeated : AnnouncementInfo → AnnouncementInfo
unrepeated a = record a { repeat_count = 0 }

read_announcement-write_announcement :
    (a : AnnouncementInfo) (rest : Bytes)
    → FitsAnnouncement a
    → read_announcement (write_announcement a ++ rest) ≡ ok (unrepeated a, rest)
unfolding read_announcement write_announcement
read_announcement-write_announcement a rest h =
    simp (reads, h.0, h.1, h.2, h.3, h.4, h.5, h.6, h.7, h.8)

read_entries :
    (n : ℕ) (l : List AnnouncementInfo) (rest : Bytes)
    → length l ≡ n
    → All FitsAnnouncement l
    → read_many n read_announcement (write_all write_announcement l ++ rest)
      ≡ ok (map unrepeated l, rest)
read_entries n l rest e h = rw (← e) (
    read_many-write_all-map FitsAnnouncement unrepeated write_announcement read_announcement
      read_announcement-write_announcement l rest h)

abbrev repeat_of : AnnouncementInfo → ℕ
repeat_of a = a.repeat_count

read_counts :
    (l : List AnnouncementInfo)
    → All FitsAnnouncement l
    → read_many (length l) read_u32 (write_all write_repeat l ++ []) ≡ ok (map repeat_of l, [])
unfolding write_repeat
read_counts l h =
    read_many-write_all-map FitsAnnouncement repeat_of write_repeat read_u32
      (λ a rest fits. read_u32-put_u32 a.repeat_count rest fits.9) l [] h

length-write_repeats :
    (l : List AnnouncementInfo) → length (write_all write_repeat l) ≡ length l * 4
unfolding write_all write_repeat put_u32
length-write_repeats [] = refl
length-write_repeats (a ∷ l) = omega (arith, length-write_repeats l)

set_repeats-map : (l : List AnnouncementInfo) → set_repeats (map unrepeated l) (map repeat_of l) ≡ l
unfolding set_repeats
set_repeats-map [] = refl
set_repeats-map (a ∷ l) = ap (λ t. a ∷ t) (set_repeats-map l)

repeats_there :
    (n : ℕ) (entries : List AnnouncementInfo) (bs : Bytes) {rs : List ℕ}
    → 0 < n
    → length bs ≡ n * 4
    → read_many n read_u32 bs ≡ ok (rs, [])
    → read_repeats n entries bs ≡ ok (set_repeats entries rs, [])
unfolding read_repeats
repeats_there n entries bs some_entry len e =
    let test : (ltb 0 (n * 4) && length bs == n * 4) ≡ true = ground arith in
    rw test (bind_ok (read_many n read_u32) (λ rs. pure (set_repeats entries rs)) bs e)

-- Bytes of any other number are left alone.
repeats_absent :
    (n : ℕ) (entries : List AnnouncementInfo) (bs : Bytes)
    → (n ≡ 0) ⊎ (length bs ≢ n * 4)
    → read_repeats n entries bs ≡ ok (entries, bs)
unfolding read_repeats
repeats_absent n entries bs other =
    let test : (ltb 0 (n * 4) && length bs == n * 4) ≡ false = ground arith in rw test

read_repeats_lem :
    (l : List AnnouncementInfo)
    → All FitsAnnouncement l
    → read_repeats (length l) (map unrepeated l) (write_all write_repeat l) ≡ ok (l, [])
read_repeats_lem [] h = unfold read_repeats write_all in refl
read_repeats_lem (a ∷ l) h =
    let there =
      repeats_there (length (a ∷ l)) (map unrepeated (a ∷ l)) (write_all write_repeat (a ∷ l))
        (omega arith) (length-write_repeats (a ∷ l)) (rw append-nil at (read_counts (a ∷ l) h)) in
    rw set_repeats-map at there

repeats_n :
    (n : ℕ) (l : List AnnouncementInfo)
    → length l ≡ n
    → All FitsAnnouncement l
    → read_repeats n (map unrepeated l) (write_all write_repeat l) ≡ ok (l, [])
repeats_n n l e h = rw (← e) (read_repeats_lem l h)

abbrev pub FitsAnnouncementUpdate : AnnouncementUpdateMessage → Type 0
FitsAnnouncementUpdate m =
    IsU32 m.count × (length m.announcements ≡ m.count) × All FitsAnnouncement m.announcements

-- An ANNOUNCEMENT_UPDATE with values of their Go types, as many entries as its count, and texts of
-- at most 65535 bytes is read back as it was, with the repeat counts of its trailing block.
pub deserialize_announcement_update-serialize_announcement_update :
    (m : AnnouncementUpdateMessage)
    → FitsAnnouncementUpdate m
    → deserialize_announcement_update (serialize_announcement_update m) ≡ ok m
unfolding deserialize_announcement_update serialize_announcement_update
deserialize_announcement_update-serialize_announcement_update m h =
    parse_ok 4 read_announcement_update (serialize_announcement_update m) {rest = []}
      (simp lengths (omega arith))
      (simp (
        reads,
        append-nil,
        h.0,
        read_entries m.count m.announcements _ h.1 h.2,
        repeats_n m.count m.announcements h.1 h.2,
      ))

-- The entries of an ANNOUNCEMENT_UPDATE with values of their Go types and texts of at most 65535
-- bytes, as many as its count, followed by bytes whose number is not four for each entry, or by any
-- bytes if there is no entry, are read with every repeat count 0.
pub deserialize_announcement_update_legacy :
    (m : AnnouncementUpdateMessage) (rest : Bytes)
    → FitsAnnouncementUpdate m
    → (m.count ≡ 0) ⊎ (length rest ≢ m.count * 4)
    → deserialize_announcement_update
        (put_u32 m.count ++ (write_all write_announcement m.announcements ++ rest))
      ≡ ok (record m { announcements = map unrepeated m.announcements })
unfolding deserialize_announcement_update
deserialize_announcement_update_legacy m rest h other =
    parse_ok 4 read_announcement_update _ {rest = rest} (simp lengths (omega arith)) (
      simp (
        reads,
        h.0,
        read_entries m.count m.announcements rest h.1 h.2,
        repeats_absent m.count (map unrepeated m.announcements) rest other,
      ))
