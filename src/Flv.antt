-- ===== src/Flv.antt =====
-- crates/api/src/rtmp/flv.rs: FLV tags as byte lists. A byte is a number below 256; `Bytes` and
-- `&[u8]` are `List ℕ`. Shifted bytes do not overlap, so `|` is written `+`, and an `as u8` cast is
-- `% 256`. Lengths are cast `as u32`, whose wrap is kept.
pub mod Timestamp
pub mod Demux
mod Examples
use shed.Prelude.{
  ltb, leb, if◌then◌else◌, length, get_or, set, All, ℕ, ◌+◌, ◌*◌, ◌/◌, ◌%◌, ◌<◌, Option, none, some,
  List, [], ◌∷◌, ◌++◌,
}

abbrev pub u8 : ℕ → ℕ
u8 n = n % 256

abbrev pub u32 : ℕ → ℕ
u32 n = n % 4294967296

abbrev pub IsBytes : List ℕ → Type 0
IsBytes = All (λ b. b < 256)

abbrev pub flv_tag_audio : ℕ
flv_tag_audio = 8

abbrev pub flv_tag_video : ℕ
flv_tag_video = 9

-- `put_u32`: big endian.
abbrev pub put_u32 : ℕ → List ℕ
put_u32 n = u8 (n / 16777216) ∷ u8 (n / 65536) ∷ u8 (n / 256) ∷ u8 n ∷ []

-- "FLV", the version, the flags, the data offset, and the first previous tag size.
unfoldable pub flv_header : List ℕ
flv_header = (0x46 ∷ 0x4C ∷ 0x56 ∷ []) ++ (1 ∷ 0x05 ∷ []) ++ put_u32 9 ++ put_u32 0

unfoldable pub flv_tag : ℕ → List ℕ → ℕ → List ℕ
flv_tag tag_type bytes timestamp_ms =
    let data_size = u32 (length bytes) in
    let total_tag_size = u32 (11 + data_size) in
    tag_type
    ∷ u8 (data_size / 65536)
    ∷ u8 (data_size / 256)
    ∷ u8 data_size
    ∷ u8 (timestamp_ms / 65536)
    ∷ u8 (timestamp_ms / 256)
    ∷ u8 timestamp_ms
    ∷ u8 (timestamp_ms / 16777216)
    ∷ 0
    ∷ 0
    ∷ 0
    ∷ (bytes ++ put_u32 total_tag_size)

pub flv_audio_tag : List ℕ → ℕ → List ℕ
flv_audio_tag bytes timestamp_ms = flv_tag flv_tag_audio bytes timestamp_ms

pub flv_video_tag : List ℕ → ℕ → List ℕ
flv_video_tag bytes timestamp_ms = flv_tag flv_tag_video bytes timestamp_ms

unfoldable pub read_tag_timestamp : List ℕ → Option ℕ
read_tag_timestamp tag =
    let lower = get_or tag 4 0 * 65536 + get_or tag 5 0 * 256 + get_or tag 6 0 in
    let upper = get_or tag 7 0 * 16777216 in
    if ltb (length tag) 8 then none else some (upper + lower)

unfoldable pub rewrite_tag_timestamp : List ℕ → ℕ → List ℕ
rewrite_tag_timestamp tag new_ts =
    if leb 8 (length tag)
    then set (set (set (set tag 4 (u8 (new_ts / 65536))) 5 (u8 (new_ts / 256))) 6 (u8 new_ts)) 7
        (u8 (new_ts / 16777216))
    else tag
