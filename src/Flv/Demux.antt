-- ===== src/Flv/Demux.antt =====
-- The tag loop that every ffmpeg reader runs (crates/api/src/srt.rs, `read_flv_output`, and its
-- copies): 13 header bytes, then 11 + size + 4 bytes for each tag, until the stream ends. The bytes
-- that the subprocess writes before it exits are one list.
pub mod Laws
use shed.Prelude.{
  leb, if◌then◌else◌, length, get_or, take, drop, ℕ, zero, suc, ◌+◌, ◌*◌, Option, none, some, List,
  [], ◌∷◌, ◌++◌, ◌>>=◌,
}

pub record Tag : Type 0 where
  pub tag_type : ℕ
  pub body : List ℕ
  -- The whole tag, as it is sent to the relay.
  pub raw : List ℕ

-- `read_exact`: the next `n` bytes, or an error at the end of the stream.
unfoldable pub read_exact : ℕ → List ℕ → Option (List ℕ × List ℕ)
read_exact n s = if leb n (length s) then some (take n s, drop n s) else none

-- The 24-bit size at offset 1.
abbrev pub data_size : List ℕ → ℕ
data_size tag_header =
    get_or tag_header 1 0 * 65536 + get_or tag_header 2 0 * 256 + get_or tag_header 3 0

unfoldable pub next_tag : List ℕ → Option (Tag × List ℕ)
next_tag stdout = do
  (tag_header, s1) ← read_exact 11 stdout
  (bytes, s2) ← read_exact (data_size tag_header) s1
  (prev_size, rest) ← read_exact 4 s2
  some (
    record {
      tag_type = get_or tag_header 0 0;
      body = bytes;
      raw = tag_header ++ (bytes ++ prev_size);
    },
    rest,
  )

-- The loop on fuel: a tag takes at least 15 bytes, so the length of the stream is enough
-- (`Laws.read_tags_complete`).
unfoldable pub read_tags : ℕ → List ℕ → List Tag
read_tags zero stdout = []
read_tags (suc fuel) stdout = elim (next_tag stdout) [
  | none ↦ []
  | some (tag, rest) ↦ tag ∷ read_tags fuel rest
]

-- Without a whole header nothing is read.
unfoldable pub read_stream : List ℕ → List Tag
read_stream stdout = elim (read_exact 13 stdout) [
  | none ↦ []
  | some (header, rest) ↦ read_tags (length rest) rest
]
