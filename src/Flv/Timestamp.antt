-- ===== src/Flv/Timestamp.antt =====
-- The timestamp field of a tag: crates/api/src/rtmp/flv.rs.
use shed.Prelude.{
  leb, Bool-cases, length, get_elem?, set, length-append, ℕ, suc, ◌+◌, ◌*◌, ◌/◌, ◌≤◌, ◌<◌, ◌≡◌,
  refl, ◌∙◌, ◌≢◌, ◌⊎◌, inl, inr, true, some, List, ◌∷◌, arith, length-set, get_elem?-set_ne,
}
use shed.Flv.{flv_tag, read_tag_timestamp, rewrite_tag_timestamp, u8, u32, put_u32}

-- The four timestamp bytes are the digits of a 32-bit number.
timestamp_digits :
    (ts : ℕ)
    → ts < 4294967296
    → u8 (ts / 16777216) * 16777216 + (u8 (ts / 65536) * 65536 + u8 (ts / 256) * 256 + u8 ts) ≡ ts
timestamp_digits ts h = omega arith

eight : (n : ℕ) → leb 8 (suc (suc (suc (suc (suc (suc (suc (suc n)))))))) ≡ true
eight n = ground arith

-- A timestamp written into a tag of at least eight bytes is the one read back.
pub read_tag_timestamp-rewrite :
    (tag : List ℕ) (ts : ℕ)
    → 8 ≤ length tag
    → ts < 4294967296
    → read_tag_timestamp (rewrite_tag_timestamp tag ts) ≡ some ts
unfolding read_tag_timestamp rewrite_tag_timestamp
read_tag_timestamp-rewrite (a ∷ b ∷ c ∷ d ∷ e ∷ f ∷ g ∷ h ∷ rest) ts n lt =
    rw (eight (length rest)) (ground (arith, timestamp_digits ts))
read_tag_timestamp-rewrite _ ts n lt = absurd (omega arith)

-- Four writes at 4 to 7 keep the length and the other bytes.
abbrev writes : List ℕ → ℕ → ℕ → ℕ → ℕ → List ℕ
writes tag a b c d = set (set (set (set tag 4 a) 5 b) 6 c) 7 d

length-writes : (tag : List ℕ) (a b c d : ℕ) → length (writes tag a b c d) ≡ length tag
length-writes tag a b c d =
    length-set _ 7 d ∙ (length-set _ 6 c ∙ (length-set _ 5 b ∙ length-set tag 4 a))

outside : (k i : ℕ) → (i < 4) ⊎ (8 ≤ i) → (4 ≤ k) × (k < 8) → k ≢ i
outside k i h r e = omega arith

get_elem?-writes :
    (tag : List ℕ) (a b c d i : ℕ)
    → (i < 4) ⊎ (8 ≤ i)
    → get_elem? (writes tag a b c d) i ≡ get_elem? tag i
get_elem?-writes tag a b c d i h =
    get_elem?-set_ne _ {i = 7} {j = i} d (outside 7 i h (omega arith))
    ∙ (get_elem?-set_ne _ {i = 6} {j = i} c (outside 6 i h (omega arith))
        ∙ (get_elem?-set_ne _ {i = 5} {j = i} b (outside 5 i h (omega arith))
            ∙ get_elem?-set_ne tag {i = 4} {j = i} a (outside 4 i h (omega arith))))

-- The tag keeps its length and every byte outside the timestamp field.
pub rewrite_tag_timestamp_frame :
    (tag : List ℕ) (ts i : ℕ)
    → (i < 4) ⊎ (8 ≤ i)
    → (length (rewrite_tag_timestamp tag ts) ≡ length tag)
      × (get_elem? (rewrite_tag_timestamp tag ts) i ≡ get_elem? tag i)
unfolding rewrite_tag_timestamp
rewrite_tag_timestamp_frame tag ts i h = elim (Bool-cases (leb 8 (length tag))) [
  | inl long ↦ rw long (length-writes tag _ _ _ _, get_elem?-writes tag _ _ _ _ i h)
  | inr short ↦ rw short (refl, refl)
]

-- A tag that `flv_tag` builds carries its timestamp, its type, and 15 bytes round the payload.
pub flv_tag_fields :
    (tag_type : ℕ) (bytes : List ℕ) (ts : ℕ)
    → ts < 4294967296
    → (read_tag_timestamp (flv_tag tag_type bytes ts) ≡ some ts)
      × (get_elem? (flv_tag tag_type bytes ts) 0 ≡ some tag_type)
      × (length (flv_tag tag_type bytes ts) ≡ length bytes + 15)
unfolding read_tag_timestamp flv_tag
flv_tag_fields tag_type bytes ts h = (
  ground (arith, timestamp_digits ts),
  refl,
  omega (arith, length-append bytes (put_u32 (u32 (11 + u32 (length bytes))))),
)
