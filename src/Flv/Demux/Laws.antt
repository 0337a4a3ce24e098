-- ===== src/Flv/Demux/Laws.antt =====
-- What the tag loop reads: crates/api/src/srt.rs, `read_flv_output`.
use mathlib.Core.List.{append_assoc}
use shed.Prelude.{
  leb, leb→le, le→leb, Bool-cases, Option-cases, length, get_or, take, drop, length-append,
  take-length-append, drop-length-append, length-drop, All, ℕ, zero, suc, ◌+◌, ◌*◌, ◌/◌, ◌≤◌, ◌<◌,
  ◌≡◌, refl, sym, ap, ◌∙◌, inl, inr, Option, none, some, List, [], ◌∷◌, ◌++◌, arith, length-eq-zero,
  take-append-drop, >>=-eq-some,
}
use shed.Flv.{flv_header, put_u32, flv_tag, u8, u32}
use shed.Flv.Demux.{Tag, data_size, read_exact, next_tag, read_tags, read_stream}

-- Reading as many bytes as the first part has splits them off.
pub read_exact-append :
    (n : ℕ) (xs ys : List ℕ) → n ≡ length xs → read_exact n (xs ++ ys) ≡ some (xs, ys)
unfolding read_exact
read_exact-append n xs ys h =
    rw (h, le→leb (length xs) (length (xs ++ ys)) (omega (arith, length-append xs ys)))
      (rw (take-length-append xs ys, drop-length-append xs ys))

-- What is read, followed by what is left, is the stream.
read_exact_split :
    (n : ℕ) (s a b : List ℕ)
    → read_exact n s ≡ some (a, b)
    → (s ≡ a ++ b) × (length b + n ≡ length s)
unfolding read_exact
read_exact_split n s a b h = elim (Bool-cases (leb n (length s))) [
  | inl fits ↦
      let e : ◌≡◌ {A = Option (List ℕ × List ℕ)} (some (take n s, drop n s)) (some (a, b)) =
        rw fits at h in
      let ea : take n s ≡ a = cc in
      let eb : drop n s ≡ b = cc in
      rw (← ea, ← eb)
        (sym (take-append-drop n s), omega (arith, length-drop n s, leb→le n (length s) fits))
  | inr short ↦ let e : ◌≡◌ {A = Option (List ℕ × List ℕ)} none (some (a, b)) = rw short at h in cc
]

-- A payload whose size fits the 24-bit field.
abbrev pub Fits : List ℕ → Type 0
Fits bytes = length bytes < 16777216

-- The tag that `flv_tag` builds, as the reader returns it.
abbrev pub tag_of : ℕ → List ℕ → ℕ → Tag
tag_of tag_type bytes ts = record {
  tag_type = tag_type;
  body = bytes;
  raw = flv_tag tag_type bytes ts;
}

size_digits :
    (n : ℕ) → n < 16777216 → u8 (u32 n / 65536) * 65536 + u8 (u32 n / 256) * 256 + u8 (u32 n) ≡ n
size_digits n h = omega arith

next_tag_parts :
    (header bytes prev rest : List ℕ)
    → 11 ≡ length header
    → data_size header ≡ length bytes
    → 4 ≡ length prev
    → next_tag (header ++ (bytes ++ (prev ++ rest)))
      ≡ some (
        record { tag_type = get_or header 0 0; body = bytes; raw = header ++ (bytes ++ prev) },
        rest,
      )
unfolding next_tag
next_tag_parts header bytes prev rest eh eb ep =
    rw (read_exact-append 11 header (bytes ++ (prev ++ rest)) eh) (
      rw (read_exact-append (data_size header) bytes (prev ++ rest) eb)
        (rw (read_exact-append 4 prev rest ep)))

-- The 11 bytes in front of the payload.
abbrev tag_header : ℕ → ℕ → ℕ → List ℕ
tag_header tag_type n ts =
    tag_type
    ∷ u8 (u32 n / 65536)
    ∷ u8 (u32 n / 256)
    ∷ u8 (u32 n)
    ∷ u8 (ts / 65536)
    ∷ u8 (ts / 256)
    ∷ u8 ts
    ∷ u8 (ts / 16777216)
    ∷ 0
    ∷ 0
    ∷ 0
    ∷ []

-- The reader takes a built tag off the front of any stream, whole.
pub next_tag-flv_tag :
    (tag_type : ℕ) (bytes : List ℕ) (ts : ℕ) (rest : List ℕ)
    → Fits bytes
    → next_tag (flv_tag tag_type bytes ts ++ rest) ≡ some (tag_of tag_type bytes ts, rest)
unfolding flv_tag
next_tag-flv_tag tag_type bytes ts rest h =
    rw (append_assoc bytes (put_u32 (u32 (11 + u32 (length bytes)))) rest) (
      next_tag_parts (tag_header tag_type (length bytes) ts) bytes
        (put_u32 (u32 (11 + u32 (length bytes)))) rest refl (size_digits (length bytes) h) refl)

-- What a reader is given: the tags of a source in order.
abbrev pub mux : List (ℕ × List ℕ × ℕ) → List ℕ
mux [] = []
mux ((tag_type, bytes, ts) ∷ tags) = flv_tag tag_type bytes ts ++ mux tags

abbrev pub tags_of : List (ℕ × List ℕ × ℕ) → List Tag
tags_of [] = []
tags_of ((tag_type, bytes, ts) ∷ tags) = tag_of tag_type bytes ts ∷ tags_of tags

-- A stream ends clean where no whole tag is left.
next_tag-nil : next_tag [] ≡ none
unfolding next_tag read_exact
next_tag-nil = refl

read_tags-nil : (fuel : ℕ) → read_tags fuel [] ≡ []
unfolding read_tags
read_tags-nil zero = refl
read_tags-nil (suc fuel) = rw (next_tag-nil, read_tags)

read_tags-mux :
    (fuel : ℕ) (tags : List (ℕ × List ℕ × ℕ))
    → length tags ≤ fuel
    → All (λ t. Fits t.1) tags
    → read_tags fuel (mux tags) ≡ tags_of tags
unfolding read_tags
read_tags-mux fuel [] n fits = read_tags-nil fuel
read_tags-mux zero (t ∷ tags) n fits = absurd (omega arith)
read_tags-mux (suc fuel) ((tag_type, bytes, ts) ∷ tags) n fits =
    rw (next_tag-flv_tag tag_type bytes ts (mux tags) fits.0, read_tags)
      (ap (λ r. tag_of tag_type bytes ts ∷ r) (read_tags-mux fuel tags (omega arith) fits.1))

length-mux : (tags : List (ℕ × List ℕ × ℕ)) → length tags ≤ length (mux tags)
unfolding flv_tag
length-mux [] = omega arith
length-mux ((tag_type, bytes, ts) ∷ tags) =
    omega (arith, length-mux tags, length-append (flv_tag tag_type bytes ts) (mux tags))

-- A stream that a muxer writes, header and tags, is read back tag by tag.
pub read_stream-mux :
    (tags : List (ℕ × List ℕ × ℕ))
    → All (λ t. Fits t.1) tags
    → read_stream (flv_header ++ mux tags) ≡ tags_of tags
unfolding read_stream flv_header
read_stream-mux tags fits =
    rw (read_exact-append 13 flv_header (mux tags) refl, read_stream)
      (read_tags-mux (length (mux tags)) tags (length-mux tags) fits)

regroup :
    (s : List ℕ) (tag : Tag) (rest : List ℕ) (p q r : List ℕ × List ℕ) (n : ℕ)
    → (s ≡ p.0 ++ p.1) × (length p.1 + 11 ≡ length s)
    → (p.1 ≡ q.0 ++ q.1) × (length q.1 + n ≡ length p.1)
    → (q.1 ≡ r.0 ++ r.1) × (length r.1 + 4 ≡ length q.1)
    → ◌≡◌ {A = Option (Tag × List ℕ)}
        (some (record { tag_type = get_or p.0 0 0; body = q.0; raw = p.0 ++ (q.0 ++ r.0) }, r.1))
        (some (tag, rest))
    → (s ≡ tag.raw ++ rest) × (length rest < length s)
regroup s tag rest p q r n a b c e =
    let raw_eq : tag.raw ≡ p.0 ++ (q.0 ++ r.0) = ground arith in
    let rest_eq : rest ≡ r.1 = ground arith in
    rw (raw_eq, rest_eq)
      (
        a.0
            ∙ (ap (λ t. p.0 ++ t) (b.0 ∙ (ap (λ t. q.0 ++ t) c.0 ∙ sym (append_assoc q.0 r.0 r.1)))
                ∙ sym (append_assoc p.0 (q.0 ++ r.0) r.1)),
        omega arith,
      )

-- A tag is taken from the front of the stream, and is at least 15 bytes of it.
next_tag_split :
    (s : List ℕ) (tag : Tag) (rest : List ℕ)
    → next_tag s ≡ some (tag, rest)
    → (s ≡ tag.raw ++ rest) × (length rest < length s)
unfolding next_tag
next_tag_split s tag rest h =
    let (p, e1, h1) = >>=-eq-some (read_exact 11 s) _ h in
    let (q, e2, h2) = >>=-eq-some (read_exact (data_size p.0) p.1) _ h1 in
    let (r, e3, h3) = >>=-eq-some (read_exact 4 q.1) _ h2 in
    regroup s tag rest p q r (data_size p.0) (read_exact_split 11 s p.0 p.1 e1)
      (read_exact_split (data_size p.0) p.1 q.0 q.1 e2) (read_exact_split 4 q.1 r.0 r.1 e3) h3

-- The bytes of the tags read.
abbrev pub raws : List Tag → List ℕ
raws [] = []
raws (tag ∷ tags) = tag.raw ++ raws tags

-- Whatever the stream holds, the tags read are its bytes in order from the front, none changed,
-- left out or made up, and the loop stops only where no whole tag is left.
pub read_tags_complete :
    (fuel : ℕ) (s : List ℕ)
    → length s ≤ fuel
    → (left : List ℕ) × (s ≡ raws (read_tags fuel s) ++ left) × (next_tag left ≡ none)
unfolding read_tags
read_tags_complete zero s h = (s, refl, rw (length-eq-zero s (omega arith)) next_tag-nil)
read_tags_complete (suc fuel) s h = elim (Option-cases (next_tag s)) [
  | inl stop ↦ (s, rw (stop, read_tags), stop)
  | inr ((tag, rest), more) ↦
      let (e, less) = next_tag_split s tag rest more in
      let (left, whole, stop) = read_tags_complete fuel rest (omega arith) in
      (
        left,
        rw (more, read_tags)
            (e ∙ (ap (λ t. tag.raw ++ t) whole ∙ sym (append_assoc tag.raw _ left))),
        stop,
      )
]
