-- ===== src/Library/Widths.antt =====
-- Which streams a probe reports: crates/api/src/media_probe.rs.
use shed.Prelude.{
  if◌then◌else◌, is_some, ℕ, ◌≡◌, refl, sym, ap, ◌∙◌, ◌&&◌, Option, none, some, List, [], ◌∷◌,
  arith,
}
use shed.Library.Probe.{
  ProbeResult, ProbedStream, Floats, as_u32, lift, is_type, add_stream, add_streams,
}

-- The width of the first video stream that has one.
abbrev pub first_width : List ProbedStream → Option ℕ
first_width [] = none
first_width (s ∷ streams) =
    let later = first_width streams in
    if is_type "video" s && is_some s.width then lift as_u32 s.width else later

abbrev pub or_else : Option ℕ → Option ℕ → Option ℕ
or_else none y = y
or_else (some x) y = some x

or_else-none : (x : Option ℕ) → or_else x none ≡ x
or_else-none none = refl
or_else-none (some x) = refl

or_else_assoc : (x y z : Option ℕ) → or_else (or_else x y) z ≡ or_else x (or_else y z)
or_else_assoc none y z = refl
or_else_assoc (some x) y z = refl

abbrev own_width : ProbedStream → Option ℕ
own_width s = if is_type "video" s then lift as_u32 s.width else none

first_width-own_width :
    (s : ProbedStream) (streams : List ProbedStream)
    → first_width (s ∷ streams) ≡ or_else (own_width s) (first_width streams)
first_width-own_width s streams = ground arith

width-add_stream :
    (fl : Floats) (s : ProbedStream) (r : ProbeResult)
    → (add_stream fl s r).width ≡ or_else r.width (own_width s)
width-add_stream fl s r = ground arith

-- A probe reports the width that is known, or else that of the first video stream which has one.
pub width-add_streams :
    (fl : Floats) (streams : List ProbedStream) (r : ProbeResult)
    → (add_streams fl streams r).width ≡ or_else r.width (first_width streams)
unfolding add_streams
width-add_streams fl [] r = sym (or_else-none r.width)
width-add_streams fl (s ∷ streams) r =
    width-add_streams fl streams (add_stream fl s r)
    ∙ ap (λ w. or_else w (first_width streams)) (width-add_stream fl s r)
    ∙ or_else_assoc r.width (own_width s) (first_width streams)
    ∙ ap (or_else r.width) (sym (first_width-own_width s streams))
