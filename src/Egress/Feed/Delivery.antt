-- ===== src/Egress/Feed/Delivery.antt =====
-- What an ffmpeg process gets, and what is reported of it: crates/api/src/egress.rs.
use shed.Prelude.{
  ltb, if◌then◌else◌, length, take, length-append, All, ℕ, zero, suc, ◌+◌, ◌-◌, ◌≤◌, ◌≡◌, refl, sym,
  ap, ◌∙◌, ◌&&◌, Option, none, some, List, [], ◌∷◌, ◌++◌, arith, option_list,
}
use mathlib.Core.List.{append-nil, append_assoc}
use shed.Flv.{flv_header, flv_tag}
use shed.Flv.Demux.{read_stream}
use shed.Flv.Demux.Laws.{Fits, mux, tags_of, read_stream-mux}
use shed.Types.{SequenceHeaders, WsEvent, destination_state}
use shed.Egress.Feed.{
  Pipe, write_all, write_some, prime, Received, data_ok, lagged, closed, feed_loop, feed,
}

-- The bytes of a list of writes.
abbrev pub flat : List (List ℕ) → List ℕ
flat [] = []
flat (bytes ∷ writes) = bytes ++ flat writes

-- What the channel gives up to its end, without the gaps.
abbrev pub payloads : List Received → List (List ℕ)
payloads [] = []
payloads (data_ok bytes ∷ received) = bytes ∷ payloads received
payloads (lagged ∷ received) = payloads received
payloads (closed ∷ received) = []

abbrev pub primers : Option SequenceHeaders → List (List ℕ)
primers none = []
primers (some seq) =
    option_list seq.video ++ (option_list seq.audio ++ option_list seq.last_keyframe)

abbrev pub pipe_of : ℕ → List ℕ → Pipe
pipe_of lasts written = record { lasts = lasts; written = written }

-- A pipe after some writes, each made whether or not the ones before it failed.
abbrev after_writes : List (List ℕ) → Pipe → Pipe
after_writes [] pipe = pipe
after_writes (bytes ∷ writes) pipe = after_writes writes (write_all bytes pipe).1

after_writes-append :
    (xs ys : List (List ℕ)) (pipe : Pipe)
    → after_writes ys (after_writes xs pipe) ≡ after_writes (xs ++ ys) pipe
after_writes-append [] ys pipe = refl
after_writes-append (x ∷ xs) ys pipe = after_writes-append xs ys (write_all x pipe).1

after_writes_value :
    (writes : List (List ℕ)) (n : ℕ) (w : List ℕ)
    → after_writes writes (pipe_of n w) ≡ pipe_of (n - length writes) (w ++ flat (take n writes))
unfolding write_all
after_writes_value [] zero w = ground (arith, append-nil w)
after_writes_value [] (suc n) w = ground (arith, append-nil w)
after_writes_value (bytes ∷ writes) zero w =
    after_writes_value writes zero w ∙ ground (arith, append-nil w)
after_writes_value (bytes ∷ writes) (suc n) w =
    after_writes_value writes n (w ++ bytes)
    ∙ (ap (pipe_of (n - length writes)) (append_assoc w bytes (flat (take n writes)))
        ∙ ap (λ k. pipe_of k (w ++ (bytes ++ flat (take n writes)))) (omega arith))

write_some-after :
    (o : Option (List ℕ)) (pipe : Pipe) → write_some o pipe ≡ after_writes (option_list o) pipe
unfolding write_some
write_some-after none pipe = refl
write_some-after (some bytes) pipe = refl

prime-after :
    (seq : Option SequenceHeaders) (pipe : Pipe) → prime seq pipe ≡ after_writes (primers seq) pipe
unfolding prime
prime-after none pipe = refl
prime-after (some seq) pipe =
    let primed = write_some seq.audio (write_some seq.video pipe) in
    write_some-after seq.last_keyframe primed
    ∙ (ap (after_writes (option_list seq.last_keyframe)) (
          write_some-after seq.audio (write_some seq.video pipe)
          ∙ ap (after_writes (option_list seq.audio)) (write_some-after seq.video pipe))
        ∙ (after_writes-append (option_list seq.audio) (option_list seq.last_keyframe)
              (after_writes (option_list seq.video) pipe)
            ∙ after_writes-append (option_list seq.video)
                (option_list seq.audio ++ option_list seq.last_keyframe) pipe))

feed_loop-after :
    (dest_id : ℕ) (received : List Received) (n : ℕ) (w : List ℕ) (counted : ℕ) (ws : List WsEvent)
    → let f =
        feed_loop dest_id received (record { pipe = pipe_of n w; counted = counted; ws = ws }) in
      (f.pipe.written ≡ w ++ flat (take n (payloads received)))
      × (f.ws ≡ (
          if ltb n (length (payloads received))
          then destination_state dest_id "error" ∷ ws
          else ws))
unfolding feed_loop write_all
feed_loop-after dest_id [] zero w counted ws = (sym (append-nil w), refl)
feed_loop-after dest_id [] (suc n) w counted ws = (sym (append-nil w), ground arith)
feed_loop-after dest_id (data_ok bytes ∷ received) zero w counted ws =
    (sym (append-nil w), ground arith)
feed_loop-after dest_id (data_ok bytes ∷ received) (suc n) w counted ws =
    let (a, b) = feed_loop-after dest_id received n (w ++ bytes) (counted + length bytes) ws in
    (a ∙ append_assoc w bytes (flat (take n (payloads received))), ground (arith, b))
feed_loop-after dest_id (lagged ∷ received) n w counted ws =
    feed_loop-after dest_id received n w counted ws
feed_loop-after dest_id (closed ∷ received) zero w counted ws = (sym (append-nil w), refl)
feed_loop-after dest_id (closed ∷ received) (suc n) w counted ws =
    (sym (append-nil w), ground arith)

flat-take-append :
    (n : ℕ) (xs ys : List (List ℕ))
    → flat (take n (xs ++ ys)) ≡ flat (take n xs) ++ flat (take (n - length xs) ys)
flat-take-append zero [] ys = refl
flat-take-append zero (x ∷ xs) ys =
    ap (λ k. flat (take k ys)) {x = 0} {y = 0 - suc (length xs)} (omega arith)
flat-take-append (suc n) [] ys =
    ap (λ k. flat (take k ys)) {x = suc n} {y = suc n - 0} (omega arith)
flat-take-append (suc n) (x ∷ xs) ys =
    ap (λ s. x ++ s) (flat-take-append n xs ys)
    ∙ (sym (append_assoc x (flat (take n xs)) (flat (take (n - length xs) ys)))
        ∙ ap (λ k. (x ++ flat (take n xs)) ++ flat (take k ys)) {x = n - length xs}
            {y = suc n - suc (length xs)} (omega arith))

-- A process gets, in this order and whole, the FLV header, the source's video header, audio header
-- and last keyframe as far as they are there, and what the program then carries up to its end, cut
-- after as many writes as its pipe takes; an error is announced exactly when the pipe breaks on the
-- program's data, and once, and none when it is broken from the start.
pub feed_delivers :
    (dest_id : ℕ) (seq : Option SequenceHeaders) (received : List Received) (lasts : ℕ)
    → let writes = flv_header ∷ (primers seq ++ payloads received) in
      let f = feed dest_id seq received (pipe_of lasts []) in
      (f.pipe.written ≡ flat (take lasts writes))
      × (f.ws ≡ (
          if ltb 0 lasts && ltb (lasts - 1 - length (primers seq)) (length (payloads received))
          then destination_state dest_id "error" ∷ []
          else []))
unfolding feed write_all
feed_delivers dest_id seq received zero = (refl, refl)
feed_delivers dest_id seq received (suc n) =
    let left = n - length (primers seq) in
    let w = flv_header ++ flat (take n (primers seq)) in
    let primed : prime seq (pipe_of n flv_header) ≡ pipe_of left w =
      prime-after seq (pipe_of n flv_header) ∙ after_writes_value (primers seq) n flv_header in
    let (written, ws) = feed_loop-after dest_id received left w 0 [] in
    rw primed (
      written
          ∙ (append_assoc flv_header (flat (take n (primers seq)))
                (flat (take left (payloads received)))
              ∙ ap (λ s. flv_header ++ s)
                  (sym (flat-take-append n (primers seq) (payloads received)))),
      ground (arith, ws),
    )

flat-take_all :
    (n : ℕ) (writes : List (List ℕ)) → length writes ≤ n → flat (take n writes) ≡ flat writes
flat-take_all zero [] h = refl
flat-take_all (suc n) [] h = refl
flat-take_all zero (x ∷ writes) h = absurd (omega arith)
flat-take_all (suc n) (x ∷ writes) h = ap (λ s. x ++ s) (flat-take_all n writes (omega arith))

-- The tags that `flv_tag` builds, one write each.
abbrev pub built : List (ℕ × List ℕ × ℕ) → List (List ℕ)
built [] = []
built ((tag_type, bytes, ts) ∷ tags) = flv_tag tag_type bytes ts ∷ built tags

flat-built : (tags : List (ℕ × List ℕ × ℕ)) → flat (built tags) ≡ mux tags
flat-built [] = refl
flat-built ((tag_type, bytes, ts) ∷ tags) =
    ap (λ s. flv_tag tag_type bytes ts ++ s) (flat-built tags)

-- A process whose pipe lasts reads, tag by tag, the source's headers and keyframe and then the
-- program, when these are FLV tags with payloads below 2^24 bytes, and no error is announced.
pub encoder_reads_program :
    (dest_id : ℕ) (seq : Option SequenceHeaders) (received : List Received) (lasts : ℕ)
    (tags : List (ℕ × List ℕ × ℕ))
    → All (λ t. Fits t.1) tags
    → primers seq ++ payloads received ≡ built tags
    → length (flv_header ∷ (primers seq ++ payloads received)) ≤ lasts
    → let f = feed dest_id seq received (pipe_of lasts []) in
      (read_stream f.pipe.written ≡ tags_of tags) × (f.ws ≡ [])
encoder_reads_program dest_id seq received lasts tags fits are_tags enough =
    let writes = primers seq ++ payloads received in
    let (written, ws) = feed_delivers dest_id seq received lasts in
    (
      ap read_stream (
            written
            ∙ (flat-take_all lasts (flv_header ∷ writes) enough
                ∙ ap (λ s. flv_header ++ s) (ap flat are_tags ∙ flat-built tags)))
          ∙ read_stream-mux tags fits,
      ground (arith, ws, length-append (primers seq) (payloads received)),
    )
