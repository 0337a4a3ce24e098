-- ===== src/Egress/Feed.antt =====
-- The task that writes the program to one ffmpeg process: crates/api/src/egress.rs, `start`.
pub mod Delivery
use shed.Prelude.{
  if◌then◌else◌, length, ℕ, zero, suc, ◌+◌, Bool, true, false, Option, none, some, List, [], ◌∷◌,
  ◌++◌,
}
use shed.Flv.{flv_header}
use shed.Types.{SequenceHeaders, WsEvent, destination_state}

-- A pipe that takes `lasts` writes before its reader is gone, and what it took.
pub record Pipe : Type 0 where
  pub lasts : ℕ
  pub written : List ℕ

unfoldable pub write_all : List ℕ → Pipe → Bool × Pipe
write_all bytes pipe = elim pipe.lasts [
  | zero ↦ (false, pipe)
  | suc n ↦ (true, record { lasts = n; written = pipe.written ++ bytes })
]

-- `if let Some(ref tag)`, errors dropped.
unfoldable pub write_some : Option (List ℕ) → Pipe → Pipe
write_some none pipe = pipe
write_some (some bytes) pipe = (write_all bytes pipe).1

unfoldable pub prime : Option SequenceHeaders → Pipe → Pipe
prime none pipe = pipe
prime (some seq) pipe =
    write_some seq.last_keyframe (write_some seq.audio (write_some seq.video pipe))

-- What `rx.recv()` gives.
pub data Received : Type 0 where
  data_ok : List ℕ → Received
  lagged closed : Received

-- `counted` is what the task adds to `bytes_sent`.
pub record Feed : Type 0 where
  pub pipe : Pipe
  pub counted : ℕ
  pub ws : List WsEvent

-- The loop, over what the channel gives.
unfoldable pub feed_loop : ℕ → List Received → Feed → Feed
feed_loop dest_id [] f = f
feed_loop dest_id (data_ok bytes ∷ received) f =
    let written = write_all bytes f.pipe in
    let counted = f.counted + length bytes in
    if written.0
    then feed_loop dest_id received (record { pipe = written.1; counted = counted; ws = f.ws })
    else record {
      pipe = written.1;
      counted = counted;
      ws = destination_state dest_id "error" ∷ f.ws;
    }
feed_loop dest_id (lagged ∷ received) f = feed_loop dest_id received f
feed_loop dest_id (closed ∷ received) f = f

-- Without the header nothing is fed.
unfoldable pub feed : ℕ → Option SequenceHeaders → List Received → Pipe → Feed
feed dest_id seq received pipe =
    let header = write_all flv_header pipe in
    if header.0
    then feed_loop dest_id received (record { pipe = prime seq header.1; counted = 0; ws = [] })
    else record { pipe = header.1; counted = 0; ws = [] }
