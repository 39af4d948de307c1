-- ===== src/Writer/Pump.antt =====
-- crates/mcptracer-proxy/src/session_writer.rs: the pump that forwards stdio frames and then records
-- them. What the other tasks, the clock, the pipe and the channel do in a turn of the loop is the
-- record `World`; a turn is one frame. Warnings to the log are left out.
pub mod Forward
pub mod Drain
use Prim.Native.Nat.{◌%◌}
use mcptracer.Common.{
  ℕ, zero, suc, ◌+◌, ◌^◌, ◌-◌, min, ℤ, Bool, true, false, Option, none, some, List, [], ◌∷◌, ◌++◌,
  length, take, drop, ltb, if◌then◌else◌, ok, err,
}
use mcptracer.Json.{Value}
use mcptracer.Protocol.Message.{Direction, McpMessage}
use mcptracer.Protocol.Sse.{Bytes, max_frame_bytes}
use mcptracer.Protocol.Stdio.{StdioFrame, parse_stdio_frame}

-- `write_all` and `flush`, which may fail, and may wait at the pipe for ever. A write that does has passed
-- on some first bytes.
pub data Write : Type 0 where
  written : Write
  failed blocked : ℕ → Write

pub data Flush : Type 0 where
  flushed flush_failed flush_blocked : Flush

pub data Send : Type 0 where
  sent full disconnected : Send

pub record World : Type 0 where
  -- `serde_json::from_slice`
  pub from_slice : Bytes → Option Value
  pub now_ns : ℕ → ℤ
  -- the numbers that the other pump takes before this turn
  pub others : ℕ → ℕ
  pub write_all : ℕ → Write
  pub flush : ℕ → Flush
  -- whether `reserve_event` finds room for so many bytes
  pub reserve_event : ℕ → ℕ → Bool
  pub try_send : ℕ → Send

pub record Pump : Type 0 where
  pub turn : ℕ
  pub buf : Bytes
  -- the bytes the writer was given
  pub wire : Bytes
  -- the events on the channel
  pub stored : List McpMessage
  pub seq : ℕ
  pub dropped_messages : ℕ

-- `usize::saturating_add` and `AtomicU64::fetch_add`
abbrev pub saturating_add : ℕ → ℕ → ℕ
saturating_add a b = min (a + b) (2 ^ 64 - 1)

abbrev pub fetch_add : ℕ → ℕ → ℕ
fetch_add a b = (a + b) % 2 ^ 64

abbrev pub storage_event_overhead_bytes : ℕ
storage_event_overhead_bytes = 1024

pub record CaptureStamp : Type 0 where
  pub stamp_seq : ℕ
  pub timestamp_ns : ℤ

unfoldable pub reserve_capture_stamp : World → Pump → CaptureStamp × Pump
reserve_capture_stamp world s =
    let seq = fetch_add s.seq (world.others s.turn) in
    (
      record { stamp_seq = seq; timestamp_ns = world.now_ns s.turn },
      record s { seq = fetch_add seq 1 },
    )

abbrev pub drop_message : Pump → Pump
drop_message s = record s { dropped_messages = fetch_add s.dropped_messages 1 }

unfoldable pub try_record : World → McpMessage → Pump → Pump
try_record world m s =
    if world.reserve_event s.turn (saturating_add m.payload_bytes storage_event_overhead_bytes)
    then elim (world.try_send s.turn) [
      | sent ↦ record s { stored = s.stored ++ (m ∷ []) }
      | full ↦ drop_message s
      | disconnected ↦ drop_message s
    ]
    else drop_message s

unfoldable pub decode_json_message : World → Bytes → Direction → CaptureStamp → Option McpMessage
decode_json_message world bytes direction stamp = elim (world.from_slice bytes) [
  | none ↦ none
  | some v ↦ some (record {
    seq = stamp.stamp_seq;
    timestamp_ns = stamp.timestamp_ns;
    direction = direction;
    payload = v;
    payload_bytes = length bytes;
  })
]

unfoldable pub record_frame : World → StdioFrame → Direction → CaptureStamp → Pump → Pump
record_frame world frame direction stamp s =
    elim (decode_json_message world frame.json_bytes direction stamp) [
      | none ↦ drop_message s
      | some m ↦ try_record world m s
    ]

-- How a call ends: it returns, or it waits at the pipe and never does.
pub data Ending : Type 0 where
  returned_ok returned_err waiting : Ending

pub data Turn : Type 0 where
  continue : Pump → Turn
  stop : Ending → Pump → Turn

-- From the write on.
unfoldable pub forward_frame : World → Direction → StdioFrame → Pump → Turn
forward_frame world direction frame s =
    let (stamp, t) = reserve_capture_stamp world s in
    elim (world.write_all s.turn) [
      | failed n ↦ stop returned_err (record t { wire = t.wire ++ take n frame.wire_bytes })
      | blocked n ↦ stop waiting (record t { wire = t.wire ++ take n frame.wire_bytes })
      | written ↦
          let u = record t { wire = t.wire ++ frame.wire_bytes } in
          let v = record_frame world frame direction stamp u in
          elim (world.flush s.turn) [
            | flushed ↦ continue (record v { buf = drop frame.consumed v.buf; turn = suc v.turn })
            | flush_failed ↦ stop returned_err u
            | flush_blocked ↦ stop waiting u
          ]
    ]

unfoldable pub drain_turn : World → Direction → Pump → Turn
drain_turn world direction s = elim (parse_stdio_frame s.buf) [
  | err e ↦ stop returned_err s
  | ok none ↦ stop returned_ok s
  | ok (some frame) ↦
      if ltb max_frame_bytes frame.consumed
      then stop returned_err s
      else forward_frame world direction frame s
]

unfoldable pub drain_loop : World → Direction → ℕ → Pump → Option (Ending × Pump)
drain_loop world direction zero s = none
drain_loop world direction (suc fuel) s = elim (drain_turn world direction s) [
  | stop b t ↦ some (b, t)
  | continue t ↦ drain_loop world direction fuel t
]

-- Every turn takes at least one byte from the buffer.
unfoldable pub drain_frames : World → Direction → Pump → Option (Ending × Pump)
drain_frames world direction s = drain_loop world direction (suc (length s.buf)) s
