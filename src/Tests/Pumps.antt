-- ===== src/Tests/Pumps.antt =====
-- crates/mcptracer-proxy/src/session_writer.rs: the queue and the pump.
use mcptracer.Common.{
  ◌<◌, List, false, ℕ, ◌+◌, ◌≡◌, refl, arith, true, [], ◌∷◌, ◌++◌, codes, some, length, pos, leb,
}
use mcptracer.Json.{object, end}
use mcptracer.Protocol.Message.{client_to_server, McpMessage}
use mcptracer.Protocol.Sse.{Bytes}
use mcptracer.Protocol.Stdio.{frame_at, parse_stdio_frame, one_line}
use mcptracer.Writer.Budget.{
  Queue, idle, trying, holding, attempt, Reach, here, next, load, exchange,
}
use mcptracer.Writer.Budget.Safe.{IsSafe, Reach-IsSafe}
use mcptracer.Writer.Pump.{
  World, Pump, Ending, returned_ok, written, flushed, sent, drain_frames, drain_loop, drain_turn,
  forward_frame, reserve_capture_stamp, record_frame, decode_json_message, try_record,
}
use mcptracer.Redact.Lint.Patterns.{Text}
use mcptracer.Writer.Command.{render_args}
use mcptracer.Writer.Command.Stable.{is_clean, render_args-clean}
use mcptracer.Writer.Reorder.{
  Reorder, storage_reorder_max_messages, release, release_from, released,
}
use mcptracer.Writer.Reorder.Gaps.{messages, rests, NoGap, release-Released, release-NoGap}
use mcptracer.Writer.Pump.Forward.{newlines}
use mcptracer.Writer.Pump.Drain.{
  Small, WaitsFor, drain_frames-forwards, drain_frames-accounts, drain_frames-Small,
}

abbrev quiet : Queue
quiet = record { queued_bytes = 0; threads = idle ∷ idle ∷ [] }

abbrev loaded : Queue
loaded = record { queued_bytes = 0; threads = trying 5 0 ∷ idle ∷ [] }

abbrev reserved : Queue
reserved = record { queued_bytes = 5; threads = holding 5 ∷ idle ∷ [] }

reserves : Reach 8 quiet reserved
unfolding attempt
reserves = next (next here (load 0 5 refl refl)) (exchange 0 5 0 5 refl refl refl refl)

Reach-IsSafe_example : IsSafe 8 reserved
Reach-IsSafe_example =
    Reach-IsSafe 8 (omega arith) (record { accounted = refl; within = omega arith }) reserves

-- The channel takes the first frame; for the second there is no room.
abbrev world : World
world = record {
  from_slice = λ bytes. some (object end);
  now_ns = λ turn. pos turn;
  others = λ turn. 1;
  write_all = λ turn. written;
  flush = λ turn. flushed;
  reserve_event = λ turn bytes. leb turn 0;
  try_send = λ turn. sent;
}

abbrev buffered : Bytes
buffered = codes "{}" ++ (b'\n' ∷ (codes "[]" ++ (b'\n' ∷ codes "{")))

abbrev started : Pump
started = record { turn = 0; buf = buffered; wire = []; stored = []; seq = 0; dropped_messages = 0 }

abbrev drained : Pump
drained = record {
  turn = 2;
  buf = codes "{";
  wire = codes "{}" ++ (b'\n' ∷ (codes "[]" ++ (b'\n' ∷ [])));
  stored =
      record {
        seq = 1;
        timestamp_ns = pos 0;
        direction = client_to_server;
        payload = object end;
        payload_bytes = 2;
      }
      ∷ [];
  seq = 4;
  dropped_messages = 1;
}

drains : drain_frames world client_to_server started ≡ some (returned_ok, drained)
unfolding drain_frames drain_loop drain_turn forward_frame reserve_capture_stamp record_frame
    decode_json_message try_record parse_stdio_frame frame_at
drains = refl

drain_frames-forwards_example :
    (b : Ending) × (t : Pump) × (forwarded : Bytes) × (rest : Bytes) × (drain_frames world
        client_to_server started
      ≡ some (b, t))
    × WaitsFor world b t.turn
    × (started.buf ≡ forwarded ++ rest)
    × (t.wire ≡ started.wire ++ forwarded)
drain_frames-forwards_example = drain_frames-forwards world client_to_server started

drain_frames-accounts_example :
    (forwarded : Bytes) × (started.buf ≡ forwarded ++ drained.buf)
    × (drained.wire ≡ started.wire ++ forwarded)
    × (one_line drained.buf ≡ true)
    × (length drained.stored + drained.dropped_messages
        ≡ length started.stored + started.dropped_messages + newlines started.buf)
drain_frames-accounts_example =
    drain_frames-accounts world client_to_server started drained (omega arith) drains

drain_frames-Small_example : Small drained
drain_frames-Small_example =
    drain_frames-Small world client_to_server started drained returned_ok tt drains

abbrev command : List Text
command = codes "serve" ∷ codes "--api-key" ∷ codes "k1" ∷ codes "--token=k2" ∷ []

render_args-clean_example :
    (is_clean (render_args false command) ≡ true)
    × (render_args false (render_args false command) ≡ render_args false command)
render_args-clean_example = render_args-clean command

abbrev numbered : ℕ → McpMessage
numbered n = record {
  seq = n;
  timestamp_ns = pos 0;
  direction = client_to_server;
  payload = object end;
  payload_bytes = 2;
}

-- Number 3 arrived before number 2.
abbrev disordered : Reorder
disordered = record {
  pending =
      record { arrived = 0; message = numbered 0 }
      ∷ record { arrived = 1; message = numbered 1 }
      ∷ record { arrived = 2; message = numbered 3 }
      ∷ [];
  next_seq = 0;
  arrival = 3;
  failed_message_records = 0;
  context_loss_reported = false;
}

release-Released_example :
    (messages disordered.pending
      ≡ (release false disordered).0 ++ messages (release false disordered).1.pending)
    × (length (release false disordered).1.pending < storage_reorder_max_messages)
    × (rests false (release false disordered).1 ≡ true)
release-Released_example = release-Released false disordered

disordered-reports_nothing : (release false disordered).1.context_loss_reported ≡ false
unfolding release release_from released
disordered-reports_nothing = refl

release-NoGap_example : NoGap disordered.next_seq (release false disordered).0
release-NoGap_example = release-NoGap disordered disordered-reports_nothing
