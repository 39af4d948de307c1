-- ===== src/Tests/Recording.antt =====
-- crates/mcptracer-proxy/src/session_writer.rs: a recording of two messages that arrive out of order.
use mcptracer.Common.{ℕ, ◌≡◌, refl, true, some, List, [], ◌∷◌, pos, count, Result, ok, arith}
use mcptracer.Common.Sort.{insert_sorted}
use mcptracer.Json.{object, field, string, end, get, lookup}
use mcptracer.Protocol.Message.{McpMessage, client_to_server, as_db_str}
use mcptracer.Redact.Policy.{Redactor, verbatim, redact_with_context}
use mcptracer.Redact.Context.{Texts, after_gap, responder_of, observe_side, observe}
use mcptracer.Writer.Reorder.{take_in, released, release_from, release}
use mcptracer.Writer.Thread.{
  Close, Failure, World, start, collect, reorder_batch, redact_one, redact_batch, chunks_from,
  write_chunk, write_chunks, close_writer, process, run,
}
use mcptracer.Writer.Thread.Stages.{numbered}
use mcptracer.Writer.Thread.Complete.{session_events}
use mcptracer.Writer.Thread.Ends.{run-answers, run_complete}

abbrev texts : Texts
texts = record { to_string = λ v. "1"; len = λ s. 1 }

-- One more event is ready at each turn, and the store never fails.
abbrev world : World
world = record {
  ready = λ n. 1;
  write_messages = λ n. true;
  increment_dropped_messages = true;
  close_session = true;
}

abbrev sent : ℕ → McpMessage
sent n = record {
  seq = n;
  timestamp_ns = pos n;
  direction = client_to_server;
  payload = object (field "method" (string "ping") end);
  payload_bytes = 17;
}

abbrev messages : List McpMessage
messages = sent 1 ∷ sent 0 ∷ []

abbrev ended : Close
ended = record { ended_at_ns = pos 9; dropped_messages = 0 }

abbrev redactor : Redactor
redactor = record { policy = verbatim; keys = [] }

run-answers_example :
    (result : Result Failure (Unit {0})) × ((run world texts redactor 3
        (session_events messages ended)
        start).0
      ≡ some result)
    × ((run world texts redactor 3 (session_events messages ended) start).1.reorder.pending ≡ [])
run-answers_example = run-answers world texts redactor messages ended 3 (omega arith)

recording-ok : (run world texts redactor 3 (session_events messages ended) start).0 ≡ some (ok tt)
unfolding run collect process reorder_batch take_in insert_sorted release release_from released
    redact_batch redact_one redact_with_context observe after_gap responder_of observe_side get
    lookup as_db_str chunks_from write_chunks write_chunk close_writer
recording-ok = refl

run_complete_example :
    (ended.dropped_messages ≡ 0)
    × (count
          (numbered 0)
          (run world texts redactor 3 (session_events messages ended) start).1.stored
        ≡ count (numbered 0) messages)
run_complete_example =
    run_complete world texts redactor messages ended 3 0 (omega arith) recording-ok
