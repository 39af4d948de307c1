-- ===== src/Writer/Thread.antt =====
-- crates/mcptracer-proxy/src/session_writer.rs: the storage writer thread, from the channel to the end
-- of the session. The channel is the list of its events in the order they arrive; how many of them
-- `try_recv` finds ready, and whether each call of the store succeeds, are the record `World`. The
-- reservation that comes with a message is released with it and is left out, as is the test barrier.
pub mod Stages
pub mod Complete
pub mod Ends
use mcptracer.Common.{
  ℕ, ℤ, suc, zero, ◌+◌, String, Bool, true, false, not, ◌&&◌, ◌||◌, Option, none, some, List, [],
  ◌∷◌, ◌++◌, length, leb, ltb, ◌==◌, if◌then◌else◌, Result, ok, err,
}
use mcptracer.Json.{Value}
use mcptracer.Protocol.Message.{McpMessage, as_db_str}
use mcptracer.Redact.Walk.{RedactionContext}
use mcptracer.Redact.Policy.{Redactor, is_active_policy, redact_with_context}
use mcptracer.Redact.Context.{Texts, Tracker, default, observe}
use mcptracer.Writer.Pump.{saturating_add}
use mcptracer.Writer.Reorder.{Reorder, take_in, release}

abbrev pub storage_write_batch_messages : ℕ
storage_write_batch_messages = 128

pub record Close : Type 0 where
  pub ended_at_ns : ℤ
  pub dropped_messages : ℕ

pub data StorageEvent : Type 0 where
  message : McpMessage → StorageEvent
  close : Close → StorageEvent

-- The texts of `first_failure`.
pub data Failure : Type 0 where
  sequence_context request_context persist_records accounting finalize : Failure
  capture_lost : ℕ → Failure

pub record World : Type 0 where
  -- the events that `try_recv` finds, by the number of events not yet received
  pub ready : ℕ → ℕ
  -- whether the next call of `write_messages` succeeds, by the number of calls before it
  pub write_messages : ℕ → Bool
  pub increment_dropped_messages : Bool
  pub close_session : Bool

pub record Writer : Type 0 where
  -- with `failed_message_records` and `context_loss_reported`
  pub reorder : Reorder
  pub first_failure : Option Failure
  pub redaction_context : Tracker
  pub calls : ℕ
  -- what the store holds
  pub stored : List McpMessage
  -- the count that `increment_dropped_messages` was called with
  pub reported_dropped : Option ℕ

-- The thread's variables before its loop.
abbrev pub start : Writer
start = record {
  reorder = record {
    pending = [];
    next_seq = 0;
    arrival = 0;
    failed_message_records = 0;
    context_loss_reported = false;
  };
  first_failure = none;
  redaction_context = default;
  calls = 0;
  stored = [];
  reported_dropped = none;
}

abbrev pub get_or_insert : Option Failure → Failure → Option Failure
get_or_insert none f = some f
get_or_insert (some g) f = some g

abbrev pub fail_if : Bool → Option Failure → Failure → Option Failure
fail_if b o f = if b then get_or_insert o f else o

-- `collect_storage_event` and the loop of `try_recv` around it.
unfoldable pub collect :
    ℕ → List McpMessage → List StorageEvent → List McpMessage × Option Close × List StorageEvent
collect zero ms es = (ms, none, es)
collect (suc n) ms [] = (ms, none, [])
collect (suc n) ms (message m ∷ es) =
    let rest = collect n (ms ++ (m ∷ [])) es in
    if ltb (length ms) storage_write_batch_messages then rest else (ms, none, message m ∷ es)
collect (suc n) ms (close c ∷ es) =
    if ltb (length ms) storage_write_batch_messages
    then (ms, some c, es)
    else (ms, none, close c ∷ es)

abbrev pub first_event :
    World → StorageEvent → List StorageEvent → List McpMessage × Option Close × List StorageEvent
first_event world (message m) es = collect (world.ready (length es)) (m ∷ []) es
first_event world (close c) es = ([], some c, es)

abbrev pub is_some_close : Option Close → Bool
is_some_close none = false
is_some_close (some c) = true

-- The messages enter the buffer, and those whose turn it is leave it. A loss of context is reported
-- at most once, and is a failure.
unfoldable pub reorder_batch : Bool → List McpMessage → Writer → List McpMessage × Writer
reorder_batch closing ms w =
    let (out, r) = release closing (take_in ms w.reorder) in
    (
      out,
      record w {
        reorder = r;
        first_failure =
            fail_if (r.context_loss_reported && not w.reorder.context_loss_reported) w.first_failure
              sequence_context;
      },
    )

-- The tracker has lost context, the redactor is active, and that was not reported.
abbrev pub loses_request_context : Redactor → Tracker → Reorder → Bool
loses_request_context redactor t r =
    is_active_policy redactor.policy && (t.lost_context && not r.context_loss_reported)

abbrev pub with_payload : McpMessage → Value → McpMessage
with_payload m v = record m { payload = v }

-- One turn of the loop that redacts the batch.
abbrev pub redacted :
    Redactor → McpMessage → RedactionContext × Tracker → Writer → McpMessage × Writer
redacted redactor m (context, t) w =
    let lost = loses_request_context redactor t w.reorder in
    (
      with_payload m (redact_with_context redactor m.payload context),
      record w {
        reorder = record w.reorder {
          failed_message_records =
              if lost
              then saturating_add w.reorder.failed_message_records 1
              else w.reorder.failed_message_records;
          context_loss_reported = w.reorder.context_loss_reported || lost;
        };
        first_failure = fail_if lost w.first_failure request_context;
        redaction_context = t;
      },
    )

module _ (texts : Texts) (redactor : Redactor) where
  unfoldable pub redact_one : McpMessage → Writer → McpMessage × Writer
  redact_one m w =
      redacted redactor m
        (observe texts w.redaction_context m.seq (as_db_str m.direction) m.payload) w

  unfoldable pub redact_batch : List McpMessage → Writer → List McpMessage × Writer
  redact_batch [] w = ([], w)
  redact_batch (m ∷ ms) w =
      let (n, u) = redact_one m w in let (out, v) = redact_batch ms u in (n ∷ out, v)

-- `chunks(STORAGE_WRITE_BATCH_MESSAGES)`, with the chunk that is being filled.
unfoldable pub chunks_from : List McpMessage → List McpMessage → List (List McpMessage)
chunks_from [] [] = []
chunks_from (c ∷ cs) [] = (c ∷ cs) ∷ []
chunks_from cs (m ∷ ms) =
    let same = chunks_from (cs ++ (m ∷ [])) ms in
    let next = chunks_from (m ∷ []) ms in
    if ltb (length cs) storage_write_batch_messages then same else cs ∷ next

module _ (world : World) where
  unfoldable pub write_chunk : List McpMessage → Writer → Writer
  write_chunk batch w =
      if world.write_messages w.calls
      then record w { calls = suc w.calls; stored = w.stored ++ batch }
      else record w {
        calls = suc w.calls;
        reorder = record w.reorder {
          failed_message_records = saturating_add w.reorder.failed_message_records (length batch);
        };
        first_failure = get_or_insert w.first_failure persist_records;
      }

  unfoldable pub write_chunks : List (List McpMessage) → Writer → Writer
  write_chunks [] w = w
  write_chunks (b ∷ bs) w = write_chunks bs (write_chunk b w)

  -- The accounting behind a close, and the answer to it.
  abbrev pub account : ℕ → Writer → Writer
  account total w =
      if ltb 0 total
      then (if world.increment_dropped_messages
          then record w {
            reported_dropped = some total;
            first_failure = get_or_insert w.first_failure (capture_lost total);
          }
          else record w { first_failure = get_or_insert w.first_failure accounting })
      else w

  abbrev pub answer : Option Failure → Result Failure (Unit {0})
  answer none = ok tt
  answer (some f) = err f

  unfoldable pub close_writer : Close → Writer → Result Failure (Unit {0}) × Writer
  close_writer c w =
      let u = account (saturating_add c.dropped_messages w.reorder.failed_message_records) w in
      let v = record u {
        first_failure = fail_if (not world.close_session) u.first_failure finalize;
      } in
      (answer v.first_failure, v)

module _ (world : World) (texts : Texts) (redactor : Redactor) where
  -- A batch, from the buffer to the store.
  unfoldable pub process : Bool → List McpMessage → Writer → Writer
  process closing ms w =
      let (out, u) = reorder_batch closing ms w in
      let (masked, v) = redact_batch texts redactor out u in
      write_chunks world (chunks_from [] masked) v

  -- The loop of the thread; `none` where it ends without an answer, or where the fuel is out.
  unfoldable pub run : ℕ → List StorageEvent → Writer → Option (Result Failure (Unit {0})) × Writer
  run zero es w = (none, w)
  run (suc fuel) [] w = (none, w)
  run (suc fuel) (e ∷ es) w =
      let (ms, closing, rest) = first_event world e es in
      elim closing as (λ _. Option (Result Failure (Unit {0})) × Writer) [
        | none ↦ run fuel rest (process false ms w)
        | some c ↦ let (result, u) = close_writer world c (process true ms w) in (some result, u)
      ]
