-- ===== src/Writer/Thread/Complete.antt =====
-- A session that is closed is answered, and a good answer means that nothing was lost.
use mcptracer.Common.{
  ℕ, suc, zero, ◌+◌, ◌≤◌, ◌<◌, Bool, true, false, not, ◌&&◌, ◌≡◌, refl, sym, ap, ◌∙◌, inl, inr,
  Option, none, some, List, [], ◌∷◌, ◌++◌, length, count, count-append, append-nil, append_assoc,
  ltb, arith, if◌then◌else◌, Bool-cases, Result, ok,
}
use mcptracer.Protocol.Message.{McpMessage}
use mcptracer.Redact.Policy.{Redactor}
use mcptracer.Redact.Context.{Texts}
use mcptracer.Writer.Pump.{saturating_add}
use mcptracer.Writer.Reorder.{Entry, Reorder, take_in, release}
use mcptracer.Writer.Reorder.Gaps.{messages, rests, release-Released}
use mcptracer.Writer.Thread.Stages.{numbered, held, process-Intact}
use mcptracer.Writer.Thread.{
  Close, StorageEvent, message, close, Failure, accounting, capture_lost, finalize, World, Writer,
  get_or_insert, fail_if, collect, storage_write_batch_messages, reorder_batch, redact_one,
  redact_batch, write_chunk, write_chunks, answer, close_writer, process, run,
}

redact_batch-pending :
    (texts : Texts) (redactor : Redactor) (ms : List McpMessage) (w : Writer)
    → (redact_batch texts redactor ms w).1.reorder.pending ≡ w.reorder.pending
unfolding redact_batch redact_one
redact_batch-pending texts redactor [] w = refl
redact_batch-pending texts redactor (m ∷ ms) w =
    redact_batch-pending texts redactor ms (redact_one texts redactor m w).1

write_chunk-pending :
    (world : World) (b : List McpMessage) (w : Writer)
    → (write_chunk world b w).reorder.pending ≡ w.reorder.pending
unfolding write_chunk
write_chunk-pending world b w = ground arith

write_chunks-pending :
    (world : World) (bs : List (List McpMessage)) (w : Writer)
    → (write_chunks world bs w).reorder.pending ≡ w.reorder.pending
unfolding write_chunks
write_chunks-pending world [] w = refl
write_chunks-pending world (b ∷ bs) w =
    write_chunks-pending world bs (write_chunk world b w) ∙ write_chunk-pending world b w

rests_closed : (r : Reorder) (es : List Entry) → r.pending ≡ es → rests true r ≡ true → es ≡ []
rests_closed r [] e h = refl
rests_closed r (x ∷ xs) e h = absurd (ahead (rw (e, rests) at h))
  where
    ahead : (ltb r.next_seq x.message.seq && false) ≡ true → ⊥
    ahead h = ground arith

process-empties :
    (world : World) (texts : Texts) (redactor : Redactor) (ms : List McpMessage) (w : Writer)
    → (process world texts redactor true ms w).reorder.pending ≡ []
unfolding process reorder_batch
process-empties world texts redactor ms w =
    let t = take_in ms w.reorder in
    write_chunks-pending world _ _
    ∙ (redact_batch-pending texts redactor _ _
        ∙ rests_closed (release true t).1 _ refl (release-Released true t).2)

-- The events of a recording: its messages, then the close.
abbrev pub session_events : List McpMessage → Close → List StorageEvent
session_events [] c = close c ∷ []
session_events (m ∷ ms) c = message m ∷ session_events ms c

abbrev Collected :
    List McpMessage
    → List McpMessage
    → Close
    → List McpMessage × Option Close × List StorageEvent
    → Type 0
Collected acc ms c (taken, none, rest) =
    (left : List McpMessage) × (rest ≡ session_events left c)
    × (taken ++ left ≡ acc ++ ms)
    × (length left ≤ length ms)
Collected acc ms c (taken, some d, rest) = (d ≡ c) × (taken ≡ acc ++ ms)

collect-Collected :
    (n : ℕ) (acc ms : List McpMessage) (c : Close)
    → Collected acc ms c (collect n acc (session_events ms c))
unfolding collect
collect-Collected zero acc ms c = (ms, refl, refl, omega arith)
collect-Collected (suc n) acc [] c =
    elim (Bool-cases (ltb (length acc) storage_write_batch_messages)) [
      | inl e ↦ rw e (refl, sym (append-nil acc))
      | inr e ↦ rw e ([], refl, refl, omega arith)
    ]
collect-Collected (suc n) acc (m ∷ ms) c =
    let later = collect-Collected n (acc ++ (m ∷ [])) ms c in
    elim (Bool-cases (ltb (length acc) storage_write_batch_messages)) [
      | inl e ↦ rw e (widened acc m ms c _ later)
      | inr e ↦ rw e (m ∷ ms, refl, refl, omega arith)
    ]
  where
    widened :
        (acc : List McpMessage) (m : McpMessage) (ms : List McpMessage) (c : Close)
        (o : List McpMessage × Option Close × List StorageEvent)
        → Collected (acc ++ (m ∷ [])) ms c o
        → Collected acc (m ∷ ms) c o
    widened acc m ms c (taken, none, rest) (left, a, b, d) =
        (left, a, b ∙ append_assoc acc (m ∷ []) ms, omega arith)
    widened acc m ms c (taken, some x, rest) (a, b) = (a, b ∙ append_assoc acc (m ∷ []) ms)

get_or_insert-some : (o : Option Failure) (f : Failure) → get_or_insert o f ≡ none → ⊥
get_or_insert-some none f h = cc h
get_or_insert-some (some g) f h = cc h

-- The close adds no failure: there was none, and nothing was dropped or failed.
record Clean (w : Writer) (c : Close) : Type 0 where
  no_failure : w.first_failure ≡ none
  undropped : c.dropped_messages ≡ 0

no_total : (a b : ℕ) → saturating_add a b ≡ 0 → a ≡ 0
no_total a b h = ground arith

account-clean :
    (world : World) (b inc : Bool) (total : ℕ) (w : Writer)
    → (if b
        then (if inc
            then record w {
              reported_dropped = some total;
              first_failure = get_or_insert w.first_failure (capture_lost total);
            }
            else record w { first_failure = get_or_insert w.first_failure accounting })
        else w).first_failure
      ≡ none
    → (b ≡ false) × (w.first_failure ≡ none)
account-clean world true true total w h = absurd (get_or_insert-some w.first_failure _ h)
account-clean world true false total w h = absurd (get_or_insert-some w.first_failure _ h)
account-clean world false inc total w h = (refl, h)

fail_if-none : (b : Bool) (o : Option Failure) (f : Failure) → fail_if b o f ≡ none → o ≡ none
fail_if-none true o f h = absurd (get_or_insert-some o f h)
fail_if-none false o f h = h

answer-none : (world : World) (o : Option Failure) → answer world o ≡ ok tt → o ≡ none
answer-none world none h = refl
answer-none world (some f) h = absurd (cc h)

zero_test : (a : ℕ) → ltb 0 a ≡ false → a ≡ 0
zero_test a h = ground arith

module _ (world : World) (c : Close) (w : Writer) where
  close_writer-Clean : (close_writer world c w).0 ≡ ok tt → Clean w c
  unfolding close_writer
  close_writer-Clean h =
      let total = saturating_add c.dropped_messages w.reorder.failed_message_records in
      let (a, b) =
        account-clean world (ltb 0 total) world.increment_dropped_messages total w
          (fail_if-none (not world.close_session) _ finalize (answer-none world _ h)) in
      record {
        no_failure = b;
        undropped =
            no_total c.dropped_messages w.reorder.failed_message_records (zero_test total a);
      }

  close_writer-stored :
      ((close_writer world c w).1.stored ≡ w.stored)
      × ((close_writer world c w).1.reorder.pending ≡ w.reorder.pending)
  unfolding close_writer
  close_writer-stored = ground arith

-- The answer to a session that began with the writer `w`.
pub record Answered (n : ℕ) (ms : List McpMessage) (c : Close) (w : Writer)
    (o : Option (Result Failure (Unit {0})) × Writer) : Type 0 where
  pub result : Result Failure (Unit {0})
  pub returned : o.0 ≡ some result
  pub emptied : o.1.reorder.pending ≡ []
  pub complete :
      result ≡ ok tt
      → (w.first_failure ≡ none)
        × (c.dropped_messages ≡ 0)
        × (count (numbered n) o.1.stored
            ≡ count (numbered n) ms + (count (numbered n) w.stored + held n w.reorder))

module _ (n : ℕ) (world : World) (texts : Texts) (redactor : Redactor) (c : Close) where
  finish-Answered :
      (ms taken : List McpMessage) (w : Writer)
      → taken ≡ ms
      → Answered n ms c w (
        some (close_writer world c (process world texts redactor true taken w)).0,
        (close_writer world c (process world texts redactor true taken w)).1,
      )
  finish-Answered ms taken w e =
      let u = process world texts redactor true taken w in
      let (s, p) = close_writer-stored world c u in
      record {
        result = (close_writer world c u).0;
        returned = refl;
        emptied = p ∙ process-empties world texts redactor taken w;
        complete = λ h.
            let clean = close_writer-Clean world c u h in
            let (i, counts) = process-Intact n world texts redactor true taken w clean.no_failure in
            (
              i.before,
              clean.undropped,
              omega (
                arith,
                counts,
                ap (count (numbered n)) s,
                ap (count (numbered n)) e,
                ap (λ (l : List Entry). count (numbered n) (messages l))
                    (process-empties world texts redactor taken w),
              ),
            );
      }

  later-Answered :
      (ms taken left : List McpMessage) (w : Writer)
      (o : Option (Result Failure (Unit {0})) × Writer)
      → taken ++ left ≡ ms
      → Answered n left c (process world texts redactor false taken w) o
      → Answered n ms c w o
  later-Answered ms taken left w o e a = record {
    result = a.result;
    returned = a.returned;
    emptied = a.emptied;
    complete = λ h.
        let (no_failure, undropped, counts) = a.complete h in
        let (i, more) = process-Intact n world texts redactor false taken w no_failure in
        (
          i.before,
          undropped,
          omega (
            arith,
            counts,
            more,
            ap (count (numbered n)) (sym e),
            count-append (numbered n) taken left,
          ),
        );
  }

  abbrev continued :
      ℕ
      → Writer
      → List McpMessage × Option Close × List StorageEvent
      → Option (Result Failure (Unit {0})) × Writer
  continued fuel w (taken, closing, rest) =
      elim closing as (λ _. Option (Result Failure (Unit {0})) × Writer) [
        | none ↦ run world texts redactor fuel rest (process world texts redactor false taken w)
        | some d ↦
            let (result, u) = close_writer world d (process world texts redactor true taken w) in
            (some result, u)
      ]

  continued-Answered :
      (fuel : ℕ) (m : McpMessage) (ms : List McpMessage) (w : Writer)
      (o : List McpMessage × Option Close × List StorageEvent)
      → Collected (m ∷ []) ms c o
      → ((left : List McpMessage)
          → length left ≤ length ms
          → (v : Writer)
          → Answered n left c v (run world texts redactor fuel (session_events left c) v))
      → Answered n (m ∷ ms) c w (continued fuel w o)
  continued-Answered fuel m ms w (taken, none, rest) (left, a, b, d) ih =
      later-Answered (m ∷ ms) taken left w _ b
        (rw a (ih left d (process world texts redactor false taken w)))
  continued-Answered fuel m ms w (taken, some d, rest) (a, b) ih =
      rw a (finish-Answered (m ∷ ms) taken w b)

  pub run-Answered :
      (fuel : ℕ) (ms : List McpMessage) (w : Writer)
      → length ms < fuel
      → Answered n ms c w (run world texts redactor fuel (session_events ms c) w)
  unfolding run
  run-Answered zero ms w h = absurd (omega arith)
  run-Answered (suc fuel) [] w h = finish-Answered [] [] w refl
  run-Answered (suc fuel) (m ∷ ms) w h =
      continued-Answered fuel m ms w _
        (collect-Collected (world.ready (length (session_events ms c))) (m ∷ []) ms c)
        (λ left d v. run-Answered fuel left v (omega arith))
