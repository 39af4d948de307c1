-- ===== src/Writer/Thread/Ends.antt =====
-- How a recording ends.
use mcptracer.Common.{
  ℕ, ◌<◌, ◌≡◌, sym, ◌∙◌, some, some-injective, List, [], length, count, arith, Result, ok,
}
use mcptracer.Protocol.Message.{McpMessage}
use mcptracer.Redact.Policy.{Redactor}
use mcptracer.Redact.Context.{Texts}
use mcptracer.Writer.Thread.{Close, Failure, World, start, run}
use mcptracer.Writer.Thread.Stages.{numbered}
use mcptracer.Writer.Thread.Complete.{session_events, run-Answered}

module _ (world : World) (texts : Texts) (redactor : Redactor) (ms : List McpMessage) (c : Close)
    (fuel : ℕ) where
  -- A recording that is closed is answered, whatever the store does and however its events fall into
  -- batches, and then the reorder buffer is empty; fuel for one turn per event is enough.
  pub run-answers :
      length ms < fuel
      → (result : Result Failure (Unit {0})) × ((run world texts redactor fuel
            (session_events ms c)
            start).0
          ≡ some result)
        × ((run world texts redactor fuel (session_events ms c) start).1.reorder.pending ≡ [])
  run-answers h =
      let a = run-Answered 0 world texts redactor c fuel ms start h in
      (a.result, a.returned, a.emptied)

  -- The answer `Ok(())` means a complete capture: the pumps dropped nothing, and of each number the
  -- store holds as many messages as were sent with it.
  pub run_complete :
      (n : ℕ)
      → length ms < fuel
      → (run world texts redactor fuel (session_events ms c) start).0 ≡ some (ok tt)
      → (c.dropped_messages ≡ 0)
        × (count (numbered n) (run world texts redactor fuel (session_events ms c) start).1.stored
            ≡ count (numbered n) ms)
  run_complete n h k =
      let a = run-Answered n world texts redactor c fuel ms start h in
      let (_, undropped, counts) = a.complete (some-injective _ _ (sym a.returned ∙ k)) in
      (undropped, omega (arith, counts))
