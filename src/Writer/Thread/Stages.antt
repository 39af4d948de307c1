-- ===== src/Writer/Thread/Stages.antt =====
-- A batch that meets no failure loses no message on its way through the writer.
use Prim.Native.Nat.{◌%◌}
use mcptracer.Common.{
  ℕ, ◌+◌, ◌^◌, Bool, true, false, not, ◌&&◌, ◌||◌, ◌≡◌, refl, sym, ap, ◌∙◌, subst, Option, none,
  some, List, [], ◌∷◌, ◌++◌, length, count, count-append, append-nil, append_assoc, ltb, ◌==◌,
  arith, Bool-cases, inl, inr,
}
use mcptracer.Common.Sort.{insert_sorted}
use mcptracer.Common.Sort.Laws.{count-insert_sorted}
use mcptracer.Protocol.Message.{McpMessage, as_db_str}
use mcptracer.Redact.Policy.{Redactor}
use mcptracer.Redact.Context.{Texts, observe}
use mcptracer.Writer.Reorder.{
  Entry, Reorder, entry_le, take_in, waits, loses_context, released, release_from, release,
}
use mcptracer.Writer.Reorder.Gaps.{messages, release-Released, release_from-reports}
use mcptracer.Writer.Thread.{
  Failure, sequence_context, request_context, persist_records, Writer, World, fail_if,
  get_or_insert, reorder_batch, loses_request_context, redact_one, redact_batch, chunks_from,
  storage_write_batch_messages, write_chunk, write_chunks, process,
}

-- The messages of a number.
abbrev pub numbered : ℕ → McpMessage → Bool
numbered n m = m.seq == n

abbrev pub held : ℕ → Reorder → ℕ
held n r = count (numbered n) (messages r.pending)

module _ (n : ℕ) where
  count-messages :
      (es : List Entry)
      → count (numbered n) (messages es) ≡ count (λ (e : Entry). numbered n e.message) es
  count-messages [] = refl
  count-messages (e ∷ es) = omega (arith, count-messages es)

  insert-held :
      (e : Entry) (es : List Entry)
      → count (λ (x : Entry). numbered n x.message) (insert_sorted entry_le e es)
        ≡ count (λ (x : Entry). numbered n x.message) (e ∷ es)
  insert-held e es = count-insert_sorted entry_le (λ (x : Entry). numbered n x.message) e es

  abbrev entered : McpMessage → Reorder → Reorder
  entered m r = record r {
    pending = insert_sorted entry_le (record { arrived = r.arrival; message = m }) r.pending;
    arrival = (r.arrival + 1) % 2 ^ 64;
  }

  take_in-held :
      (ms : List McpMessage) (r : Reorder)
      → (held n (take_in ms r) ≡ count (numbered n) ms + held n r)
        × ((take_in ms r).failed_message_records ≡ r.failed_message_records)
        × ((take_in ms r).context_loss_reported ≡ r.context_loss_reported)
  unfolding take_in
  take_in-held [] r = (omega arith, refl, refl)
  take_in-held (m ∷ ms) r =
      let e : Entry = record { arrived = r.arrival; message = m } in
      let (a, b, c) = take_in-held ms (entered m r) in
      (
        omega (
          arith,
          a,
          insert-held e r.pending,
          count-messages (insert_sorted entry_le e r.pending),
          count-messages r.pending,
        ),
        b,
        c,
      )

-- Where a run of the release loop reports no loss, it counts none.
release_from-failed :
    (closing : Bool) (es : List Entry) (r : Reorder)
    → (release_from closing es r).1.context_loss_reported ≡ r.context_loss_reported
    → (release_from closing es r).1.failed_message_records ≡ r.failed_message_records
unfolding release_from released
release_from-failed closing [] r h = refl
release_from-failed closing (e ∷ es) r h =
    let later = release_from-failed closing es (released r e es) in
    elim (Bool-cases (waits closing r e es)) [
      | inl w ↦ rw w refl
      | inr w ↦
          let k = rw w at h in
          elim (Bool-cases (loses_context r e es)) [
            | inl l ↦ absurd (
                reported_twice r e es l
                  (release_from-reports closing es (released r e es)
                    (or_true r.context_loss_reported _ l))
                  k)
            | inr l ↦ rw w (later (k ∙ kept r e es l) ∙ same_failed r e es l)
          ]
    ]
  where
    or_false : (a : Bool) → a ≡ (a || false)
    or_false a = ground arith

    or_true : (a b : Bool) → b ≡ true → (a || b) ≡ true
    or_true a b h = ground arith

    reported_twice :
        (r : Reorder) (e : Entry) (es : List Entry) {b : Bool}
        → loses_context r e es ≡ true
        → b ≡ true
        → b ≡ r.context_loss_reported
        → ⊥
    reported_twice r e es l t k = ground arith

    kept :
        (r : Reorder) (e : Entry) (es : List Entry)
        → loses_context r e es ≡ false
        → r.context_loss_reported ≡ (released r e es).context_loss_reported
    kept r e es l = rw l (or_false r.context_loss_reported)

    same_failed :
        (r : Reorder) (e : Entry) (es : List Entry)
        → loses_context r e es ≡ false
        → (released r e es).failed_message_records ≡ r.failed_message_records
    same_failed r e es l = rw l refl

release_from-keeps_report :
    (closing : Bool) (es : List Entry) (r : Reorder)
    → ((release_from closing es r).1.context_loss_reported && not r.context_loss_reported) ≡ false
    → (release_from closing es r).1.context_loss_reported ≡ r.context_loss_reported
release_from-keeps_report closing es r h =
    same _ r.context_loss_reported h (release_from-reports closing es r)
  where
    same : (a b : Bool) → (a && not b) ≡ false → (b ≡ true → a ≡ true) → a ≡ b
    same true true h k = refl
    same true false h k = cc h
    same false true h k = k refl
    same false false h k = refl

-- What a stage leaves of a writer that has met no failure.
pub record Intact (w v : Writer) : Type 0 where
  pub before : w.first_failure ≡ none
  pub failed : v.reorder.failed_message_records ≡ w.reorder.failed_message_records

fail_if-none :
    (b : Bool) (o : Option Failure) (f : Failure) → fail_if b o f ≡ none → (b ≡ false) × (o ≡ none)
fail_if-none true none f h = absurd (cc h)
fail_if-none true (some g) f h = absurd (cc h)
fail_if-none false o f h = (refl, h)

module _ (n : ℕ) where
  pub reorder_batch-Intact :
      (closing : Bool) (ms : List McpMessage) (w : Writer)
      → (reorder_batch closing ms w).1.first_failure ≡ none
      → Intact w (reorder_batch closing ms w).1
        × (count (numbered n) (reorder_batch closing ms w).0
              + held n (reorder_batch closing ms w).1.reorder
            ≡ count (numbered n) ms + held n w.reorder)
        × ((reorder_batch closing ms w).1.stored ≡ w.stored)
  unfolding reorder_batch release
  reorder_batch-Intact closing ms w h =
      let t = take_in ms w.reorder in
      let (a, b, c) = take_in-held n ms w.reorder in
      let (quiet, empty) =
        fail_if-none
          ((release_from closing t.pending t).1.context_loss_reported
            && not w.reorder.context_loss_reported)
          w.first_failure sequence_context h in
      let same = release_from-keeps_report closing t.pending t (
        subst (λ b. ((release_from closing t.pending t).1.context_loss_reported && not b) ≡ false)
          (sym c) quiet) in
      (
        record { before = empty; failed = release_from-failed closing t.pending t same ∙ b },
        omega (
          arith,
          a,
          ap (count (numbered n)) (release-Released closing t).0,
          count-append (numbered n) (release_from closing t.pending t).0
              (messages (release_from closing t.pending t).1.pending),
        ),
        refl,
      )

  module _ (texts : Texts) (redactor : Redactor) where
    redact_one-Intact :
        (m : McpMessage) (w : Writer)
        → (redact_one texts redactor m w).1.first_failure ≡ none
        → Intact w (redact_one texts redactor m w).1
          × ((redact_one texts redactor m w).0.seq ≡ m.seq)
          × ((redact_one texts redactor m w).1.reorder.pending ≡ w.reorder.pending)
          × ((redact_one texts redactor m w).1.stored ≡ w.stored)
    unfolding redact_one
    redact_one-Intact m w h =
        let c = observe texts w.redaction_context m.seq (as_db_str m.direction) m.payload in
        let (quiet, empty) =
          fail_if-none (loses_request_context redactor c.1 w.reorder) w.first_failure
            request_context h in
        (record { before = empty; failed = rw quiet refl }, refl, refl, refl)

    pub redact_batch-Intact :
        (ms : List McpMessage) (w : Writer)
        → (redact_batch texts redactor ms w).1.first_failure ≡ none
        → Intact w (redact_batch texts redactor ms w).1
          × (count (numbered n) (redact_batch texts redactor ms w).0 ≡ count (numbered n) ms)
          × ((redact_batch texts redactor ms w).1.reorder.pending ≡ w.reorder.pending)
          × ((redact_batch texts redactor ms w).1.stored ≡ w.stored)
    unfolding redact_batch
    redact_batch-Intact [] w h = (record { before = h; failed = refl }, refl, refl, refl)
    redact_batch-Intact (m ∷ ms) w h =
        let (i, c, p, s) = redact_batch-Intact ms (redact_one texts redactor m w).1 h in
        let (j, q, r, t) = redact_one-Intact m w i.before in
        (record { before = j.before; failed = i.failed ∙ j.failed }, rw (q, c) refl, p ∙ r, s ∙ t)

-- Putting the chunks together again.
abbrev concat : List (List McpMessage) → List McpMessage
concat [] = []
concat (b ∷ bs) = b ++ concat bs

concat-chunks_from : (cs ms : List McpMessage) → concat (chunks_from cs ms) ≡ cs ++ ms
unfolding chunks_from
concat-chunks_from [] [] = refl
concat-chunks_from (c ∷ cs) [] = refl
concat-chunks_from cs (m ∷ ms) =
    let same = concat-chunks_from (cs ++ (m ∷ [])) ms in
    let next = concat-chunks_from (m ∷ []) ms in
    elim (Bool-cases (ltb (length cs) storage_write_batch_messages)) [
      | inl e ↦ rw e (same ∙ append_assoc cs (m ∷ []) ms)
      | inr e ↦ rw e (ap (λ (l : List McpMessage). cs ++ l) next)
    ]

module _ (n : ℕ) (world : World) where
  write_chunk-Intact :
      (b : List McpMessage) (w : Writer)
      → (write_chunk world b w).first_failure ≡ none
      → Intact w (write_chunk world b w)
        × ((write_chunk world b w).reorder.pending ≡ w.reorder.pending)
        × ((write_chunk world b w).stored ≡ w.stored ++ b)
  unfolding write_chunk
  write_chunk-Intact b w h = elim (Bool-cases (world.write_messages w.calls)) [
    | inl e ↦ rw e (record { before = rw e at h; failed = refl }, refl, refl)
    | inr e ↦ absurd (inserted w.first_failure persist_records (rw e at h))
  ]
    where
      inserted : (o : Option Failure) (f : Failure) → get_or_insert o f ≡ none → ⊥
      inserted none f h = cc h
      inserted (some g) f h = cc h

  pub write_chunks-Intact :
      (bs : List (List McpMessage)) (w : Writer)
      → (write_chunks world bs w).first_failure ≡ none
      → Intact w (write_chunks world bs w)
        × ((write_chunks world bs w).reorder.pending ≡ w.reorder.pending)
        × ((write_chunks world bs w).stored ≡ w.stored ++ concat bs)
  unfolding write_chunks
  write_chunks-Intact [] w h =
      (record { before = h; failed = refl }, refl, sym (append-nil w.stored))
  write_chunks-Intact (b ∷ bs) w h =
      let (i, p, s) = write_chunks-Intact bs (write_chunk world b w) h in
      let (j, q, t) = write_chunk-Intact b w i.before in
      (
        record { before = j.before; failed = i.failed ∙ j.failed },
        p ∙ q,
        s ∙ (ap (λ (l : List McpMessage). l ++ concat bs) t ∙ append_assoc w.stored b (concat bs)),
      )

module _ (n : ℕ) (world : World) (texts : Texts) (redactor : Redactor) where
  -- A batch without a failure: what the store and the buffer hold grows by the messages of the batch.
  pub process-Intact :
      (closing : Bool) (ms : List McpMessage) (w : Writer)
      → (process world texts redactor closing ms w).first_failure ≡ none
      → Intact w (process world texts redactor closing ms w)
        × (count (numbered n) (process world texts redactor closing ms w).stored
              + held n (process world texts redactor closing ms w).reorder
            ≡ count (numbered n) ms + (count (numbered n) w.stored + held n w.reorder))
  unfolding process
  process-Intact closing ms w h =
      let out = (reorder_batch closing ms w).0 in
      let u = (reorder_batch closing ms w).1 in
      let masked = (redact_batch texts redactor out u).0 in
      let v = (redact_batch texts redactor out u).1 in
      let (k, p, s) = write_chunks-Intact n world (chunks_from [] masked) v h in
      let (j, c, q, t) = redact_batch-Intact n texts redactor out u k.before in
      let (i, d, x) = reorder_batch-Intact n closing ms w j.before in
      (
        record { before = i.before; failed = k.failed ∙ (j.failed ∙ i.failed) },
        omega (
          arith,
          c,
          d,
          ap (λ (l : List Entry). count (numbered n) (messages l)) p,
          ap (λ (l : List Entry). count (numbered n) (messages l)) q,
          ap (count (numbered n)) s,
          ap (count (numbered n)) t,
          ap (count (numbered n)) x,
          count-append (numbered n) v.stored (concat (chunks_from [] masked)),
          ap (count (numbered n)) (concat-chunks_from [] masked),
        ),
      )
