-- ===== src/Writer/Pump/Drain.antt =====
-- A whole call of `drain_frames`: what it forwards, what it records, and how it ends.
use mcptracer.Common.{
  ℕ, zero, suc, ◌+◌, ◌^◌, ◌≤◌, ◌<◌, true, ◌≡◌, refl, sym, ap, subst, ◌∙◌, Option, some,
  some-injective, [], ◌∷◌, ◌++◌, length, count-append, length-append, ◌==◌, append_assoc, arith,
  All, Bool-cases, ltb, ◌⊎◌, inl, inr,
}
use mcptracer.Protocol.Message.{Direction, McpMessage}
use mcptracer.Protocol.Sse.{Bytes, max_frame_bytes}
use mcptracer.Protocol.Stdio.{one_line, StdioFrame, parse_stdio_frame}
use mcptracer.Writer.Pump.{
  World, Pump, Turn, continue, stop, Ending, returned_ok, returned_err, waiting, blocked,
  flush_blocked, forward_frame, reserve_capture_stamp, drain_turn, drain_loop, drain_frames,
}
use mcptracer.Writer.Pump.Forward.{
  newlines, newlines-one_line, Write-cases, Flush-cases, Parse-cases, Passed, Stopped, TurnFrom,
  drain_turn-TurnFrom,
}

abbrev pub Small : Pump → Type 0
Small s = All (λ (m : McpMessage). m.payload_bytes < max_frame_bytes) s.stored

-- What a call that returns `done` leaves.
pub record IsDrained (s : Pump) (done : Ending) (t : Pump) : Type 0 where
  pub forwarded : Bytes
  pub rest : Bytes
  pub splits : s.buf ≡ forwarded ++ rest
  pub passed : t.wire ≡ s.wire ++ forwarded
  -- where the pump goes on, what is left is one unfinished line, and every line that was passed on
  -- is on the channel or counted
  pub left : done ≡ returned_ok → (t.buf ≡ rest) × (one_line rest ≡ true)
  pub accounted :
      done ≡ returned_ok
      → s.dropped_messages + newlines forwarded < 2 ^ 64
      → length t.stored + t.dropped_messages
        ≡ length s.stored + s.dropped_messages + newlines forwarded
  pub small : Small s → Small t

Stopped-IsDrained : (s t : Pump) (b : Ending) → Stopped b s t → IsDrained s b t
Stopped-IsDrained s t b p = record {
  forwarded = p.first;
  rest = p.rest;
  splits = p.splits;
  passed = p.passed;
  left = λ h.
      let (e, o, f) = p.finished h in
      let r = p.splits ∙ ap (λ (l : Bytes). l ++ p.rest) f in
      (ap (λ (x : Pump). x.buf) e ∙ r, rw (sym r) o);
  accounted = λ h k. let (e, o, f) = p.finished h in rw (e, f) (omega arith);
  small = λ h. rw p.same_stored h;
}

Passed-IsDrained : (s t u : Pump) (b : Ending) → Passed s t → IsDrained t b u → IsDrained s b u
Passed-IsDrained s t u b p d = record {
  forwarded = p.line ++ d.forwarded;
  rest = d.rest;
  splits =
      p.splits
      ∙ (ap (λ (l : Bytes). p.line ++ l) d.splits ∙ sym (append_assoc p.line d.forwarded d.rest));
  passed =
      d.passed
      ∙ (ap (λ (l : Bytes). l ++ d.forwarded) p.passed ∙ append_assoc s.wire p.line d.forwarded);
  left = d.left;
  accounted = λ h k.
      let c = count-append (λ c. c == b'\n') p.line d.forwarded in
      let e = p.counted (omega (arith, p.one, c)) in
      let q = p.counter (omega (arith, p.one, c)) in
      let r = d.accounted h (omega (arith, p.one, c)) in omega (arith, p.one, c, e, r);
  small = λ h. d.small (p.stored_bytes h);
}

newlines_le : (bs : Bytes) → newlines bs ≤ length bs
newlines_le [] = omega arith
newlines_le (c ∷ cs) = ground (arith, newlines_le cs)

Passed-length : (s t : Pump) → Passed s t → length t.buf < length s.buf
Passed-length s t p =
    rw (p.splits, length-append p.line t.buf) (omega (arith, p.one, newlines_le p.line))

Turn-cases :
    (r : Turn) → ((t : Pump) × (r ≡ continue t)) ⊎ ((b : Ending) × (t : Pump) × (r ≡ stop b t))
Turn-cases (continue t) = inl (t, refl)
Turn-cases (stop b t) = inr (b, t, refl)

-- What a loop gives.
abbrev Returns : Pump → Option (Ending × Pump) → Type 0
Returns s r = (b : Ending) × (t : Pump) × (r ≡ some (b, t)) × IsDrained s b t

module _ (world : World) (direction : Direction) where
  drain_loop-Returns :
      (fuel : ℕ) (s : Pump) → length s.buf < fuel → Returns s (drain_loop world direction fuel s)
  unfolding drain_loop
  drain_loop-Returns zero s h = absurd (omega arith)
  drain_loop-Returns (suc fuel) s h = elim (Turn-cases (drain_turn world direction s)) [
    | inl (t, e) ↦
        let p = subst (λ (r : Turn). TurnFrom s r) e (drain_turn-TurnFrom world direction s) in
        let (b, u, r, d) = drain_loop-Returns fuel t (omega (arith, Passed-length s t p)) in
        (b, u, rw (e, drain_loop) r, Passed-IsDrained s t u b p d)
    | inr (b, t, e) ↦
        let p = subst (λ (r : Turn). TurnFrom s r) e (drain_turn-TurnFrom world direction s) in
        (b, t, rw (e, drain_loop) refl, Stopped-IsDrained s t b p)
  ]

  drain_frames-Returns : (s : Pump) → Returns s (drain_frames world direction s)
  unfolding drain_frames
  drain_frames-Returns s = drain_loop-Returns (suc (length s.buf)) s (omega arith)

  drain_frames-IsDrained :
      (s t : Pump) (b : Ending) → drain_frames world direction s ≡ some (b, t) → IsDrained s b t
  drain_frames-IsDrained s t b e =
      let (c, u, r, d) = drain_frames-Returns s in
      let q = some-injective _ _ (sym r ∙ e) in
      subst (λ (o : Ending × Pump). IsDrained s o.0 o.1) q d

drained-newlines :
    (s t : Pump) (d : IsDrained s returned_ok t) → newlines s.buf ≡ newlines d.forwarded
drained-newlines s t d =
    rw
      (
        d.splits,
        count-append (λ c. c == b'\n') d.forwarded d.rest,
        newlines-one_line d.rest (d.left refl).1,
      )
      (omega arith)

-- A call waits for ever only where the pipe does, in a write or a flush of its last turn.
abbrev pub WaitsFor : World → Ending → ℕ → Type 0
WaitsFor world waiting turn =
    ((n : ℕ) × (world.write_all turn ≡ blocked n)) ⊎ (world.flush turn ≡ flush_blocked)
WaitsFor world returned_ok turn = Unit
WaitsFor world returned_err turn = Unit

abbrev TurnWaits : World → Turn → Type 0
TurnWaits world (continue t) = Unit
TurnWaits world (stop b t) = WaitsFor world b t.turn

module _ (world : World) (direction : Direction) where
  forward_frame-WaitsFor :
      (f : StdioFrame) (s : Pump) → TurnWaits world (forward_frame world direction f s)
  unfolding forward_frame reserve_capture_stamp
  forward_frame-WaitsFor f s = elim (Write-cases (world.write_all s.turn)) [
    | inr (inl (n, e)) ↦ rw (e, forward_frame) tt
    | inr (inr (n, e)) ↦ rw (e, forward_frame) (inl (n, e))
    | inl e ↦ elim (Flush-cases (world.flush s.turn)) [
      | inl k ↦ rw (e, k, forward_frame) tt
      | inr (inl k) ↦ rw (e, k, forward_frame) tt
      | inr (inr k) ↦ rw (e, k, forward_frame) (inr k)
    ]
  ]

  drain_turn-WaitsFor : (s : Pump) → TurnWaits world (drain_turn world direction s)
  unfolding drain_turn
  drain_turn-WaitsFor s = elim (Parse-cases (parse_stdio_frame s.buf)) [
    | inl e ↦ rw (e, drain_turn) tt
    | inr (inl (f, e)) ↦ elim (Bool-cases (ltb max_frame_bytes f.consumed)) [
      | inl k ↦ rw (e, k, drain_turn) tt
      | inr k ↦ rw (e, k, drain_turn) (forward_frame-WaitsFor f s)
    ]
    | inr (inr (x, e)) ↦ rw (e, drain_turn) tt
  ]

  drain_loop-WaitsFor :
      (fuel : ℕ) (s t : Pump) (b : Ending)
      → drain_loop world direction fuel s ≡ some (b, t)
      → WaitsFor world b t.turn
  unfolding drain_loop
  drain_loop-WaitsFor zero s t b h = absurd (cc h)
  drain_loop-WaitsFor (suc fuel) s t b h = elim (Turn-cases (drain_turn world direction s)) [
    | inl (u, e) ↦ drain_loop-WaitsFor fuel u t b (rw (e, drain_loop) at h)
    | inr (c, u, e) ↦
        let q = some-injective _ _ (rw (e, drain_loop) at h) in
        subst (λ (o : Ending × Pump). WaitsFor world o.0 o.1.turn) q
          (subst (TurnWaits world) e (drain_turn-WaitsFor s))
  ]

-- Whatever the clock, the pipe, the channel and the other tasks do, a call of `drain_frames` returns or
-- waits in a write or a flush of the pipe that never completes; and the bytes it gave to the writer are
-- a prefix of its buffer, in order and unchanged.
pub drain_frames-forwards :
    (world : World) (direction : Direction) (s : Pump)
    → (b : Ending) × (t : Pump) × (forwarded : Bytes) × (rest : Bytes) × (drain_frames world
          direction s
        ≡ some (b, t))
      × WaitsFor world b t.turn
      × (s.buf ≡ forwarded ++ rest)
      × (t.wire ≡ s.wire ++ forwarded)
unfolding drain_frames
drain_frames-forwards world direction s =
    let (b, t, e, d) = drain_frames-Returns world direction s in
    (
      b,
      t,
      d.forwarded,
      d.rest,
      e,
      drain_loop-WaitsFor world direction (suc (length s.buf)) s t b e,
      d.splits,
      d.passed,
    )

-- Where a call returns with success, and the 64-bit counter of dropped records is too low to wrap, it has
-- forwarded every complete line of its buffer and left the bytes after the last newline; and the
-- records on the channel and the dropped records grew together by exactly the number of those lines.
pub drain_frames-accounts :
    (world : World) (direction : Direction) (s t : Pump)
    → s.dropped_messages + length s.buf < 2 ^ 64
    → drain_frames world direction s ≡ some (returned_ok, t)
    → (forwarded : Bytes) × (s.buf ≡ forwarded ++ t.buf)
      × (t.wire ≡ s.wire ++ forwarded)
      × (one_line t.buf ≡ true)
      × (length t.stored + t.dropped_messages
          ≡ length s.stored + s.dropped_messages + newlines s.buf)
drain_frames-accounts world direction s t h e =
    let d = drain_frames-IsDrained world direction s t returned_ok e in
    let (b, o) = d.left refl in
    let n = drained-newlines s t d in
    (
      d.forwarded,
      d.splits ∙ ap (λ (l : Bytes). d.forwarded ++ l) (sym b),
      d.passed,
      rw b o,
      omega (arith, n, d.accounted refl (omega (arith, n, newlines_le s.buf))),
    )

-- A call keeps every record on the channel shorter than the frame limit: if all that were on it
-- before had a payload of fewer bytes than the limit, all that are on it after do.
pub drain_frames-Small :
    (world : World) (direction : Direction) (s t : Pump) (b : Ending)
    → Small s
    → drain_frames world direction s ≡ some (b, t)
    → Small t
drain_frames-Small world direction s t b h e =
    (drain_frames-IsDrained world direction s t b e).small h
