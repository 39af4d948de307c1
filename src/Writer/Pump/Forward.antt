-- ===== src/Writer/Pump/Forward.antt =====
-- The pump forwards the stream byte for byte and loses no frame silently.
use mcptracer.Common.{
  ℕ, zero, suc, ◌+◌, ◌^◌, ◌≤◌, ◌<◌, true, ◌≡◌, refl, sym, ap, ◌∙◌, Option, none, some, [], ◌∷◌,
  ◌++◌, length, take, drop, ltb, Bool-cases, Option-cases, Result, ok, err, count, count-append,
  length-append, ◌==◌, append_assoc, append-nil, arith, All, All-append, ◌⊎◌, inl, inr,
}
use mcptracer.Protocol.Message.{Direction, McpMessage}
use mcptracer.Protocol.Sse.{Bytes, max_frame_bytes}
use mcptracer.Protocol.Stdio.{
  StdioFrame, FrameError, parse_stdio_frame, one_line, IsFrameOf, parse_stdio_frame-IsFrameOf,
  parse_stdio_frame-none,
}
use mcptracer.Writer.Pump.{
  World, Write, written, failed, Pump, Turn, continue, stop, Ending, returned_ok, returned_err,
  waiting, Flush, flushed, flush_failed, flush_blocked, blocked, drop_message, try_record,
  decode_json_message, record_frame, forward_frame, drain_turn, reserve_capture_stamp, CaptureStamp,
}

abbrev pub newlines : Bytes → ℕ
newlines = count (λ c. c == b'\n')

pub newlines-one_line : (bs : Bytes) → one_line bs ≡ true → newlines bs ≡ 0
newlines-one_line [] h = refl
newlines-one_line (c ∷ cs) h = ground (arith, newlines-one_line cs)

frame-newlines : (buf : Bytes) (f : StdioFrame) → IsFrameOf buf f → newlines f.wire_bytes ≡ 1
frame-newlines buf f i = elim i.ended [
  | inl e ↦
      rw
        (
          e,
          count-append (λ c. c == b'\n') f.json_bytes (b'\n' ∷ []),
          newlines-one_line f.json_bytes i.json_line,
        )
        refl
  | inr e ↦
      rw
        (
          e,
          count-append (λ c. c == b'\n') f.json_bytes (b'\r' ∷ b'\n' ∷ []),
          newlines-one_line f.json_bytes i.json_line,
        )
        refl
]

frame-json_lt : (buf : Bytes) (f : StdioFrame) → IsFrameOf buf f → length f.json_bytes < f.consumed
frame-json_lt buf f i = elim i.ended [
  | inl e ↦ rw (i.counted, e, length-append f.json_bytes (b'\n' ∷ [])) (omega arith)
  | inr e ↦ rw (i.counted, e, length-append f.json_bytes (b'\r' ∷ b'\n' ∷ [])) (omega arith)
]

drop-append : (xs ys : Bytes) → drop (length xs) (xs ++ ys) ≡ ys
drop-append [] ys = refl
drop-append (x ∷ xs) ys = drop-append xs ys

-- Recording one frame: what changes is the channel or the counter.
record Recorded (limit : ℕ) (s t : Pump) : Type 0 where
  same_buf : t.buf ≡ s.buf
  same_wire : t.wire ≡ s.wire
  counted :
      suc s.dropped_messages < 2 ^ 64
      → length t.stored + t.dropped_messages ≡ suc (length s.stored + s.dropped_messages)
  counter : suc s.dropped_messages < 2 ^ 64 → t.dropped_messages ≤ suc s.dropped_messages
  stored_bytes :
      All (λ (m : McpMessage). m.payload_bytes < limit) s.stored
      → All (λ (m : McpMessage). m.payload_bytes < limit) t.stored

drop_message-Recorded : (limit : ℕ) (s : Pump) → Recorded limit s (drop_message s)
drop_message-Recorded limit s = record {
  same_buf = refl;
  same_wire = refl;
  counted = λ h. ground arith;
  counter = λ h. ground arith;
  stored_bytes = λ h. h;
}

send-Recorded :
    (limit : ℕ) (m : McpMessage) (s : Pump)
    → m.payload_bytes < limit
    → Recorded limit s (record s { stored = s.stored ++ (m ∷ []) })
send-Recorded limit m s b = record {
  same_buf = refl;
  same_wire = refl;
  counted = λ h. ground (arith, length-append s.stored (m ∷ []));
  counter = λ h. ground arith;
  stored_bytes =
      λ h. All-append (λ (m : McpMessage). m.payload_bytes < limit) s.stored (m ∷ []) h (b, tt);
}

module _ (world : World) (direction : Direction) (limit : ℕ) where
  try_record-Recorded :
      (m : McpMessage) (s : Pump)
      → m.payload_bytes < limit
      → Recorded limit s (try_record world m s)
  unfolding try_record
  try_record-Recorded m s b =
      ground (arith, drop_message-Recorded limit s, send-Recorded limit m s b)

  decoded_lt :
      (f : StdioFrame) (stamp : CaptureStamp) (m : McpMessage)
      → length f.json_bytes < limit
      → decode_json_message world f.json_bytes direction stamp ≡ some m
      → m.payload_bytes < limit
  unfolding decode_json_message
  decoded_lt f stamp m b e = ground arith

  record_frame-Recorded :
      (f : StdioFrame) (stamp : CaptureStamp) (s : Pump)
      → length f.json_bytes < limit
      → Recorded limit s (record_frame world f direction stamp s)
  unfolding record_frame
  record_frame-Recorded f stamp s b =
      elim (Option-cases (decode_json_message world f.json_bytes direction stamp)) [
        | inl e ↦ rw (e, record_frame) (drop_message-Recorded limit s)
        | inr (m, e) ↦ rw (e, record_frame) (try_record-Recorded m s (decoded_lt f stamp m b e))
      ]

-- A turn that goes on has passed one line of the buffer on.
pub record Passed (s t : Pump) : Type 0 where
  pub line : Bytes
  pub splits : s.buf ≡ line ++ t.buf
  pub passed : t.wire ≡ s.wire ++ line
  pub one : newlines line ≡ 1
  pub counted :
      suc s.dropped_messages < 2 ^ 64
      → length t.stored + t.dropped_messages ≡ suc (length s.stored + s.dropped_messages)
  pub counter : suc s.dropped_messages < 2 ^ 64 → t.dropped_messages ≤ suc s.dropped_messages
  pub stored_bytes :
      All (λ (m : McpMessage). m.payload_bytes < max_frame_bytes) s.stored
      → All (λ (m : McpMessage). m.payload_bytes < max_frame_bytes) t.stored

-- A turn that returns.
pub record Stopped (b : Ending) (s t : Pump) : Type 0 where
  pub first : Bytes
  pub rest : Bytes
  pub splits : s.buf ≡ first ++ rest
  pub passed : t.wire ≡ s.wire ++ first
  pub same_stored : t.stored ≡ s.stored
  pub finished : b ≡ returned_ok → (t ≡ s) × (one_line s.buf ≡ true) × (first ≡ [])

abbrev pub TurnFrom : Pump → Turn → Type 0
TurnFrom s (continue t) = Passed s t
TurnFrom s (stop b t) = Stopped b s t

take-drop : (n : ℕ) (xs : Bytes) → xs ≡ take n xs ++ drop n xs
take-drop zero xs = refl
take-drop (suc n) [] = refl
take-drop (suc n) (x ∷ xs) = ap (λ (l : Bytes). x ∷ l) (take-drop n xs)

pub Write-cases :
    (w : Write) → (w ≡ written) ⊎ ((n : ℕ) × (w ≡ failed n)) ⊎ ((n : ℕ) × (w ≡ blocked n))
Write-cases written = inl refl
Write-cases (failed n) = inr (inl (n, refl))
Write-cases (blocked n) = inr (inr (n, refl))

pub Flush-cases : (f : Flush) → (f ≡ flushed) ⊎ (f ≡ flush_failed) ⊎ (f ≡ flush_blocked)
Flush-cases flushed = inl refl
Flush-cases flush_failed = inr (inl refl)
Flush-cases flush_blocked = inr (inr refl)

-- The rest of the turn, once the frame is written and flushed.
Recorded-Passed :
    (s u v : Pump) (f : StdioFrame) (turn : ℕ)
    → IsFrameOf s.buf f
    → u.buf ≡ s.buf
    → u.wire ≡ s.wire ++ f.wire_bytes
    → u.stored ≡ s.stored
    → u.dropped_messages ≡ s.dropped_messages
    → Recorded max_frame_bytes u v
    → Passed s (record v { buf = drop f.consumed v.buf; turn = turn })
Recorded-Passed s u v f turn i b w o d r = record {
  line = f.wire_bytes;
  splits = rw (r.same_buf, b, i.counted, i.splits, drop-append f.wire_bytes i.rest) refl;
  passed = rw (r.same_wire, w) refl;
  one = frame-newlines s.buf f i;
  counted = rw (sym o, sym d) r.counted;
  counter = rw (sym d) r.counter;
  stored_bytes = rw (sym o) r.stored_bytes;
}

failed-Stopped :
    (b : Ending) (s t : Pump) (f : StdioFrame) (n : ℕ)
    → IsFrameOf s.buf f
    → t.stored ≡ s.stored
    → t.wire ≡ s.wire ++ take n f.wire_bytes
    → ¬ (b ≡ returned_ok)
    → Stopped b s t
failed-Stopped b s t f n i o w z = record {
  first = take n f.wire_bytes;
  rest = drop n f.wire_bytes ++ i.rest;
  splits =
      i.splits
      ∙ (ap (λ (l : Bytes). l ++ i.rest) (take-drop n f.wire_bytes)
          ∙ append_assoc (take n f.wire_bytes) (drop n f.wire_bytes) i.rest);
  passed = w;
  same_stored = o;
  finished = λ h. absurd (z h);
}

flush-Stopped :
    (b : Ending) (s t : Pump) (f : StdioFrame)
    → IsFrameOf s.buf f
    → t.stored ≡ s.stored
    → t.wire ≡ s.wire ++ f.wire_bytes
    → ¬ (b ≡ returned_ok)
    → Stopped b s t
flush-Stopped b s t f i o w z = record {
  first = f.wire_bytes;
  rest = i.rest;
  splits = i.splits;
  passed = w;
  same_stored = o;
  finished = λ h. absurd (z h);
}

same-Stopped : (b : Ending) (s : Pump) → (b ≡ returned_ok → one_line s.buf ≡ true) → Stopped b s s
same-Stopped b s h = record {
  first = [];
  rest = s.buf;
  splits = refl;
  passed = sym (append-nil s.wire);
  same_stored = refl;
  finished = λ e. (refl, h e, refl);
}

pub Parse-cases :
    (r : Result FrameError (Option StdioFrame))
    → (r ≡ ok none) ⊎ ((f : StdioFrame) × (r ≡ ok (some f))) ⊎ ((e : FrameError) × (r ≡ err e))
Parse-cases (ok none) = inl refl
Parse-cases (ok (some f)) = inr (inl (f, refl))
Parse-cases (err e) = inr (inr (e, refl))

module _ (world : World) (direction : Direction) where
  forward_frame-TurnFrom :
      (f : StdioFrame) (s : Pump)
      → IsFrameOf s.buf f
      → f.consumed ≤ max_frame_bytes
      → TurnFrom s (forward_frame world direction f s)
  unfolding forward_frame reserve_capture_stamp
  forward_frame-TurnFrom f s i b = elim (Write-cases (world.write_all s.turn)) [
    | inr (inl (n, e)) ↦
        rw (e, forward_frame) (failed-Stopped returned_err s _ f n i refl refl (λ h. cc h))
    | inr (inr (n, e)) ↦
        rw (e, forward_frame) (failed-Stopped waiting s _ f n i refl refl (λ h. cc h))
    | inl e ↦ elim (Flush-cases (world.flush s.turn)) [
      | inr (inl k) ↦
          rw (e, k, forward_frame) (flush-Stopped returned_err s _ f i refl refl (λ h. cc h))
      | inr (inr k) ↦ rw (e, k, forward_frame) (flush-Stopped waiting s _ f i refl refl (λ h. cc h))
      | inl k ↦
          rw (e, k, forward_frame)
            (Recorded-Passed s _ _ f _ i refl refl refl refl (
              record_frame-Recorded world direction max_frame_bytes f _ _
                (omega (arith, frame-json_lt s.buf f i))))
    ]
  ]

  pub drain_turn-TurnFrom : (s : Pump) → TurnFrom s (drain_turn world direction s)
  unfolding drain_turn
  drain_turn-TurnFrom s = elim (Parse-cases (parse_stdio_frame s.buf)) [
    | inl e ↦
        rw (e, drain_turn) (same-Stopped returned_ok s (λ h. (parse_stdio_frame-none s.buf).0 e))
    | inr (inl (f, e)) ↦ elim (Bool-cases (ltb max_frame_bytes f.consumed)) [
      | inl k ↦ rw (e, k, drain_turn) (same-Stopped returned_err s (λ h. absurd (cc h)))
      | inr k ↦
          rw (e, k, drain_turn)
            (forward_frame-TurnFrom f s (parse_stdio_frame-IsFrameOf s.buf f e) (ground arith))
    ]
    | inr (inr (x, e)) ↦ rw (e, drain_turn) (same-Stopped returned_err s (λ h. absurd (cc h)))
  ]
