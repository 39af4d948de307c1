-- ===== src/Protocol/Stdio.antt =====
-- crates/mcptracer-protocol/src/lib.rs: newline-delimited frames of the stdio transport. The text
-- of a value, `Value::to_string`, is the parameter `print`.
use mcptracer.Common.{
  ℕ, suc, Bool, true, false, not, ◌≡◌, ◌⊎◌, inl, inr, refl, ap, [], ◌∷◌, ◌++◌, Option, none, some,
  arith, all, length, length-append, take, ◌==◌, if◌then◌else◌, Result, ok, err, append_assoc, ◌↔◌,
  Bool-cases,
}
use mcptracer.Json.{Value}
use mcptracer.Protocol.Sse.{Bytes, is_empty, strip_cr}

pub record StdioFrame : Type 0 where
  pub json_bytes : Bytes
  pub wire_bytes : Bytes
  pub consumed : ℕ

pub data FrameError : Type 0 where
  empty_stdio_frame : FrameError

-- `buf.iter().position(|b| *b == b'\n')`
abbrev pub newline_position : Bytes → Option ℕ
newline_position [] = none
newline_position (c ∷ cs) =
    let rest = newline_position cs in
    if c == b'\n' then some 0 else elim rest [ none ↦ none | some i ↦ some (suc i) ]

unfoldable pub frame_at : Bytes → ℕ → Result FrameError (Option StdioFrame)
frame_at buf newline_idx =
    let json_bytes = strip_cr (take newline_idx buf) in
    if is_empty json_bytes
    then err empty_stdio_frame
    else ok (
        some (record {
          json_bytes = json_bytes;
          wire_bytes = take (suc newline_idx) buf;
          consumed = suc newline_idx;
        }))

unfoldable pub parse_stdio_frame : Bytes → Result FrameError (Option StdioFrame)
unfolding frame_at
parse_stdio_frame buf = elim (newline_position buf) [ none ↦ ok none | some i ↦ frame_at buf i ]

abbrev pub encode_stdio_frame : (Value → Bytes) → Value → Bytes
encode_stdio_frame print payload = print payload ++ (b'\n' ∷ [])

abbrev pub one_line : Bytes → Bool
one_line = all (λ c. not (c == b'\n'))

newline_position-line :
    (line rest : Bytes)
    → one_line line ≡ true
    → newline_position (line ++ (b'\n' ∷ rest)) ≡ some (length line)
newline_position-line [] rest h = refl
newline_position-line (c ∷ cs) rest h = ground (arith, newline_position-line cs rest)

take-line : (line rest : Bytes) → take (length line) (line ++ rest) ≡ line
take-line [] rest = refl
take-line (c ∷ cs) rest = ap (λ (l : Bytes). c ∷ l) (take-line cs rest)

take-suc-line :
    (line rest : Bytes) → take (suc (length line)) (line ++ (b'\n' ∷ rest)) ≡ line ++ (b'\n' ∷ [])
take-suc-line [] rest = refl
take-suc-line (c ∷ cs) rest = ap (λ (l : Bytes). c ∷ l) (take-suc-line cs rest)

-- A first line, without its newline, followed by more bytes: the frame is exactly that line.
pub parse-line :
    (line rest : Bytes)
    → one_line line ≡ true
    → parse_stdio_frame (line ++ (b'\n' ∷ rest)) ≡ (
        if is_empty (strip_cr line)
        then err empty_stdio_frame
        else ok (
            some (record {
              json_bytes = strip_cr line;
              wire_bytes = line ++ (b'\n' ∷ []);
              consumed = suc (length line);
            })))
unfolding parse_stdio_frame
parse-line line rest h = rw (
  newline_position-line line rest h,
  parse_stdio_frame,
  take-line line (b'\n' ∷ rest),
  take-suc-line line rest,
)

-- A buffer is one unfinished line, or it starts with a line.
abbrev Lines : Bytes → Type 0
Lines buf =
    (one_line buf ≡ true)
    ⊎ ((line : Bytes) × (rest : Bytes) × (buf ≡ line ++ (b'\n' ∷ rest)) × (one_line line ≡ true))

Lines-cons : (c : ℕ) (cs : Bytes) → (c == b'\n') ≡ false → Lines cs → Lines (c ∷ cs)
Lines-cons c cs e (inl h) = inl (ground arith)
Lines-cons c cs e (inr (line, rest, s, h)) =
    inr (c ∷ line, rest, ap (λ (l : Bytes). c ∷ l) s, ground arith)

lines : (buf : Bytes) → Lines buf
lines [] = inl refl
lines (c ∷ cs) =
    let later = lines cs in
    elim (Bool-cases (c == b'\n')) [
      | inl e ↦ inr ([], cs, ground arith, refl)
      | inr e ↦ Lines-cons c cs e later
    ]

newline_position-one_line : (buf : Bytes) → one_line buf ≡ true → newline_position buf ≡ none
newline_position-one_line [] h = refl
newline_position-one_line (c ∷ cs) h = ground (arith, newline_position-one_line cs)

strip_cr-cases : (line : Bytes) → (line ≡ strip_cr line) ⊎ (line ≡ strip_cr line ++ (b'\r' ∷ []))
strip_cr-cases [] = inl refl
strip_cr-cases (c ∷ []) = ground arith
strip_cr-cases (c ∷ d ∷ cs) = elim (strip_cr-cases (d ∷ cs)) [
  | inl e ↦ inl (ap (λ (l : Bytes). c ∷ l) e)
  | inr e ↦ inr (ap (λ (l : Bytes). c ∷ l) e)
]

strip_cr-one_line : (line : Bytes) → one_line line ≡ true → one_line (strip_cr line) ≡ true
strip_cr-one_line [] h = refl
strip_cr-one_line (c ∷ []) h = ground arith
strip_cr-one_line (c ∷ d ∷ cs) h = ground (arith, strip_cr-one_line (d ∷ cs))

-- What a parsed frame says of the buffer it was read from.
pub record IsFrameOf (buf : Bytes) (f : StdioFrame) : Type 0 where
  pub rest : Bytes
  pub splits : buf ≡ f.wire_bytes ++ rest
  pub counted : f.consumed ≡ length f.wire_bytes
  pub ended :
      (f.wire_bytes ≡ f.json_bytes ++ (b'\n' ∷ []))
      ⊎ (f.wire_bytes ≡ f.json_bytes ++ (b'\r' ∷ b'\n' ∷ []))
  pub json_line : one_line f.json_bytes ≡ true
  pub json_ne_nil : is_empty f.json_bytes ≡ false

line-IsFrameOf :
    (line rest : Bytes) (f : StdioFrame)
    → one_line line ≡ true
    → parse_stdio_frame (line ++ (b'\n' ∷ rest)) ≡ ok (some f)
    → IsFrameOf (line ++ (b'\n' ∷ rest)) f
line-IsFrameOf line rest f h e = record {
  rest = rest;
  splits = ground (arith, parse-line line rest h, append_assoc line (b'\n' ∷ []) rest);
  counted = ground (arith, parse-line line rest h, length-append line (b'\n' ∷ []));
  ended = ground (
    arith,
    parse-line line rest h,
    strip_cr-cases line,
    append_assoc (strip_cr line) (b'\r' ∷ []) (b'\n' ∷ []),
  );
  json_line = ground (arith, parse-line line rest h, strip_cr-one_line line h);
  json_ne_nil = ground (arith, parse-line line rest h);
}

one_line-newline : (line rest : Bytes) → one_line (line ++ (b'\n' ∷ rest)) ≡ false
one_line-newline [] rest = refl
one_line-newline (c ∷ cs) rest = ground (arith, one_line-newline cs rest)

parse-one_line : (buf : Bytes) → one_line buf ≡ true → parse_stdio_frame buf ≡ ok none
unfolding parse_stdio_frame
parse-one_line buf h = rw (newline_position-one_line buf h, parse_stdio_frame)

-- A buffer waits for more bytes exactly when it holds no newline.
pub parse_stdio_frame-none :
    (buf : Bytes) → (parse_stdio_frame buf ≡ ok none) ↔ (one_line buf ≡ true)
parse_stdio_frame-none buf = elim (lines buf) [
  | inl h ↦ (λ e. h, λ e. parse-one_line buf h)
  | inr (line, rest, s, h) ↦
      rw s (λ e. ground (arith, parse-line line rest h), λ e. cc (e, one_line-newline line rest))
]

-- Every parsed frame is the first line of the buffer: its wire bytes are a prefix of the buffer and
-- as many as it says were consumed, and they are its JSON bytes, which are not empty and hold no
-- newline, followed by a newline or by a carriage return and a newline.
pub parse_stdio_frame-IsFrameOf :
    (buf : Bytes) (f : StdioFrame) → parse_stdio_frame buf ≡ ok (some f) → IsFrameOf buf f
parse_stdio_frame-IsFrameOf buf f e = elim (lines buf) [
  | inl h ↦ cc (e, (parse_stdio_frame-none buf).1 h)
  | inr (line, rest, s, h) ↦ rw s (line-IsFrameOf line rest f h (rw s at e))
]

-- A value whose text is one line, not empty and with no carriage return at its end: its encoded
-- frame, followed by any bytes, is read back as that text, and those bytes are what is left.
pub parse-encode :
    (print : Value → Bytes) (v : Value) (rest : Bytes)
    → one_line (print v) ≡ true
    → strip_cr (print v) ≡ print v
    → is_empty (print v) ≡ false
    → parse_stdio_frame (encode_stdio_frame print v ++ rest)
      ≡ ok (
          some (record {
            json_bytes = print v;
            wire_bytes = encode_stdio_frame print v;
            consumed = length (encode_stdio_frame print v);
          }))
parse-encode print v rest h c n =
    rw (append_assoc (print v) (b'\n' ∷ []) rest, parse-line (print v) rest h, c, n)
      (ground (arith, length-append (print v) (b'\n' ∷ [])))
