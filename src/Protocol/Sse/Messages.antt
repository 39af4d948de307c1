-- ===== src/Protocol/Sse/Messages.antt =====
-- Payloads sent as one `data:` field each come out whole and in order.
use mcptracer.Common.{
  ℕ, ◌≤◌, ◌<◌, true, not, ◌≡◌, refl, ap, ◌∙◌, List, [], ◌∷◌, ◌++◌, arith, all, length, map, ◌==◌,
}
use mcptracer.Protocol.Sse.{
  Bytes, max_frame_bytes, json, default, finish_event, append_value, process_field, process_line,
  strip_cr, data_prefix, split_inclusive, buffer, end_line, push_fragment, push_fragments, push,
}
use mcptracer.Protocol.Sse.Chunks.{then_run, push_all, concat, push_all-push}

-- Each payload as `data: <payload>`, a newline, and the blank line.
abbrev pub encode_all : List Bytes → Bytes
encode_all [] = []
encode_all (p ∷ ps) = (data_prefix ++ (b' ' ∷ p)) ++ (b'\n' ∷ b'\n' ∷ encode_all ps)

-- A payload that one field can carry: no newline, no carriage return at its end, within the limit.
pub record IsPayload (p : Bytes) : Type 0 where
  pub one_line : all (λ c. not (c == b'\n')) p ≡ true
  pub no_cr : strip_cr p ≡ p
  pub positive : 0 < length p
  pub fits : length p ≤ max_frame_bytes

split_inclusive-line :
    (line rest : Bytes)
    → all (λ c. not (c == b'\n')) line ≡ true
    → split_inclusive (line ++ (b'\n' ∷ rest)) ≡ (line, true) ∷ split_inclusive rest
unfolding split_inclusive
split_inclusive-line [] rest h = refl
split_inclusive-line (c ∷ cs) rest h = ground (arith, split_inclusive-line cs rest)

strip_cr-cons : (c : ℕ) (p : Bytes) → 0 < length p → strip_cr p ≡ p → strip_cr (c ∷ p) ≡ c ∷ p
strip_cr-cons c [] h e = absurd (omega arith)
strip_cr-cons c (d ∷ ds) h e = ap (λ (l : Bytes). c ∷ l) e

field_line :
    (p : Bytes) → IsPayload p → strip_cr (data_prefix ++ (b' ' ∷ p)) ≡ data_prefix ++ (b' ' ∷ p)
field_line p h = ap (λ (l : Bytes). data_prefix ++ l) (strip_cr-cons b' ' p h.positive h.no_cr)

push_fragment-field :
    (p : Bytes)
    → IsPayload p
    → push_fragment default (data_prefix ++ (b' ' ∷ p), true)
      ≡ (record default { data_bytes = p }, [])
unfolding push_fragment end_line buffer process_line process_field append_value
push_fragment-field p h = ground (arith, field_line p h)

push_fragment-blank :
    (p : Bytes)
    → 0 < length p
    → push_fragment (record default { data_bytes = p }) ([], true) ≡ (default, json p ∷ [])
unfolding push_fragment end_line buffer process_line finish_event
push_fragment-blank [] h = absurd (omega arith)
push_fragment-blank (c ∷ cs) h = ground arith

no_newline :
    (p : Bytes) → IsPayload p → all (λ c. not (c == b'\n')) (data_prefix ++ (b' ' ∷ p)) ≡ true
no_newline p h = h.one_line

push-encode :
    (p rest : Bytes)
    → IsPayload p
    → push default ((data_prefix ++ (b' ' ∷ p)) ++ (b'\n' ∷ b'\n' ∷ rest))
      ≡ then_run (default, json p ∷ []) (λ d. push d rest)
unfolding push
push-encode p rest h =
    rw
      (
        split_inclusive-line (data_prefix ++ (b' ' ∷ p)) (b'\n' ∷ rest) (no_newline p h),
        split_inclusive-line [] rest refl,
      )
      (unfold push_fragments in rw (push_fragment-field p h, push_fragment-blank p h.positive))

abbrev pub AllPayloads : List Bytes → Type 0
AllPayloads [] = Unit
AllPayloads (p ∷ ps) = IsPayload p × AllPayloads ps

push-encode_all :
    (ps : List Bytes) → AllPayloads ps → push default (encode_all ps) ≡ (default, map json ps)
push-encode_all [] h = unfold push push_fragments split_inclusive in refl
push-encode_all (p ∷ ps) h =
    push-encode p (encode_all ps) h.0
    ∙ ap (λ r. then_run (default, json p ∷ []) (λ d. r)) (push-encode_all ps h.1)

-- Payloads without a newline, not ending in a carriage return, of 1 to MAX_FRAME_BYTES bytes, each
-- sent as one `data:` field and its blank line: however the stream is cut into chunks, the decoder
-- delivers exactly these payloads in this order, and ends in its default state.
pub push_all-encode_all :
    (ps chunks : List Bytes)
    → AllPayloads ps
    → concat chunks ≡ encode_all ps
    → push_all default chunks ≡ (default, map json ps)
push_all-encode_all ps chunks h e =
    push_all-push default chunks ∙ ap (push default) e ∙ push-encode_all ps h
