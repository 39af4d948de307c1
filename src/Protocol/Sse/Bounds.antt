-- ===== src/Protocol/Sse/Bounds.antt =====
-- What the decoder retains and delivers is bounded, whatever bytes arrive.
use mcptracer.Common.{
  ◌+◌, ◌≤◌, ◌<◌, Bool, not, true, false, ◌≡◌, refl, List, [], ◌∷◌, ◌++◌, Option, none, some, arith,
  All, any, ◌↔◌, length, length-append,
}
use mcptracer.Protocol.Sse.{
  Bytes, max_frame_bytes, SseDecoder, SseEvent, json, oversized_event, incomplete, default,
  has_pending_event, Fragment, finish_event, append_value, process_field, process_line, strip_cr,
  strip_space, strip_prefix, data_prefix, split_inclusive, buffer, end_line, push_fragment,
  push_fragments, push, finish,
}

pub record IsBounded (d : SseDecoder) : Type 0 where
  pub line_le : length d.line ≤ max_frame_bytes + 7
  pub data_le : length d.data_bytes ≤ max_frame_bytes
  pub oversized_empty : d.oversized ≡ true → d.data_bytes ≡ []
  pub discarding_empty : d.discarding_line ≡ true → d.line ≡ []
  pub discarding_oversized : d.discarding_line ≡ true → d.oversized ≡ true

-- An event that `push` may deliver: never a partial one, and never an empty or oversized payload.
abbrev pub IsDelivered : SseEvent → Type 0
IsDelivered (json bytes) = (0 < length bytes) × (length bytes ≤ max_frame_bytes)
IsDelivered oversized_event = Unit
IsDelivered incomplete = ⊥

abbrev pub Keeps : SseDecoder × List SseEvent → Type 0
Keeps (d, events) = IsBounded d × All IsDelivered events

All-append :
    (xs ys : List SseEvent) → All IsDelivered xs → All IsDelivered ys → All IsDelivered (xs ++ ys)
All-append [] ys h k = k
All-append (x ∷ xs) ys h k = (h.0, All-append xs ys h.1 k)

finish_event-Keeps :
    (d : SseDecoder) → IsBounded d → d.discarding_line ≡ false → Keeps (finish_event d)
unfolding finish_event
finish_event-Keeps d h e = ground arith

append_value-IsBounded :
    (d : SseDecoder) (value : Bytes)
    → IsBounded d
    → d.discarding_line ≡ false
    → IsBounded (append_value d value)
unfolding append_value
append_value-IsBounded d value h e = ground (arith, length-append d.data_bytes (b'\n' ∷ value))

process_field-IsBounded :
    (d : SseDecoder) (value : Option Bytes)
    → IsBounded d
    → d.discarding_line ≡ false
    → IsBounded (process_field d value)
unfolding process_field
process_field-IsBounded d none h e = h
process_field-IsBounded d (some value) h e = append_value-IsBounded d (strip_space value) h e

process_line-Keeps :
    (d : SseDecoder) (line : Bytes)
    → IsBounded d
    → d.discarding_line ≡ false
    → Keeps (process_line d line)
unfolding process_line
process_line-Keeps d [] h e = finish_event-Keeps d h e
process_line-Keeps d (c ∷ cs) h e =
    (process_field-IsBounded d (strip_prefix data_prefix (c ∷ cs)) h e, tt)

buffer-IsBounded : (d : SseDecoder) (bytes : Bytes) → IsBounded d → IsBounded (buffer d bytes)
unfolding buffer
buffer-IsBounded d bytes h = ground (arith, length-append d.line bytes)

emptied : (d : SseDecoder) → IsBounded d → IsBounded (record d { line = [] })
emptied d h = ground arith

end_line-Keeps : (d : SseDecoder) → IsBounded d → Keeps (end_line d)
unfolding end_line
end_line-Keeps d h =
    ground (arith, emptied d h, process_line-Keeps (record d { line = [] }) (strip_cr d.line))

push_fragments-Keeps :
    (d : SseDecoder) (fs : List Fragment) → IsBounded d → Keeps (push_fragments d fs)
unfolding push_fragments push_fragment
push_fragments-Keeps d [] h = (h, tt)
push_fragments-Keeps d ((bytes, false) ∷ fs) h =
    push_fragments-Keeps (buffer d bytes) fs (buffer-IsBounded d bytes h)
push_fragments-Keeps d ((bytes, true) ∷ fs) h =
    let first = end_line-Keeps (buffer d bytes) (buffer-IsBounded d bytes h) in
    let rest = push_fragments-Keeps (end_line (buffer d bytes)).0 fs first.0 in
    (rest.0, All-append (end_line (buffer d bytes)).1 _ first.1 rest.1)

-- From a decoder within its bounds, whatever bytes arrive, `push` leaves a decoder within its
-- bounds (an unfinished line of at most MAX_FRAME_BYTES + 7 bytes, at most MAX_FRAME_BYTES bytes of
-- data, none of it once the event is oversized), and each event it delivers is an oversized mark or
-- a payload of 1 to MAX_FRAME_BYTES bytes.
pub push-Keeps : (d : SseDecoder) (chunk : Bytes) → IsBounded d → Keeps (push d chunk)
unfolding push
push-Keeps d chunk h = push_fragments-Keeps d (split_inclusive chunk) h

pub default-IsBounded : IsBounded default
default-IsBounded = record {
  line_le = omega arith;
  data_le = omega arith;
  oversized_empty = λ e. refl;
  discarding_empty = λ e. refl;
  discarding_oversized = λ e. e;
}

abbrev pub is_json : SseEvent → Bool
is_json (json bytes) = true
is_json _ = false

abbrev pub no_event : List SseEvent → Bool
no_event [] = true
no_event _ = false

-- At the end of the stream the decoder is reset to its default, something is reported exactly when
-- an event was pending, what is reported is never a payload, and it is the oversized mark exactly
-- when the pending event was oversized.
pub finish_lem :
    (d : SseDecoder)
    → ((finish d).0 ≡ default)
      × (no_event (finish d).1 ≡ not (has_pending_event d))
      × (any is_json (finish d).1 ≡ false)
      × (((finish d).1 ≡ oversized_event ∷ []) ↔ (d.oversized ≡ true))
unfolding finish has_pending_event
finish_lem d = ground arith
