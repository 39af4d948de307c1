-- ===== src/Protocol/Sse.antt =====
-- crates/mcptracer-protocol/src/sse.rs: the decoder of server-sent events. `push` and `finish`
-- return the decoder they leave and the events they push.
pub mod Chunks
pub mod Bounds
pub mod Messages
use mcptracer.Common.{
  ℕ, ◌+◌, ◌*◌, Bool, true, false, not, ◌||◌, List, [], ◌∷◌, ◌++◌, Option, none, some, ltb, length,
  ◌==◌, if◌then◌else◌,
}

abbrev pub Bytes : Type 0
Bytes = List ℕ

abbrev pub max_frame_bytes : ℕ
max_frame_bytes = 8 * 1024 * 1024

pub record SseDecoder : Type 0 where
  pub line : Bytes
  pub data_bytes : Bytes
  pub oversized : Bool
  pub discarding_line : Bool

-- `#[derive(Default)]`
abbrev pub default : SseDecoder
default = record { line = []; data_bytes = []; oversized = false; discarding_line = false }

pub data SseEvent : Type 0 where
  json : Bytes → SseEvent
  oversized_event incomplete : SseEvent

abbrev pub is_empty : Bytes → Bool
is_empty [] = true
is_empty _ = false

unfoldable pub has_pending_event : SseDecoder → Bool
has_pending_event d =
    not (is_empty d.line) || not (is_empty d.data_bytes) || d.oversized || d.discarding_line

-- `slice.strip_prefix(prefix)`
abbrev pub strip_prefix : Bytes → Bytes → Option Bytes
strip_prefix [] xs = some xs
strip_prefix (p ∷ ps) [] = none
strip_prefix (p ∷ ps) (x ∷ xs) = let rest = strip_prefix ps xs in if p == x then rest else none

-- The one space that may stand behind `data:`.
abbrev pub strip_space : Bytes → Bytes
strip_space [] = []
strip_space (c ∷ cs) = if c == b' ' then cs else c ∷ cs

-- The carriage return that may end a line.
abbrev pub strip_cr : Bytes → Bytes
strip_cr [] = []
strip_cr (c ∷ []) = if c == b'\r' then [] else c ∷ []
strip_cr (c ∷ d ∷ cs) = c ∷ strip_cr (d ∷ cs)

abbrev pub data_prefix : Bytes
data_prefix = b'd' ∷ b'a' ∷ b't' ∷ b'a' ∷ b':' ∷ []

unfoldable pub finish_event : SseDecoder → SseDecoder × List SseEvent
finish_event d =
    let cleared = record d { data_bytes = []; oversized = false } in
    if d.oversized
    then (cleared, oversized_event ∷ [])
    else if is_empty d.data_bytes
    then (cleared, [])
    else (cleared, json d.data_bytes ∷ [])

-- The tail of `process_line`, on the value of a `data:` field.
unfoldable pub append_value : SseDecoder → Bytes → SseDecoder
append_value d value =
    if d.oversized
    then d
    else (let separator = if is_empty d.data_bytes then 0 else 1 in
        if ltb max_frame_bytes (length d.data_bytes + separator + length value)
        then record d { data_bytes = []; oversized = true }
        else if is_empty d.data_bytes
        then record d { data_bytes = value }
        else record d { data_bytes = d.data_bytes ++ (b'\n' ∷ value) })

unfoldable pub process_field : SseDecoder → Option Bytes → SseDecoder
process_field d none = d
process_field d (some value) = append_value d (strip_space value)

unfoldable pub process_line : SseDecoder → Bytes → SseDecoder × List SseEvent
process_line d line =
    if is_empty line then finish_event d else (process_field d (strip_prefix data_prefix line), [])

-- `chunk.split_inclusive(|byte| *byte == b'\n')`: each fragment without its newline, and whether
-- it had one.
abbrev pub Fragment : Type 0
Fragment = Bytes × Bool

abbrev pub prepend : ℕ → List Fragment → List Fragment
prepend c [] = (c ∷ [], false) ∷ []
prepend c ((bytes, complete) ∷ rest) = (c ∷ bytes, complete) ∷ rest

unfoldable pub split_inclusive : Bytes → List Fragment
split_inclusive [] = []
split_inclusive (c ∷ cs) =
    let rest = split_inclusive cs in if c == b'\n' then ([], true) ∷ rest else prepend c rest

-- `if !self.discarding_line { … }`
unfoldable pub buffer : SseDecoder → Bytes → SseDecoder
buffer d bytes =
    if d.discarding_line
    then d
    else if ltb (max_frame_bytes + 7) (length d.line + length bytes)
    then record { line = []; data_bytes = []; oversized = true; discarding_line = true }
    else record d { line = d.line ++ bytes }

-- `if complete { … }`
unfoldable pub end_line : SseDecoder → SseDecoder × List SseEvent
end_line d =
    if d.discarding_line
    then (record d { discarding_line = false }, [])
    else process_line (record d { line = [] }) (strip_cr d.line)

unfoldable pub push_fragment : SseDecoder → Fragment → SseDecoder × List SseEvent
push_fragment d (bytes, false) = (buffer d bytes, [])
push_fragment d (bytes, true) = end_line (buffer d bytes)

unfoldable pub push_fragments : SseDecoder → List Fragment → SseDecoder × List SseEvent
push_fragments d [] = (d, [])
push_fragments d (f ∷ fs) =
    let (d', events) = push_fragment d f in
    let (d'', later) = push_fragments d' fs in (d'', events ++ later)

unfoldable pub push : SseDecoder → Bytes → SseDecoder × List SseEvent
push d chunk = push_fragments d (split_inclusive chunk)

unfoldable pub finish : SseDecoder → SseDecoder × List SseEvent
unfolding has_pending_event
finish d =
    if d.oversized
    then (default, oversized_event ∷ [])
    else if has_pending_event d
    then (default, incomplete ∷ [])
    else (default, [])
