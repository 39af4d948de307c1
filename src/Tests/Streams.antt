-- ===== src/Tests/Streams.antt =====
-- crates/mcptracer-protocol: frames of both transports.
use mcptracer.Common.{
  ◌≡◌, refl, arith, true, false, not, any, List, [], ◌∷◌, ◌++◌, codes, ◌↔◌, ok, none, some, length,
}
use mcptracer.Json.{Value, null}
use mcptracer.Protocol.Sse.{
  Bytes, SseDecoder, default, json, oversized_event, push, finish, has_pending_event,
}
use mcptracer.Protocol.Sse.Chunks.{push_all, concat, push_all-push}
use mcptracer.Protocol.Sse.Messages.{AllPayloads, push_all-encode_all}
use mcptracer.Protocol.Sse.Bounds.{
  Keeps, default-IsBounded, push-Keeps, is_json, no_event, finish_lem,
}
use mcptracer.Protocol.Stdio.{
  StdioFrame, frame_at, parse_stdio_frame, encode_stdio_frame, one_line, IsFrameOf,
  parse_stdio_frame-IsFrameOf, parse_stdio_frame-none, parse-encode,
}

abbrev payloads : List Bytes
payloads = codes "{}" ∷ codes "[1]" ∷ []

-- The stream of both payloads, cut inside a field name and between the two newlines.
abbrev chunks : List Bytes
chunks =
    codes "da"
    ∷ (codes "ta: {}" ++ (b'\n' ∷ []))
    ∷ ((b'\n' ∷ codes "data: [1]") ++ (b'\n' ∷ b'\n' ∷ []))
    ∷ []

payloads-hold : AllPayloads payloads
payloads-hold = (
  record { one_line = refl; no_cr = refl; positive = omega arith; fits = omega arith },
  (record { one_line = refl; no_cr = refl; positive = omega arith; fits = omega arith }, tt),
)

push_all-encode_all_example :
    push_all default chunks ≡ (default, json (codes "{}") ∷ json (codes "[1]") ∷ [])
push_all-encode_all_example = push_all-encode_all payloads chunks payloads-hold refl

push_all-push_example : push_all default chunks ≡ push default (concat chunks)
push_all-push_example = push_all-push default chunks

push-Keeps_example : Keeps (push default (concat chunks))
push-Keeps_example = push-Keeps default (concat chunks) default-IsBounded

-- A decoder inside an event that passed the limit.
abbrev dropping : SseDecoder
dropping = record default { oversized = true }

finish_lem_example :
    ((finish dropping).0 ≡ default)
    × (no_event (finish dropping).1 ≡ not (has_pending_event dropping))
    × (any is_json (finish dropping).1 ≡ false)
    × (((finish dropping).1 ≡ oversized_event ∷ []) ↔ (dropping.oversized ≡ true))
finish_lem_example = finish_lem dropping

-- One frame that ends in a carriage return and a newline, and the start of another.
abbrev buffered : Bytes
buffered = codes "{}" ++ (b'\r' ∷ b'\n' ∷ codes "{")

abbrev first_frame : StdioFrame
first_frame = record {
  json_bytes = codes "{}";
  wire_bytes = codes "{}" ++ (b'\r' ∷ b'\n' ∷ []);
  consumed = 4;
}

buffered-parses : parse_stdio_frame buffered ≡ ok (some first_frame)
unfolding parse_stdio_frame frame_at
buffered-parses = refl

parse_stdio_frame-IsFrameOf_example : IsFrameOf buffered first_frame
parse_stdio_frame-IsFrameOf_example =
    parse_stdio_frame-IsFrameOf buffered first_frame buffered-parses

parse_stdio_frame-none_example :
    (parse_stdio_frame (codes "{") ≡ ok none) ↔ (one_line (codes "{") ≡ true)
parse_stdio_frame-none_example = parse_stdio_frame-none (codes "{")

abbrev print_null : Value → Bytes
print_null v = codes "null"

parse-encode_example :
    parse_stdio_frame (encode_stdio_frame print_null null ++ buffered)
    ≡ ok (
        some (record {
          json_bytes = print_null null;
          wire_bytes = encode_stdio_frame print_null null;
          consumed = length (encode_stdio_frame print_null null);
        }))
parse-encode_example = parse-encode print_null null buffered refl refl refl
