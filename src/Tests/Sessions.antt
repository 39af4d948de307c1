-- ===== src/Tests/Sessions.antt =====
-- crates/mcptracer-model: a recorded session with one tool call.
use mcptracer.Common.{
  ◌+◌, ◌*◌, ◌/◌, ◌≡◌, ◌↔◌, true, false, none, some, List, [], ◌∷◌, pos, count, All,
}
use mcptracer.Common.Sort.Laws.{Ascending}
use mcptracer.Json.{Codec, object, end, is_some}
use mcptracer.Model.Session.{StoredMessage, Exchange}
use mcptracer.Model.Stats.{Ranks, compute_stats, latencies}
use mcptracer.Model.Stats.Laws.{
  is_status, counts_ok, counts_error, counts_cancelled, counts_unanswered, counts_orphan,
  compute_stats-counts, has_any, compute_stats-latency,
}
use mcptracer.Model.Stats.Tools.{Counted, calls, tool_call_counts-Counted}
use mcptracer.Model.Correlate.{correlate, sort_key}
use mcptracer.Model.Correlate.Sound.{IsSound}
use mcptracer.Model.Correlate.Counts.{request_at, response_at, recorded_request, recorded_response}
use mcptracer.Model.Correlate.View.{
  recorded_notifications, correlate-IsSound, correlate-counts, correlate_order,
}
use mcptracer.Model.Validate.{validate_session, is_healthy}
use mcptracer.Model.Validate.Laws.{IsHealthy, validate_session_iff}

-- Every payload is read as the empty object.
abbrev codec : Codec
codec = record { parse = λ text. some (object end); print = λ v. "{}" }

abbrev ranks : Ranks
ranks = record { p50 = λ n. (n + 1) / 2; p95 = λ n. (95 * n + 99) / 100 }

abbrev call : StoredMessage
call = record {
  seq = 1;
  ts_ns = pos 10;
  direction = "c2s";
  message_kind = "request";
  rpc_id = some "7";
  method = some "tools/call";
  tool_name = some "read";
  payload = "{}";
  payload_bytes = 2;
  is_error = false;
  error_code = none;
}

abbrev reply : StoredMessage
reply = record {
  seq = 2;
  ts_ns = pos 25;
  direction = "s2c";
  message_kind = "response";
  rpc_id = some "7";
  method = none;
  tool_name = none;
  payload = "{}";
  payload_bytes = 2;
  is_error = false;
  error_code = none;
}

abbrev progress : StoredMessage
progress = record {
  seq = 3;
  ts_ns = pos 30;
  direction = "s2c";
  message_kind = "notification";
  rpc_id = none;
  method = some "notifications/progress";
  tool_name = none;
  payload = "{}";
  payload_bytes = 2;
  is_error = false;
  error_code = none;
}

abbrev session : List StoredMessage
session = call ∷ reply ∷ progress ∷ []

correlate-IsSound_example : All (IsSound session) (correlate codec ranks session).exchanges
correlate-IsSound_example = correlate-IsSound codec ranks session

correlate-counts_example :
    (count (request_at 1) (correlate codec ranks session).exchanges
      ≡ count (recorded_request 1) session)
    × (count (response_at 1) (correlate codec ranks session).exchanges
        ≡ count (recorded_response 1) session)
correlate-counts_example = correlate-counts codec ranks session 1

correlate_order_example :
    ((correlate codec ranks session).notifications ≡ recorded_notifications session)
    × Ascending sort_key (correlate codec ranks session).exchanges
correlate_order_example = correlate_order codec ranks session

validate_session_iff_example :
    (is_healthy (validate_session codec ranks session 0) ≡ true) ↔ IsHealthy codec ranks session 0
validate_session_iff_example = validate_session_iff codec ranks session 0

abbrev exchanges : List Exchange
exchanges = (correlate codec ranks session).exchanges

compute_stats-counts_example :
    ((compute_stats ranks exchanges []).ok_count ≡ count (is_status counts_ok) exchanges)
    × ((compute_stats ranks exchanges []).errors ≡ count (is_status counts_error) exchanges)
    × ((compute_stats ranks exchanges []).cancelled_count
        ≡ count (is_status counts_cancelled) exchanges)
    × ((compute_stats ranks exchanges []).unanswered_count
        ≡ count (is_status counts_unanswered) exchanges)
    × ((compute_stats ranks exchanges []).orphan_responses
        ≡ count (is_status counts_orphan) exchanges)
    × ((compute_stats ranks exchanges []).total_exchanges
        ≡ (compute_stats ranks exchanges []).ok_count
          + (compute_stats ranks exchanges []).errors
          + (compute_stats ranks exchanges []).cancelled_count
          + (compute_stats ranks exchanges []).unanswered_count
          + (compute_stats ranks exchanges []).orphan_responses)
compute_stats-counts_example = compute_stats-counts ranks exchanges []

tool_call_counts-Counted_example :
    Counted "read"
      (count (calls "read") exchanges)
      (compute_stats ranks exchanges []).tool_call_counts
tool_call_counts-Counted_example = tool_call_counts-Counted ranks exchanges [] "read"

compute_stats-latency_example :
    (is_some (compute_stats ranks exchanges []).latency_p50_ns ≡ has_any (latencies exchanges))
    × (is_some (compute_stats ranks exchanges []).latency_p95_ns ≡ has_any (latencies exchanges))
    × (is_some (compute_stats ranks exchanges []).latency_max_ns ≡ has_any (latencies exchanges))
compute_stats-latency_example = compute_stats-latency ranks exchanges []
