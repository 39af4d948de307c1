-- ===== src/Tests/Replay.antt =====
-- crates/mcptracer-model: the plan of a replay and the mock server, on a session with one tool call.
use mcptracer.Common.{
  ℕ, ◌≤◌, ◌≡◌, refl, String, Bool, true, false, Option, none, some, List, [], ◌∷◌, ◌++◌, map, keep,
  count, pos, ok, err, str_eq,
}
use mcptracer.Json.{Codec, Value, null, object, string, field, end, get, lookup}
use mcptracer.Model.Session.{StoredMessage, unanswered}
use mcptracer.Common.Sort.{sort, insert_sorted}
use mcptracer.Protocol.Message.{client_to_server, from_db_str, opposite}
use mcptracer.Model.Pending.{find, remove}
use mcptracer.Model.Correlate.{
  correlate, run, step, on_message, on_request, on_response, on_notification, answered,
  answer_status, update_at,
}
use mcptracer.Model.Correlate.Counts.{recorded_response}
use mcptracer.Model.Stats.{Ranks}
use mcptracer.Model.Plan.{is_driven, driven_messages, build_plan}
use mcptracer.Model.Plan.Driven.{InDriveOrder, driven_messages-InDriveOrder}
use mcptracer.Model.Plan.Report.{IsPlan, CallOf, build_plan-IsPlan}
use mcptracer.Model.Eval.{
  ExpectedCall, EvalSpec, Call, tool_calls, arguments_subset, find_call, use_slot, match_all, fresh,
  expected_results, forbidden_result, evaluate,
}
use mcptracer.Model.Eval.Matches.{AllFit, InOrder, AllOnce, evaluate-matches}
use mcptracer.Model.Serve.{
  MockSession, method_and_params, from_messages_with_strategy, record_all, record_pair,
  recorded_exchange, by_seq, answered_pair, tool_name, params_key, canonicalize, missing_method,
  match_request, serve_all,
}
use mcptracer.Model.Serve.Remaining.{remaining, serve_remaining, Refines, match_request-Refines}
use mcptracer.Model.Serve.OneShot.{answers, serve_all-one_shot}
use mcptracer.Model.Serve.Inventory.{Blames, from_messages_with_strategy-Blames}

abbrev ping : Value
ping = object (field "method" (string "ping") end)

-- Every payload is a ping, and prints as such.
abbrev codec : Codec
codec = record { parse = λ text. some ping; print = λ v. "ping" }

abbrev ranks : Ranks
ranks = record { p50 = λ n. n; p95 = λ n. n }

abbrev sent : ℕ → Option String → StoredMessage
sent n method = record {
  seq = n;
  ts_ns = pos n;
  direction = "c2s";
  message_kind = "request";
  rpc_id = some "7";
  method = method;
  tool_name = none;
  payload = "{}";
  payload_bytes = 2;
  is_error = false;
  error_code = none;
}

abbrev received : ℕ → StoredMessage
received n = record {
  seq = n;
  ts_ns = pos n;
  direction = "s2c";
  message_kind = "response";
  rpc_id = some "7";
  method = none;
  tool_name = none;
  payload = "{}";
  payload_bytes = 2;
  is_error = false;
  error_code = none;
}

abbrev session : List StoredMessage
session = sent 0 (some "ping") ∷ received 1 ∷ sent 2 (some "initialize") ∷ []

driven_messages-InDriveOrder_example :
    InDriveOrder (keep is_driven session) (driven_messages session)
driven_messages-InDriveOrder_example = driven_messages-InDriveOrder session

abbrev holds_mask : String → Bool
holds_mask text = str_eq text "***REDACTED***"

-- A call of a tool that is denied, ahead of the session.
abbrev with_denied : List StoredMessage
with_denied = record (sent 3 (some "tools/call")) { tool_name = some "delete" } ∷ session

build_plan-IsPlan_example :
    IsPlan with_denied
      (CallOf holds_mask codec with_denied ("read" ∷ []) ("delete" ∷ []))
      (build_plan holds_mask codec with_denied ("read" ∷ []) ("delete" ∷ []))
build_plan-IsPlan_example =
    build_plan-IsPlan holds_mask codec with_denied ("read" ∷ []) ("delete" ∷ [])

-- The test of two JSON values is a test of their printed texts.
abbrev value_eq : Value → Value → Bool
value_eq v w = str_eq (codec.print v) (codec.print w)

abbrev mock : MockSession
mock = record {
  exchanges =
      record {
        method = "ping";
        tool_name = none;
        params_key = "ping";
        params = null;
        response = ping;
        source_request_seq = 0;
        source_response_seq = 1;
        used = false;
      }
      ∷ [];
  strategy = method_and_params;
}

match_request-Refines_example :
    Refines codec value_eq
      (match_request codec value_eq mock ping)
      (serve_remaining codec value_eq method_and_params (remaining mock.exchanges) ping)
match_request-Refines_example = match_request-Refines codec value_eq mock ping

session-built : from_messages_with_strategy codec ranks session method_and_params ≡ ok mock
unfolding from_messages_with_strategy record_all record_pair recorded_exchange by_seq answered_pair
    tool_name params_key canonicalize get lookup correlate run step on_message on_request
    on_response on_notification answered answer_status find remove update_at sort insert_sorted
    from_db_str opposite
session-built = refl

serve_all-one_shot_example :
    count (answers 1) (serve_all codec value_eq mock (ping ∷ ping ∷ [])).0
    ≤ count (recorded_response 1) session
serve_all-one_shot_example =
    serve_all-one_shot codec value_eq ranks session method_and_params mock (ping ∷ ping ∷ []) 1
      session-built

-- The same session where the payload of every message is an empty object.
abbrev nameless : Codec
nameless = record { parse = λ text. some (object end); print = λ v. "{}" }

nameless-fails :
    from_messages_with_strategy nameless ranks session method_and_params ≡ err (missing_method 0)
unfolding from_messages_with_strategy record_all record_pair recorded_exchange by_seq answered_pair
    get lookup correlate run step on_message on_request on_response on_notification answered
    answer_status find remove update_at sort insert_sorted from_db_str opposite
nameless-fails = refl

from_messages_with_strategy-Blames_example : Blames nameless session (missing_method 0)
from_messages_with_strategy-Blames_example =
    from_messages_with_strategy-Blames nameless ranks session method_and_params (missing_method 0)
      nameless-fails

abbrev wanted : ExpectedCall
wanted = record { tool = "read"; required_arguments = none }

abbrev spec : EvalSpec
spec = record { ordered = true; expected = wanted ∷ []; forbidden = "delete" ∷ [] }

evaluate-matches_example :
    (found : List (Option ℕ)) × (evaluate value_eq codec ranks spec session
      ≡ expected_results value_eq (wanted ∷ []) found
        ++ map (forbidden_result value_eq (tool_calls codec ranks session)) ("delete" ∷ []))
    × AllFit value_eq (tool_calls codec ranks session) (wanted ∷ []) found
    × InOrder true none found
    × AllOnce found
evaluate-matches_example = evaluate-matches value_eq codec ranks spec session

-- A client that read two files, and an evaluation that expects a read, and a read of "a".
abbrev reads : String → Call
reads path = record {
  exchange = record {
    request_seq = none;
    response_seq = none;
    rpc_id = none;
    origin = client_to_server;
    method = some "tools/call";
    tool_name = some "read";
    status = unanswered;
    latency_ns = none;
    error_code = none;
    request_ts_ns = none;
    response_ts_ns = none;
  };
  arguments = object (field "path" (string path) end);
}

abbrev same_text : Value → Value → Bool
same_text (string s) (string t) = str_eq s t
same_text v w = false

abbrev wanted_a : ExpectedCall
wanted_a = record {
  tool = "read";
  required_arguments = some (object (field "path" (string "a") end));
}

-- The first expectation takes the read of "a", and the second, which only that read would satisfy, is
-- left without one; the other order of the same two expectations satisfies both.
greedy-misses :
    match_all same_text false none
      (fresh same_text (reads "a" ∷ reads "b" ∷ []))
      (wanted ∷ wanted_a ∷ [])
    ≡ some 0 ∷ none ∷ []
unfolding match_all find_call use_slot arguments_subset lookup
greedy-misses = refl

greedy-finds :
    match_all same_text false none
      (fresh same_text (reads "a" ∷ reads "b" ∷ []))
      (wanted_a ∷ wanted ∷ [])
    ≡ some 0 ∷ some 1 ∷ []
unfolding match_all find_call use_slot arguments_subset lookup
greedy-finds = refl
