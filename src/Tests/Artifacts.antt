-- ===== src/Tests/Artifacts.antt =====
-- crates/mcptracer-storage: a session of one request, exported and imported.
use mcptracer.Common.{
  ℕ, pos, ◌≡◌, refl, String, true, false, Option, none, some, List, [], ◌∷◌, All, all, any, map,
  arith, ok,
}
use mcptracer.Json.{Codec, Value, object, field, string, number, int, end, get, lookup}
use mcptracer.Protocol.Message.{
  McpMessage, client_to_server, as_db_str, kind, kind_db_str, id, method, tool_name, is_error,
  error_code, is_notification, is_response,
}
use mcptracer.Redact.Keys.{
  Key, normalize_key, is_sensitive_normal, is_sensitive_key, matches_policy_sensitive_key,
}
use mcptracer.Redact.Policy.{
  verbatim, default, new, redactor_sensitive, from_storage, policy_str, custom_keys,
  redact_with_context,
}
use mcptracer.Redact.Walk.{walk, walk_message, walk_message_fields, walk_message_field}
use mcptracer.Redact.Context.{
  observe, responder_of, observe_side, observe_id, observe_request, after_gap,
}
use mcptracer.Model.Session.{StoredMessage}
use mcptracer.Model.Validate.Laws.{Ascends}
use mcptracer.Storage.Row.{SessionSummary, stored_row, id_json}
use mcptracer.Storage.Mtrace.{texts, ExportOptions, MtraceDocument, validate}
use mcptracer.Storage.Export.{
  redaction_policy_for_summary, effective_policy, export_payload, export_message, export_messages,
  export_mtrace_document,
}
use mcptracer.Storage.Export.Columns.{LeavesColumns}
use mcptracer.Storage.Export.Accepted.{Recorded}
use mcptracer.Storage.Export.Valid.{export_mtrace_document-valid}
use mcptracer.Writer.Thread.{start, redact_one, redact_batch}
use mcptracer.Health.{is_unredacted, append_redaction_issues}
use mcptracer.Health.Masked.{ReadsBack, append_redaction_issues-clean}
use mcptracer.Storage.Merge.{Source, merge_sessions}
use mcptracer.Storage.Merge.Kept.{Unique}
use mcptracer.Storage.Merge.Rows.{messages_of, Mergeable, Outcome, merge_sessions-Outcome}
use mcptracer.Storage.Vcr.{VcrCassette, cassette_to_messages}
use mcptracer.Storage.Vcr.Numbered.{
  has_method, Consecutive, side, all_sides, cassette_to_messages-Made,
}
use mcptracer.Storage.Import.{import_row, import_rows, import_mtrace_document}
use mcptracer.Storage.Import.Rows.{RowOf, import_mtrace_document-RowOf}

default-LeavesColumns : LeavesColumns (redactor_sensitive (new default))
unfolding new matches_policy_sensitive_key is_sensitive_key is_sensitive_normal normalize_key
default-LeavesColumns = record {
  envelope = record { id = refl; method = refl; jsonrpc = refl };
  params = refl;
  name = refl;
  error = refl;
  code = refl;
}

abbrev payload : Value
payload = object (
    field "id" (number (int (pos 7)))
      (field "jsonrpc" (string "2.0") (field "method" (string "ping") end)))

abbrev codec : Codec
codec = record { parse = λ text. some payload; print = λ v. "{}" }

abbrev len : String → ℕ
len text = 2

abbrev sent : McpMessage
sent = record {
  seq = 4;
  timestamp_ns = pos 10;
  direction = client_to_server;
  payload = payload;
  payload_bytes = 2;
}

sent-Recorded : Recorded codec (stored_row codec sent)
unfolding get lookup
sent-Recorded = record {
  message = sent;
  row = refl;
  parses = refl;
  is_json_object = refl;
  scalar_id = refl;
}

abbrev rows : List StoredMessage
rows = stored_row codec sent ∷ []

abbrev summary : SessionSummary
summary = record {
  session_id = "s";
  client = "c";
  server_command = "server";
  transport = "stdio";
  started_at_ns = pos 1;
  ended_at_ns = some (pos 20);
  total_messages = pos 1;
  dropped_messages = pos 0;
  redaction_policy = "none";
  redaction_keys_json = "[]";
}

abbrev options : ExportOptions
options = record { force_default_redaction = true; allow_unredacted = false }

-- The stored keys are an empty list.
abbrev parse_keys : String → Option (List Key)
parse_keys text = some []

abbrev artifact : MtraceDocument
artifact = record {
  format = "mtrace";
  version = 1;
  exported_at_ns = pos 30;
  exporter = "mcptracer";
  session = record {
    client = "c";
    server_command = "server";
    transport = "stdio";
    started_at_ns = pos 1;
    ended_at_ns = some (pos 20);
    redaction_policy = "default";
    redaction_keys = [];
    dropped_messages = pos 0;
    tags = [];
  };
  messages =
      record {
        seq = 4;
        ts_ns = pos 10;
        direction = "c2s";
        message_kind = "request";
        rpc_id = some "{}";
        method = some "ping";
        tool_name = none;
        payload = payload;
        payload_bytes = 2;
        is_error = false;
        error_code = none;
      }
      ∷ [];
}

summary-policy : redaction_policy_for_summary parse_keys summary ≡ ok verbatim
unfolding redaction_policy_for_summary from_storage
summary-policy = refl

upgraded : effective_policy options verbatim ≡ ok default
unfolding effective_policy
upgraded = refl

rows-exported :
    export_mtrace_document codec len parse_keys options summary [] rows (pos 30) "mcptracer"
    ≡ ok artifact
unfolding export_mtrace_document redaction_policy_for_summary from_storage effective_policy
    export_messages export_message export_payload new observe responder_of stored_row as_db_str
    observe_side get observe_id observe_request after_gap policy_str custom_keys kind_db_str id_json
    method tool_name redact_with_context is_error error_code kind id walk_message
    walk_message_fields walk_message_field walk lookup is_notification is_response is_sensitive_key
    is_sensitive_normal matches_policy_sensitive_key normalize_key
rows-exported = refl

rows-Ascend : Ascends none rows
rows-Ascend = (tt, tt)

export_mtrace_document-valid_example : validate codec len artifact ≡ ok tt
export_mtrace_document-valid_example =
    export_mtrace_document-valid codec len parse_keys options summary [] rows (pos 30) "mcptracer"
      verbatim default artifact summary-policy upgraded default-LeavesColumns (sent-Recorded, tt)
      rows-Ascend (omega arith) (omega arith) rows-exported

document-imported : import_mtrace_document codec len artifact ≡ ok rows
unfolding import_mtrace_document import_rows import_row stored_row as_db_str kind_db_str id_json
    method tool_name is_error error_code kind id get lookup is_notification is_response
document-imported = rw (export_mtrace_document-valid_example, import_mtrace_document) refl

import_mtrace_document-RowOf_example : Ascends none rows × All (RowOf codec) rows
import_mtrace_document-RowOf_example =
    import_mtrace_document-RowOf codec len artifact rows document-imported

default-stored : from_storage (policy_str default) (custom_keys default) ≡ ok default
unfolding from_storage policy_str custom_keys
default-stored = refl

keys-parsed : parse_keys "[]" ≡ some (custom_keys default)
unfolding custom_keys
keys-parsed = refl

masked-back :
    All (ReadsBack codec) (redact_batch (texts codec len) (new default) (sent ∷ []) start).0
unfolding redact_batch redact_one new observe responder_of as_db_str observe_side get observe_id
    observe_request after_gap redact_with_context walk_message walk_message_fields
    walk_message_field walk lookup is_sensitive_key is_sensitive_normal matches_policy_sensitive_key
    normalize_key
masked-back = (refl, tt)

-- The storage writer masks one message; the store prints what it reads back.
append_redaction_issues-clean_example :
    any is_unredacted (
      append_redaction_issues codec len parse_keys
        (map (stored_row codec) (redact_batch (texts codec len) (new default) (sent ∷ []) start).0)
        (policy_str default)
        "[]")
    ≡ false
append_redaction_issues-clean_example =
    append_redaction_issues-clean codec len default (sent ∷ []) parse_keys "[]"
      default-LeavesColumns default-stored keys-parsed masked-back

-- One call with its answer, and one without.
abbrev cassette : VcrCassette
cassette = record {
  version = 1;
  interactions =
      record { request = payload; response = some (object end) }
      ∷ record { request = payload; response = none }
      ∷ [];
}

cassette-has_method : all has_method cassette.interactions ≡ true
unfolding get lookup
cassette-has_method = refl

cassette_to_messages-Made_example :
    (ms : List McpMessage) × (cassette_to_messages codec len cassette ≡ ok ms)
    × Consecutive 0 ms
    × (map side ms ≡ all_sides cassette.interactions)
cassette_to_messages-Made_example = cassette_to_messages-Made codec len cassette cassette-has_method

-- Two sources with the same call.
abbrev named : String → Source
named id = record { summary = record summary { session_id = id }; messages = rows }

named-Unique : All Unique (messages_of (named "a" ∷ (named "b" ∷ [])))
named-Unique = ((tt, tt), ((tt, tt), tt))

merge_sessions-Outcome_example :
    Outcome codec
      (named "a")
      (named "b" ∷ [])
      (merge_sessions codec (named "a" ∷ (named "b" ∷ [])) true)
merge_sessions-Outcome_example =
    merge_sessions-Outcome codec (named "a") (named "b") [] named-Unique

named-Mergeable : Mergeable (named "a") (named "b" ∷ [])
named-Mergeable = record {
  ids = (refl, (refl, tt));
  configuration = refl;
  dropped = (refl, (refl, tt));
}
