-- ===== src/Storage/Export.antt =====
-- crates/mcptracer-storage/src/lib.rs: `export_mtrace_document`. The summary, the tags and the
-- messages are what the queries give; the clock and the name of the exporter are arguments.
pub mod Columns
pub mod Accepted
pub mod Valid
use mcptracer.Common.{
  ℕ, ℤ, String, Bool, true, false, not, ◌&&◌, Option, none, some, List, [], ◌∷◌, if◌then◌else◌,
  Result, ok, err, ◌>>=◌,
}
use mcptracer.Json.{Codec, Value, is_object}
use mcptracer.Redact.Keys.{Key}
use mcptracer.Redact.Walk.{RedactionContext}
use mcptracer.Redact.Policy.{
  RedactionPolicy, verbatim, default, custom, PolicyError, Redactor, new, is_active_policy,
  from_storage, custom_keys, policy_str, redact_with_context,
}
use mcptracer.Redact.Context.{Tracker, default as empty_tracker, observe}
use mcptracer.Model.Session.{StoredMessage}
use mcptracer.Storage.Row.{SessionSummary}
use mcptracer.Storage.Mtrace.{
  ExportOptions, MtraceSession, MtraceMessage, MtraceDocument, current_format, current_version,
  texts,
}

pub data ExportError : Type 0 where
  conflicting_options refusing_unredacted keys_not_json context_exceeded : ExportError
  invalid_stored_policy : PolicyError → ExportError
  payload_not_json payload_not_object : ℕ → ExportError

abbrev pub demand : Bool → ExportError → Result ExportError (Unit {0})
demand true e = ok tt
demand false e = err e

-- `effective_policy`
unfoldable pub effective_policy :
    ExportOptions → RedactionPolicy → Result ExportError RedactionPolicy
effective_policy options verbatim =
    if options.force_default_redaction
    then ok default
    else if options.allow_unredacted
    then ok verbatim
    else err refusing_unredacted
effective_policy options policy = ok policy

-- The custom keys of a summary are a JSON text, parsed by serde_json.
unfoldable pub redaction_policy_for_summary :
    (String → Option (List Key)) → SessionSummary → Result ExportError RedactionPolicy
redaction_policy_for_summary parse_keys summary = elim (parse_keys summary.redaction_keys_json) [
  | none ↦ err keys_not_json
  | some keys ↦
      elim (from_storage summary.redaction_policy keys)
        as (λ _. Result ExportError RedactionPolicy) [
          | ok p ↦ ok p
          | err e ↦ err (invalid_stored_policy e)
        ]
]

abbrev pub exported : StoredMessage → Value → MtraceMessage
exported m payload = record {
  seq = m.seq;
  ts_ns = m.ts_ns;
  direction = m.direction;
  message_kind = m.message_kind;
  rpc_id = m.rpc_id;
  method = m.method;
  tool_name = m.tool_name;
  payload = payload;
  payload_bytes = m.payload_bytes;
  is_error = m.is_error;
  error_code = m.error_code;
}

module _ (codec : Codec) (len : String → ℕ) where
  -- The message with its payload masked, behind the test of the tracker.
  unfoldable pub export_payload :
      Redactor
      → StoredMessage
      → Value
      → RedactionContext × Tracker
      → Result ExportError (MtraceMessage × Tracker)
  export_payload redactor m payload (context, t) =
      demand (not (is_active_policy redactor.policy && t.lost_context)) context_exceeded >>= λ _.
      ok (exported m (redact_with_context redactor payload context), t)

  -- The closure over one stored message.
  unfoldable pub export_message :
      Redactor → Tracker → StoredMessage → Result ExportError (MtraceMessage × Tracker)
  export_message redactor t m = elim (codec.parse m.payload) [
    | none ↦ err (payload_not_json m.seq)
    | some payload ↦ demand (is_object payload) (payload_not_object m.seq) >>= λ _.
        export_payload redactor m payload (observe (texts codec len) t m.seq m.direction payload)
  ]

  unfoldable pub export_messages :
      Redactor → Tracker → List StoredMessage → Result ExportError (List MtraceMessage)
  export_messages redactor t [] = ok []
  export_messages redactor t (m ∷ ms) = export_message redactor t m >>= λ r.
      export_messages redactor r.1 ms >>= λ rest. ok (r.0 ∷ rest)

  abbrev pub document :
      SessionSummary
      → List String
      → ℤ
      → String
      → RedactionPolicy
      → List MtraceMessage
      → MtraceDocument
  document summary tags exported_at_ns exporter policy messages = record {
    format = current_format;
    version = current_version;
    exported_at_ns = exported_at_ns;
    exporter = exporter;
    session = record {
      client = summary.client;
      server_command = summary.server_command;
      transport = summary.transport;
      started_at_ns = summary.started_at_ns;
      ended_at_ns = summary.ended_at_ns;
      redaction_policy = policy_str policy;
      redaction_keys = custom_keys policy;
      dropped_messages = summary.dropped_messages;
      tags = tags;
    };
    messages = messages;
  }

  unfoldable pub export_mtrace_document :
      (String → Option (List Key))
      → ExportOptions
      → SessionSummary
      → List String
      → List StoredMessage
      → ℤ
      → String
      → Result ExportError MtraceDocument
  export_mtrace_document parse_keys options summary tags messages exported_at_ns exporter =
      demand (not (options.force_default_redaction && options.allow_unredacted)) conflicting_options
      >>= λ _. redaction_policy_for_summary parse_keys summary >>= λ source.
          effective_policy options source >>= λ policy.
          export_messages (new policy) empty_tracker messages >>= λ out.
          ok (document summary tags exported_at_ns exporter policy out)
