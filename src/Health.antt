-- ===== src/Health.antt =====
-- crates/mcptracer-proxy/src/session_health.rs: the assessment of a stored capture, and the gates that
-- ask for a good one. The lookup of a session in the store is left to the caller: the summary and the
-- messages are arguments. The sentence of an issue is left out.
pub mod Masked
use mcptracer.Common.{
  ℕ, ℤ, pos_part, ◌+◌, String, Bool, true, false, not, ◌&&◌, ◌||◌, Option, none, some, List, [],
  ◌∷◌, ◌++◌, length, keep, ltb, if◌then◌else◌, Result, ok, err,
}
use mcptracer.Json.{Codec, Value, is_some}
use mcptracer.Redact.Keys.{Key}
use mcptracer.Redact.Walk.{RedactionContext}
use mcptracer.Redact.Policy.{
  RedactionPolicy, PolicyError, is_active_policy, from_storage,
  unredacted_sensitive_keys_with_context,
}
use mcptracer.Redact.Context.{Tracker, default, observe}
use mcptracer.Model.Session.{StoredMessage}
use mcptracer.Model.Stats.{Ranks}
use mcptracer.Model.Validate.{
  Issue, IssueKind, session_not_closed, dropped_messages, invalid_redaction_configuration,
  unredacted_sensitive_value, issue_if, validate_session, is_healthy,
}
use mcptracer.Storage.Row.{SessionSummary}
use mcptracer.Storage.Mtrace.{texts, is_no_text}

pub record SessionHealth : Type 0 where
  pub session_id : String
  pub messages : List StoredMessage
  pub report : List Issue

pub data HealthError : Type 0 where
  unhealthy incomplete : String → ℕ → HealthError

abbrev pub is_unredacted : Issue → Bool
is_unredacted i = elim i.kind [ unredacted_sensitive_value ↦ true | _ ↦ false ]

module _ (codec : Codec) (len : String → ℕ) where
  -- The issues of one message behind its parsing: a loss of context is reported once.
  abbrev pub seen_issues :
      RedactionPolicy → Bool → ℕ → Value → RedactionContext × Tracker → List Issue × Bool
  seen_issues policy reported seq payload (context, t) =
      let lost = is_active_policy policy && (t.lost_context && not reported) in
      (
        issue_if lost dropped_messages (some seq)
            ++ issue_if
                (not (is_no_text (unredacted_sensitive_keys_with_context payload policy context)))
                unredacted_sensitive_value (some seq),
        reported || lost,
      )

  -- The loop over the messages; one whose payload does not parse is skipped.
  unfoldable pub redaction_issues :
      RedactionPolicy → Tracker → Bool → List StoredMessage → List Issue
  redaction_issues policy t reported [] = []
  redaction_issues policy t reported (m ∷ ms) = elim (codec.parse m.payload) [
    | none ↦ redaction_issues policy t reported ms
    | some payload ↦
        let seen = observe (texts codec len) t m.seq m.direction payload in
        let (issues, later) = seen_issues policy reported m.seq payload seen in
        issues ++ redaction_issues policy seen.1 later ms
  ]

  abbrev pub invalid_configuration : List Issue
  invalid_configuration = record { kind = invalid_redaction_configuration; seq = none } ∷ []

  abbrev pub policy_issues : Result PolicyError RedactionPolicy → List StoredMessage → List Issue
  policy_issues (err e) ms = invalid_configuration
  policy_issues (ok policy) ms = redaction_issues policy default false ms

  -- What `append_redaction_issues` appends.
  unfoldable pub append_redaction_issues :
      (String → Option (List Key)) → List StoredMessage → String → String → List Issue
  append_redaction_issues parse_keys ms policy_name custom_keys_json =
      elim (parse_keys custom_keys_json) [
        | none ↦ invalid_configuration
        | some keys ↦ policy_issues (from_storage policy_name keys) ms
      ]

  unfoldable pub assess_capture :
      (String → Option (List Key)) → Ranks → SessionSummary → List StoredMessage → List Issue
  assess_capture parse_keys ranks summary ms =
      validate_session codec ranks ms (pos_part summary.dropped_messages)
      ++ (append_redaction_issues parse_keys ms summary.redaction_policy summary.redaction_keys_json
          ++ issue_if (not (is_some summary.ended_at_ns)) session_not_closed none)

  abbrev pub inspected :
      (String → Option (List Key)) → Ranks → SessionSummary → List StoredMessage → SessionHealth
  inspected parse_keys ranks summary ms = record {
    session_id = summary.session_id;
    messages = ms;
    report = assess_capture parse_keys ranks summary ms;
  }

  unfoldable pub require_healthy_session :
      (String → Option (List Key))
      → Ranks
      → SessionSummary
      → List StoredMessage
      → Result HealthError SessionHealth
  require_healthy_session parse_keys ranks summary ms =
      let health = inspected parse_keys ranks summary ms in
      if is_healthy health.report
      then ok health
      else err (unhealthy health.session_id (length health.report))

  unfoldable pub require_complete_capture :
      (String → Option (List Key))
      → Ranks
      → SessionSummary
      → List StoredMessage
      → Result HealthError (Unit {0})
  require_complete_capture parse_keys ranks summary ms =
      let health = inspected parse_keys ranks summary ms in
      let integrity_issues = length (keep (λ i. not (is_unredacted i)) health.report) in
      if ltb 0 integrity_issues then err (incomplete health.session_id integrity_issues) else ok tt
