-- ===== src/Model/Validate.antt =====
-- crates/mcptracer-model/src/lib.rs: `validate_session`. The sentence of an issue, which repeats
-- its kind and numbers for the reader, is left out.
pub mod Laws
use mcptracer.Common.{
  ℕ, String, Bool, true, false, not, ◌&&◌, ◌||◌, Option, none, some, List, [], ◌∷◌, ◌++◌, leb, ltb,
  if◌then◌else◌,
}
use mcptracer.Json.{Codec, is_some}
use mcptracer.Protocol.Message.{from_db_str}
use mcptracer.Model.Session.{
  StoredMessage, ExchangeStatus, unanswered, orphan_response, Exchange, is_request_kind,
  is_response_kind, is_notification_kind,
}
use mcptracer.Model.Stats.{Ranks}
use mcptracer.Model.Correlate.{correlate}

pub data IssueKind : Type 0 where
  empty_session session_not_closed dropped_messages non_monotonic_sequence : IssueKind
  invalid_payload invalid_redaction_configuration unredacted_sensitive_value : IssueKind
  unknown_direction unknown_message_kind unanswered_request orphan_response_issue : IssueKind

pub record Issue : Type 0 where
  pub kind : IssueKind
  pub seq : Option ℕ

abbrev pub issue_if : Bool → IssueKind → Option ℕ → List Issue
issue_if b kind seq = if b then record { kind = kind; seq = seq } ∷ [] else []

abbrev pub is_nil {ℓ} : {A : Type ℓ} → List A → Bool
is_nil [] = true
is_nil (x ∷ xs) = false

abbrev pub known_kind : String → Bool
known_kind k = is_request_kind k || is_response_kind k || is_notification_kind k

-- `message.seq <= previous`
abbrev pub not_after : Option ℕ → ℕ → Bool
not_after none seq = false
not_after (some previous) seq = leb seq previous

-- The issues of one message of the loop.
unfoldable pub message_issues : Codec → Option ℕ → StoredMessage → List Issue
message_issues codec previous m =
    issue_if (not_after previous m.seq) non_monotonic_sequence (some m.seq)
    ++ (issue_if (not (is_some (from_db_str m.direction))) unknown_direction (some m.seq)
        ++ (issue_if (not (known_kind m.message_kind)) unknown_message_kind (some m.seq)
            ++ issue_if (not (is_some (codec.parse m.payload))) invalid_payload (some m.seq)))

unfoldable pub stream_issues : Codec → Option ℕ → List StoredMessage → List Issue
stream_issues codec previous [] = []
stream_issues codec previous (m ∷ ms) =
    message_issues codec previous m ++ stream_issues codec (some m.seq) ms

unfoldable pub exchange_issue : Exchange → List Issue
exchange_issue e = elim e.status [
  | unanswered ↦ record { kind = unanswered_request; seq = e.request_seq } ∷ []
  | orphan_response ↦ record { kind = orphan_response_issue; seq = e.response_seq } ∷ []
  | _ ↦ []
]

unfoldable pub exchange_issues : List Exchange → List Issue
exchange_issues [] = []
exchange_issues (e ∷ es) = exchange_issue e ++ exchange_issues es

unfoldable pub validate_session : Codec → Ranks → List StoredMessage → ℕ → List Issue
validate_session codec ranks messages dropped =
    issue_if (is_nil messages) empty_session none
    ++ (issue_if (ltb 0 dropped) dropped_messages none
        ++ (stream_issues codec none messages
            ++ exchange_issues (correlate codec ranks messages).exchanges))

-- `SessionIntegrityReport::is_healthy`
abbrev pub is_healthy : List Issue → Bool
is_healthy issues = is_nil issues
