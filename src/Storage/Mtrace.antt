-- ===== src/Storage/Mtrace.antt =====
-- crates/mcptracer-storage/src/mtrace.rs: the portable document and its validation. `Value::to_string`
-- is the codec's `print`, and `len` is the length in bytes of a text. Custom keys are held as their
-- code points.
use mcptracer.Common.{
  eq_text?, ℕ, ℤ, pos, leb_ℤ, String, Bool, true, false, not, ◌&&◌, ◌||◌, Option, none, some, List,
  [], ◌∷◌, length, list_eq, str_eq, leb, ◌==◌, Result, ok, err, ◌>>=◌,
}
use mcptracer.Json.{Codec, Value, is_object}
use mcptracer.Protocol.Message.{
  Direction, McpMessage, from_db_str, kind, kind_db_str, method, tool_name, is_error, error_code,
}
use mcptracer.Redact.Keys.{Key}
use mcptracer.Redact.Walk.{RedactionContext}
use mcptracer.Redact.Policy.{
  RedactionPolicy, PolicyError, is_active_policy, from_storage, custom_keys,
  unredacted_sensitive_keys_with_context,
}
use mcptracer.Redact.Context.{Texts, Tracker, default, observe}
use mcptracer.Model.Validate.{known_kind, not_after}
use mcptracer.Storage.Row.{id_json}

pub record ExportOptions : Type 0 where
  pub force_default_redaction : Bool
  pub allow_unredacted : Bool

pub record MtraceSession : Type 0 where
  pub client : String
  pub server_command : String
  pub transport : String
  pub started_at_ns : ℤ
  pub ended_at_ns : Option ℤ
  pub redaction_policy : String
  pub redaction_keys : List Key
  pub dropped_messages : ℤ
  pub tags : List String

pub record MtraceMessage : Type 0 where
  pub seq : ℕ
  pub ts_ns : ℤ
  pub direction : String
  pub message_kind : String
  pub rpc_id : Option String
  pub method : Option String
  pub tool_name : Option String
  pub payload : Value
  pub payload_bytes : ℕ
  pub is_error : Bool
  pub error_code : Option ℤ

pub record MtraceDocument : Type 0 where
  pub format : String
  pub version : ℕ
  pub exported_at_ns : ℤ
  pub exporter : String
  pub session : MtraceSession
  pub messages : List MtraceMessage

pub data MtraceError : Type 0 where
  unsupported_format : String → MtraceError
  unsupported_version : ℕ → MtraceError
  too_many_messages keys_not_normalized negative_dropped context_lost : MtraceError
  invalid_policy : PolicyError → MtraceError
  not_increasing unknown_direction unknown_kind not_object unredacted : ℕ → MtraceError
  direction_failed kind_mismatch id_mismatch method_mismatch : ℕ → MtraceError
  tool_name_mismatch is_error_mismatch error_code_mismatch : ℕ → MtraceError

abbrev pub current_format : String
current_format = "mtrace"

abbrev pub current_version : ℕ
current_version = 1

abbrev pub max_messages : ℕ
max_messages = 1000000

-- `if !b { bail!(e) }`
abbrev pub require : Bool → MtraceError → Result MtraceError (Unit {0})
require true e = ok tt
require false e = err e

abbrev pub eq_ℤ : ℤ → ℤ → Bool
eq_ℤ a b = leb_ℤ a b && leb_ℤ b a

abbrev pub eq_ℤ? : Option ℤ → Option ℤ → Bool
eq_ℤ? none none = true
eq_ℤ? (some a) (some b) = eq_ℤ a b
eq_ℤ? _ _ = false

abbrev pub eq_bool : Bool → Bool → Bool
eq_bool true b = b
eq_bool false b = not b

abbrev pub eq_keys : List Key → List Key → Bool
eq_keys [] [] = true
eq_keys (x ∷ xs) (y ∷ ys) = list_eq x y && eq_keys xs ys
eq_keys _ _ = false

abbrev pub derived : MtraceMessage → Direction → McpMessage
derived m d = record {
  seq = m.seq;
  timestamp_ns = m.ts_ns;
  direction = d;
  payload = m.payload;
  payload_bytes = m.payload_bytes;
}

-- The comparisons of `reject_message_field_payload_mismatch`.
unfoldable pub compare_fields : Codec → MtraceMessage → McpMessage → Result MtraceError (Unit {0})
compare_fields codec m d =
    require (str_eq (kind_db_str (kind d)) m.message_kind) (kind_mismatch m.seq) >>= λ _.
    require (eq_text? (id_json codec d) m.rpc_id) (id_mismatch m.seq) >>= λ _.
    require (eq_text? (method d) m.method) (method_mismatch m.seq) >>= λ _.
    require (eq_text? (tool_name d) m.tool_name) (tool_name_mismatch m.seq) >>= λ _.
    require (eq_bool (is_error d) m.is_error) (is_error_mismatch m.seq) >>= λ _.
    require (eq_ℤ? (error_code d) m.error_code) (error_code_mismatch m.seq)

unfoldable pub reject_message_field_payload_mismatch :
    Codec → MtraceMessage → Result MtraceError (Unit {0})
reject_message_field_payload_mismatch codec m = elim (from_db_str m.direction) [
  | none ↦ err (direction_failed m.seq)
  | some d ↦ compare_fields codec m (derived m d)
]

abbrev pub known_direction : String → Bool
known_direction d = str_eq d "c2s" || str_eq d "s2c"

abbrev pub is_no_text : List String → Bool
is_no_text [] = true
is_no_text (x ∷ xs) = false

module _ (codec : Codec) (len : String → ℕ) where
  abbrev pub texts : Texts
  texts = record { to_string = codec.print; len = len }

  -- The end of the loop's body: the tracker goes on, and the payload must be masked.
  unfoldable pub check_redaction :
      RedactionPolicy → MtraceMessage → RedactionContext × Tracker → Result MtraceError Tracker
  check_redaction policy m (context, t) =
      require (not (is_active_policy policy && t.lost_context)) context_lost >>= λ _.
      require (is_no_text (unredacted_sensitive_keys_with_context m.payload policy context))
        (unredacted m.seq)
      >>= λ _. ok t

  -- The body of the loop over the messages.
  unfoldable pub validate_message :
      RedactionPolicy → Option ℕ → Tracker → MtraceMessage → Result MtraceError Tracker
  validate_message policy previous t m =
      require (not (not_after previous m.seq)) (not_increasing m.seq) >>= λ _.
      require (known_direction m.direction) (unknown_direction m.seq) >>= λ _.
      require (known_kind m.message_kind) (unknown_kind m.seq) >>= λ _.
      require (is_object m.payload) (not_object m.seq) >>= λ _.
      reject_message_field_payload_mismatch codec m >>= λ _.
      check_redaction policy m (observe texts t m.seq m.direction m.payload)

  unfoldable pub validate_messages :
      RedactionPolicy → Option ℕ → Tracker → List MtraceMessage → Result MtraceError (Unit {0})
  validate_messages policy previous t [] = ok tt
  validate_messages policy previous t (m ∷ ms) =
      validate_message policy previous t m >>= λ u. validate_messages policy (some m.seq) u ms

  abbrev pub policy_of : MtraceSession → Result MtraceError RedactionPolicy
  policy_of s = elim (from_storage s.redaction_policy s.redaction_keys) [
    | ok p ↦ ok p
    | err e ↦ err (invalid_policy e)
  ]

  unfoldable pub validate : MtraceDocument → Result MtraceError (Unit {0})
  validate d = require (str_eq d.format current_format) (unsupported_format d.format) >>= λ _.
      require (d.version == current_version) (unsupported_version d.version) >>= λ _.
      require (leb (length d.messages) max_messages) too_many_messages >>= λ _.
      policy_of d.session >>= λ policy.
      require (eq_keys (custom_keys policy) d.session.redaction_keys) keys_not_normalized >>= λ _.
      require (leb_ℤ (pos 0) d.session.dropped_messages) negative_dropped >>= λ _.
      validate_messages policy none default d.messages
