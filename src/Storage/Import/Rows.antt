-- ===== src/Storage/Import/Rows.antt =====
-- What an import stores.
use mcptracer.Common.{
  eq_text?, ℕ, ℤ, pos, leb, length, ◌==◌, leb_ℤ, String, Bool, true, false, not, ◌≡◌, refl, ap,
  subst, Option, none, some, List, [], ◌∷◌, All, str_eq, eq_iff, arith, Result, ok, err, ◌>>=◌,
  ok_behind, ok_injective,
}
use mcptracer.Json.{Codec, is_object}
use mcptracer.Protocol.Message.{
  Direction, McpMessage, kind, kind_db_str, method, tool_name, is_error, error_code, as_db_str,
  from_db_str,
}
use mcptracer.Redact.Policy.{RedactionPolicy, custom_keys}
use mcptracer.Redact.Context.{Tracker, default, observe}
use mcptracer.Model.Session.{StoredMessage}
use mcptracer.Model.Validate.{known_kind, not_after}
use mcptracer.Model.Validate.Laws.{After, Ascends}
use mcptracer.Storage.Row.{stored_row, id_json}
use mcptracer.Storage.Mtrace.{
  MtraceMessage, MtraceDocument, MtraceError, require, eq_ℤ?, eq_bool, derived, compare_fields,
  reject_message_field_payload_mismatch, known_direction, direction_failed, texts, check_redaction,
  validate_message, validate_messages, validate, policy_of, unsupported_format, unsupported_version,
  too_many_messages, keys_not_normalized, negative_dropped, current_format, current_version,
  max_messages, eq_keys,
}
use mcptracer.Storage.Import.{map_err, imported, import_row, import_rows, import_mtrace_document}

-- Inversion of a test.
pub require_behind :
    {A : Type 0} (b : Bool) (e : MtraceError) (r : Result MtraceError A) {x : A}
    → ◌>>=◌ {B = A} (require b e) (λ _. r) ≡ ok x
    → (b ≡ true) × (r ≡ ok x)
require_behind true e r h = (refl, h)
require_behind false e r h = absurd (cc h)

last_require : (b : Bool) (e : MtraceError) → require b e ≡ ok tt → b ≡ true
last_require true e h = refl
last_require false e h = absurd (cc h)

eq_text?_sound : (a b : Option String) → eq_text? a b ≡ true → a ≡ b
eq_text?_sound none none h = refl
eq_text?_sound none (some b) h = absurd (cc h)
eq_text?_sound (some a) none h = absurd (cc h)
eq_text?_sound (some a) (some b) h = ap some ((eq_iff a b).0 h)

eq_ℤ?_sound : (a b : Option ℤ) → eq_ℤ? a b ≡ true → a ≡ b
eq_ℤ?_sound none none h = refl
eq_ℤ?_sound none (some b) h = absurd (cc h)
eq_ℤ?_sound (some a) none h = absurd (cc h)
eq_ℤ?_sound (some a) (some b) h = ap some (ground arith)

eq_bool_sound : (a b : Bool) → eq_bool a b ≡ true → a ≡ b
eq_bool_sound a b h = ground arith

as_db_str-from_db_str : (s : String) (d : Direction) → from_db_str s ≡ some d → as_db_str d ≡ s
unfolding from_db_str as_db_str
as_db_str-from_db_str s d h = ground (arith, eq_iff s "c2s", eq_iff s "s2c")

module _ (codec : Codec) (m : MtraceMessage) (d : Direction) where
  -- The columns are those of the payload.
  record Consistent : Type 0 where
    kind_column : kind_db_str (kind (derived m d)) ≡ m.message_kind
    id_column : id_json codec (derived m d) ≡ m.rpc_id
    method_column : method (derived m d) ≡ m.method
    tool_column : tool_name (derived m d) ≡ m.tool_name
    error_column : is_error (derived m d) ≡ m.is_error
    code_column : error_code (derived m d) ≡ m.error_code

  compare_fields-Consistent : compare_fields codec m (derived m d) ≡ ok tt → Consistent
  unfolding compare_fields
  compare_fields-Consistent h =
      let (a, h1) = require_behind _ _ _ h in
      let (b, h2) = require_behind _ _ _ h1 in
      let (c, h3) = require_behind _ _ _ h2 in
      let (e, h4) = require_behind _ _ _ h3 in
      let (f, h5) = require_behind _ _ _ h4 in
      record {
        kind_column = (eq_iff _ m.message_kind).0 a;
        id_column = eq_text?_sound _ _ b;
        method_column = eq_text?_sound _ _ c;
        tool_column = eq_text?_sound _ _ e;
        error_column = eq_bool_sound _ _ f;
        code_column = eq_ℤ?_sound _ _ (last_require _ _ h5);
      }

  imported-row :
      from_db_str m.direction ≡ some d
      → Consistent
      → imported codec m ≡ stored_row codec (derived m d)
  unfolding stored_row
  imported-row e c =
      rw
        (
          c.kind_column,
          c.id_column,
          c.method_column,
          c.tool_column,
          c.error_column,
          c.code_column,
          as_db_str-from_db_str m.direction d e,
        )
        refl

not-true : (b : Bool) → not b ≡ true → b ≡ false
not-true b h = ground arith

After-not_after : (previous : Option ℕ) (n : ℕ) → not_after previous n ≡ false → After previous n
After-not_after none n h = tt
After-not_after (some p) n h = ground arith

-- A row that recording a message would have written.
abbrev pub RowOf : Codec → StoredMessage → Type 0
RowOf codec r = (msg : McpMessage) × (r ≡ stored_row codec msg)

module _ (codec : Codec) (len : String → ℕ) (policy : RedactionPolicy) where
  mismatch-RowOf :
      (m : MtraceMessage) (o : Option Direction)
      → from_db_str m.direction ≡ o
      → elim o as (λ _. Result MtraceError (Unit {0})) [
        | none ↦ err (direction_failed m.seq)
        | some d ↦ compare_fields codec m (derived m d)
      ]
        ≡ ok tt
      → RowOf codec (imported codec m)
  mismatch-RowOf m none e h = absurd (cc h)
  mismatch-RowOf m (some d) e h =
      (derived m d, imported-row codec m d e (compare_fields-Consistent codec m d h))

  reject-RowOf :
      (m : MtraceMessage)
      → reject_message_field_payload_mismatch codec m ≡ ok tt
      → RowOf codec (imported codec m)
  unfolding reject_message_field_payload_mismatch
  reject-RowOf m h = mismatch-RowOf m (from_db_str m.direction) refl h

  import_row-imported :
      (m : MtraceMessage) (r : StoredMessage) → import_row codec m ≡ ok r → imported codec m ≡ r
  unfolding import_row
  import_row-imported m r h = ground arith

  validate_message-RowOf :
      (previous : Option ℕ) (t u : Tracker) (m : MtraceMessage)
      → validate_message codec len policy previous t m ≡ ok u
      → After previous m.seq × RowOf codec (imported codec m)
  unfolding validate_message
  validate_message-RowOf previous t u m h =
      let (a, h1) = require_behind (not (not_after previous m.seq)) _ _ h in
      let (_, h2) = require_behind (known_direction m.direction) _ _ h1 in
      let (_, h3) = require_behind (known_kind m.message_kind) _ _ h2 in
      let (_, h4) = require_behind (is_object m.payload) _ _ h3 in
      let (x, hx, _) =
        ok_behind (reject_message_field_payload_mismatch codec m)
          (λ _.
            check_redaction codec len policy m
              (observe (texts codec len) t m.seq m.direction m.payload))
          h4 in
      (After-not_after previous m.seq (not-true _ a), reject-RowOf m hx)

  rows-RowOf :
      (previous : Option ℕ) (t : Tracker) (ms : List MtraceMessage) (rows : List StoredMessage)
      → validate_messages codec len policy previous t ms ≡ ok tt
      → import_rows codec ms ≡ ok rows
      → Ascends previous rows × All (RowOf codec) rows
  unfolding validate_messages import_rows import_row
  rows-RowOf previous t [] rows v h =
      subst (λ l. Ascends previous l × All (RowOf codec) l) (ok_injective h) (tt, tt)
  rows-RowOf previous t (m ∷ ms) rows v h =
      let (u, v1, v2) =
        ok_behind (validate_message codec len policy previous t m)
          (λ u. validate_messages codec len policy (some m.seq) u ms) v in
      let (r, h1, h2) =
        ok_behind (import_row codec m) (λ r. import_rows codec ms >>= λ rs. ok (r ∷ rs)) h in
      let (rs, h3, h4) = ok_behind (import_rows codec ms) (λ rs. ok (r ∷ rs)) h2 in
      let (a, w) = validate_message-RowOf previous t u m v1 in
      let same = import_row-imported m r h1 in
      let (later, ws) = rows-RowOf (some m.seq) u ms rs v2 h3 in
      subst (λ l. Ascends previous l × All (RowOf codec) l) (ok_injective h4)
        (rw (← same) ((a, later), (w, ws)))

map_err-ok : (r : Result MtraceError (Unit {0})) → map_err r ≡ ok tt → r ≡ ok tt
map_err-ok (ok u) h = refl
map_err-ok (err e) h = absurd (cc h)

policy_known :
    (codec : Codec) (len : String → ℕ) (d : MtraceDocument)
    → validate codec len d ≡ ok tt
    → (policy : RedactionPolicy) × (validate_messages codec len policy none default d.messages
        ≡ ok tt)
unfolding validate
policy_known codec len d h =
    let (_, h1) =
      require_behind (str_eq d.format current_format) (unsupported_format d.format) _ h in
    let (_, h2) =
      require_behind (d.version == current_version) (unsupported_version d.version) _ h1 in
    let (_, h3) = require_behind (leb (length d.messages) max_messages) too_many_messages _ h2 in
    let (policy, _, h4) =
      ok_behind (policy_of codec len d.session)
        (λ policy.
          require (eq_keys (custom_keys policy) d.session.redaction_keys) keys_not_normalized
          >>= λ _. require (leb_ℤ (pos 0) d.session.dropped_messages) negative_dropped >>= λ _.
              validate_messages codec len policy none default d.messages)
        h3 in
    let (_, h5) =
      require_behind (eq_keys (custom_keys policy) d.session.redaction_keys) keys_not_normalized _
        h4 in
    let (_, h6) = require_behind (leb_ℤ (pos 0) d.session.dropped_messages) negative_dropped _ h5 in
    (policy, h6)

-- An import stores only what recording could have stored: its rows ascend strictly, and each is the
-- row that the recorder writes for some message, with the kind, the id, the method, the tool, the error
-- flag and the error code of its own payload, whatever the columns of the file claim.
pub import_mtrace_document-RowOf :
    (codec : Codec) (len : String → ℕ) (d : MtraceDocument) (rows : List StoredMessage)
    → import_mtrace_document codec len d ≡ ok rows
    → Ascends none rows × All (RowOf codec) rows
unfolding import_mtrace_document
import_mtrace_document-RowOf codec len d rows h =
    let (u, v, k) =
      ok_behind (map_err (validate codec len d)) (λ _. import_rows codec d.messages) h in
    let (policy, w) = policy_known codec len d (map_err-ok (validate codec len d) v) in
    rows-RowOf codec len policy none default d.messages rows w k
