-- ===== src/Storage/Export/Accepted.antt =====
-- The validation accepts what the export builds from recorded messages.
use mcptracer.Common.{
  eq_text?_refl, ℕ, suc, ℤ, String, Bool, true, false, not, ◌&&◌, ◌≡◌, refl, sym, ap, ◌∙◌, subst,
  Option, none, some, List, [], ◌∷◌, length, All, list_eq_refl, arith, eq_refl, ok, ◌>>=◌,
  ok_behind, ok_injective,
}
use mcptracer.Json.{Codec, Value, is_object}
use mcptracer.Protocol.Message.{
  Direction, client_to_server, server_to_client, McpMessage, id, kind, MessageKind, request,
  response, notification, is_response, is_notification, kind_db_str, method, tool_name, is_error,
  error_code, as_db_str, from_db_str,
}
use mcptracer.Redact.Keys.{Key}
use mcptracer.Redact.Walk.{RedactionContext}
use mcptracer.Redact.Policy.{
  RedactionPolicy, new, redactor_sensitive, redact_with_context, is_active_policy,
}
use mcptracer.Redact.Sound.Policy.{redact-unredacted}
use mcptracer.Redact.Envelope.Observe.{observe-same}
use mcptracer.Redact.Context.{Tracker, observe}
use mcptracer.Model.Session.{StoredMessage}
use mcptracer.Model.Validate.{known_kind, not_after}
use mcptracer.Model.Validate.Laws.{After, Ascends}
use mcptracer.Storage.Row.{stored_row, id_json, print_id}
use mcptracer.Storage.Mtrace.{
  MtraceMessage, eq_ℤ?, eq_bool, eq_keys, derived, compare_fields,
  reject_message_field_payload_mismatch, known_direction, texts, check_redaction, validate_message,
  validate_messages,
}
use mcptracer.Storage.Export.{
  context_exceeded, demand, exported, export_payload, export_message, export_messages,
}
use mcptracer.Storage.Export.Columns.{
  LeavesColumns, SameColumns, HasScalarId, redact-SameColumns, redact-SameEnvelope,
}

eq_ℤ?_refl : (o : Option ℤ) → eq_ℤ? o o ≡ true
eq_ℤ?_refl none = refl
eq_ℤ?_refl (some i) = ground arith

eq_bool_refl : (b : Bool) → eq_bool b b ≡ true
eq_bool_refl true = refl
eq_bool_refl false = refl

pub eq_keys_refl : (keys : List Key) → eq_keys keys keys ≡ true
eq_keys_refl [] = refl
eq_keys_refl (k ∷ ks) = ground (arith, list_eq_refl k, eq_keys_refl ks)

from_db_str-as_db_str : (d : Direction) → from_db_str (as_db_str d) ≡ some d
unfolding from_db_str as_db_str
from_db_str-as_db_str client_to_server = refl
from_db_str-as_db_str server_to_client = refl

known_direction-as_db_str : (d : Direction) → known_direction (as_db_str d) ≡ true
unfolding as_db_str
known_direction-as_db_str client_to_server = refl
known_direction-as_db_str server_to_client = refl

known_kind-kind_db_str : (k : MessageKind) → known_kind (kind_db_str k) ≡ true
unfolding kind_db_str
known_kind-kind_db_str request = refl
known_kind-kind_db_str response = refl
known_kind-kind_db_str notification = refl

not_after-After : (previous : Option ℕ) (n : ℕ) → After previous n → not_after previous n ≡ false
not_after-After none n h = refl
not_after-After (some p) n h = ground arith

module _ (a b : McpMessage) (h : SameColumns a.payload b.payload) where
  id-same : id a ≡ id b
  unfolding id
  id-same = h.id

  method-same : method a ≡ method b
  unfolding method
  method-same = h.method

  kind-same : kind a ≡ kind b
  unfolding kind is_response is_notification
  kind-same = rw (id-same, method-same) refl

  tool_name-same : tool_name a ≡ tool_name b
  unfolding tool_name
  tool_name-same = rw (method-same, h.name) refl

  is_error-same : is_error a ≡ is_error b
  unfolding is_error
  is_error-same = h.has_error

  error_code-same : error_code a ≡ error_code b
  unfolding error_code
  error_code-same = h.code

module _ (codec : Codec) (msg : McpMessage) where
  row-direction : (stored_row codec msg).direction ≡ as_db_str msg.direction
  unfolding stored_row
  row-direction = refl

  row-kind : (stored_row codec msg).message_kind ≡ kind_db_str (kind msg)
  unfolding stored_row
  row-kind = refl

  row-payload : (stored_row codec msg).payload ≡ codec.print msg.payload
  unfolding stored_row
  row-payload = refl

module _ (codec : Codec) (msg : McpMessage) (w : Value) (h : SameColumns w msg.payload) where
  abbrev out : MtraceMessage
  out = exported (stored_row codec msg) w

  compare_fields-ok : compare_fields codec out (derived out msg.direction) ≡ ok tt
  unfolding compare_fields stored_row id_json
  compare_fields-ok =
      let d = derived (exported (stored_row codec msg) w) msg.direction in
      rw
        (
          kind-same d msg h,
          id-same d msg h,
          method-same d msg h,
          tool_name-same d msg h,
          is_error-same d msg h,
          error_code-same d msg h,
          eq_refl (kind_db_str (kind msg)),
          eq_text?_refl (print_id codec (id msg)),
          eq_text?_refl (method msg),
          eq_text?_refl (tool_name msg),
          eq_bool_refl (is_error msg),
          eq_ℤ?_refl (error_code msg),
        )
        refl

  reject-ok :
      reject_message_field_payload_mismatch codec (exported (stored_row codec msg) w) ≡ ok tt
  unfolding reject_message_field_payload_mismatch stored_row
  reject-ok =
      rw (from_db_str-as_db_str msg.direction, reject_message_field_payload_mismatch)
        compare_fields-ok

-- A row that `write_messages` inserted for a message, with an object that serde_json reads back from
-- its text and an id that is a text or a number, or none.
pub record Recorded (codec : Codec) (m : StoredMessage) : Type 0 where
  pub message : McpMessage
  pub row : m ≡ stored_row codec message
  pub parses : codec.parse (codec.print message.payload) ≡ some message.payload
  pub is_json_object : is_object message.payload ≡ true
  pub scalar_id : HasScalarId message.payload

module _ (codec : Codec) (len : String → ℕ) (p : RedactionPolicy)
    (h : LeavesColumns (redactor_sensitive (new p))) where
  validate_message-chain :
      (previous : Option ℕ) (t u : Tracker) (m : MtraceMessage)
      → not_after previous m.seq ≡ false
      → known_direction m.direction ≡ true
      → known_kind m.message_kind ≡ true
      → is_object m.payload ≡ true
      → reject_message_field_payload_mismatch codec m ≡ ok tt
      → check_redaction codec len p m (observe (texts codec len) t m.seq m.direction m.payload)
        ≡ ok u
      → validate_message codec len p previous t m ≡ ok u
  unfolding validate_message
  validate_message-chain previous t u m a b c d e f = rw (a, b, c, d, e) f

  check_redaction-ok :
      (m : MtraceMessage) (v : Value) (context : RedactionContext) (t : Tracker)
      → m.payload ≡ redact_with_context (new p) v context
      → (is_active_policy p && t.lost_context) ≡ false
      → check_redaction codec len p m (context, t) ≡ ok t
  unfolding check_redaction
  check_redaction-ok m v context t e l = rw (l, e, redact-unredacted p v context) refl

  policy-new : (new p).policy ≡ p
  unfolding new
  policy-new = ground arith

  abbrev seen : Tracker → StoredMessage → Value → RedactionContext × Tracker
  seen t m v = observe (texts codec len) t m.seq m.direction v

  abbrev masked : Tracker → StoredMessage → Value → Value
  masked t m v = redact_with_context (new p) v (seen t m v).0

  -- What the export makes of one message.
  record Made (t : Tracker) (m : StoredMessage) (v : Value) (r : MtraceMessage × Tracker)
      : Type 0 where
    message : r.0 ≡ exported m (masked t m v)
    tracker : r.1 ≡ (seen t m v).1
    kept : (is_active_policy p && (seen t m v).1.lost_context) ≡ false

  export_payload-Made :
      (t : Tracker) (m : StoredMessage) (v : Value) (b : Bool) (r : MtraceMessage × Tracker)
      → (is_active_policy p && (seen t m v).1.lost_context) ≡ b
      → ◌>>=◌ {B = MtraceMessage × Tracker}
          (demand (not b) context_exceeded)
          (λ _. ok (exported m (masked t m v), (seen t m v).1))
        ≡ ok r
      → Made t m v r
  export_payload-Made t m v true r e k = absurd (cc k)
  export_payload-Made t m v false r e k =
      let q = ok_injective k in
      record {
        message = ap (λ (x : MtraceMessage × Tracker). x.0) (sym q);
        tracker = ap (λ (x : MtraceMessage × Tracker). x.1) (sym q);
        kept = e;
      }

  export_message-Made :
      (t : Tracker) (m : StoredMessage) (v : Value) (r : MtraceMessage × Tracker)
      → codec.parse m.payload ≡ some v
      → is_object v ≡ true
      → export_message codec len (new p) t m ≡ ok r
      → Made t m v r
  unfolding export_message export_payload new
  export_message-Made t m v r e o k =
      export_payload-Made t m v _ r refl
        (rw (e, o, policy-new, export_message, export_payload) at k)

  exported-accepted :
      (previous : Option ℕ) (t : Tracker) (msg : McpMessage) (r : MtraceMessage × Tracker)
      → HasScalarId msg.payload
      → is_object msg.payload ≡ true
      → After previous (stored_row codec msg).seq
      → Made t (stored_row codec msg) msg.payload r
      → validate_message codec len p previous t
          (exported (stored_row codec msg) (masked t (stored_row codec msg) msg.payload))
        ≡ ok (seen t (stored_row codec msg) msg.payload).1
  exported-accepted previous t msg r i o a made =
      let m = stored_row codec msg in
      let w = masked t m msg.payload in
      let columns = redact-SameColumns p msg.payload (seen t m msg.payload).0 h i in
      validate_message-chain previous t (seen t m msg.payload).1 (exported m w)
        (not_after-After previous m.seq a)
        (rw (row-direction codec msg) (known_direction-as_db_str msg.direction))
        (rw (row-kind codec msg) (known_kind-kind_db_str (kind msg))) (columns.shape ∙ o)
        (reject-ok codec msg w columns)
        (subst (λ c. check_redaction codec len p (exported m w) c ≡ ok (seen t m msg.payload).1)
          (sym (
            observe-same (texts codec len) t m.seq m.direction w msg.payload
              (redact-SameEnvelope p msg.payload (seen t m msg.payload).0 h)))
          (check_redaction-ok (exported m w) msg.payload (seen t m msg.payload).0
            (seen t m msg.payload).1 refl made.kept))

  exported_row-accepted :
      (previous : Option ℕ) (t : Tracker) (m : StoredMessage) (r : MtraceMessage × Tracker)
      → Recorded codec m
      → After previous m.seq
      → export_message codec len (new p) t m ≡ ok r
      → (r.0.seq ≡ m.seq) × (validate_message codec len p previous t r.0 ≡ ok r.1)
  exported_row-accepted previous t m r g a e =
      let row = stored_row codec g.message in
      let made =
        export_message-Made t row g.message.payload r
          (ap codec.parse (row-payload codec g.message) ∙ g.parses) g.is_json_object
          (rw g.row at e) in
      let b =
        exported-accepted previous t g.message r g.scalar_id g.is_json_object (rw g.row at a)
          made in
      (
        ap (λ (x : MtraceMessage). x.seq) made.message
            ∙ ap (λ (x : StoredMessage). x.seq) (sym g.row),
        rw (made.message, made.tracker) b,
      )

  pub export_messages-accepted :
      (previous : Option ℕ) (t : Tracker) (ms : List StoredMessage) (out : List MtraceMessage)
      → All (Recorded codec) ms
      → Ascends previous ms
      → export_messages codec len (new p) t ms ≡ ok out
      → (validate_messages codec len p previous t out ≡ ok tt) × (length out ≡ length ms)
  unfolding export_messages validate_messages
  export_messages-accepted previous t [] out g a e =
      subst (λ l. (validate_messages codec len p previous t l ≡ ok tt) × (length l ≡ 0))
        (ok_injective e) (refl, refl)
  export_messages-accepted previous t (m ∷ ms) out g a e =
      let (r, er, e2) =
        ok_behind (export_message codec len (new p) t m)
          (λ r. export_messages codec len (new p) r.1 ms >>= λ rest. ok (r.0 ∷ rest)) e in
      let (rest, eo, e3) =
        ok_behind (export_messages codec len (new p) r.1 ms) (λ rest. ok (r.0 ∷ rest)) e2 in
      let (s, v) = exported_row-accepted previous t m r g.0 a.0 er in
      let (vs, n) = export_messages-accepted (some m.seq) r.1 ms rest g.1 a.1 eo in
      subst
        (λ l. (validate_messages codec len p previous t l ≡ ok tt) × (length l ≡ length (m ∷ ms)))
        (ok_injective e3) (rw (v, s) vs, ap suc n)
