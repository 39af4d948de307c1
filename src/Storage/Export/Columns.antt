-- ===== src/Storage/Export/Columns.antt =====
-- The columns of a row are those of the masked payload too.
use mcptracer.Common.{
  String, Bool, true, false, not, ◌≡◌, refl, ap, ◌∙◌, Option, none, some, arith, if◌then◌else◌,
}
use mcptracer.Json.{Value, get, get?, as_str?, as_i64?, is_some, is_object}
use mcptracer.Redact.Walk.{RedactionContext, walk, walk_message, mask_plain}
use mcptracer.Redact.Policy.{
  RedactionPolicy, new, redactor_sensitive, redact_with_context, is_active_policy,
}
use mcptracer.Redact.Envelope.Fields.{
  option_map, walk_child, get-walk, get-walk_message_plain, is_some-walk_message,
  as_str?-walk_message, as_str?-option_map, as_i64-walk,
}
use mcptracer.Redact.Envelope.Observe.{
  SameEnvelope, LeavesEnvelope, walk_message-SameEnvelope, scalar,
}

-- A predicate on keys that leaves alone every key a column is derived from.
pub record LeavesColumns (s : String → Bool) : Type 0 where
  pub envelope : LeavesEnvelope s
  pub params : s "params" ≡ false
  pub name : s "name" ≡ false
  pub error : s "error" ≡ false
  pub code : s "code" ≡ false

-- Two payloads of which the columns are the same.
pub record SameColumns (v w : Value) : Type 0 where
  pub id : get v "id" ≡ get w "id"
  pub has_method : is_some (get v "method") ≡ is_some (get w "method")
  pub method : as_str? (get v "method") ≡ as_str? (get w "method")
  pub name : as_str? (get? (get v "params") "name") ≡ as_str? (get? (get w "params") "name")
  pub has_error : is_some (get v "error") ≡ is_some (get w "error")
  pub code : as_i64? (get? (get v "error") "code") ≡ as_i64? (get? (get w "error") "code")
  pub shape : is_object v ≡ is_object w

-- An id that is a text or a number, or none.
abbrev pub HasScalarId : Value → Type 0
HasScalarId v = scalar (get v "id") ≡ get v "id"

module _ (s : String → Bool) (mask : Value → Value) where
  walk_child_plain : (k : String) (v : Value) → s k ≡ false → walk_child s mask k v ≡ walk s mask v
  walk_child_plain k v h = rw h refl

  get?-walk_name :
      (k : String) (o : Option Value)
      → s k ≡ false
      → get? (option_map (walk s mask) o) k ≡ option_map (walk s mask) (get? o k)
  get?-walk_name k none h = refl
  get?-walk_name k (some v) h = get-walk s mask k v ∙ plain (get v k)
    where
      plain : (o : Option Value) → option_map (walk_child s mask k) o ≡ option_map (walk s mask) o
      plain none = refl
      plain (some w) = ap some (walk_child_plain k w h)

  as_i64?-option_map : (o : Option Value) → as_i64? (option_map (walk s mask) o) ≡ as_i64? o
  as_i64?-option_map none = refl
  as_i64?-option_map (some v) = as_i64-walk s mask v

  scalar_walked : (o : Option Value) → scalar o ≡ o → option_map (walk s mask) o ≡ o
  unfolding walk
  scalar_walked o h = ground arith

  is_object-walk_message :
      (context : RedactionContext) (v : Value)
      → is_object (walk_message s mask context v) ≡ is_object v
  unfolding walk_message walk
  is_object-walk_message context v = ground arith

  pub walk_message-SameColumns :
      (context : RedactionContext) (v : Value)
      → LeavesColumns s
      → HasScalarId v
      → SameColumns (walk_message s mask context v) v
  walk_message-SameColumns context v h i = record {
    id =
        get-walk_message_plain s mask context "id" v h.envelope.id refl
        ∙ scalar_walked (get v "id") i;
    has_method = is_some-walk_message s mask context "method" v;
    method = as_str?-walk_message s mask context "method" v h.envelope.method refl;
    name =
        ap (λ o. as_str? (get? o "name"))
          (get-walk_message_plain s mask context "params" v h.params refl)
        ∙ (ap as_str? (get?-walk_name "name" (get v "params") h.name)
            ∙ as_str?-option_map s mask (get? (get v "params") "name"));
    has_error = is_some-walk_message s mask context "error" v;
    code =
        ap (λ o. as_i64? (get? o "code"))
          (get-walk_message_plain s mask context "error" v h.error refl)
        ∙ (ap as_i64? (get?-walk_name "code" (get v "error") h.code)
            ∙ as_i64?-option_map (get? (get v "error") "code"));
    shape = is_object-walk_message context v;
  }

module _ (p : RedactionPolicy) (v : Value) (context : RedactionContext)
    (h : LeavesColumns (redactor_sensitive (new p))) where
  same_columns :
      (b : Bool)
      → HasScalarId v
      → SameColumns
          (if not b then v else walk_message (redactor_sensitive (new p)) mask_plain context v)
          v
  same_columns false i = record {
    id = refl;
    has_method = refl;
    method = refl;
    name = refl;
    has_error = refl;
    code = refl;
    shape = refl;
  }
  same_columns true i =
      walk_message-SameColumns (redactor_sensitive (new p)) mask_plain context v h i

  pub redact-SameColumns : HasScalarId v → SameColumns (redact_with_context (new p) v context) v
  unfolding redact_with_context
  redact-SameColumns i = same_columns (is_active_policy (new p).policy) i

  same_envelope :
      (b : Bool)
      → SameEnvelope
          (if not b then v else walk_message (redactor_sensitive (new p)) mask_plain context v)
          v
  same_envelope false = record {
    id = refl;
    has_method = refl;
    method = refl;
    jsonrpc = refl;
    has_result = refl;
    has_error = refl;
  }
  same_envelope true =
      walk_message-SameEnvelope (redactor_sensitive (new p)) mask_plain context v h.envelope

  pub redact-SameEnvelope : SameEnvelope (redact_with_context (new p) v context) v
  unfolding redact_with_context
  redact-SameEnvelope = same_envelope (is_active_policy (new p).policy)
