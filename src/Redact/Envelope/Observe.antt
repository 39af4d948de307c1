-- ===== src/Redact/Envelope/Observe.antt =====
-- The tracker sees a masked message as it sees the message.
use mcptracer.Common.{
  ℕ, String, Bool, false, ◌||◌, ◌≡◌, refl, sym, ap, ◌∙◌, Option, none, some, [], if◌then◌else◌,
  arith,
}
use mcptracer.Json.{Value, get, as_str?, is_some, is_string, is_number}
use mcptracer.Redact.Walk.{RedactionContext, runtime, walk, walk_message}
use mcptracer.Redact.Context.{
  Texts, Tracker, responder_of, after_gap, observe_response, observe_id, observe_side, observe,
}
use mcptracer.Redact.Envelope.Fields.{
  option_map, get-walk_message_plain, is_some-walk_message, as_str?-walk_message,
}

-- An id that is a text or a number.
abbrev pub scalar : Option Value → Option Value
scalar none = none
scalar (some i) = if is_string i || is_number i then some i else none

-- Two payloads that the tracker does not tell apart.
pub record SameEnvelope (v w : Value) : Type 0 where
  pub id : scalar (get v "id") ≡ scalar (get w "id")
  pub has_method : is_some (get v "method") ≡ is_some (get w "method")
  pub method : as_str? (get v "method") ≡ as_str? (get w "method")
  pub jsonrpc : as_str? (get v "jsonrpc") ≡ as_str? (get w "jsonrpc")
  pub has_result : is_some (get v "result") ≡ is_some (get w "result")
  pub has_error : is_some (get v "error") ≡ is_some (get w "error")

abbrev by_id : Texts → Tracker → Bool → Value → Option Value → RedactionContext × Tracker
by_id texts t responder payload none = (runtime, t)
by_id texts t responder payload (some i) = observe_id texts t responder payload i

module _ (texts : Texts) (t : Tracker) (responder : Bool) where
  observe_side-by_id :
      (v : Value)
      → observe_side texts t responder v ≡ by_id texts t responder v (scalar (get v "id"))
  unfolding observe_side
  observe_side-by_id v = ground arith

  observe_id-same :
      (v w i : Value)
      → SameEnvelope v w
      → observe_id texts t responder v i ≡ observe_id texts t responder w i
  unfolding observe_id observe_response
  observe_id-same v w i e = rw (e.has_method, e.method, e.jsonrpc, e.has_result, e.has_error) refl

  by_id-same :
      (v w : Value) (o : Option Value)
      → SameEnvelope v w
      → by_id texts t responder v o ≡ by_id texts t responder w o
  by_id-same v w none e = refl
  by_id-same v w (some i) e = observe_id-same v w i e

  pub observe_side-same :
      (v w : Value)
      → SameEnvelope v w
      → observe_side texts t responder v ≡ observe_side texts t responder w
  observe_side-same v w e =
      observe_side-by_id v
      ∙ (ap (by_id texts t responder v) e.id
          ∙ (by_id-same v w (scalar (get w "id")) e ∙ sym (observe_side-by_id w)))

by_side-same :
    (texts : Texts) (t : Tracker) (v w : Value) (o : Option Bool)
    → SameEnvelope v w
    → elim o as (λ _. RedactionContext × Tracker) [
      | none ↦ (runtime, record t { pending = [] })
      | some r ↦ observe_side texts t r v
    ]
      ≡ elim o as (λ _. RedactionContext × Tracker) [
        | none ↦ (runtime, record t { pending = [] })
        | some r ↦ observe_side texts t r w
      ]
by_side-same texts t v w none e = refl
by_side-same texts t v w (some r) e = observe_side-same texts t r v w e

-- The tracker treats two payloads with the same envelope alike.
pub observe-same :
    (texts : Texts) (t : Tracker) (seq : ℕ) (direction : String) (v w : Value)
    → SameEnvelope v w
    → observe texts t seq direction v ≡ observe texts t seq direction w
unfolding observe
observe-same texts t seq direction v w e =
    by_side-same texts (after_gap t seq) v w (responder_of direction) e

-- A predicate on keys that leaves the envelope of a message alone.
pub record LeavesEnvelope (s : String → Bool) : Type 0 where
  pub id : s "id" ≡ false
  pub method : s "method" ≡ false
  pub jsonrpc : s "jsonrpc" ≡ false

scalar-walk :
    (s : String → Bool) (mask : Value → Value) (o : Option Value)
    → scalar (option_map (walk s mask) o) ≡ scalar o
unfolding walk
scalar-walk s mask o = ground arith

pub walk_message-SameEnvelope :
    (s : String → Bool) (mask : Value → Value) (context : RedactionContext) (v : Value)
    → LeavesEnvelope s
    → SameEnvelope (walk_message s mask context v) v
walk_message-SameEnvelope s mask context v h = record {
  id =
      ap scalar (get-walk_message_plain s mask context "id" v h.id refl)
      ∙ scalar-walk s mask (get v "id");
  has_method = is_some-walk_message s mask context "method" v;
  method = as_str?-walk_message s mask context "method" v h.method refl;
  jsonrpc = as_str?-walk_message s mask context "jsonrpc" v h.jsonrpc refl;
  has_result = is_some-walk_message s mask context "result" v;
  has_error = is_some-walk_message s mask context "error" v;
}
