-- ===== src/Redact/Context.antt =====
-- crates/mcptracer-redact/src/context.rs: which responses answer a tools/list request. The hash set
-- of pending requests is a list without order; the text of an id and the length in bytes of a text
-- are the record `Texts`.
pub mod Answers
pub mod Granted
use mcptracer.Common.{
  ℕ, suc, ◌+◌, ◌^◌, ◌≡◌, String, Bool, true, false, not, ◌&&◌, ◌||◌, Option, none, some, List, [],
  ◌∷◌, any, keep, length, leb, ltb, ◌==◌, if◌then◌else◌, str_eq, is_text,
}
use mcptracer.Json.{Value, get, as_str, as_str?, is_string, is_number, is_some}
use mcptracer.Redact.Walk.{RedactionContext, runtime, tool_list_response}

pub record Texts : Type 0 where
  -- `Value::to_string` and `String::len`
  pub to_string : Value → String
  pub len : String → ℕ

-- The side that answers, true for the server, and the text of the id.
pub record Key : Type 0 where
  pub responder : Bool
  pub encoded : String

abbrev pub bool_eq : Bool → Bool → Bool
bool_eq true b = b
bool_eq false b = not b

abbrev pub key_eq : Key → Key → Bool
key_eq j k = bool_eq j.responder k.responder && str_eq j.encoded k.encoded

pub record Tracker : Type 0 where
  pub pending : List Key
  pub previous_seq : Option ℕ
  pub lost_context : Bool

abbrev pub default : Tracker
default = record { pending = []; previous_seq = none; lost_context = false }

abbrev pub max_pending_list_requests : ℕ
max_pending_list_requests = 4096

abbrev pub max_tracked_id_bytes : ℕ
max_tracked_id_bytes = 1024

-- `previous.checked_add(1) != Some(seq)`
abbrev pub is_gap : Option ℕ → ℕ → Bool
is_gap none seq = false
is_gap (some previous) seq = not (ltb (suc previous) (2 ^ 64) && suc previous == seq)

unfoldable pub after_gap : Tracker → ℕ → Tracker
after_gap t seq = record t {
  pending = if is_gap t.previous_seq seq then [] else t.pending;
  previous_seq = some seq;
}

unfoldable pub responder_of : String → Option Bool
responder_of direction =
    if str_eq direction "c2s"
    then some false
    else if str_eq direction "s2c"
    then some true
    else none

abbrev pub is_json_rpc : Value → Bool
is_json_rpc payload = is_text (as_str? (get payload "jsonrpc")) "2.0"

abbrev pub is_list_request : Value → Bool
is_list_request payload =
    is_json_rpc payload
    && (is_text (as_str? (get payload "method")) "tools/list"
        && (not (is_some (get payload "result")) && not (is_some (get payload "error"))))

-- The guards on the text of the id itself and on its JSON encoding.
abbrev pub too_long : Texts → Value → Bool
too_long texts i =
    elim (as_str i) [ none ↦ false | some s ↦ ltb max_tracked_id_bytes (texts.len s) ]
    || ltb max_tracked_id_bytes (texts.len (texts.to_string i))

abbrev pub remove : Key → List Key → List Key
remove k = keep (λ j. not (key_eq k j))

-- A message with a method.
unfoldable pub observe_request : Tracker → Key → Bool → Tracker
observe_request t key list_request =
    let pending = remove key t.pending in
    if list_request
    then (if ltb (length pending) max_pending_list_requests
        then record t { pending = key ∷ pending }
        else record t { pending = pending; lost_context = true })
    else record t { pending = pending }

-- A message without one.
unfoldable pub observe_response : Tracker → Key → Value → RedactionContext × Tracker
observe_response t key payload = (
  if any (key_eq key) t.pending
        && (is_json_rpc payload
            && (is_some (get payload "result") && not (is_some (get payload "error"))))
      then tool_list_response
      else runtime,
  record t { pending = remove key t.pending },
)

unfoldable pub observe_id : Texts → Tracker → Bool → Value → Value → RedactionContext × Tracker
observe_id texts t responder payload i =
    if too_long texts i
    then (runtime, record t { lost_context = t.lost_context || is_list_request payload })
    else if is_some (get payload "method")
    then (
      runtime,
      observe_request t (record { responder = not responder; encoded = texts.to_string i })
          (is_list_request payload),
    )
    else observe_response t (record { responder = responder; encoded = texts.to_string i }) payload

unfoldable pub observe_side : Texts → Tracker → Bool → Value → RedactionContext × Tracker
observe_side texts t responder payload = elim (get payload "id") [
  | none ↦ (runtime, t)
  | some i ↦
      if is_string i || is_number i then observe_id texts t responder payload i else (runtime, t)
]

unfoldable pub observe : Texts → Tracker → ℕ → String → Value → RedactionContext × Tracker
observe texts t seq direction payload =
    let u = after_gap t seq in
    elim (responder_of direction) [
      | none ↦ (runtime, record u { pending = [] })
      | some responder ↦ observe_side texts u responder payload
    ]
