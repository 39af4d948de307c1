-- ===== src/Model/Correlate.antt =====
-- crates/mcptracer-model/src/lib.rs: `correlate`, one handler for each kind of message. The text of
-- a payload is parsed, and the id in it printed, by the parameter `codec`, which is serde_json.
pub mod Sound
pub mod Links
pub mod Loop
pub mod Counts
pub mod View
use mcptracer.Common.{
  ℕ, ℤ, sub_i64, String, Bool, true, false, ◌&&◌, Option, none, some, List, [], ◌∷◌, ◌++◌, leb,
  length, get_elem?, is_text, str_eq, if◌then◌else◌, set,
}
use mcptracer.Common.Sort.{sort}
use mcptracer.Json.{Codec, Value, string, number, get?, as_bool?, is_true}
use mcptracer.Protocol.Message.{
  Direction, client_to_server, server_to_client, dir_eq, from_db_str, opposite,
}
use mcptracer.Model.Session.{
  StoredMessage, ExchangeStatus, ok, error, tool_error, subscribed, cancelled, unanswered,
  orphan_response, Exchange, NotificationEvent, is_request_kind, is_response_kind,
  is_notification_kind, SessionModel,
}
use mcptracer.Model.Stats.{Ranks, compute_stats}
use mcptracer.Model.Pending.{Pending, find, remove, insert}

-- The local variables of the loop.
pub record Correlation : Type 0 where
  pub exchanges : List Exchange
  pub notifications : List NotificationEvent
  pub pending : Pending

abbrev pub empty : Correlation
empty = record { exchanges = []; notifications = []; pending = [] }

-- The exchange that a request opens.
abbrev pub opened : Direction → StoredMessage → Exchange
opened dir msg = record {
  request_seq = some msg.seq;
  response_seq = none;
  rpc_id = msg.rpc_id;
  origin = dir;
  method = msg.method;
  tool_name = msg.tool_name;
  status = unanswered;
  latency_ns = none;
  error_code = none;
  request_ts_ns = some msg.ts_ns;
  response_ts_ns = none;
}

abbrev pub await : Option String → Direction → ℕ → Pending → Pending
await none dir idx p = p
await (some id) dir idx p = insert (opposite dir, id) idx p

unfoldable pub on_request : Correlation → Direction → StoredMessage → Correlation
on_request c dir msg = record c {
  exchanges = c.exchanges ++ (opened dir msg ∷ []);
  pending = await msg.rpc_id dir (length c.exchanges) c.pending;
}

-- The exchange of a response that no request waits for.
abbrev pub orphan : Direction → StoredMessage → Exchange
orphan dir msg = record {
  request_seq = none;
  response_seq = some msg.seq;
  rpc_id = msg.rpc_id;
  origin = opposite dir;
  method = none;
  tool_name = none;
  status = orphan_response;
  latency_ns = none;
  error_code = msg.error_code;
  request_ts_ns = none;
  response_ts_ns = some msg.ts_ns;
}

abbrev pub find? : Option String → Direction → Pending → Option ℕ
find? none dir p = none
find? (some id) dir p = find (dir, id) p

abbrev pub remove? : Option String → Direction → Pending → Pending
remove? none dir p = p
remove? (some id) dir p = remove (dir, id) p

-- The write through `&mut exchanges[idx]`.
unfoldable pub update_at : (Exchange → Exchange) → List Exchange → ℕ → List Exchange
update_at f es idx = elim (get_elem? es idx) [ none ↦ es | some e ↦ set es idx (f e) ]

abbrev pub cancel : Exchange → Exchange
cancel e = record e { status = cancelled }

abbrev pub acknowledge : Exchange → Exchange
acknowledge e =
    if dir_eq e.origin client_to_server && is_text e.method "subscriptions/listen"
    then record e { status = subscribed }
    else e

unfoldable pub on_cancelled : Correlation → Direction → Option String → Correlation
on_cancelled c dir id = elim (find? id (opposite dir) c.pending) [
  | none ↦ c
  | some idx ↦ record c {
    exchanges = update_at cancel c.exchanges idx;
    pending = remove? id (opposite dir) c.pending;
  }
]

unfoldable pub on_acknowledged : Correlation → Direction → Option String → Correlation
on_acknowledged c dir id = elim (find? id dir c.pending) [
  | none ↦ c
  | some idx ↦ record c { exchanges = update_at acknowledge c.exchanges idx }
]

abbrev pub or_empty : Option String → String
or_empty none = ""
or_empty (some s) = s

abbrev pub event : Direction → StoredMessage → NotificationEvent
event dir msg = record {
  seq = msg.seq;
  ts_ns = msg.ts_ns;
  direction = dir;
  method = or_empty msg.method;
}

module _ (codec : Codec) where
  -- `status` of an answered exchange.
  unfoldable pub answer_status : Exchange → StoredMessage → ExchangeStatus
  answer_status e msg =
      if msg.is_error
      then error
      else if is_text e.method "tools/call"
          && is_true (as_bool? (get? (get? (codec.parse msg.payload) "result") "isError"))
      then tool_error
      else ok

  unfoldable pub answered : Exchange → StoredMessage → Exchange
  answered e msg = record e {
    response_seq = some msg.seq;
    response_ts_ns = some msg.ts_ns;
    error_code = msg.error_code;
    latency_ns = elim e.request_ts_ns [ none ↦ e.latency_ns | some t ↦ some (sub_i64 msg.ts_ns t) ];
    status = answer_status e msg;
  }

  unfoldable pub on_response : Correlation → Direction → StoredMessage → Correlation
  on_response c dir msg = elim (find? msg.rpc_id dir c.pending) [
    | none ↦ record c { exchanges = c.exchanges ++ (orphan dir msg ∷ []) }
    | some idx ↦ record c {
      exchanges = update_at (λ e. answered e msg) c.exchanges idx;
      pending = remove? msg.rpc_id dir c.pending;
    }
  ]

  -- An id that is a text or a number, printed.
  abbrev pub printed_id : Option Value → Option String
  printed_id (some (string s)) = some (codec.print (string s))
  printed_id (some (number n)) = some (codec.print (number n))
  printed_id _ = none

  unfoldable pub cancelled_id : StoredMessage → Option String
  cancelled_id msg = printed_id (get? (get? (codec.parse msg.payload) "params") "requestId")

  unfoldable pub subscription_id : StoredMessage → Option String
  subscription_id msg = printed_id (
      get? (get? (get? (codec.parse msg.payload) "params") "_meta")
        "io.modelcontextprotocol/subscriptionId")

  unfoldable pub note_cancelled : Correlation → Direction → StoredMessage → Correlation
  note_cancelled c dir msg =
      if is_text msg.method "notifications/cancelled"
      then on_cancelled c dir (cancelled_id msg)
      else c

  unfoldable pub note_acknowledged : Correlation → Direction → StoredMessage → Correlation
  note_acknowledged c dir msg =
      if dir_eq dir server_to_client
        && is_text msg.method "notifications/subscriptions/acknowledged"
      then on_acknowledged c dir (subscription_id msg)
      else c

  unfoldable pub on_notification : Correlation → Direction → StoredMessage → Correlation
  on_notification c dir msg =
      let c' = note_acknowledged (note_cancelled c dir msg) dir msg in
      record c' { notifications = c'.notifications ++ (event dir msg ∷ []) }

  unfoldable pub on_message : Correlation → Direction → StoredMessage → Correlation
  on_message c dir msg =
      if is_request_kind msg.message_kind
      then on_request c dir msg
      else if is_response_kind msg.message_kind
      then on_response c dir msg
      else if is_notification_kind msg.message_kind
      then on_notification c dir msg
      else c

  unfoldable pub step : Correlation → StoredMessage → Correlation
  step c msg = elim (from_db_str msg.direction) [ none ↦ c | some dir ↦ on_message c dir msg ]

  unfoldable pub run : Correlation → List StoredMessage → Correlation
  run c [] = c
  run c (m ∷ ms) = run (step c m) ms

-- `sort_by_key(|e| e.request_seq.or(e.response_seq).unwrap_or(u64::MAX))`
abbrev pub sort_key : Exchange → ℕ
sort_key e = elim e.request_seq [
  | some s ↦ s
  | none ↦ elim e.response_seq [ some s ↦ s | none ↦ 18446744073709551615 ]
]

abbrev pub by_key : Exchange → Exchange → Bool
by_key a b = leb (sort_key a) (sort_key b)

unfoldable pub correlate : Codec → Ranks → List StoredMessage → SessionModel
correlate codec ranks messages =
    let c = run codec empty messages in
    let exchanges = sort by_key c.exchanges in
    record {
      exchanges = exchanges;
      notifications = c.notifications;
      stats = compute_stats ranks exchanges c.notifications;
    }
