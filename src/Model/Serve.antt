-- ===== src/Model/Serve.antt =====
-- crates/mcptracer-model/src/serve.rs: the recorded answers of a session, and the choice of the one
-- that a live request gets. Parsing and printing of JSON are the parameter `codec`, and the equality
-- of two JSON values is the parameter `value_eq`. The map from numbers to messages is searched from
-- its last entry, since a later message with the same number replaces an earlier one.
pub mod Remaining
pub mod OneShot
pub mod Inventory
use mcptracer.Common.{
  eq_text?, ℕ, suc, zero, String, Bool, true, false, not, ◌&&◌, ◌||◌, Option, none, some, List, [],
  ◌∷◌, is_text, str_eq, text_le, codes, get_elem?, set, ◌==◌, if◌then◌else◌, Result, ok, err, ◌>>=◌,
}
use mcptracer.Json.{
  Codec, Value, null, bool, number, string, array, object, Items, nil, cons, Fields, end, field,
  get, get?, as_str?, lookup,
}
use mcptracer.Protocol.Message.{Direction, client_to_server, server_to_client}
use mcptracer.Model.Session.{
  StoredMessage, Exchange, ExchangeStatus, ok as ok_status, error as error_status,
}
use mcptracer.Model.Stats.{Ranks}
use mcptracer.Model.Correlate.{correlate}

pub data MatchStrategy : Type 0 where
  exact method method_and_params subset sequential : MatchStrategy

pub data Side : Type 0 where
  request_side response_side : Side

-- `lost_message` stands for the panic of `expect`.
pub data MockSessionError : Type 0 where
  invalid_payload : ℕ → Side → MockSessionError
  missing_method : ℕ → MockSessionError
  lost_message : ℕ → MockSessionError

pub record MockResponse : Type 0 where
  pub response : Value
  pub source_request_seq : ℕ
  pub source_response_seq : ℕ

pub record RecordedExchange : Type 0 where
  pub method : String
  pub tool_name : Option String
  pub params_key : String
  pub params : Value
  pub response : Value
  pub source_request_seq : ℕ
  pub source_response_seq : ℕ
  pub used : Bool

pub record MockSession : Type 0 where
  pub exchanges : List RecordedExchange
  pub strategy : MatchStrategy

-- The entry goes to its place in the order of keys, unless the key is there: a later entry of an
-- object replaces an earlier one.
unfoldable pub insert_field : String → Value → Fields → Fields
insert_field k v end = field k v end
insert_field k v (field j w fs) =
    let rest = insert_field k v fs in
    if str_eq k j
    then field j w fs
    else if text_le (codes k) (codes j)
    then field k v (field j w fs)
    else field j w rest

unfoldable mutual
  pub canonicalize : Value → Value
  canonicalize (object fs) = object (canonicalize_fields fs)
  canonicalize (array vs) = array (canonicalize_items vs)
  canonicalize (string s) = string s
  canonicalize (number n) = number n
  canonicalize (bool b) = bool b
  canonicalize null = null

  pub canonicalize_items : Items → Items
  canonicalize_items nil = nil
  canonicalize_items (cons v vs) = cons (canonicalize v) (canonicalize_items vs)

  pub canonicalize_fields : Fields → Fields
  canonicalize_fields end = end
  canonicalize_fields (field k v fs) = insert_field k (canonicalize v) (canonicalize_fields fs)

unfoldable pub tool_name : Value → Option String
tool_name request =
    if is_text (as_str? (get request "method")) "tools/call"
    then as_str? (get? (get request "params") "name")
    else none

abbrev pub or_null : Option Value → Value
or_null none = null
or_null (some v) = v

unfoldable pub params_key : Codec → Value → String
params_key codec request = codec.print (canonicalize (or_null (get request "params")))

abbrev pub eq_value? : (Value → Value → Bool) → Option Value → Value → Bool
eq_value? value_eq none w = false
eq_value? value_eq (some v) w = value_eq v w

abbrev pub all_present : (Value → Value → Bool) → Fields → Fields → Bool
all_present value_eq end live = true
all_present value_eq (field k v fs) live =
    eq_value? value_eq (lookup k live) v && all_present value_eq fs live

unfoldable pub params_subset : (Value → Value → Bool) → Value → Value → Bool
params_subset value_eq null live = true
params_subset value_eq (object recorded) (object live) = all_present value_eq recorded live
params_subset value_eq (object recorded) live = false
params_subset value_eq other live = value_eq other live

-- The message of a number, the last of that number.
unfoldable pub by_seq : ℕ → List StoredMessage → Option StoredMessage
by_seq n [] = none
by_seq n (m ∷ ms) = elim (by_seq n ms) [
  | some later ↦ some later
  | none ↦ if m.seq == n then some m else none
]

abbrev pub answered_status : ExchangeStatus → Bool
answered_status ok_status = true
answered_status error_status = true
answered_status _ = false

abbrev pub from_client : Direction → Bool
from_client client_to_server = true
from_client server_to_client = false

-- The numbers of the request and of the response, where the exchange is not skipped.
unfoldable pub answered_pair : Exchange → Option (ℕ × ℕ)
answered_pair e =
    if from_client e.origin && answered_status e.status
    then elim e.request_seq [
      | none ↦ none
      | some q ↦ elim e.response_seq as (λ _. Option (ℕ × ℕ)) [ none ↦ none | some r ↦ some (q, r) ]
    ]
    else none

module _ (codec : Codec) where
  abbrev pub parse_at : ℕ → Side → Option StoredMessage → Result MockSessionError Value
  parse_at n side none = err (lost_message n)
  parse_at n side (some m) = elim (codec.parse m.payload) [
    | none ↦ err (invalid_payload n side)
    | some v ↦ ok v
  ]

  -- The entry for an exchange, from its two payloads.
  unfoldable pub recorded_exchange :
      ℕ → ℕ → Value → Value → Result MockSessionError RecordedExchange
  recorded_exchange q r request response = elim (as_str? (get request "method")) [
    | none ↦ err (missing_method q)
    | some m ↦ ok (record {
      method = m;
      tool_name = tool_name request;
      params_key = params_key codec request;
      params = or_null (get request "params");
      response = response;
      source_request_seq = q;
      source_response_seq = r;
      used = false;
    })
  ]

  unfoldable pub record_pair : List StoredMessage → ℕ × ℕ → Result MockSessionError RecordedExchange
  record_pair messages (q, r) = parse_at q request_side (by_seq q messages) >>= λ request.
      parse_at r response_side (by_seq r messages) >>= λ response.
      recorded_exchange q r request response

  -- The loop over the exchanges, which stops at the first error.
  unfoldable pub record_all :
      List StoredMessage → List Exchange → Result MockSessionError (List RecordedExchange)
  record_all messages [] = ok []
  record_all messages (e ∷ es) =
      let rest = record_all messages es in
      elim (answered_pair e) as (λ _. Result MockSessionError (List RecordedExchange)) [
        | none ↦ rest
        | some pair ↦ record_pair messages pair >>= λ c. rest >>= λ cs. ok (c ∷ cs)
      ]

  unfoldable pub from_messages_with_strategy :
      Ranks → List StoredMessage → MatchStrategy → Result MockSessionError MockSession
  from_messages_with_strategy ranks messages strategy =
      record_all messages (correlate codec ranks messages).exchanges >>= λ exchanges.
      ok (record { exchanges = exchanges; strategy = strategy })

-- `position`
abbrev pub position {ℓ} : {A : Type ℓ} → (A → Bool) → List A → Option ℕ
position p [] = none
position p (x ∷ xs) =
    let rest = position p xs in
    if p x then some 0 else elim rest as (λ _. Option ℕ) [ none ↦ none | some i ↦ some (suc i) ]

-- What a live request is compared by.
pub record Live : Type 0 where
  pub method : String
  pub tool_name : Option String
  pub params_key : String
  pub params : Value

abbrev pub same_tool : Live → RecordedExchange → Bool
same_tool l c = str_eq c.method l.method && eq_text? c.tool_name l.tool_name

abbrev pub same_call : Live → RecordedExchange → Bool
same_call l c = same_tool l c && str_eq c.params_key l.params_key

abbrev pub unused : RecordedExchange → Bool
unused c = not c.used

abbrev pub or_else {ℓ} : {A : Type ℓ} → Option A → Option A → Option A
or_else none o = o
or_else (some a) o = some a

module _ (value_eq : Value → Value → Bool) where
  unfoldable pub choose : MatchStrategy → Live → List RecordedExchange → Option ℕ
  choose sequential l cs = position unused cs
  choose method l cs = position (λ c. unused c && str_eq c.method l.method) cs
  choose exact l cs = position (λ c. unused c && same_call l c) cs
  choose method_and_params l cs =
      or_else (position (λ c. unused c && same_call l c) cs)
        (position (λ c. unused c && same_tool l c) cs)
  choose subset l cs =
      position (λ c. unused c && (same_tool l c && params_subset value_eq c.params l.params)) cs

abbrev pub use_up : RecordedExchange → RecordedExchange
use_up c = record c { used = true }

abbrev pub answer : RecordedExchange → MockResponse
answer c = record {
  response = c.response;
  source_request_seq = c.source_request_seq;
  source_response_seq = c.source_response_seq;
}

-- `get_mut`, the mark and the answer.
abbrev pub take_at : MockSession → ℕ → Option RecordedExchange → Option MockResponse × MockSession
take_at s i none = (none, s)
take_at s i (some c) = (some (answer c), record s { exchanges = set s.exchanges i (use_up c) })

abbrev pub take_chosen : MockSession → Option ℕ → Option MockResponse × MockSession
take_chosen s none = (none, s)
take_chosen s (some i) = take_at s i (get_elem? s.exchanges i)

module _ (codec : Codec) (value_eq : Value → Value → Bool) where
  abbrev pub live : String → Value → Live
  live m request = record {
    method = m;
    tool_name = tool_name request;
    params_key = params_key codec request;
    params = or_null (get request "params");
  }

  unfoldable pub match_request : MockSession → Value → Option MockResponse × MockSession
  match_request s request = elim (as_str? (get request "method")) [
    | none ↦ (none, s)
    | some m ↦ take_chosen s (choose value_eq s.strategy (live m request) s.exchanges)
  ]

  -- A client that sends one request after the other.
  unfoldable pub serve_all : MockSession → List Value → List MockResponse × MockSession
  serve_all s [] = ([], s)
  serve_all s (r ∷ rs) =
      let (o, t) = match_request s r in
      let (out, u) = serve_all t rs in (elim o [ none ↦ out | some a ↦ a ∷ out ], u)
