-- ===== src/Model/Session.antt =====
-- crates/mcptracer-model/src/lib.rs: the types of the correlated view, and the stored message of
-- crates/mcptracer-storage/src/lib.rs.
use mcptracer.Common.{ℕ, ℤ, String, Bool, List, Option, str_eq}
use mcptracer.Protocol.Message.{Direction}

pub record StoredMessage : Type 0 where
  pub seq : ℕ
  pub ts_ns : ℤ
  pub direction : String
  pub message_kind : String
  pub rpc_id : Option String
  pub method : Option String
  pub tool_name : Option String
  pub payload : String
  pub payload_bytes : ℕ
  pub is_error : Bool
  pub error_code : Option ℤ

pub data ExchangeStatus : Type 0 where
  ok error tool_error subscribed cancelled unanswered orphan_response : ExchangeStatus

pub record Exchange : Type 0 where
  pub request_seq : Option ℕ
  pub response_seq : Option ℕ
  pub rpc_id : Option String
  pub origin : Direction
  pub method : Option String
  pub tool_name : Option String
  pub status : ExchangeStatus
  pub latency_ns : Option ℤ
  pub error_code : Option ℤ
  pub request_ts_ns : Option ℤ
  pub response_ts_ns : Option ℤ

pub record NotificationEvent : Type 0 where
  pub seq : ℕ
  pub ts_ns : ℤ
  pub direction : Direction
  pub method : String

pub record SessionStats : Type 0 where
  pub total_exchanges : ℕ
  pub ok_count : ℕ
  pub errors : ℕ
  pub unanswered_count : ℕ
  pub cancelled_count : ℕ
  pub orphan_responses : ℕ
  pub notifications : ℕ
  pub latency_p50_ns : Option ℤ
  pub latency_p95_ns : Option ℤ
  pub latency_max_ns : Option ℤ
  pub tool_call_counts : List (String × ℕ)

pub record SessionModel : Type 0 where
  pub exchanges : List Exchange
  pub notifications : List NotificationEvent
  pub stats : SessionStats

-- The three recognized values of `message_kind`.
abbrev pub is_request_kind : String → Bool
is_request_kind k = str_eq k "request"

abbrev pub is_response_kind : String → Bool
is_response_kind k = str_eq k "response"

abbrev pub is_notification_kind : String → Bool
is_notification_kind k = str_eq k "notification"
