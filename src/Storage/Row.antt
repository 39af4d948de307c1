-- ===== src/Storage/Row.antt =====
-- crates/mcptracer-storage/src/lib.rs: the row that `write_messages` inserts for a message, and the
-- summary of a session. The conversions of a number to the 64-bit column and back undo one another.
use mcptracer.Common.{ℤ, String, Option, none, some}
use mcptracer.Json.{Codec, Value}
use mcptracer.Protocol.Message.{
  McpMessage, as_db_str, id, kind, kind_db_str, method, tool_name, is_error, error_code,
}
use mcptracer.Model.Session.{StoredMessage}

pub record SessionSummary : Type 0 where
  pub session_id : String
  pub client : String
  pub server_command : String
  pub transport : String
  pub started_at_ns : ℤ
  pub ended_at_ns : Option ℤ
  pub total_messages : ℤ
  pub dropped_messages : ℤ
  pub redaction_policy : String
  pub redaction_keys_json : String

-- `McpMessage::id_json`
abbrev pub print_id : Codec → Option Value → Option String
print_id codec none = none
print_id codec (some i) = some (codec.print i)

unfoldable pub id_json : Codec → McpMessage → Option String
id_json codec m = print_id codec (id m)

unfoldable pub stored_row : Codec → McpMessage → StoredMessage
stored_row codec m = record {
  seq = m.seq;
  ts_ns = m.timestamp_ns;
  direction = as_db_str m.direction;
  message_kind = kind_db_str (kind m);
  rpc_id = id_json codec m;
  method = method m;
  tool_name = tool_name m;
  payload = codec.print m.payload;
  payload_bytes = m.payload_bytes;
  is_error = is_error m;
  error_code = error_code m;
}
