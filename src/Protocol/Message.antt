-- ===== src/Protocol/Message.antt =====
-- crates/mcptracer-protocol/src/lib.rs: directions, message accessors and kinds.
use mcptracer.Common.{
  ℕ, ℤ, String, Bool, true, false, not, ◌&&◌, ◌≡◌, Option, none, some, str_eq, is_text, arith,
  if◌then◌else◌,
}
use mcptracer.Json.{Value, get, get?, as_str?, as_bool?, as_i64?, is_some, is_true}

pub data Direction : Type 0 where
  client_to_server server_to_client : Direction

abbrev pub dir_eq : Direction → Direction → Bool
dir_eq client_to_server client_to_server = true
dir_eq server_to_client server_to_client = true
dir_eq _ _ = false

unfoldable pub as_db_str : Direction → String
as_db_str client_to_server = "c2s"
as_db_str server_to_client = "s2c"

unfoldable pub from_db_str : String → Option Direction
from_db_str s =
    if str_eq s "c2s"
    then some client_to_server
    else if str_eq s "s2c"
    then some server_to_client
    else none

unfoldable pub opposite : Direction → Direction
opposite client_to_server = server_to_client
opposite server_to_client = client_to_server

pub record McpMessage : Type 0 where
  pub seq : ℕ
  pub timestamp_ns : ℤ
  pub direction : Direction
  pub payload : Value
  pub payload_bytes : ℕ

unfoldable pub method : McpMessage → Option String
method m = as_str? (get m.payload "method")

unfoldable pub id : McpMessage → Option Value
id m = get m.payload "id"

unfoldable pub tool_name : McpMessage → Option String
unfolding method
tool_name m =
    if is_text (method m) "tools/call" then as_str? (get? (get m.payload "params") "name") else none

unfoldable pub is_error : McpMessage → Bool
is_error m = is_some (get m.payload "error")

unfoldable pub is_tool_error : McpMessage → Bool
is_tool_error m = is_true (as_bool? (get? (get m.payload "result") "isError"))

unfoldable pub error_code : McpMessage → Option ℤ
error_code m = as_i64? (get? (get m.payload "error") "code")

unfoldable pub is_notification : McpMessage → Bool
unfolding id method
is_notification m = not (is_some (id m)) && is_some (method m)

unfoldable pub is_response : McpMessage → Bool
unfolding id method
is_response m = is_some (id m) && not (is_some (method m))

pub data MessageKind : Type 0 where
  request response notification : MessageKind

unfoldable pub kind : McpMessage → MessageKind
unfolding is_response is_notification
kind m = if is_response m then response else if is_notification m then notification else request

unfoldable pub kind_db_str : MessageKind → String
kind_db_str request = "request"
kind_db_str response = "response"
kind_db_str notification = "notification"

pub opposite-opposite : (d : Direction) → opposite (opposite d) ≡ d
unfolding opposite
opposite-opposite d = ground arith

pub dir_eq_refl : (d : Direction) → dir_eq d d ≡ true
dir_eq_refl d = ground arith

pub dir_eq_sound : (d e : Direction) → dir_eq d e ≡ true → d ≡ e
dir_eq_sound d e h = ground arith
