-- ===== src/Redact/Collect.antt =====
-- crates/mcptracer-redact/src/lib.rs: the validator, which reports the sensitive keys whose values
-- are not masked. `keys.push` on the shared list is concatenation here.
use mcptracer.Common.{String, Bool, not, ◌&&◌, List, [], ◌∷◌, ◌++◌, str_eq, is_text, if◌then◌else◌}
use mcptracer.Json.{Value, array, object, Items, nil, cons, Fields, end, field, as_str}
use mcptracer.Redact.Keys.{redacted_placeholder}
use mcptracer.Redact.Schema.{walk_schema, is_mcp_tool_schema_key}
use mcptracer.Redact.Walk.{RedactionContext, is_tool_list_response}

-- `child.as_str() == Some(REDACTED_PLACEHOLDER)`
abbrev pub is_masked : Value → Bool
is_masked v = is_text (as_str v) redacted_placeholder

-- `is_sensitive` is `matches_policy_sensitive_key` at the custom keys.
module _ (is_sensitive : String → Bool) where
  unfoldable mutual
    pub collect_unredacted_sensitive_keys : Value → List String
    collect_unredacted_sensitive_keys (object fs) = collect_fields fs
    collect_unredacted_sensitive_keys (array xs) = collect_items xs
    collect_unredacted_sensitive_keys v = []

    pub collect_fields : Fields → List String
    collect_fields end = []
    collect_fields (field k v fs) = push_if_unredacted k v ++ collect_fields fs

    pub collect_items : Items → List String
    collect_items nil = []
    collect_items (cons v xs) = collect_unredacted_sensitive_keys v ++ collect_items xs

    pub push_if_unredacted : String → Value → List String
    push_if_unredacted k (object fs) = if is_sensitive k then k ∷ [] else collect_fields fs
    push_if_unredacted k (array xs) = if is_sensitive k then k ∷ [] else collect_items xs
    push_if_unredacted k v = if is_sensitive k then (if is_masked v then [] else k ∷ []) else []

  -- The visitor that the validator hands to `walk_schema`; it changes nothing.
  abbrev pub collect_visit : String → Value → Value × List String
  collect_visit k v = (v, push_if_unredacted k v)

  unfoldable pub collect_tool_field : String → Value → List String
  collect_tool_field k v =
      if is_mcp_tool_schema_key k && not (is_sensitive k)
      then (walk_schema is_sensitive collect_visit v).1
      else push_if_unredacted k v

  unfoldable pub collect_tool_fields : Fields → List String
  collect_tool_fields end = []
  collect_tool_fields (field k v fs) = collect_tool_field k v ++ collect_tool_fields fs

  unfoldable pub collect_unredacted_tool_definition : Value → List String
  collect_unredacted_tool_definition (object fs) = collect_tool_fields fs
  collect_unredacted_tool_definition v = collect_unredacted_sensitive_keys v

  unfoldable pub collect_tools : Items → List String
  collect_tools nil = []
  collect_tools (cons v xs) = collect_unredacted_tool_definition v ++ collect_tools xs

  unfoldable pub collect_result_field : String → Value → List String
  collect_result_field k (array tools) =
      if str_eq k "tools" && not (is_sensitive k)
      then collect_tools tools
      else push_if_unredacted k (array tools)
  collect_result_field k v = push_if_unredacted k v

  unfoldable pub collect_result_fields : Fields → List String
  collect_result_fields end = []
  collect_result_fields (field k v fs) = collect_result_field k v ++ collect_result_fields fs

  unfoldable pub collect_unredacted_result : Value → List String
  collect_unredacted_result (object fs) = collect_result_fields fs
  collect_unredacted_result v = collect_unredacted_sensitive_keys v

  unfoldable pub collect_message_field : RedactionContext → String → Value → List String
  collect_message_field context k v =
      if str_eq k "result" && (is_tool_list_response context && not (is_sensitive k))
      then collect_unredacted_result v
      else push_if_unredacted k v

  unfoldable pub collect_message_fields : RedactionContext → Fields → List String
  collect_message_fields context end = []
  collect_message_fields context (field k v fs) =
      collect_message_field context k v ++ collect_message_fields context fs

  unfoldable pub collect_unredacted_message : RedactionContext → Value → List String
  collect_unredacted_message context (object fs) = collect_message_fields context fs
  collect_unredacted_message context v = collect_unredacted_sensitive_keys v
