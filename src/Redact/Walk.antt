-- ===== src/Redact/Walk.antt =====
-- crates/mcptracer-redact/src/lib.rs: the masking traversals of `Redactor`. A traversal in place
-- returns the new value. The plain walks and the type-preserving ones, `*_typed`, are written once,
-- over what masks a value: the parameter `mask`.
use mcptracer.Common.{String, Bool, true, false, List, [], str_eq, if◌then◌else◌, pos, not, ◌&&◌}
use mcptracer.Json.{
  int, Value, null, bool, number, string, array, object, Items, nil, cons, Fields, end, field,
}
use mcptracer.Redact.Keys.{redacted_placeholder}
use mcptracer.Redact.Schema.{walk_schema, is_mcp_tool_schema_key}

-- crates/mcptracer-redact/src/context.rs
pub data RedactionContext : Type 0 where
  runtime tool_list_response : RedactionContext

abbrev pub is_tool_list_response : RedactionContext → Bool
is_tool_list_response runtime = false
is_tool_list_response tool_list_response = true

abbrev pub placeholder : Value
placeholder = string redacted_placeholder

-- `*child = self.placeholder.clone()`
abbrev pub mask_plain : Value → Value
mask_plain v = placeholder

unfoldable pub redact_value_typed : Value → Value
redact_value_typed (string s) = string redacted_placeholder
redact_value_typed (number n) = number (int (pos 0))
redact_value_typed (bool b) = bool false
redact_value_typed (array xs) = array nil
redact_value_typed (object fs) = object end
redact_value_typed null = null

module _ (is_sensitive : String → Bool) (mask : Value → Value) where
  unfoldable mutual
    pub walk : Value → Value
    walk (object fs) = object (walk_fields fs)
    walk (array xs) = array (walk_items xs)
    walk v = v

    pub walk_fields : Fields → Fields
    walk_fields end = end
    walk_fields (field k v fs) =
        field k (if is_sensitive k then mask v else walk v) (walk_fields fs)

    pub walk_items : Items → Items
    walk_items nil = nil
    walk_items (cons v xs) = cons (walk v) (walk_items xs)

  -- The visitor that the masking walk hands to `walk_schema`; it reports no key.
  abbrev pub mask_visit : String → Value → Value × List String
  mask_visit k v = (if is_sensitive k then mask v else walk v, [])

  unfoldable pub walk_tool_field : String → Value → Value
  walk_tool_field k v =
      if is_sensitive k
      then mask v
      else if is_mcp_tool_schema_key k
      then (walk_schema is_sensitive mask_visit v).0
      else walk v

  unfoldable pub walk_tool_fields : Fields → Fields
  walk_tool_fields end = end
  walk_tool_fields (field k v fs) = field k (walk_tool_field k v) (walk_tool_fields fs)

  unfoldable pub walk_tool_definition : Value → Value
  walk_tool_definition (object fs) = object (walk_tool_fields fs)
  walk_tool_definition v = walk v

  unfoldable pub walk_tools : Items → Items
  walk_tools nil = nil
  walk_tools (cons v xs) = cons (walk_tool_definition v) (walk_tools xs)

  unfoldable pub walk_result_field : String → Value → Value
  walk_result_field k (array tools) =
      if str_eq k "tools" && not (is_sensitive k)
      then array (walk_tools tools)
      else if is_sensitive k
      then mask (array tools)
      else walk (array tools)
  walk_result_field k v = if is_sensitive k then mask v else walk v

  unfoldable pub walk_result_fields : Fields → Fields
  walk_result_fields end = end
  walk_result_fields (field k v fs) = field k (walk_result_field k v) (walk_result_fields fs)

  unfoldable pub walk_result : Value → Value
  walk_result (object fs) = object (walk_result_fields fs)
  walk_result v = walk v

  unfoldable pub walk_message_field : RedactionContext → String → Value → Value
  walk_message_field context k v =
      if is_sensitive k
      then mask v
      else if str_eq k "result" && is_tool_list_response context
      then walk_result v
      else walk v

  unfoldable pub walk_message_fields : RedactionContext → Fields → Fields
  walk_message_fields context end = end
  walk_message_fields context (field k v fs) =
      field k (walk_message_field context k v) (walk_message_fields context fs)

  unfoldable pub walk_message : RedactionContext → Value → Value
  walk_message context (object fs) = object (walk_message_fields context fs)
  walk_message context v = walk v

-- The walks that keep the JSON type of what they mask.
module _ (is_sensitive : String → Bool) where
  abbrev pub walk_typed : Value → Value
  walk_typed = walk is_sensitive redact_value_typed

  abbrev pub walk_tool_definition_typed : Value → Value
  walk_tool_definition_typed = walk_tool_definition is_sensitive redact_value_typed

  abbrev pub walk_result_typed : Value → Value
  walk_result_typed = walk_result is_sensitive redact_value_typed

  abbrev pub walk_message_typed : RedactionContext → Value → Value
  walk_message_typed = walk_message is_sensitive redact_value_typed
