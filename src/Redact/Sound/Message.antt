-- ===== src/Redact/Sound/Message.antt =====
-- A masked message has no unredacted sensitive key, in either context.
use mcptracer.Common.{String, Bool, true, ◌≡◌, refl, [], arith}
use mcptracer.Json.{
  Value, null, bool, number, string, array, object, Items, nil, cons, Fields, end, field,
}
use mcptracer.Redact.Schema.{walk_schema}
use mcptracer.Redact.Walk.{
  RedactionContext, mask_plain, placeholder, walk, walk_tool_field, walk_tool_fields,
  walk_tool_definition, walk_tools, walk_result_field, walk_result_fields, walk_result,
  walk_message_field, walk_message_fields, walk_message,
}
use mcptracer.Redact.Collect.{
  collect_unredacted_sensitive_keys, push_if_unredacted, collect_visit, collect_tool_field,
  collect_tool_fields, collect_unredacted_tool_definition, collect_tools, collect_result_field,
  collect_result_fields, collect_unredacted_result, collect_message_field, collect_message_fields,
  collect_unredacted_message,
}
use mcptracer.Redact.Sound.Schema.{append-nil_nil, clean, clean_schema, push_visit}

module _ (s r : String → Bool) (covers : (k : String) → s k ≡ true → r k ≡ true) where
  push-placeholder : (k : String) → push_if_unredacted s k placeholder ≡ []
  unfolding push_if_unredacted
  push-placeholder k = ground arith

  schema-placeholder : (walk_schema s (collect_visit s) placeholder).1 ≡ []
  unfolding walk_schema
  schema-placeholder = push-placeholder ""

  result-placeholder : collect_unredacted_result s placeholder ≡ []
  unfolding collect_unredacted_result collect_unredacted_sensitive_keys
  result-placeholder = refl

  clean_tool_field :
      (k : String) (v : Value) → collect_tool_field s k (walk_tool_field r mask_plain k v) ≡ []
  unfolding collect_tool_field walk_tool_field
  clean_tool_field k v = ground (
    arith,
    covers k,
    push_visit s r covers k v,
    clean_schema s r covers v,
    push-placeholder k,
    schema-placeholder,
  )

  clean_tool_fields : (fs : Fields) → collect_tool_fields s (walk_tool_fields r mask_plain fs) ≡ []
  unfolding collect_tool_fields walk_tool_fields
  clean_tool_fields end = refl
  clean_tool_fields (field k v fs) =
      append-nil_nil _ _ (clean_tool_field k v) (clean_tool_fields fs)

  clean_tool_definition :
      (v : Value) → collect_unredacted_tool_definition s (walk_tool_definition r mask_plain v) ≡ []
  unfolding collect_unredacted_tool_definition walk_tool_definition walk
  clean_tool_definition (object fs) = clean_tool_fields fs
  clean_tool_definition (array xs) = clean s r covers (array xs)
  clean_tool_definition null = clean s r covers null
  clean_tool_definition (bool b) = clean s r covers (bool b)
  clean_tool_definition (number n) = clean s r covers (number n)
  clean_tool_definition (string t) = clean s r covers (string t)

  clean_tools : (xs : Items) → collect_tools s (walk_tools r mask_plain xs) ≡ []
  unfolding collect_tools walk_tools
  clean_tools nil = refl
  clean_tools (cons v xs) = append-nil_nil _ _ (clean_tool_definition v) (clean_tools xs)

  clean_result_field :
      (k : String) (v : Value) → collect_result_field s k (walk_result_field r mask_plain k v) ≡ []
  unfolding collect_result_field walk_result_field walk
  clean_result_field k (array xs) =
      ground (arith, covers k, clean_tools xs, push_visit s r covers k (array xs))
  clean_result_field k (object fs) = ground (arith, push_visit s r covers k (object fs))
  clean_result_field k null = ground (arith, push_visit s r covers k null)
  clean_result_field k (bool b) = ground (arith, push_visit s r covers k (bool b))
  clean_result_field k (number n) = ground (arith, push_visit s r covers k (number n))
  clean_result_field k (string t) = ground (arith, push_visit s r covers k (string t))

  clean_result_fields :
      (fs : Fields) → collect_result_fields s (walk_result_fields r mask_plain fs) ≡ []
  unfolding collect_result_fields walk_result_fields
  clean_result_fields end = refl
  clean_result_fields (field k v fs) =
      append-nil_nil _ _ (clean_result_field k v) (clean_result_fields fs)

  clean_result : (v : Value) → collect_unredacted_result s (walk_result r mask_plain v) ≡ []
  unfolding collect_unredacted_result walk_result walk
  clean_result (object fs) = clean_result_fields fs
  clean_result (array xs) = clean s r covers (array xs)
  clean_result null = clean s r covers null
  clean_result (bool b) = clean s r covers (bool b)
  clean_result (number n) = clean s r covers (number n)
  clean_result (string t) = clean s r covers (string t)

  clean_message_field :
      (context : RedactionContext) (k : String) (v : Value)
      → collect_message_field s context k (walk_message_field r mask_plain context k v) ≡ []
  unfolding collect_message_field walk_message_field
  clean_message_field context k v = ground (
    arith,
    covers k,
    push_visit s r covers k v,
    clean_result v,
    push-placeholder k,
    result-placeholder,
  )

  clean_message_fields :
      (context : RedactionContext) (fs : Fields)
      → collect_message_fields s context (walk_message_fields r mask_plain context fs) ≡ []
  unfolding collect_message_fields walk_message_fields
  clean_message_fields context end = refl
  clean_message_fields context (field k v fs) =
      append-nil_nil _ _ (clean_message_field context k v) (clean_message_fields context fs)

  pub clean_message :
      (context : RedactionContext) (v : Value)
      → collect_unredacted_message s context (walk_message r mask_plain context v) ≡ []
  unfolding collect_unredacted_message walk_message walk
  clean_message context (object fs) = clean_message_fields context fs
  clean_message context (array xs) = clean s r covers (array xs)
  clean_message context null = clean s r covers null
  clean_message context (bool b) = clean s r covers (bool b)
  clean_message context (number n) = clean s r covers (number n)
  clean_message context (string t) = clean s r covers (string t)
