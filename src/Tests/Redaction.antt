-- ===== src/Tests/Redaction.antt =====
-- crates/mcptracer-redact: masking, the request context and the lint.
use mcptracer.Common.{
  ◌≡◌, ◌≤◌, refl, String, true, none, List, [], ◌∷◌, inl, ◌⊎◌, codes, length, pos, ok,
}
use mcptracer.Common.Sort.{sort, insert_sorted, dedup, dedup_from}
use mcptracer.Redact.Policy.Stored.{from_cli-from_storage}
use mcptracer.Json.{Value, object, string, number, int, field, end, get, lookup}
use mcptracer.Redact.Walk.{runtime, tool_list_response}
use mcptracer.Redact.Policy.{
  custom, new, from_name, with_keys, custom_policy, from_cli, from_storage, policy_str, custom_keys,
  redact_with_context, unredacted_sensitive_keys_with_context,
}
use mcptracer.Redact.Sound.Policy.{redact-unredacted}
use mcptracer.Redact.Context.{
  Texts, responder_of, observe, observe_side, observe_id, observe_request, observe_response,
  after_gap,
}
use mcptracer.Redact.Context.Answers.{Seen, IsAnswer, track}
use mcptracer.Redact.Context.Granted.{observe-IsAnswer, track-bounded}
use mcptracer.Redact.Lint.{bearer_token, Finding, command_findings, sensitive_content_lint}
use mcptracer.Redact.Lint.Patterns.{is_bearer_token}
use mcptracer.Redact.Lint.Leaves.{Segment, key, Has, PointsAt, looks, HasLeaf}
use mcptracer.Redact.Lint.Reported.{sensitive_content_lint-PointsAt, sensitive_content_lint-Has}

-- A payload with a key that the default list has, and one that only the custom keys have.
abbrev payload : Value
payload = object (
    field "api_key" (string "k")
      (field "params" (object (field "Pin-Code" (number (int (pos 7))) end)) end))

redact-unredacted_example :
    unredacted_sensitive_keys_with_context
      (redact_with_context (new (custom (codes "pincode" ∷ []))) payload runtime)
      (custom (codes "pincode" ∷ []))
      runtime
    ≡ []
redact-unredacted_example = redact-unredacted (custom (codes "pincode" ∷ [])) payload runtime

abbrev texts : Texts
texts = record { to_string = λ v. "1"; len = λ s. 1 }

abbrev list_request : Seen
list_request = record {
  seq = 4;
  direction = "c2s";
  payload = object (
      field "jsonrpc" (string "2.0")
        (field "id" (number (int (pos 1))) (field "method" (string "tools/list") end)));
}

abbrev list_answer : Seen
list_answer = record {
  seq = 5;
  direction = "s2c";
  payload = object (
      field "jsonrpc" (string "2.0")
        (field "id" (number (int (pos 1))) (field "result" (object end) end)));
}

list_answer-granted :
    (observe texts
      (track texts (list_request ∷ []))
      list_answer.seq
      list_answer.direction
      list_answer.payload).0
    ≡ tool_list_response
unfolding observe observe_side observe_id observe_request observe_response after_gap responder_of
    get lookup
list_answer-granted = refl

observe-IsAnswer_example : IsAnswer texts list_answer (list_request ∷ [])
observe-IsAnswer_example =
    observe-IsAnswer texts list_answer (list_request ∷ []) list_answer-granted

track-bounded_example : length (track texts (list_answer ∷ list_request ∷ [])).pending ≤ 4096
track-bounded_example = track-bounded texts (list_answer ∷ list_request ∷ [])

abbrev header : String
header = "Bearer abcdefgh"

abbrev request : Value
request = object (field "headers" (object (field "a/b" (string header) end)) end)

abbrev path : List Segment
path = key "headers" ∷ key "a/b" ∷ []

abbrev found : Finding
found = record { pointer = codes "/headers/a~1b"; category = bearer_token }

header-leaf : HasLeaf request path header
header-leaf = (
  object (field "a/b" (string header) end),
  inl (refl, refl),
  (string header, inl (refl, refl), refl),
)

header-looks : looks bearer_token header ≡ true
unfolding is_bearer_token
header-looks = refl

sensitive_content_lint-Has_example : Has found (sensitive_content_lint request none)
sensitive_content_lint-Has_example =
    sensitive_content_lint-Has request none path header bearer_token header-leaf header-looks refl

sensitive_content_lint-PointsAt_example :
    PointsAt request [] found ⊎ Has found (command_findings none)
sensitive_content_lint-PointsAt_example =
    sensitive_content_lint-PointsAt request none found (
      sensitive_content_lint-Has request none path header bearer_token header-leaf header-looks
        refl)

pin-policy :
    from_cli "default" (codes "Pin-Code" ∷ codes "pincode" ∷ [])
    ≡ ok (custom (codes "pincode" ∷ []))
unfolding from_cli from_name with_keys custom_policy sort insert_sorted dedup dedup_from
pin-policy = refl

from_cli-from_storage_example :
    from_storage
      (policy_str (custom (codes "pincode" ∷ [])))
      (custom_keys (custom (codes "pincode" ∷ [])))
    ≡ ok (custom (codes "pincode" ∷ []))
from_cli-from_storage_example =
    from_cli-from_storage "default" (codes "Pin-Code" ∷ codes "pincode" ∷ [])
      (custom (codes "pincode" ∷ [])) pin-policy
