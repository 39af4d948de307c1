-- ===== src/Model/Plan.antt =====
-- crates/mcptracer-model/src/plan.rs: the calls a replay would drive, the tool filters and the risk of
-- each call. The substring test of the standard library is the parameter `contains`; the hash map of
-- annotations is the list of listings, the newest first.

pub mod Driven
pub mod Filters
pub mod Report
use mcptracer.Common.{
  ℕ, ◌-◌, String, Bool, true, false, not, ◌&&◌, ◌||◌, Option, none, some, List, [], ◌∷◌, ◌++◌, map,
  keep, count, any, length, is_text, str_eq, ltb, if◌then◌else◌,
}
use mcptracer.Json.{Codec, Value, Items, nil, cons, array, get, get?, as_str?, as_bool?, is_true}
use mcptracer.Model.Session.{StoredMessage}

pub record ToolAnnotations : Type 0 where
  pub destructive_hint : Option Bool
  pub read_only_hint : Option Bool
  pub idempotent_hint : Option Bool
  pub open_world_hint : Option Bool

unfoldable pub from_value : Value → ToolAnnotations
from_value value = record {
  destructive_hint = as_bool? (get value "destructiveHint");
  read_only_hint = as_bool? (get value "readOnlyHint");
  idempotent_hint = as_bool? (get value "idempotentHint");
  open_world_hint = as_bool? (get value "openWorldHint");
}

abbrev pub default_annotations : ToolAnnotations
default_annotations = record {
  destructive_hint = none;
  read_only_hint = none;
  idempotent_hint = none;
  open_world_hint = none;
}

pub data RiskLevel : Type 0 where
  read_only destructive unknown : RiskLevel

pub data CallKind : Type 0 where
  request notification : CallKind

pub record PlannedCall : Type 0 where
  pub seq : ℕ
  pub kind : CallKind
  pub method : Option String
  pub tool_name : Option String
  pub rpc_id : Option String
  pub annotations : Option ToolAnnotations
  pub risk : RiskLevel
  pub contains_redacted_placeholder : Bool
  pub allowed : Bool

pub record Plan : Type 0 where
  pub total_calls : ℕ
  pub allowed_calls : ℕ
  pub filtered_out_calls : ℕ
  pub destructive_calls : ℕ
  pub unknown_risk_calls : ℕ
  pub redacted_placeholder_calls : ℕ
  pub requires_acknowledgement : Bool
  pub calls : List PlannedCall

-- The filter of `driven_messages`.
abbrev pub is_driven : StoredMessage → Bool
is_driven m =
    str_eq m.direction "c2s"
    && (str_eq m.message_kind "request" || str_eq m.message_kind "notification")

abbrev pub is_initialize : StoredMessage → Bool
is_initialize m = is_text m.method "initialize"

-- `position` and `remove`: the first message that initializes, and the list without it.
unfoldable pub take_initialize : List StoredMessage → Option (StoredMessage × List StoredMessage)
take_initialize [] = none
take_initialize (m ∷ ms) =
    let rest = take_initialize ms in
    if is_initialize m
    then some (m, ms)
    else elim rest as (λ _. Option (StoredMessage × List StoredMessage)) [
      | none ↦ none
      | some (i, others) ↦ some (i, m ∷ others)
    ]

unfoldable pub driven_messages : List StoredMessage → List StoredMessage
driven_messages source =
    let driven = keep is_driven source in
    elim (take_initialize driven) [ none ↦ driven | some (init, others) ↦ init ∷ others ]

abbrev pub is_empty {ℓ} : {A : Type ℓ} → List A → Bool
is_empty [] = true
is_empty (x ∷ xs) = false

unfoldable pub tool_is_allowed : Option String → List String → List String → Bool
tool_is_allowed none allow deny = true
tool_is_allowed (some name) allow deny =
    not (any (λ d. str_eq d name) deny) && (is_empty allow || any (λ a. str_eq a name) allow)

-- What the loop over one listing inserts, the newest first.
abbrev pub hints_of : Option Value → ToolAnnotations
hints_of none = default_annotations
hints_of (some v) = from_value v

unfoldable pub annotate_tools :
    Items → List (String × ToolAnnotations) → List (String × ToolAnnotations)
annotate_tools nil known = known
annotate_tools (cons tool tools) known = annotate_tools tools (elim (as_str? (get tool "name")) [
  | none ↦ known
  | some name ↦ (name, hints_of (get tool "annotations")) ∷ known
])

abbrev pub items_of : Option Value → Items
items_of (some (array items)) = items
items_of _ = nil

-- The tools a message lists; none where the message is skipped.
unfoldable pub listed_tools : Codec → StoredMessage → Items
listed_tools codec m =
    if str_eq m.direction "s2c"
    then items_of (get? (get? (codec.parse m.payload) "result") "tools")
    else nil

unfoldable pub observed_tool_annotations :
    Codec → List StoredMessage → List (String × ToolAnnotations) → List (String × ToolAnnotations)
observed_tool_annotations codec [] known = known
observed_tool_annotations codec (m ∷ ms) known =
    observed_tool_annotations codec ms (annotate_tools (listed_tools codec m) known)

unfoldable pub find_annotations : String → List (String × ToolAnnotations) → Option ToolAnnotations
find_annotations name [] = none
find_annotations name ((other, hints) ∷ known) =
    if str_eq other name then some hints else find_annotations name known

unfoldable pub risk_for : Option String → Option ToolAnnotations → RiskLevel
risk_for none hints = read_only
risk_for (some name) none = unknown
risk_for (some name) (some hints) =
    if is_true hints.destructive_hint
    then destructive
    else if is_true hints.read_only_hint
    then read_only
    else unknown

abbrev pub annotations_for :
    Option String → List (String × ToolAnnotations) → Option ToolAnnotations
annotations_for none known = none
annotations_for (some name) known = find_annotations name known

abbrev pub is_destructive : RiskLevel → Bool
is_destructive destructive = true
is_destructive _ = false

abbrev pub is_unknown : RiskLevel → Bool
is_unknown unknown = true
is_unknown _ = false

module _ (contains : String → Bool) (codec : Codec) (source : List StoredMessage)
    (allow deny : List String) where
  -- One call of the report; `contains` says whether a payload contains the placeholder.
  unfoldable pub planned_call : List (String × ToolAnnotations) → StoredMessage → PlannedCall
  planned_call known m =
      let annotations = annotations_for m.tool_name known in
      record {
        seq = m.seq;
        kind = if str_eq m.message_kind "request" then request else notification;
        method = m.method;
        tool_name = m.tool_name;
        rpc_id = m.rpc_id;
        annotations = annotations;
        risk = risk_for m.tool_name annotations;
        contains_redacted_placeholder = contains m.payload;
        allowed = tool_is_allowed m.tool_name allow deny;
      }

  unfoldable pub planned_calls : List PlannedCall
  planned_calls =
      map (planned_call (observed_tool_annotations codec source [])) (driven_messages source)

  unfoldable pub build_plan : Plan
  build_plan =
      let calls = planned_calls in
      let allowed_calls = count (λ c. c.allowed) calls in
      let destructive_calls = count (λ c. c.allowed && is_destructive c.risk) calls in
      let redacted_placeholder_calls =
        count (λ c. c.allowed && c.contains_redacted_placeholder) calls in
      record {
        total_calls = length calls;
        allowed_calls = allowed_calls;
        filtered_out_calls = length calls - allowed_calls;
        destructive_calls = destructive_calls;
        unknown_risk_calls = count (λ c. c.allowed && is_unknown c.risk) calls;
        redacted_placeholder_calls = redacted_placeholder_calls;
        requires_acknowledgement = ltb 0 destructive_calls || ltb 0 redacted_placeholder_calls;
        calls = calls;
      }
