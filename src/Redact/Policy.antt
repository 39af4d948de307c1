-- ===== src/Redact/Policy.antt =====
-- crates/mcptracer-redact/src/lib.rs: the policy, the redactor and the entry points of masking and
-- validation. Texts of custom keys are held as their code points.
pub mod Stored
use mcptracer.Common.{
  text_le, String, Bool, true, false, not, List, [], ◌∷◌, map, keep, list_eq, codes, str_eq,
  if◌then◌else◌, Result, ok, err,
}
use mcptracer.Common.Sort.{sort, dedup}
use mcptracer.Json.{Value}
use mcptracer.Redact.Keys.{Key, normalize, is_nil, matches_policy_sensitive_key}
use mcptracer.Redact.Walk.{RedactionContext, mask_plain, walk_message, walk_message_typed, runtime}
use mcptracer.Redact.Collect.{collect_unredacted_message}

-- The policy `RedactionPolicy::None` is `verbatim`.
pub data RedactionPolicy : Type 0 where
  verbatim default : RedactionPolicy
  custom : List Key → RedactionPolicy

pub data PolicyError : Type 0 where
  unknown_policy unknown_stored_policy : String → PolicyError
  keys_require_default no_key_left none_has_keys default_has_keys custom_lacks_keys : PolicyError

abbrev pub is_no_keys : List Key → Bool
is_no_keys [] = true
is_no_keys (k ∷ ks) = false

-- `from_name`, with `from_cli`'s error.
unfoldable pub from_name : String → Result PolicyError RedactionPolicy
from_name name =
    if str_eq name "none"
    then ok verbatim
    else if str_eq name "default"
    then ok default
    else err (unknown_policy name)

abbrev pub normalize_keys : List Key → List Key
normalize_keys keys = keep (λ key. not (is_nil key)) (map normalize keys)

unfoldable pub custom_policy : List Key → Result PolicyError RedactionPolicy
custom_policy extra_keys =
    let normalized = dedup list_eq (sort text_le (normalize_keys extra_keys)) in
    if is_no_keys normalized then err no_key_left else ok (custom normalized)

-- `from_cli` behind its first step.
unfoldable pub with_keys : RedactionPolicy → List Key → Result PolicyError RedactionPolicy
with_keys base [] = ok base
with_keys default (k ∷ ks) = custom_policy (k ∷ ks)
with_keys verbatim (k ∷ ks) = err keys_require_default
with_keys (custom keys) (k ∷ ks) = err keys_require_default

unfoldable pub from_cli : String → List Key → Result PolicyError RedactionPolicy
from_cli name extra_keys = elim (from_name name) [
  | ok base ↦ with_keys base extra_keys
  | err e ↦ err e
]

unfoldable pub policy_str : RedactionPolicy → String
policy_str verbatim = "none"
policy_str default = "default"
policy_str (custom keys) = "custom"

unfoldable pub from_storage : String → List Key → Result PolicyError RedactionPolicy
from_storage name extra_keys =
    if str_eq name "none"
    then (if is_no_keys extra_keys then ok verbatim else err none_has_keys)
    else if str_eq name "default"
    then (if is_no_keys extra_keys then ok default else err default_has_keys)
    else if str_eq name "custom"
    then (if is_no_keys extra_keys then err custom_lacks_keys else from_cli "default" extra_keys)
    else err (unknown_stored_policy name)

unfoldable pub custom_keys : RedactionPolicy → List Key
custom_keys (custom keys) = keys
custom_keys _ = []

-- The constant field `placeholder` is `Walk.placeholder`.
pub record Redactor : Type 0 where
  pub policy : RedactionPolicy
  pub keys : List Key

unfoldable pub new : RedactionPolicy → Redactor
new verbatim = record { policy = verbatim; keys = [] }
new default = record { policy = default; keys = [] }
new (custom extra_keys) = record { policy = custom extra_keys; keys = normalize_keys extra_keys }

abbrev pub is_active_policy : RedactionPolicy → Bool
is_active_policy verbatim = false
is_active_policy _ = true

-- `is_sensitive_key` of a redactor.
abbrev pub redactor_sensitive : Redactor → String → Bool
redactor_sensitive r key = matches_policy_sensitive_key key r.keys

unfoldable pub redact_with_context : Redactor → Value → RedactionContext → Value
redact_with_context r v context =
    if not (is_active_policy r.policy)
    then v
    else walk_message (redactor_sensitive r) mask_plain context v

unfoldable pub redact_preserving_types_with_context : Redactor → Value → RedactionContext → Value
redact_preserving_types_with_context r v context =
    if not (is_active_policy r.policy)
    then v
    else walk_message_typed (redactor_sensitive r) context v

abbrev pub redact : Redactor → Value → Value
redact r v = redact_with_context r v runtime

-- The reported keys in order, each once.
unfoldable pub unredacted_sensitive_keys_with_context :
    Value → RedactionPolicy → RedactionContext → List String
unredacted_sensitive_keys_with_context v policy context =
    if not (is_active_policy policy)
    then []
    else dedup str_eq (
        sort (λ a b. text_le (codes a) (codes b))
          (collect_unredacted_message (λ key. matches_policy_sensitive_key key (custom_keys policy))
            context v))

abbrev pub unredacted_sensitive_keys : Value → RedactionPolicy → List String
unredacted_sensitive_keys v policy = unredacted_sensitive_keys_with_context v policy runtime
