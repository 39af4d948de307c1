-- ===== src/Redact/Sound/Policy.antt =====
-- The redactor of a policy masks every key that the policy's validator looks for.
use mcptracer.Common.{
  text_le, ap, str_eq, String, true, false, ◌≡◌, refl, List, [], ◌∷◌, arith, any, list_eq,
  list_eq_refl, list_eq_sound, codes, Bool-cases, inl, inr,
}
use mcptracer.Common.Sort.{sort, dedup}
use mcptracer.Json.{Value}
use mcptracer.Redact.Keys.{
  Key, normalize, is_nil, normalize_key, normalize_idem, matches_policy_sensitive_key,
}
use mcptracer.Redact.Walk.{RedactionContext}
use mcptracer.Redact.Policy.{
  RedactionPolicy, verbatim, default, custom, custom_keys, normalize_keys, new, redactor_sensitive,
  redact_with_context, unredacted_sensitive_keys_with_context,
}
use mcptracer.Redact.Sound.Message.{clean_message}

-- A key that stands in a list of keys as it is stands there normalized too.
normalized_stays :
    (key : Key) (keys : List Key)
    → normalize key ≡ key
    → is_nil key ≡ false
    → any (λ k. list_eq k key) keys ≡ true
    → any (λ k. list_eq k key) (normalize_keys keys) ≡ true
normalized_stays key [] n e h = h
normalized_stays key (k ∷ ks) n e h = elim (Bool-cases (list_eq k key)) [
  | inl same ↦ rw (list_eq_sound k key same, n, e, list_eq_refl key)
  | inr other ↦ ground (arith, normalized_stays key ks n e)
]

covers :
    (p : RedactionPolicy) (k : String)
    → matches_policy_sensitive_key k (custom_keys p) ≡ true
    → redactor_sensitive (new p) k ≡ true
unfolding matches_policy_sensitive_key custom_keys new
covers verbatim k h = h
covers default k h = h
covers (custom keys) k h = ground (
  arith,
  normalized_stays (normalize_key k) keys (unfold normalize_key in normalize_idem (codes k)),
)

in_order : List String → List String
unfolding sort dedup
in_order keys = dedup str_eq (sort (λ a b. text_le (codes a) (codes b)) keys)

-- Whatever the policy, its custom keys, the message and its context: what the redactor stores has
-- no sensitive key that the validator of the same policy and context would report.
pub redact-unredacted :
    (p : RedactionPolicy) (v : Value) (context : RedactionContext)
    → unredacted_sensitive_keys_with_context (redact_with_context (new p) v context) p context ≡ []
unfolding unredacted_sensitive_keys_with_context redact_with_context in_order
redact-unredacted verbatim v context = unfold new in refl
redact-unredacted default v context =
    unfold new custom_keys sort dedup in
    ap in_order (clean_message _ (redactor_sensitive (new default)) (covers default) context v)
redact-unredacted (custom keys) v context =
    unfold new custom_keys sort dedup in
    ap in_order
      (clean_message _ (redactor_sensitive (new (custom keys))) (covers (custom keys)) context v)
