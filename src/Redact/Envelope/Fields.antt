-- ===== src/Redact/Envelope/Fields.antt =====
-- A member of a masked object is the masked member.
use mcptracer.Common.{
  fun_ext, String, Bool, false, ◌≡◌, refl, ap, ◌∙◌, Option, none, some, str_eq, eq_iff, arith,
  if◌then◌else◌, Bool-cases, inl, inr,
}
use mcptracer.Json.{
  Value, null, bool, number, string, array, object, Fields, end, field, lookup, get, as_str,
  as_str?, is_some, as_i64,
}
use mcptracer.Redact.Walk.{
  RedactionContext, walk, walk_fields, walk_message, walk_message_field, walk_message_fields,
}

abbrev pub option_map : (Value → Value) → Option Value → Option Value
option_map f none = none
option_map f (some v) = some (f v)

is_some-option_map : (f : Value → Value) (o : Option Value) → is_some (option_map f o) ≡ is_some o
is_some-option_map f none = refl
is_some-option_map f (some v) = refl

module _ (s : String → Bool) (mask : Value → Value) where
  abbrev pub walk_child : String → Value → Value
  walk_child k v = if s k then mask v else walk s mask v

  pub lookup-walk_fields :
      (k : String) (fs : Fields)
      → lookup k (walk_fields s mask fs) ≡ option_map (walk_child k) (lookup k fs)
  unfolding lookup walk
  lookup-walk_fields k end = refl
  lookup-walk_fields k (field j v fs) =
      let rest = lookup-walk_fields k fs in
      elim (Bool-cases (str_eq j k)) [ inl e ↦ rw (e, (eq_iff j k).0 e) refl | inr e ↦ rw e rest ]

  pub lookup-walk_message_fields :
      (context : RedactionContext) (k : String) (fs : Fields)
      → lookup k (walk_message_fields s mask context fs)
        ≡ option_map (walk_message_field s mask context k) (lookup k fs)
  unfolding lookup walk_message_fields
  lookup-walk_message_fields context k end = refl
  lookup-walk_message_fields context k (field j v fs) =
      let rest = lookup-walk_message_fields context k fs in
      elim (Bool-cases (str_eq j k)) [ inl e ↦ rw (e, (eq_iff j k).0 e) refl | inr e ↦ rw e rest ]

  pub get-walk :
      (k : String) (v : Value) → get (walk s mask v) k ≡ option_map (walk_child k) (get v k)
  unfolding get walk
  get-walk k (object fs) = lookup-walk_fields k fs
  get-walk k (array xs) = refl
  get-walk k null = refl
  get-walk k (bool b) = refl
  get-walk k (number n) = refl
  get-walk k (string t) = refl

  pub get-walk_message :
      (context : RedactionContext) (k : String) (v : Value)
      → get (walk_message s mask context v) k
        ≡ option_map (walk_message_field s mask context k) (get v k)
  unfolding get walk_message walk
  get-walk_message context k (object fs) = lookup-walk_message_fields context k fs
  get-walk_message context k (array xs) = refl
  get-walk_message context k null = refl
  get-walk_message context k (bool b) = refl
  get-walk_message context k (number n) = refl
  get-walk_message context k (string t) = refl

  -- A member whose key is neither sensitive nor the result is walked.
  pub get-walk_message_plain :
      (context : RedactionContext) (k : String) (v : Value)
      → s k ≡ false
      → str_eq k "result" ≡ false
      → get (walk_message s mask context v) k ≡ option_map (walk s mask) (get v k)
  unfolding walk_message_field
  get-walk_message_plain context k v h n =
      get-walk_message context k v
      ∙ ap (λ f. option_map f (get v k)) (fun_ext (λ x. rw (h, n) refl))

  pub as_str-walk : (v : Value) → as_str (walk s mask v) ≡ as_str v
  unfolding walk
  as_str-walk v = ground arith

  pub as_i64-walk : (v : Value) → as_i64 (walk s mask v) ≡ as_i64 v
  unfolding walk
  as_i64-walk v = ground arith

  pub is_some-walk_message :
      (context : RedactionContext) (k : String) (v : Value)
      → is_some (get (walk_message s mask context v) k) ≡ is_some (get v k)
  is_some-walk_message context k v =
      ap is_some (get-walk_message context k v) ∙ is_some-option_map _ (get v k)

  pub as_str?-option_map : (o : Option Value) → as_str? (option_map (walk s mask) o) ≡ as_str? o
  as_str?-option_map none = refl
  as_str?-option_map (some v) = as_str-walk v

  pub as_str?-walk_message :
      (context : RedactionContext) (k : String) (v : Value)
      → s k ≡ false
      → str_eq k "result" ≡ false
      → as_str? (get (walk_message s mask context v) k) ≡ as_str? (get v k)
  as_str?-walk_message context k v h n =
      ap as_str? (get-walk_message_plain context k v h n) ∙ as_str?-option_map (get v k)
