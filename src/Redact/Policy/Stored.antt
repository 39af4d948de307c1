-- ===== src/Redact/Policy/Stored.antt =====
-- A policy survives its storage as a name and a list of keys.
use mcptracer.Common.{
  text_le, ℕ, String, Bool, true, false, ◌≡◌, refl, ap, ◌∙◌, List, [], ◌∷◌, arith, list_eq,
  list_eq_sound, if◌then◌else◌, ok, err, ok_injective, str_eq, Result, String, List, subst,
  Bool-cases, inl, inr, All,
}
use mcptracer.Common.Sort.{sort, dedup}
use mcptracer.Common.Sort.Laws.{All-sort}
use mcptracer.Common.Sort.Canon.{
  sort-Linked, sort-sorted, dedup-distinct, dedup-Linked, dedup-same, All-dedup,
}
use mcptracer.Redact.Keys.{Key, normalize, is_nil, normalize_idem}
use mcptracer.Redact.Policy.{
  RedactionPolicy, verbatim, default, custom, PolicyError, no_key_left, custom_lacks_keys,
  unknown_stored_policy, is_no_keys, normalize_keys, custom_policy, with_keys, from_name, from_cli,
  policy_str, from_storage, custom_keys,
}

text_le_total : (xs ys : List ℕ) → text_le xs ys ≡ false → text_le ys xs ≡ true
text_le_total [] ys h = cc
text_le_total (x ∷ xs) [] h = refl
text_le_total (x ∷ xs) (y ∷ ys) h = ground (arith, text_le_total xs ys)

IsNormal : Key → Type 0
IsNormal k = (normalize k ≡ k) × (is_nil k ≡ false)

normalize_keys-IsNormal : (keys : List Key) → All IsNormal (normalize_keys keys)
unfolding IsNormal
normalize_keys-IsNormal [] = tt
normalize_keys-IsNormal (k ∷ ks) =
    let rest = normalize_keys-IsNormal ks in
    elim (Bool-cases (is_nil (normalize k))) [
      | inl e ↦ rw e rest
      | inr e ↦ rw e ((normalize_idem k, e), rest)
    ]

normalize_keys-same : (keys : List Key) → All IsNormal keys → normalize_keys keys ≡ keys
unfolding IsNormal
normalize_keys-same [] h = refl
normalize_keys-same (k ∷ ks) h =
    rw (h.0.0, h.0.1) (ap (λ (l : List Key). k ∷ l) (normalize_keys-same ks h.1))

-- The list that a custom policy holds.
abbrev pub canonical : List Key → List Key
canonical keys = dedup list_eq (sort text_le (normalize_keys keys))

canonical_idem : (keys : List Key) → canonical (canonical keys) ≡ canonical keys
canonical_idem keys =
    let sorted = sort text_le (normalize_keys keys) in
    let normal =
      All-dedup list_eq IsNormal sorted
        (All-sort text_le IsNormal _ (normalize_keys-IsNormal keys)) in
    let linked =
      dedup-Linked list_eq text_le list_eq_sound sorted (sort-Linked text_le text_le_total _) in
    ap (λ (l : List Key). dedup list_eq (sort text_le l)) (normalize_keys-same _ normal)
    ∙ (ap (dedup list_eq) (sort-sorted text_le text_le_total _ linked)
        ∙ dedup-same list_eq _ (dedup-distinct list_eq sorted))

-- The policy over a list that is in canonical form.
custom_policy-canonical :
    (n : List Key) → is_no_keys n ≡ false → canonical n ≡ n → custom_policy n ≡ ok (custom n)
unfolding custom_policy
custom_policy-canonical n h e = rw (e, h) refl

stored_custom :
    (n : List Key)
    → is_no_keys n ≡ false
    → canonical n ≡ n
    → from_storage "custom" n ≡ ok (custom n)
unfolding from_storage from_cli from_name with_keys
stored_custom [] h e = cc
stored_custom (k ∷ ks) h e = custom_policy-canonical (k ∷ ks) h e

abbrev pub StoredBack : RedactionPolicy → Type 0
StoredBack p = from_storage (policy_str p) (custom_keys p) ≡ ok p

custom_policy-StoredBack :
    (keys : List Key) (p : RedactionPolicy) → custom_policy keys ≡ ok p → StoredBack p
unfolding custom_policy policy_str custom_keys
custom_policy-StoredBack keys p h = elim (Bool-cases (is_no_keys (canonical keys))) [
  | inl e ↦ absurd (no_policy (canonical keys) p e h)
  | inr e ↦
      subst (λ q. from_storage (policy_str q) (custom_keys q) ≡ ok q) (held (canonical keys) p e h)
        (stored_custom _ e (canonical_idem keys))
]
  where
    no_policy :
        (n : List Key) (p : RedactionPolicy)
        → is_no_keys n ≡ true
        → (if is_no_keys n then err no_key_left else ok (custom n)) ≡ ok p
        → ⊥
    no_policy n p e h = ground arith

    held :
        (n : List Key) (p : RedactionPolicy)
        → is_no_keys n ≡ false
        → (if is_no_keys n then err no_key_left else ok (custom n)) ≡ ok p
        → custom n ≡ p
    held n p e h = ground arith

abbrev is_custom : RedactionPolicy → Bool
is_custom (custom ks) = true
is_custom _ = false

plain-StoredBack : (base p : RedactionPolicy) → is_custom base ≡ false → base ≡ p → StoredBack p
unfolding custom_keys from_storage policy_str
plain-StoredBack verbatim p b h =
    subst (λ q. from_storage (policy_str q) (custom_keys q) ≡ ok q) h refl
plain-StoredBack default p b h =
    subst (λ q. from_storage (policy_str q) (custom_keys q) ≡ ok q) h refl
plain-StoredBack (custom ks) p b h =
    subst (λ q. from_storage (policy_str q) (custom_keys q) ≡ ok q) h (absurd (cc b))

with_keys-StoredBack :
    (base : RedactionPolicy) (keys : List Key) (p : RedactionPolicy)
    → is_custom base ≡ false
    → with_keys base keys ≡ ok p
    → StoredBack p
unfolding with_keys
with_keys-StoredBack verbatim [] p b h = plain-StoredBack verbatim p b (cc h)
with_keys-StoredBack verbatim (k ∷ ks) p b h = absurd (cc h)
with_keys-StoredBack default [] p b h = plain-StoredBack default p b (cc h)
with_keys-StoredBack default (k ∷ ks) p b h = custom_policy-StoredBack (k ∷ ks) p h
with_keys-StoredBack (custom ks) _ p b h = absurd (cc b)

from_name-plain :
    (name : String) (base : RedactionPolicy) → from_name name ≡ ok base → is_custom base ≡ false
unfolding from_name
from_name-plain name base h = ground arith

extended-StoredBack :
    (r : Result PolicyError RedactionPolicy) (name : String) (keys : List Key) (p : RedactionPolicy)
    → from_name name ≡ r
    → elim r as (λ _. Result PolicyError RedactionPolicy) [
      | ok base ↦ with_keys base keys
      | err e ↦ err e
    ]
      ≡ ok p
    → StoredBack p
extended-StoredBack (ok base) name keys p e h =
    with_keys-StoredBack base keys p (from_name-plain name base e) h
extended-StoredBack (err x) name keys p e h = absurd (cc h)

-- A policy that the command line accepts is read back as the same policy from the name and the keys
-- that storage keeps of it, whatever keys and in whatever order, spelling and number they were given.
pub from_cli-from_storage :
    (name : String) (keys : List Key) (p : RedactionPolicy)
    → from_cli name keys ≡ ok p
    → from_storage (policy_str p) (custom_keys p) ≡ ok p
unfolding from_cli
from_cli-from_storage name keys p h = extended-StoredBack (from_name name) name keys p refl h

plain-stored :
    (b : Bool) (base p : RedactionPolicy) (e : PolicyError)
    → is_custom base ≡ false
    → ◌≡◌ {A = Result PolicyError RedactionPolicy} (if b then ok base else err e) (ok p)
    → StoredBack p
plain-stored true base p e c h = plain-StoredBack base p c (ok_injective h)
plain-stored false base p e c h = absurd (cc h)

custom-stored :
    (b : Bool) (keys : List Key) (p : RedactionPolicy)
    → ◌≡◌ {A = Result PolicyError RedactionPolicy}
        (if b then err custom_lacks_keys else from_cli "default" keys)
        (ok p)
    → StoredBack p
custom-stored true keys p h = absurd (cc h)
custom-stored false keys p h = from_cli-from_storage "default" keys p h

-- A policy that is read from storage is stored as what reads back as the same policy.
pub from_storage-StoredBack :
    (name : String) (keys : List Key) (p : RedactionPolicy)
    → from_storage name keys ≡ ok p
    → StoredBack p
unfolding from_storage
from_storage-StoredBack name keys p h = elim (Bool-cases (str_eq name "none")) [
  | inl a ↦ plain-stored (is_no_keys keys) verbatim p _ refl (rw (a, from_storage) at h)
  | inr a ↦ elim (Bool-cases (str_eq name "default")) [
    | inl b ↦ plain-stored (is_no_keys keys) default p _ refl (rw (a, b, from_storage) at h)
    | inr b ↦ elim (Bool-cases (str_eq name "custom")) [
      | inl c ↦ custom-stored (is_no_keys keys) keys p (rw (a, b, c, from_storage) at h)
      | inr c ↦ absurd (unknown name p (rw (a, b, c, from_storage) at h))
    ]
  ]
]
  where
    unknown :
        (name : String) (p : RedactionPolicy)
        → ◌≡◌ {A = Result PolicyError RedactionPolicy} (err (unknown_stored_policy name)) (ok p)
        → ⊥
    unknown name p h = cc h
