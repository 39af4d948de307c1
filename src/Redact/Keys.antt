-- ===== src/Redact/Keys.antt =====
-- crates/mcptracer-redact/src/lib.rs: which object keys are sensitive. A normalized key is held as
-- its code points.
use mcptracer.Common.{
  ℕ, ◌+◌, String, Bool, true, false, not, ◌&&◌, ◌||◌, ◌≡◌, refl, List, [], ◌∷◌, arith, leb,
  if◌then◌else◌, any, list_eq, codes, map, keep,
}

abbrev pub redacted_placeholder : String
redacted_placeholder = "***REDACTED***"

-- A normalized key, as its code points.
abbrev pub Key : Type 0
Key = List ℕ

abbrev pub contains_tokens : List Key
contains_tokens =
    codes "password"
    ∷ codes "passwd"
    ∷ codes "passphrase"
    ∷ codes "secret"
    ∷ codes "apikey"
    ∷ codes "accesstoken"
    ∷ codes "refreshtoken"
    ∷ codes "authorization"
    ∷ codes "credential"
    ∷ codes "privatekey"
    ∷ codes "clientsecret"
    ∷ codes "sessiontoken"
    ∷ codes "mnemonic"
    ∷ codes "seedphrase"
    ∷ []

abbrev pub suffix_tokens : List Key
suffix_tokens = codes "token" ∷ codes "cookie" ∷ codes "bearer" ∷ []

-- `char::is_ascii_alphanumeric` and `char::to_ascii_lowercase`
abbrev pub is_ascii_upper : ℕ → Bool
is_ascii_upper c = leb b'A' c && leb c b'Z'

abbrev pub is_ascii_alphanumeric : ℕ → Bool
is_ascii_alphanumeric c =
    (leb b'0' c && leb c b'9') || is_ascii_upper c || (leb b'a' c && leb c b'z')

abbrev pub to_ascii_lowercase : ℕ → ℕ
to_ascii_lowercase c = if is_ascii_upper c then c + 32 else c

-- `normalize_key` on the characters of a key.
abbrev pub normalize : List ℕ → Key
normalize key = map to_ascii_lowercase (keep is_ascii_alphanumeric key)

unfoldable pub normalize_key : String → Key
normalize_key key = normalize (codes key)

-- `starts_with`, `contains` and `ends_with` of `str`.
abbrev pub starts_with : Key → Key → Bool
starts_with text [] = true
starts_with [] (c ∷ cs) = false
starts_with (x ∷ xs) (c ∷ cs) = list_eq (x ∷ []) (c ∷ []) && starts_with xs cs

abbrev pub contains : Key → Key → Bool
contains [] token = starts_with [] token
contains (x ∷ xs) token = starts_with (x ∷ xs) token || contains xs token

abbrev pub ends_with : Key → Key → Bool
ends_with [] token = list_eq [] token
ends_with (x ∷ xs) token = list_eq (x ∷ xs) token || ends_with xs token

abbrev pub is_nil : Key → Bool
is_nil [] = true
is_nil (c ∷ cs) = false

-- `is_sensitive_key` on the normalized key.
unfoldable pub is_sensitive_normal : Key → Bool
is_sensitive_normal normalized =
    if is_nil normalized
    then false
    else if any (contains normalized) contains_tokens
    then true
    else any (λ token. list_eq normalized token || ends_with normalized token) suffix_tokens

unfoldable pub is_sensitive_key : String → Bool
is_sensitive_key key = is_sensitive_normal (normalize_key key)

unfoldable pub matches_policy_sensitive_key : String → List Key → Bool
matches_policy_sensitive_key key custom_keys =
    if is_sensitive_key key
    then true
    else (let normalized = normalize_key key in
        not (is_nil normalized) && any (λ custom. list_eq custom normalized) custom_keys)

normalize-cons :
    (c : ℕ) (cs : List ℕ)
    → normalize (c ∷ cs)
      ≡ (if is_ascii_alphanumeric c then to_ascii_lowercase c ∷ normalize cs else normalize cs)
normalize-cons c cs = ground arith

-- Normalizing a normalized key changes nothing.
pub normalize_idem : (key : List ℕ) → normalize (normalize key) ≡ normalize key
normalize_idem [] = refl
normalize_idem (c ∷ cs) = ground (
  arith,
  normalize-cons c cs,
  normalize-cons (to_ascii_lowercase c) (normalize cs),
  normalize_idem cs,
)
