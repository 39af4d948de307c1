-- ===== src/Redact/Lint/Patterns.antt =====
-- crates/mcptracer-redact/src/lib.rs: the four patterns of secret text. A text is its code points;
-- the string methods are those of Rust's standard library.
use mcptracer.Common.{
  ℕ, ◌+◌, Bool, false, not, ◌&&◌, ◌||◌, Option, none, some, List, [], ◌∷◌, any, leb, ltb, ◌==◌,
  if◌then◌else◌, codes, map,
}
use mcptracer.Redact.Keys.{is_nil, normalize, is_sensitive_normal, contains, to_ascii_lowercase}

abbrev pub Text : Type 0
Text = List ℕ

-- `char::is_whitespace`
abbrev pub is_whitespace : ℕ → Bool
is_whitespace c =
    (leb 9 c && leb c 13)
    || any (λ w. c == w) (32 ∷ 133 ∷ 160 ∷ 5760 ∷ 8232 ∷ 8233 ∷ 8239 ∷ 8287 ∷ 12288 ∷ [])
    || (leb 8192 c && leb c 8202)

abbrev pub is_ascii_whitespace : ℕ → Bool
is_ascii_whitespace c = any (λ w. c == w) (9 ∷ 10 ∷ 12 ∷ 13 ∷ 32 ∷ [])

abbrev pub trim_start_matches : (ℕ → Bool) → Text → Text
trim_start_matches p [] = []
trim_start_matches p (c ∷ cs) = if p c then trim_start_matches p cs else c ∷ cs

abbrev pub trim_start : Text → Text
trim_start = trim_start_matches is_whitespace

abbrev pub trim_end : Text → Text
trim_end [] = []
trim_end (c ∷ cs) =
    let rest = trim_end cs in if is_nil rest && is_whitespace c then [] else c ∷ rest

abbrev pub trim : Text → Text
trim s = trim_end (trim_start s)

abbrev pub strip_prefix : Text → Text → Option Text
strip_prefix [] s = some s
strip_prefix (p ∷ ps) [] = none
strip_prefix (p ∷ ps) (c ∷ cs) = let rest = strip_prefix ps cs in if p == c then rest else none

-- `s.split(c).next()`
abbrev pub before : ℕ → Text → Text
before c [] = []
before c (x ∷ xs) = let rest = before c xs in if x == c then [] else x ∷ rest

-- `s.find(c).map(|i| &s[i + 1..])`
abbrev pub after : ℕ → Text → Option Text
after c [] = none
after c (x ∷ xs) = let rest = after c xs in if x == c then some xs else rest

abbrev pub cons_first : ℕ → List Text → List Text
cons_first c [] = (c ∷ []) ∷ []
cons_first c (s ∷ ss) = (c ∷ s) ∷ ss

abbrev pub split : (ℕ → Bool) → Text → List Text
split p [] = [] ∷ []
split p (c ∷ cs) = let rest = split p cs in if p c then [] ∷ rest else cons_first c rest

-- The bytes of a text in UTF-8.
abbrev pub len_utf8 : ℕ → ℕ
len_utf8 c = if ltb c 128 then 1 else if ltb c 2048 then 2 else if ltb c 65536 then 3 else 4

abbrev pub len : Text → ℕ
len [] = 0
len (c ∷ cs) = len_utf8 c + len cs

abbrev pub is_long_token : Text → Bool
is_long_token rest =
    let token = trim_start rest in leb 8 (len token) && not (any (λ c. c == b'\n') token)

unfoldable pub is_bearer_token : Text → Bool
is_bearer_token s = elim (strip_prefix (codes "Bearer ") (trim_start s)) [
  | some rest ↦ is_long_token rest
  | none ↦ elim (strip_prefix (codes "bearer ") (map to_ascii_lowercase (trim_start s))) [
    | some rest ↦ is_long_token rest
    | none ↦ false
  ]
]

unfoldable pub is_pem_block : Text → Bool
is_pem_block s = contains s (codes "-----BEGIN ")

abbrev pub is_sensitive_text : Text → Bool
is_sensitive_text key = is_sensitive_normal (normalize key)

unfoldable pub is_url_query_secret : Text → Bool
is_url_query_secret s = elim (after b'?' s) [
  | none ↦ false
  | some query ↦
      any (λ pair. let key = trim (before b'=' pair) in not (is_nil key) && is_sensitive_text key)
        (split (λ c. c == b'&') (before b'#' query))
]

-- The empty pieces that `split_ascii_whitespace` leaves out hold no `=`.
unfoldable pub is_command_secret : Text → Bool
is_command_secret cmd =
    any
      (λ token.
        let stripped = trim_start_matches (λ c. c == b'-') token in
        any (λ c. c == b'=') stripped && is_sensitive_text (before b'=' stripped))
      (split is_ascii_whitespace cmd)
