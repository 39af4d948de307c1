-- ===== src/Redact/Lint.antt =====
-- crates/mcptracer-redact/src/lib.rs: `sensitive_content_lint`, which points at string leaves that
-- look secret. The pointer that the walk extends and truncates is passed down.
pub mod Patterns
pub mod Leaves
pub mod Found
pub mod Reported
use Prim.Native.Nat.{◌%◌, ◌/◌}
use mcptracer.Common.{
  ℕ, zero, suc, ◌+◌, String, Bool, true, false, not, ◌&&◌, Option, none, some, List, [], ◌∷◌, ◌++◌,
  leb, ◌==◌, if◌then◌else◌, codes, str_eq, list_eq, text_le,
}
use mcptracer.Common.Sort.{sort, dedup}
use mcptracer.Json.{
  Value, null, bool, number, string, array, object, Items, nil, cons, Fields, end, field,
}
use mcptracer.Redact.Keys.{redacted_placeholder}
use mcptracer.Redact.Lint.Patterns.{
  Text, is_bearer_token, is_pem_block, is_url_query_secret, is_command_secret,
}

pub data SensitiveCategory : Type 0 where
  bearer_token url_query_secret pem_block command_secret : SensitiveCategory

-- The derived order is the order of the declaration.
abbrev pub rank : SensitiveCategory → ℕ
rank bearer_token = 0
rank url_query_secret = 1
rank pem_block = 2
rank command_secret = 3

pub record Finding : Type 0 where
  pub pointer : Text
  pub category : SensitiveCategory

-- `replace` of a character by a text
abbrev pub replace : ℕ → Text → Text → Text
replace c by [] = []
replace c by (x ∷ xs) = (if x == c then by else x ∷ []) ++ replace c by xs

abbrev pub escaped : String → Text
escaped key = replace b'/' (codes "~1") (replace b'~' (codes "~0") (codes key))

-- `usize::to_string`; the number itself is fuel enough for its digits.
abbrev pub digits_from : ℕ → ℕ → Text → Text
digits_from zero n acc = acc
digits_from (suc fuel) n acc =
    let more = (48 + n % 10) ∷ acc in
    elim (leb 10 n) [ false ↦ more | true ↦ digits_from fuel (n / 10) more ]

abbrev pub digits : ℕ → Text
digits n = digits_from (suc n) n []

abbrev pub finding_if : Bool → Text → SensitiveCategory → List Finding
finding_if b pointer category =
    if b then record { pointer = pointer; category = category } ∷ [] else []

unfoldable pub lint_string : String → Text → List Finding
lint_string s pointer =
    if str_eq s redacted_placeholder
    then []
    else finding_if (is_bearer_token (codes s)) pointer bearer_token
      ++ (finding_if (is_pem_block (codes s)) pointer pem_block
          ++ finding_if (is_url_query_secret (codes s)) pointer url_query_secret)

unfoldable mutual
  pub walk_lint : Value → Text → List Finding
  walk_lint (string s) pointer = lint_string s pointer
  walk_lint (object fs) pointer = lint_fields fs pointer
  walk_lint (array xs) pointer = lint_items xs 0 pointer
  walk_lint v pointer = []

  pub lint_fields : Fields → Text → List Finding
  lint_fields end pointer = []
  lint_fields (field k v fs) pointer =
      walk_lint v (pointer ++ (b'/' ∷ escaped k)) ++ lint_fields fs pointer

  pub lint_items : Items → ℕ → Text → List Finding
  lint_items nil i pointer = []
  lint_items (cons v xs) i pointer =
      walk_lint v (pointer ++ (b'/' ∷ digits i)) ++ lint_items xs (suc i) pointer

unfoldable pub command_findings : Option String → List Finding
command_findings none = []
command_findings (some cmd) =
    finding_if (is_command_secret (codes cmd)) (codes "/session/server_command") command_secret

abbrev pub finding_le : Finding → Finding → Bool
finding_le a b =
    if list_eq a.pointer b.pointer
    then leb (rank a.category) (rank b.category)
    else text_le a.pointer b.pointer

abbrev pub finding_eq : Finding → Finding → Bool
finding_eq a b = list_eq a.pointer b.pointer && rank a.category == rank b.category

unfoldable pub sensitive_content_lint : Value → Option String → List Finding
sensitive_content_lint value command_context =
    dedup finding_eq (sort finding_le (walk_lint value [] ++ command_findings command_context))
