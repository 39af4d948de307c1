-- ===== src/Redact/Lint/Leaves.antt =====
-- A finding points at a string leaf of the value, and every leaf that looks secret has a finding.
use mcptracer.Common.{
  ℕ, zero, suc, ◌≡◌, refl, sym, ap, ◌∙◌, String, Bool, true, false, List, [], ◌∷◌, ◌++◌,
  append_assoc, append-nil, codes, str_eq, ◌⊎◌, inl, inr, Bool-cases,
}
use mcptracer.Json.{Value, string, array, object, Items, nil, cons, Fields, end, field}
use mcptracer.Redact.Keys.{redacted_placeholder}
use mcptracer.Redact.Lint.Patterns.{Text, is_bearer_token, is_pem_block, is_url_query_secret}
use mcptracer.Redact.Lint.{
  SensitiveCategory, bearer_token, url_query_secret, pem_block, command_secret, Finding, escaped,
  digits, finding_if, lint_string,
}

-- A step from an object or an array into a member.
pub data Segment : Type 0 where
  key : String → Segment
  index : ℕ → Segment

abbrev pub step_text : Segment → Text
step_text (key k) = escaped k
step_text (index i) = digits i

-- The JSON pointer of a path.
abbrev pub render : List Segment → Text
render [] = []
render (step ∷ path) = (b'/' ∷ step_text step) ++ render path

abbrev pub HasField : Fields → String → Value → Type 0
HasField end k child = ⊥
HasField (field j v fs) k child = ((j ≡ k) × (v ≡ child)) ⊎ HasField fs k child

abbrev pub HasItem : Items → ℕ → Value → Type 0
HasItem nil i child = ⊥
HasItem (cons v xs) zero child = v ≡ child
HasItem (cons v xs) (suc i) child = HasItem xs i child

abbrev pub HasMember : Value → Segment → Value → Type 0
HasMember (object fs) (key k) child = HasField fs k child
HasMember (array xs) (index i) child = HasItem xs i child
HasMember v s child = ⊥

-- The value has that string at that path.
abbrev pub HasLeaf : Value → List Segment → String → Type 0
HasLeaf v [] s = v ≡ string s
HasLeaf v (step ∷ path) s = (child : Value) × HasMember v step child × HasLeaf child path s

-- The text of a leaf looks like a secret of that category.
abbrev pub looks : SensitiveCategory → String → Bool
looks bearer_token s = is_bearer_token (codes s)
looks pem_block s = is_pem_block (codes s)
looks url_query_secret s = is_url_query_secret (codes s)
looks command_secret s = false

abbrev pub Has : Finding → List Finding → Type 0
Has f [] = ⊥
Has f (g ∷ gs) = (g ≡ f) ⊎ Has f gs

pub Has-append_left : (f : Finding) (xs ys : List Finding) → Has f xs → Has f (xs ++ ys)
Has-append_left f [] ys h = elim h [ ]
Has-append_left f (x ∷ xs) ys (inl e) = inl e
Has-append_left f (x ∷ xs) ys (inr h) = inr (Has-append_left f xs ys h)

pub Has-append_right : (f : Finding) (xs ys : List Finding) → Has f ys → Has f (xs ++ ys)
Has-append_right f [] ys h = h
Has-append_right f (x ∷ xs) ys h = inr (Has-append_right f xs ys h)

pub Has-append_cases : (f : Finding) (xs ys : List Finding) → Has f (xs ++ ys) → Has f xs ⊎ Has f ys
Has-append_cases f [] ys h = inr h
Has-append_cases f (x ∷ xs) ys (inl e) = inl (inl e)
Has-append_cases f (x ∷ xs) ys (inr h) = elim (Has-append_cases f xs ys h) [
  | inl k ↦ inl (inr k)
  | inr k ↦ inr k
]

Has-finding_if : (b : Bool) (f : Finding) → b ≡ true → Has f (finding_if b f.pointer f.category)
Has-finding_if b f h = rw h (inl refl)

pub finding_if-Has :
    (b : Bool) (p : Text) (c : SensitiveCategory) (f : Finding)
    → Has f (finding_if b p c)
    → (b ≡ true) × (p ≡ f.pointer) × (c ≡ f.category)
finding_if-Has false p c f h = elim h [ ]
finding_if-Has true p c f (inr h) = elim h [ ]
finding_if-Has true p c f (inl e) =
    (refl, ap (λ (g : Finding). g.pointer) e, ap (λ (g : Finding). g.category) e)

-- What a finding below a pointer says.
pub record PointsAt (v : Value) (pointer : Text) (f : Finding) : Type 0 where
  pub path : List Segment
  pub text : String
  pub leaf : HasLeaf v path text
  pub points : f.pointer ≡ pointer ++ render path
  pub suspicious : looks f.category text ≡ true
  pub unmasked : str_eq text redacted_placeholder ≡ false

leaf-PointsAt :
    (s : String) (pointer : Text) (c : SensitiveCategory) (f : Finding)
    → str_eq s redacted_placeholder ≡ false
    → Has f (finding_if (looks c s) pointer c)
    → PointsAt (string s) pointer f
leaf-PointsAt s pointer c f u h =
    let (b, p, k) = finding_if-Has (looks c s) pointer c f h in
    record {
      path = [];
      text = s;
      leaf = refl;
      points = sym p ∙ sym (append-nil pointer);
      suspicious = ap (λ d. looks d s) (sym k) ∙ b;
      unmasked = u;
    }

pub string-PointsAt :
    (s : String) (pointer : Text) (f : Finding)
    → Has f (lint_string s pointer)
    → PointsAt (string s) pointer f
unfolding lint_string
string-PointsAt s pointer f h = elim (Bool-cases (str_eq s redacted_placeholder)) [
  | inl m ↦ absurd (rw (m, lint_string) at h)
  | inr m ↦
      elim (Has-append_cases f (finding_if (is_bearer_token (codes s)) pointer bearer_token) _
        (rw (m, lint_string) at h)) [
          | inl a ↦ leaf-PointsAt s pointer bearer_token f m a
          | inr r ↦
              elim (Has-append_cases f (finding_if (is_pem_block (codes s)) pointer pem_block) _
                r) [
                  | inl a ↦ leaf-PointsAt s pointer pem_block f m a
                  | inr a ↦ leaf-PointsAt s pointer url_query_secret f m a
                ]
        ]
]

pub lint_string-Has :
    (s : String) (pointer : Text) (c : SensitiveCategory)
    → looks c s ≡ true
    → str_eq s redacted_placeholder ≡ false
    → Has (record { pointer = pointer; category = c }) (lint_string s pointer)
unfolding lint_string
lint_string-Has s pointer bearer_token l u = rw (u, l) (inl refl)
lint_string-Has s pointer pem_block l u =
    rw (u, l)
      (Has-append_right _ (finding_if (is_bearer_token (codes s)) pointer bearer_token) _
        (inl refl))
lint_string-Has s pointer url_query_secret l u =
    rw (u, l)
      (Has-append_right _ (finding_if (is_bearer_token (codes s)) pointer bearer_token) _
        (Has-append_right _ (finding_if (is_pem_block (codes s)) pointer pem_block) _ (inl refl)))
lint_string-Has s pointer command_secret l u = absurd (cc l)

pub inside :
    (v child : Value) (step : Segment) (pointer : Text) (f : Finding)
    → HasMember v step child
    → PointsAt child (pointer ++ (b'/' ∷ step_text step)) f
    → PointsAt v pointer f
inside v child step pointer f m p = record {
  path = step ∷ p.path;
  text = p.text;
  leaf = (child, m, p.leaf);
  points = p.points ∙ append_assoc pointer (b'/' ∷ step_text step) (render p.path);
  suspicious = p.suspicious;
  unmasked = p.unmasked;
}
