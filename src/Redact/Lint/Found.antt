-- ===== src/Redact/Lint/Found.antt =====
-- The findings of a value are those of its leaves, in order and each once.
use mcptracer.Common.{
  ℕ, zero, suc, ◌+◌, ◌≡◌, refl, sym, String, true, false, List, [], ◌∷◌, ◌++◌, str_eq, arith, inl,
  inr, subst, append_assoc, append-nil,
}
use mcptracer.Json.{
  Value, null, bool, number, string, array, object, Items, nil, cons, Fields, end, field,
}
use mcptracer.Redact.Keys.{redacted_placeholder}
use mcptracer.Redact.Lint.Patterns.{Text}
use mcptracer.Redact.Lint.{
  SensitiveCategory, Finding, escaped, digits, walk_lint, lint_fields, lint_items,
}
use mcptracer.Redact.Lint.Leaves.{
  Segment, key, index, step_text, render, HasField, HasItem, HasMember, HasLeaf, looks, Has,
  Has-append_left, Has-append_right, Has-append_cases, PointsAt, string-PointsAt, lint_string-Has,
  inside,
}

at_index : (P : ℕ → Type 0) (m n : ℕ) → m ≡ n → P m → P n
at_index P m n e p = subst P e p

FieldPointsAt : Fields → Text → Finding → Type 0
FieldPointsAt fs pointer f =
    (k : String) × (child : Value) × HasField fs k child
    × PointsAt child (pointer ++ (b'/' ∷ escaped k)) f

ItemPointsAt : Items → ℕ → Text → Finding → Type 0
ItemPointsAt xs i pointer f =
    (j : ℕ) × (child : Value) × HasItem xs j child
    × PointsAt child (pointer ++ (b'/' ∷ digits (i + j))) f

mutual
  unfolding walk_lint FieldPointsAt ItemPointsAt

  pub walk-PointsAt :
      (v : Value) (pointer : Text) (f : Finding)
      → Has f (walk_lint v pointer)
      → PointsAt v pointer f
  walk-PointsAt (string s) pointer f h = string-PointsAt s pointer f h
  walk-PointsAt (object fs) pointer f h =
      let (k, child, m, p) = fields-PointsAt fs pointer f h in
      inside (object fs) child (key k) pointer f m p
  walk-PointsAt (array xs) pointer f h =
      let (i, child, m, p) = items-PointsAt xs 0 pointer f h in
      inside (array xs) child (index i) pointer f m (
        at_index (λ (n : ℕ). PointsAt child (pointer ++ (b'/' ∷ digits n)) f) (0 + i) i
          (omega arith) p)
  walk-PointsAt null pointer f h = elim h [ ]
  walk-PointsAt (bool b) pointer f h = elim h [ ]
  walk-PointsAt (number n) pointer f h = elim h [ ]

  fields-PointsAt :
      (fs : Fields) (pointer : Text) (f : Finding)
      → Has f (lint_fields fs pointer)
      → FieldPointsAt fs pointer f
  fields-PointsAt end pointer f h = elim h [ ]
  fields-PointsAt (field k v fs) pointer f h =
      elim (Has-append_cases f (walk_lint v (pointer ++ (b'/' ∷ escaped k)))
        (lint_fields fs pointer) h) [
          | inl a ↦ (k, v, inl (refl, refl), walk-PointsAt v _ f a)
          | inr a ↦ (let (j, child, m, p) = fields-PointsAt fs pointer f a in (j, child, inr m, p))
        ]

  items-PointsAt :
      (xs : Items) (i : ℕ) (pointer : Text) (f : Finding)
      → Has f (lint_items xs i pointer)
      → ItemPointsAt xs i pointer f
  items-PointsAt nil i pointer f h = elim h [ ]
  items-PointsAt (cons v xs) i pointer f h =
      elim (Has-append_cases f (walk_lint v (pointer ++ (b'/' ∷ digits i)))
        (lint_items xs (suc i) pointer) h) [
          | inl a ↦ (
            0,
            v,
            refl,
            at_index (λ (n : ℕ). PointsAt v (pointer ++ (b'/' ∷ digits n)) f) i (i + 0)
                (omega arith) (walk-PointsAt v _ f a),
          )
          | inr a ↦
              (let (j, child, m, p) = items-PointsAt xs (suc i) pointer f a in
                (
                  suc j,
                  child,
                  m,
                  at_index (λ (n : ℕ). PointsAt child (pointer ++ (b'/' ∷ digits n)) f) (suc i + j)
                      (i + suc j) (omega arith) p,
                ))
        ]

fields-Has :
    (fs : Fields) (k : String) (child : Value) (pointer : Text) (f : Finding)
    → HasField fs k child
    → Has f (walk_lint child (pointer ++ (b'/' ∷ escaped k)))
    → Has f (lint_fields fs pointer)
unfolding lint_fields
fields-Has end k child pointer f m h = elim m [ ]
fields-Has (field j v fs) k child pointer f (inl (e, d)) h =
    Has-append_left f _ (lint_fields fs pointer) (rw (e, d) h)
fields-Has (field j v fs) k child pointer f (inr m) h =
    Has-append_right f (walk_lint v (pointer ++ (b'/' ∷ escaped j))) _
      (fields-Has fs k child pointer f m h)

items-Has :
    (xs : Items) (i j : ℕ) (child : Value) (pointer : Text) (f : Finding)
    → HasItem xs j child
    → Has f (walk_lint child (pointer ++ (b'/' ∷ digits (i + j))))
    → Has f (lint_items xs i pointer)
unfolding lint_items
items-Has nil i j child pointer f m h = elim m [ ]
items-Has (cons v xs) i zero child pointer f m h =
    Has-append_left f _ (lint_items xs (suc i) pointer) (
      subst (λ (w : Value). Has f (walk_lint w (pointer ++ (b'/' ∷ digits i)))) (sym m)
        (at_index (λ (n : ℕ). Has f (walk_lint child (pointer ++ (b'/' ∷ digits n)))) (i + 0) i
          (omega arith) h))
items-Has (cons v xs) i (suc j) child pointer f m h =
    Has-append_right f (walk_lint v (pointer ++ (b'/' ∷ digits i))) _ (
      items-Has xs (suc i) j child pointer f m (
        at_index (λ (n : ℕ). Has f (walk_lint child (pointer ++ (b'/' ∷ digits n)))) (i + suc j)
          (suc i + j) (omega arith) h))

member-Has :
    (v child : Value) (step : Segment) (pointer : Text) (f : Finding)
    → HasMember v step child
    → Has f (walk_lint child (pointer ++ (b'/' ∷ step_text step)))
    → Has f (walk_lint v pointer)
unfolding walk_lint
member-Has null child step pointer f m h = elim m [ ]
member-Has (bool _) child step pointer f m h = elim m [ ]
member-Has (number _) child step pointer f m h = elim m [ ]
member-Has (string _) child step pointer f m h = elim m [ ]
member-Has (array xs) child (key k) pointer f m h = elim m [ ]
member-Has (object fs) child (index i) pointer f m h = elim m [ ]
member-Has (object fs) child (key k) pointer f m h = fields-Has fs k child pointer f m h
member-Has (array xs) child (index i) pointer f m h = items-Has xs 0 i child pointer f m (
    at_index (λ (n : ℕ). Has f (walk_lint child (pointer ++ (b'/' ∷ digits n)))) i (0 + i)
      (omega arith) h)

pub leaf-Has :
    (path : List Segment) (v : Value) (pointer : Text) (s : String) (c : SensitiveCategory)
    → HasLeaf v path s
    → looks c s ≡ true
    → str_eq s redacted_placeholder ≡ false
    → Has (record { pointer = pointer ++ render path; category = c }) (walk_lint v pointer)
leaf-Has [] v pointer s c h l u =
    subst
      (λ (w : Value). Has (record { pointer = pointer ++ []; category = c }) (walk_lint w pointer))
      (sym h) (unfold walk_lint in rw append-nil (lint_string-Has s pointer c l u))
leaf-Has (step ∷ path) v pointer s c h l u =
    let (child, m, k) = h in
    member-Has v child step pointer _ m (
      subst
        (λ (p : Text).
          Has (record { pointer = p; category = c })
            (walk_lint child (pointer ++ (b'/' ∷ step_text step))))
        (append_assoc pointer (b'/' ∷ step_text step) (render path))
        (leaf-Has path child (pointer ++ (b'/' ∷ step_text step)) s c k l u))
