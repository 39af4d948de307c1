-- ===== src/Writer/Command/Stable.antt =====
-- Rendering a command masks what a second rendering would mask.
use mcptracer.Common.{
  Bool, true, false, not, ◌&&◌, ◌||◌, list_eq, list_eq_refl, ◌≡◌, refl, sym, subst, ap, ◌∙◌, none,
  some, List, [], ◌∷◌, ◌++◌, ◌==◌, codes, all, arith, ◌⊎◌, Bool-cases, Option-cases, inl, inr,
}
use mcptracer.Redact.Keys.{redacted_placeholder, starts_with}
use mcptracer.Redact.Lint.Patterns.{Text, before, after, is_sensitive_text}
use mcptracer.Writer.Command.{masked, render_arg, render_args}

before-free : (arg : Text) → all (λ c. not (c == b'=')) (before b'=' arg) ≡ true
before-free [] = refl
before-free (c ∷ cs) = ground (arith, before-free cs)

before-masked :
    (key rest : Text)
    → all (λ c. not (c == b'=')) key ≡ true
    → before b'=' (key ++ (b'=' ∷ rest)) ≡ key
before-masked [] rest h = refl
before-masked (c ∷ cs) rest h = ground (arith, before-masked cs rest)

after-masked :
    (key rest : Text)
    → all (λ c. not (c == b'=')) key ≡ true
    → after b'=' (key ++ (b'=' ∷ rest)) ≡ some rest
after-masked [] rest h = refl
after-masked (c ∷ cs) rest h = ground (arith, after-masked cs rest)

render_arg-masked :
    (key : Text)
    → all (λ c. not (c == b'=')) key ≡ true
    → is_sensitive_text key ≡ true
    → render_arg (masked key) ≡ (masked key, false)
unfolding render_arg
render_arg-masked key f h =
    rw
      (
        after-masked key (codes redacted_placeholder) f,
        render_arg,
        before-masked key (codes redacted_placeholder) f,
        h,
      )
      refl

-- The value of `key=value` is masked where the key is sensitive.
abbrev pub is_masked_value : Text → Bool
is_masked_value arg = elim (after b'=' arg) [
  | none ↦ true
  | some value ↦
      not (is_sensitive_text (before b'=' arg)) || list_eq value (codes redacted_placeholder)
]

-- The argument is a flag whose own text is a sensitive key, without a value.
abbrev pub is_sensitive_flag : Text → Bool
is_sensitive_flag arg =
    starts_with arg (b'-' ∷ [])
    && (is_sensitive_text arg && elim (after b'=' arg) [
      | none ↦ true
      | some value ↦ not (is_sensitive_text (before b'=' arg))
    ])

abbrev pub first_is_masked : List Text → Bool
first_is_masked [] = true
first_is_masked (arg ∷ args) = list_eq arg (codes redacted_placeholder)

-- Every value, and every argument behind a sensitive flag, is masked.
abbrev pub is_clean : List Text → Bool
is_clean [] = true
is_clean (arg ∷ args) =
    is_masked_value arg && ((not (is_sensitive_flag arg) || first_is_masked args) && is_clean args)

abbrev is_flag : Text → Bool
is_flag arg = starts_with arg (b'-' ∷ []) && is_sensitive_text arg

-- An argument is masked behind its key, or kept.
abbrev RenderedAs : Text → Type 0
RenderedAs arg =
    ((key : Text) × (all (λ c. not (c == b'=')) key ≡ true)
      × (is_sensitive_text key ≡ true)
      × (render_arg arg ≡ (masked key, false)))
    ⊎ ((is_masked_value arg ≡ true) × (render_arg arg ≡ (arg, is_flag arg)))

render_arg-RenderedAs : (arg : Text) → RenderedAs arg
unfolding render_arg
render_arg-RenderedAs arg = elim (Option-cases (after b'=' arg)) [
  | inl e ↦ inr (rw (e, is_masked_value) refl, rw (e, render_arg) refl)
  | inr (value, e) ↦ elim (Bool-cases (is_sensitive_text (before b'=' arg))) [
    | inl h ↦ inl (before b'=' arg, before-free arg, h, rw (e, render_arg, h) refl)
    | inr h ↦ inr (rw (e, is_masked_value, h) refl, rw (e, render_arg, h) refl)
  ]
]

render_arg_idem : (arg : Text) → render_arg (render_arg arg).0 ≡ render_arg arg
render_arg_idem arg = elim (render_arg-RenderedAs arg) [
  | inl (key, f, h, e) ↦
      ap (λ (r : Text × Bool). render_arg r.0) e ∙ render_arg-masked key f h ∙ sym e
  | inr (m, e) ↦ ap (λ (r : Text × Bool). render_arg r.0) e
]

render_args_idem :
    (b : Bool) (args : List Text) → render_args b (render_args b args) ≡ render_args b args
unfolding render_args
render_args_idem b [] = refl
render_args_idem true (arg ∷ args) =
    ap (λ (r : List Text). codes redacted_placeholder ∷ r) (render_args_idem false args)
render_args_idem false (arg ∷ args) =
    rw (render_arg_idem arg)
      (ap (λ (r : List Text). (render_arg arg).0 ∷ r) (render_args_idem (render_arg arg).1 args))

render_args-first :
    (b : Bool) (args : List Text) → b ≡ true → first_is_masked (render_args b args) ≡ true
unfolding render_args
render_args-first b [] h = refl
render_args-first true (arg ∷ args) h = refl
render_args-first false (arg ∷ args) h = cc

clean_step :
    (m flag next first rest : Bool)
    → m ≡ true
    → (not flag || next) ≡ true
    → (next ≡ true → first ≡ true)
    → rest ≡ true
    → (m && ((not flag || first) && rest)) ≡ true
clean_step m flag next first rest h k f r = ground arith

masked_value :
    (key : Text) → all (λ c. not (c == b'=')) key ≡ true → is_masked_value (masked key) ≡ true
masked_value key f =
    rw (after-masked key (codes redacted_placeholder) f, is_masked_value)
      (ground (arith, list_eq_refl (codes redacted_placeholder)))

masked_flag :
    (key : Text)
    → all (λ c. not (c == b'=')) key ≡ true
    → is_sensitive_text key ≡ true
    → is_sensitive_flag (masked key) ≡ false
masked_flag key f h =
    rw
      (
        after-masked key (codes redacted_placeholder) f,
        is_sensitive_flag,
        before-masked key (codes redacted_placeholder) f,
        h,
      )
      (ground arith)

flag_asks : (a b c : Bool) → (not (a && (b && c)) || (a && b)) ≡ true
flag_asks a b c = ground arith

-- A rendered argument is masked, and where it is a sensitive flag it asks for the next.
abbrev Masks : Text × Bool → Type 0
Masks r = (is_masked_value r.0 ≡ true) × ((not (is_sensitive_flag r.0) || r.1) ≡ true)

render_arg-Masks : (arg : Text) → Masks (render_arg arg)
render_arg-Masks arg = elim (render_arg-RenderedAs arg) [
  | inl (key, f, h, e) ↦ subst Masks (sym e) (masked_value key f, rw (masked_flag key f h) refl)
  | inr (m, e) ↦
      subst Masks (sym e) (m, flag_asks (starts_with arg (b'-' ∷ [])) (is_sensitive_text arg) _)
]

render_args-IsClean : (b : Bool) (args : List Text) → is_clean (render_args b args) ≡ true
unfolding render_args
render_args-IsClean b [] = refl
render_args-IsClean true (arg ∷ args) = render_args-IsClean false args
render_args-IsClean false (arg ∷ args) =
    let (a, b) = render_arg-Masks arg in
    clean_step _ (is_sensitive_flag (render_arg arg).0) (render_arg arg).1 _ _ a b
      (render_args-first (render_arg arg).1 args) (render_args-IsClean (render_arg arg).1 args)

-- In the rendered command each value of a sensitive key, and each argument behind a sensitive flag, is
-- the placeholder; and rendering the result a second time changes nothing.
pub render_args-clean :
    (args : List Text)
    → (is_clean (render_args false args) ≡ true)
      × (render_args false (render_args false args) ≡ render_args false args)
render_args-clean args = (render_args-IsClean false args, render_args_idem false args)
