-- ===== src/Redact/Lint/Reported.antt =====
-- What `sensitive_content_lint` reports, after its sort and its `dedup_by`.
use mcptracer.Common.{
  ◌≡◌, ◌∙◌, String, true, false, Option, List, [], ◌∷◌, ◌==◌, str_eq, list_eq, list_eq_sound, arith,
  ◌⊎◌, inl, inr, Bool-cases, and-true,
}
use mcptracer.Common.Sort.{insert_sorted, sort, dedup_from, dedup}
use mcptracer.Json.{Value}
use mcptracer.Redact.Keys.{redacted_placeholder}
use mcptracer.Redact.Lint.{
  SensitiveCategory, rank, Finding, walk_lint, finding_le, finding_eq, command_findings,
  sensitive_content_lint,
}
use mcptracer.Redact.Lint.Leaves.{
  Segment, render, HasLeaf, looks, Has, Has-append_left, Has-append_cases, PointsAt,
}
use mcptracer.Redact.Lint.Found.{walk-PointsAt, leaf-Has}

finding_eq_sound : (f g : Finding) → finding_eq f g ≡ true → f ≡ g
finding_eq_sound f g h =
    let (a, b) = and-true (list_eq f.pointer g.pointer) (rank f.category == rank g.category) h in
    let e = list_eq_sound f.pointer g.pointer a in ground arith

swap_first : (P Q R : Type 0) → P ⊎ Q ⊎ R → Q ⊎ P ⊎ R
swap_first P Q R (inl p) = inr (inl p)
swap_first P Q R (inr (inl q)) = inl q
swap_first P Q R (inr (inr r)) = inr (inr r)

below : (P Q R : Type 0) → (Q → R) → P ⊎ Q → P ⊎ R
below P Q R f (inl p) = inl p
below P Q R f (inr q) = inr (f q)

joined : (P Q R : Type 0) → (Q → P) → P ⊎ Q ⊎ R → P ⊎ R
joined P Q R f (inl p) = inl p
joined P Q R f (inr (inl q)) = inl (f q)
joined P Q R f (inr (inr r)) = inr r

widened : (P Q R : Type 0) → P ⊎ R → P ⊎ Q ⊎ R
widened P Q R (inl p) = inl p
widened P Q R (inr r) = inr (inr r)

Has-insert_sorted :
    (f g : Finding) (xs : List Finding) → (g ≡ f) ⊎ Has f xs → Has f (insert_sorted finding_le g xs)
unfolding insert_sorted
Has-insert_sorted f g [] h = h
Has-insert_sorted f g (x ∷ xs) h =
    let later = Has-insert_sorted f g xs in
    elim (Bool-cases (finding_le g x)) [
      | inl e ↦ rw e h
      | inr e ↦ rw e (below _ _ _ later (swap_first _ _ _ h))
    ]

insert_sorted-Has :
    (f g : Finding) (xs : List Finding) → Has f (insert_sorted finding_le g xs) → (g ≡ f) ⊎ Has f xs
unfolding insert_sorted
insert_sorted-Has f g [] h = h
insert_sorted-Has f g (x ∷ xs) h =
    let later = insert_sorted-Has f g xs in
    elim (Bool-cases (finding_le g x)) [
      | inl e ↦ rw e at h
      | inr e ↦ swap_first _ _ _ (below (x ≡ f) _ _ later (rw e at h))
    ]

Has-sort : (f : Finding) (xs : List Finding) → Has f xs → Has f (sort finding_le xs)
unfolding sort
Has-sort f [] h = h
Has-sort f (x ∷ xs) (inl e) = Has-insert_sorted f x (sort finding_le xs) (inl e)
Has-sort f (x ∷ xs) (inr h) = Has-insert_sorted f x (sort finding_le xs) (inr (Has-sort f xs h))

sort-Has : (f : Finding) (xs : List Finding) → Has f (sort finding_le xs) → Has f xs
unfolding sort
sort-Has f [] h = h
sort-Has f (x ∷ xs) h = elim (insert_sorted-Has f x (sort finding_le xs) h) [
  | inl e ↦ inl e
  | inr k ↦ inr (sort-Has f xs k)
]

Has-dedup_from :
    (f g : Finding) (xs : List Finding) → (g ≡ f) ⊎ Has f xs → Has f (dedup_from finding_eq g xs)
unfolding dedup_from
Has-dedup_from f g [] h = h
Has-dedup_from f g (x ∷ xs) h =
    let skipped = Has-dedup_from f g xs in
    let kept = Has-dedup_from f x xs in
    elim (Bool-cases (finding_eq g x)) [
      | inl e ↦ rw e (skipped (joined _ _ _ (λ q. finding_eq_sound g x e ∙ q) h))
      | inr e ↦ rw e (below (g ≡ f) _ _ kept h)
    ]

dedup_from-Has :
    (f g : Finding) (xs : List Finding) → Has f (dedup_from finding_eq g xs) → (g ≡ f) ⊎ Has f xs
unfolding dedup_from
dedup_from-Has f g [] h = h
dedup_from-Has f g (x ∷ xs) h =
    let skipped = dedup_from-Has f g xs in
    let kept = dedup_from-Has f x xs in
    elim (Bool-cases (finding_eq g x)) [
      | inl e ↦ widened _ _ _ (skipped (rw e at h))
      | inr e ↦ below (g ≡ f) _ _ kept (rw e at h)
    ]

Has-dedup : (f : Finding) (xs : List Finding) → Has f xs → Has f (dedup finding_eq xs)
unfolding dedup
Has-dedup f [] h = h
Has-dedup f (x ∷ xs) h = Has-dedup_from f x xs h

dedup-Has : (f : Finding) (xs : List Finding) → Has f (dedup finding_eq xs) → Has f xs
unfolding dedup
dedup-Has f [] h = h
dedup-Has f (x ∷ xs) h = dedup_from-Has f x xs h

-- Every reported finding points at a string leaf of the value, by the path its pointer renders, whose
-- text looks like a secret of its category and is not the redaction placeholder; or it is the
-- finding for the command.
pub sensitive_content_lint-PointsAt :
    (value : Value) (command_context : Option String) (f : Finding)
    → Has f (sensitive_content_lint value command_context)
    → PointsAt value [] f ⊎ Has f (command_findings command_context)
unfolding sensitive_content_lint
sensitive_content_lint-PointsAt value command_context f h =
    let k = sort-Has f _ (dedup-Has f _ h) in
    elim (Has-append_cases f (walk_lint value []) (command_findings command_context) k) [
      | inl a ↦ inl (walk-PointsAt value [] f a)
      | inr a ↦ inr a
    ]

-- A string leaf whose text looks like a secret of a category, and is not the redaction placeholder,
-- is reported: with the pointer that its path renders, and that category.
pub sensitive_content_lint-Has :
    (value : Value) (command_context : Option String) (path : List Segment) (s : String)
    (c : SensitiveCategory)
    → HasLeaf value path s
    → looks c s ≡ true
    → str_eq s redacted_placeholder ≡ false
    → Has
        (record { pointer = render path; category = c })
        (sensitive_content_lint value command_context)
unfolding sensitive_content_lint
sensitive_content_lint-Has value command_context path s c h l u = Has-dedup _ _ (
    Has-sort _ _ (
      Has-append_left _ (walk_lint value []) (command_findings command_context)
        (leaf-Has path value [] s c h l u)))
