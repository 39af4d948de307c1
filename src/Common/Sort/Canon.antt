-- ===== src/Common/Sort/Canon.antt =====
-- A sorted list without repetitions is what sorting and `dedup` leave as it is.
use mcptracer.Common.Lists.{All}
use mcptracer.Common.Tests.{Bool-cases}
use mcptracer.Common.Sort.{insert_sorted, sort, dedup_from, dedup}
use mathlib.Core.Path.{◌≡◌, refl, sym, ap, ◌∙◌, subst}
use mathlib.Core.Logic.{inl, inr}
use mathlib.Core.Bool.{Bool, true, false}
use mathlib.Core.List.{List, [], ◌∷◌}

module _ {ℓ} {A : Type ℓ} where
  -- Neighbours are in order.
  abbrev pub Linked : (A → A → Bool) → Bool → List A → Type 0
  Linked r b [] = Unit
  Linked r b (x ∷ []) = Unit
  Linked r b (x ∷ y ∷ ys) = (r x y ≡ b) × Linked r b (y ∷ ys)

module _ {ℓ} {A : Type ℓ} (le : A → A → Bool)
    (total : (x y : A) → le x y ≡ false → le y x ≡ true) where
  insert_sorted-Linked :
      (a : A) (xs : List A) → Linked le true xs → Linked le true (insert_sorted le a xs)
  unfolding insert_sorted
  insert_sorted-Linked a [] h = tt
  insert_sorted-Linked a (x ∷ []) h = elim (Bool-cases (le a x)) [
    | inl e ↦ rw e (e, tt)
    | inr e ↦ rw e (total a x e, tt)
  ]
  insert_sorted-Linked a (x ∷ y ∷ ys) h =
      let rest = insert_sorted-Linked a (y ∷ ys) h.1 in
      elim (Bool-cases (le a x)) [
        | inl e ↦ rw e (e, h)
        | inr e ↦ elim (Bool-cases (le a y)) [
          | inl f ↦ rw (e, f) (total a x e, (f, h.1))
          | inr f ↦ rw (e, f) (h.0, rw f at rest)
        ]
      ]

  pub sort-Linked : (xs : List A) → Linked le true (sort le xs)
  unfolding sort
  sort-Linked [] = tt
  sort-Linked (x ∷ xs) = insert_sorted-Linked x (sort le xs) (sort-Linked xs)

  insert_sorted-first :
      (a : A) (xs : List A) → Linked le true (a ∷ xs) → insert_sorted le a xs ≡ a ∷ xs
  unfolding insert_sorted
  insert_sorted-first a [] h = refl
  insert_sorted-first a (x ∷ xs) h = rw h.0 refl

  tail-Linked : (a : A) (xs : List A) → Linked le true (a ∷ xs) → Linked le true xs
  tail-Linked a [] h = tt
  tail-Linked a (x ∷ xs) h = h.1

  pub sort-sorted : (xs : List A) → Linked le true xs → sort le xs ≡ xs
  unfolding sort
  sort-sorted [] h = refl
  sort-sorted (x ∷ xs) h =
      ap (insert_sorted le x) (sort-sorted xs (tail-Linked x xs h)) ∙ insert_sorted-first x xs h

module _ {ℓ} {A : Type ℓ} (eq : A → A → Bool) where
  -- The first element that `dedup` leaves is the first there is.
  cons-dedup_from :
      (r : A → A → Bool) (b : Bool) (a x : A) (ys : List A)
      → r a x ≡ b
      → Linked r b (dedup_from eq x ys)
      → Linked r b (a ∷ dedup_from eq x ys)
  unfolding dedup_from
  cons-dedup_from r b a x [] e h = (e, h)
  cons-dedup_from r b a x (y ∷ ys) e h =
      let skipped = cons-dedup_from r b a x ys e in
      elim (Bool-cases (eq x y)) [
        | inl f ↦ rw f (skipped (rw f at h))
        | inr f ↦ rw f (e, rw f at h)
      ]

  dedup_from-distinct : (a : A) (xs : List A) → Linked eq false (dedup_from eq a xs)
  unfolding dedup_from
  dedup_from-distinct a [] = tt
  dedup_from-distinct a (x ∷ xs) =
      let skipped = dedup_from-distinct a xs in
      let kept = dedup_from-distinct x xs in
      elim (Bool-cases (eq a x)) [
        | inl e ↦ rw e skipped
        | inr e ↦ rw e (cons-dedup_from eq false a x xs e kept)
      ]

  pub dedup-distinct : (xs : List A) → Linked eq false (dedup eq xs)
  unfolding dedup
  dedup-distinct [] = tt
  dedup-distinct (x ∷ xs) = dedup_from-distinct x xs

  dedup_from-Linked :
      (r : A → A → Bool) (sound : (x y : A) → eq x y ≡ true → x ≡ y) (a : A) (xs : List A)
      → Linked r true (a ∷ xs)
      → Linked r true (dedup_from eq a xs)
  unfolding dedup_from
  dedup_from-Linked r sound a [] h = tt
  dedup_from-Linked r sound a (x ∷ xs) h =
      let skipped = dedup_from-Linked r sound a xs in
      let kept = dedup_from-Linked r sound x xs in
      elim (Bool-cases (eq a x)) [
        | inl e ↦ rw e (skipped (subst (λ (y : A). Linked r true (y ∷ xs)) (sym (sound a x e)) h.1))
        | inr e ↦ rw e (cons-dedup_from r true a x xs h.0 (kept h.1))
      ]

  pub dedup-Linked :
      (r : A → A → Bool) (sound : (x y : A) → eq x y ≡ true → x ≡ y) (xs : List A)
      → Linked r true xs
      → Linked r true (dedup eq xs)
  unfolding dedup
  dedup-Linked r sound [] h = tt
  dedup-Linked r sound (x ∷ xs) h = dedup_from-Linked r sound x xs h

  dedup_from-same : (a : A) (xs : List A) → Linked eq false (a ∷ xs) → dedup_from eq a xs ≡ a ∷ xs
  unfolding dedup_from
  dedup_from-same a [] h = refl
  dedup_from-same a (x ∷ xs) h = rw h.0 (ap (λ (l : List A). a ∷ l) (dedup_from-same x xs h.1))

  pub dedup-same : (xs : List A) → Linked eq false xs → dedup eq xs ≡ xs
  unfolding dedup
  dedup-same [] h = refl
  dedup-same (x ∷ xs) h = dedup_from-same x xs h

  All-dedup_from {κ} :
      (P : A → Type κ) (a : A) (xs : List A) → P a → All P xs → All P (dedup_from eq a xs)
  unfolding dedup_from
  All-dedup_from P a [] p h = (p, tt)
  All-dedup_from P a (x ∷ xs) p h =
      let skipped = All-dedup_from P a xs p h.1 in
      let kept = All-dedup_from P x xs h.0 h.1 in
      elim (Bool-cases (eq a x)) [ inl e ↦ rw e skipped | inr e ↦ rw e (p, kept) ]

  pub All-dedup {κ} : (P : A → Type κ) (xs : List A) → All P xs → All P (dedup eq xs)
  unfolding dedup
  All-dedup P [] h = tt
  All-dedup P (x ∷ xs) h = All-dedup_from P x xs h.0 h.1
