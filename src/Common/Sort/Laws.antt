-- ===== src/Common/Sort/Laws.antt =====
-- Sorting keeps the elements, and orders them.
use mcptracer.Common.Lists.{All, count, length}
use mcptracer.Common.Tests.{leb, Bool-cases}
use mcptracer.Common.Sort.{insert_sorted, sort}
use Prim.Native.Nat.{ℕ, suc, ◌≤◌}
use mathlib.Core.Path.{◌≡◌, refl}
use mathlib.Core.Logic.{inl, inr}
use mathlib.Core.Bool.{Bool}
use mathlib.Core.List.{List, [], ◌∷◌}
use native.Mathlib.Omega.{arith}

module _ {ℓ} {A : Type ℓ} (le : A → A → Bool) where
  All-insert_sorted {κ} :
      (P : A → Type κ) (a : A) (xs : List A) → P a → All P xs → All P (insert_sorted le a xs)
  unfolding insert_sorted
  All-insert_sorted P a [] p h = (p, tt)
  All-insert_sorted P a (x ∷ xs) p h =
      let rest = All-insert_sorted P a xs p h.1 in
      elim (Bool-cases (le a x)) [ inl q ↦ rw q (p, h) | inr q ↦ rw q (h.0, rest) ]

  pub All-sort {κ} : (P : A → Type κ) (xs : List A) → All P xs → All P (sort le xs)
  unfolding sort
  All-sort P [] h = tt
  All-sort P (x ∷ xs) h = All-insert_sorted P x (sort le xs) h.0 (All-sort P xs h.1)

  pub count-insert_sorted :
      (p : A → Bool) (a : A) (xs : List A) → count p (insert_sorted le a xs) ≡ count p (a ∷ xs)
  unfolding insert_sorted
  count-insert_sorted p a [] = refl
  count-insert_sorted p a (x ∷ xs) = ground (arith, count-insert_sorted p a xs)

  -- Each element is as often in the sorted list.
  pub count-sort : (p : A → Bool) (xs : List A) → count p (sort le xs) ≡ count p xs
  unfolding sort
  count-sort p [] = refl
  count-sort p (x ∷ xs) = ground (arith, count-insert_sorted p x (sort le xs), count-sort p xs)

  length-insert_sorted : (a : A) (xs : List A) → length (insert_sorted le a xs) ≡ suc (length xs)
  unfolding insert_sorted
  length-insert_sorted a [] = refl
  length-insert_sorted a (x ∷ xs) = ground (arith, length-insert_sorted a xs)

  pub length-sort : (xs : List A) → length (sort le xs) ≡ length xs
  unfolding sort
  length-sort [] = refl
  length-sort (x ∷ xs) = omega (arith, length-insert_sorted x (sort le xs), length-sort xs)

-- Sorting by a number.
module _ {ℓ} {A : Type ℓ} (key : A → ℕ) where
  abbrev pub Ascending : List A → Type 0
  Ascending [] = Unit
  Ascending (x ∷ xs) = All (λ y. key x ≤ key y) xs × Ascending xs

  All-below :
      (a x : A) (xs : List A)
      → key a ≤ key x
      → All (λ y. key x ≤ key y) xs
      → All (λ y. key a ≤ key y) xs
  All-below a x [] h k = tt
  All-below a x (y ∷ ys) h k = (omega arith, All-below a x ys h k.1)

  abbrev le_key : A → A → Bool
  le_key a b = leb (key a) (key b)

  insert_sorted-Ascending :
      (a : A) (xs : List A) → Ascending xs → Ascending (insert_sorted le_key a xs)
  unfolding insert_sorted
  insert_sorted-Ascending a [] h = (tt, tt)
  insert_sorted-Ascending a (x ∷ xs) h =
      let rest = insert_sorted-Ascending a xs h.1 in
      elim (Bool-cases (leb (key a) (key x))) [
        | inl q ↦ rw q ((ground arith, All-below a x xs (ground arith) h.0), h)
        | inr q ↦ rw q (All-insert_sorted le_key (λ y. key x ≤ key y) a xs (ground arith) h.0, rest)
      ]

  pub sort-Ascending : (xs : List A) → Ascending (sort (λ a b. leb (key a) (key b)) xs)
  unfolding sort
  sort-Ascending [] = tt
  sort-Ascending (x ∷ xs) = insert_sorted-Ascending x _ (sort-Ascending xs)
