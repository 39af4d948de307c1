-- ===== src/Common/Sort.antt =====
-- `sort` and `sort_by_key` of Rust's slices: stable, by a Boolean order; and `dedup`.
pub mod Laws
pub mod Canon
use mathlib.Core.Bool.{Bool}
use mathlib.Core.List.{List, [], ◌∷◌}
use mcptracer.Common.Tests.{if◌then◌else◌}

module _ {ℓ} {A : Type ℓ} (le : A → A → Bool) where
  unfoldable pub insert_sorted : A → List A → List A
  insert_sorted a [] = a ∷ []
  insert_sorted a (x ∷ xs) =
      let rest = insert_sorted a xs in if le a x then a ∷ x ∷ xs else x ∷ rest

  unfoldable pub sort : List A → List A
  sort [] = []
  sort (x ∷ xs) = insert_sorted x (sort xs)

module _ {ℓ} {A : Type ℓ} (eq : A → A → Bool) where
  unfoldable pub dedup_from : A → List A → List A
  dedup_from a [] = a ∷ []
  dedup_from a (x ∷ xs) = if eq a x then dedup_from a xs else a ∷ dedup_from x xs

  unfoldable pub dedup : List A → List A
  dedup [] = []
  dedup (x ∷ xs) = dedup_from x xs
