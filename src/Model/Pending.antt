-- ===== src/Model/Pending.antt =====
-- The map of `correlate` from the direction a reply travels and an id to the exchange that waits:
-- a `HashMap`, as an association list.
use mcptracer.Common.{
  ℕ, String, Bool, true, ◌&&◌, ◌≡◌, Option, none, some, List, [], ◌∷◌, arith, str_eq, eq_iff,
  eq_refl, if◌then◌else◌,
}
use mcptracer.Protocol.Message.{Direction, dir_eq}

abbrev pub Key : Type 0
Key = Direction × String

abbrev pub key_eq : Key → Key → Bool
key_eq (d, s) (e, t) = dir_eq d e && str_eq s t

abbrev pub Pending : Type 0
Pending = List (Key × ℕ)

unfoldable pub find : Key → Pending → Option ℕ
find k [] = none
find k ((j, i) ∷ p) = if key_eq j k then some i else find k p

unfoldable pub remove : Key → Pending → Pending
remove k [] = []
remove k ((j, i) ∷ p) = let rest = remove k p in if key_eq j k then rest else (j, i) ∷ rest

abbrev pub insert : Key → ℕ → Pending → Pending
insert k i p = (k, i) ∷ remove k p

pub key_eq_iff : (d e : Direction) (s t : String) → key_eq (d, s) (e, t) ≡ true → (d ≡ e) × (s ≡ t)
key_eq_iff d e s t h = ground (arith, eq_iff s t)

pub key_eq_refl : (k : Key) → key_eq k k ≡ true
key_eq_refl (d, s) = ground (arith, eq_refl s)
