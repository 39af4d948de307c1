-- ===== src/Common/Text.antt =====
-- Texts: `String` where the program compares whole texts, code points where it walks them.
use Prim.Native.Nat.{ℕ}
use mcptracer.Common.Tests.{ltb, ◌==◌ as nat_eq, if◌then◌else◌}
use Prim.Native.Char.{code}
use Prim.Native.String.{String}
use mathlib.Core.List.{List, [], ◌∷◌}
use mathlib.Core.Option.{Option, none, some}
use mathlib.Core.Bool.{Bool, true, false}
use text.Mathlib.Text.{◌==◌}
use text.Mathlib.TextPositions.{eq_refl}
use mathlib.Core.Path.{◌≡◌, refl}

-- The code points of a text: its bytes, if it is ASCII.
abbrev pub codes : String → List ℕ
codes String.[] = []
codes (String.◌∷◌ c s) = code c ∷ codes s

-- `o.as_deref() == Some(s)`
abbrev pub is_text : Option String → String → Bool
is_text none s = false
is_text (some t) s = t == s

-- `a == b` of two optional texts.
abbrev pub eq_text? : Option String → Option String → Bool
eq_text? none none = true
eq_text? (some a) (some b) = a == b
eq_text? _ _ = false

pub eq_text?_refl : (o : Option String) → eq_text? o o ≡ true
eq_text?_refl none = refl
eq_text?_refl (some s) = eq_refl s

-- The order of texts, by code points.
abbrev pub text_le : List ℕ → List ℕ → Bool
text_le [] ys = true
text_le (x ∷ xs) [] = false
text_le (x ∷ xs) (y ∷ ys) = let rest = text_le xs ys in if nat_eq x y then rest else ltb x y
