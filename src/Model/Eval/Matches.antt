-- ===== src/Model/Eval/Matches.antt =====
-- The calls that an evaluation matches to its expectations.
use mcptracer.Common.{
  ℕ, zero, suc, ◌+◌, ◌≤◌, ◌<◌, Bool, true, false, not, ◌&&◌, ◌≡◌, refl, sym, ap, ◌∙◌, subst, Option,
  none, some, some-injective, List, [], ◌∷◌, ◌++◌, map, any, ==_iff, count, get_elem?, ◌==◌,
  and-true, arith, if◌then◌else◌, Bool-cases, Option-cases, inl, inr,
}
use mcptracer.Json.{Codec, Value}
use mcptracer.Model.Session.{StoredMessage}
use mcptracer.Model.Stats.{Ranks}
use mcptracer.Model.Eval.{
  ExpectedCall, EvalSpec, Call, Slot, tool_calls, accepts, behind, find_call, use_slot, match_all,
  fresh, expected_results, forbidden_result, evaluate,
}

-- The call at a found position is one that the expectation accepts; nothing found says nothing.
abbrev pub Fits : (Value → Value → Bool) → List Call → ExpectedCall → Option ℕ → Type 0
Fits value_eq calls e none = Unit
Fits value_eq calls e (some p) =
    (c : Call) × (get_elem? calls p ≡ some c) × (accepts value_eq e c ≡ true)

abbrev pub AllFit :
    (Value → Value → Bool) → List Call → List ExpectedCall → List (Option ℕ) → Type 0
AllFit value_eq calls [] [] = Unit
AllFit value_eq calls (e ∷ es) (o ∷ os) = Fits value_eq calls e o × AllFit value_eq calls es os
AllFit value_eq calls _ _ = ⊥

abbrev pub Beyond : Option ℕ → ℕ → Type 0
Beyond none p = Unit
Beyond (some last) p = last < p

-- Where the order counts, each found position is beyond the one found before it.
abbrev pub InOrder : Bool → Option ℕ → List (Option ℕ) → Type 0
InOrder false last os = Unit
InOrder true last [] = Unit
InOrder true last (none ∷ os) = InOrder true last os
InOrder true last (some p ∷ os) = Beyond last p × InOrder true (some p) os

abbrev pub is_at : ℕ → Option ℕ → Bool
is_at p o = elim o [ none ↦ false | some q ↦ q == p ]

-- No position is found twice.
abbrev pub AllOnce : List (Option ℕ) → Type 0
AllOnce [] = Unit
AllOnce (none ∷ os) = AllOnce os
AllOnce (some p ∷ os) = (any (is_at p) os ≡ false) × AllOnce os

abbrev slot_calls : List Slot → List Call
slot_calls = map (λ (s : Slot). s.call)

abbrev free_slot : Option Slot → ℕ
free_slot none = 0
free_slot (some s) = if s.used then 0 else 1

-- Whether the slot of a position is is_free, as a number.
abbrev free : ℕ → List Slot → ℕ
free p ss = free_slot (get_elem? ss p)

module _ (value_eq : Value → Value → Bool) where
  -- What `find_call` finds.
  record Found (ordered : Bool) (last : Option ℕ) (e : ExpectedCall) (base : ℕ) (ss : List Slot)
      (p : ℕ) : Type 0 where
    index : ℕ
    slot : Slot
    here : p ≡ base + index
    at : get_elem? ss index ≡ some slot
    is_free : slot.used ≡ false
    beyond : behind ordered last p ≡ true
    is_accepted : accepts value_eq e slot.call ≡ true

  find_call-Found :
      (ordered : Bool) (last : Option ℕ) (e : ExpectedCall) (base : ℕ) (ss : List Slot) (p : ℕ)
      → find_call value_eq ordered last e base ss ≡ some p
      → Found ordered last e base ss p
  unfolding find_call
  find_call-Found ordered last e base [] p h = absurd (cc h)
  find_call-Found ordered last e base (s ∷ ss) p h =
      let later = find_call-Found ordered last e (base + 1) ss p in
      elim (Bool-cases (not s.used && (behind ordered last base && accepts value_eq e s.call))) [
        | inl t ↦
            let (a, b) = and-true (not s.used) _ t in
            let (c, d) = and-true (behind ordered last base) _ b in
            let same = some-injective _ _ (rw t at h) in
            record {
              index = 0;
              slot = s;
              here = omega (arith, same);
              at = refl;
              is_free = ground arith;
              beyond = subst (λ n. behind ordered last n ≡ true) same c;
              is_accepted = d;
            }
        | inr t ↦
            let f = later (rw t at h) in
            record {
              index = suc f.index;
              slot = f.slot;
              here = omega (arith, f.here);
              at = f.at;
              is_free = f.is_free;
              beyond = f.beyond;
              is_accepted = f.is_accepted;
            }
      ]

  use_slot-calls : (q : ℕ) (ss : List Slot) → slot_calls (use_slot value_eq q ss) ≡ slot_calls ss
  unfolding use_slot
  use_slot-calls q [] = refl
  use_slot-calls zero (s ∷ ss) = refl
  use_slot-calls (suc q) (s ∷ ss) = ap (λ (l : List Call). s.call ∷ l) (use_slot-calls q ss)

  use_slot-free_self : (q : ℕ) (ss : List Slot) → free q (use_slot value_eq q ss) ≡ 0
  unfolding use_slot
  use_slot-free_self q [] = refl
  use_slot-free_self zero (s ∷ ss) = refl
  use_slot-free_self (suc q) (s ∷ ss) = use_slot-free_self q ss

  use_slot-free :
      (p q : ℕ) (ss : List Slot) → (q == p) ≡ false → free p (use_slot value_eq q ss) ≡ free p ss
  unfolding use_slot
  use_slot-free p q [] h = refl
  use_slot-free zero zero (s ∷ ss) h = absurd (ground arith)
  use_slot-free (suc p) zero (s ∷ ss) h = refl
  use_slot-free zero (suc q) (s ∷ ss) h = refl
  use_slot-free (suc p) (suc q) (s ∷ ss) h = use_slot-free p q ss (ground arith)

  slot_calls-at :
      (ss : List Slot) (i : ℕ) (s : Slot)
      → get_elem? ss i ≡ some s
      → get_elem? (slot_calls ss) i ≡ some s.call
  slot_calls-at [] i s h = absurd (cc h)
  slot_calls-at (x ∷ ss) zero s h = ap (λ (y : Slot). some y.call) (some-injective _ _ h)
  slot_calls-at (x ∷ ss) (suc i) s h = slot_calls-at ss i s h

  Found-Fits :
      (ordered : Bool) (last : Option ℕ) (e : ExpectedCall) (ss : List Slot) (p : ℕ)
      → Found ordered last e 0 ss p
      → Fits value_eq (slot_calls ss) e (some p) × (free p ss ≡ 1)
  Found-Fits ordered last e ss p f =
      let same : p ≡ f.index = omega (arith, f.here) in
      (
        (
          f.slot.call,
          ap (get_elem? (slot_calls ss)) same ∙ slot_calls-at ss f.index f.slot f.at,
          f.is_accepted,
        ),
        ap (λ i. free i ss) same ∙ (ap free_slot f.at ∙ rw f.is_free refl),
      )

  match_all-AllFit :
      (ordered : Bool) (last : Option ℕ) (ss : List Slot) (es : List ExpectedCall)
      → AllFit value_eq (slot_calls ss) es (match_all value_eq ordered last ss es)
  unfolding match_all
  match_all-AllFit ordered last ss [] = tt
  match_all-AllFit ordered last ss (e ∷ es) =
      let skip = match_all-AllFit ordered last ss es in
      let go = λ (p : ℕ). match_all-AllFit ordered (some p) (use_slot value_eq p ss) es in
      elim (Option-cases (find_call value_eq ordered last e 0 ss)) [
        | inl h ↦ rw (h, match_all) (tt, skip)
        | inr (p, h) ↦
            rw (h, match_all)
              (
                (Found-Fits ordered last e ss p (find_call-Found ordered last e 0 ss p h)).0,
                subst
                    (λ l.
                      AllFit value_eq l es
                        (match_all value_eq ordered (some p) (use_slot value_eq p ss) es))
                    (use_slot-calls p ss) (go p),
              )
      ]

  match_all-once :
      (ordered : Bool) (last : Option ℕ) (ss : List Slot) (es : List ExpectedCall) (p : ℕ)
      → count (is_at p) (match_all value_eq ordered last ss es) ≤ free p ss
  unfolding match_all
  match_all-once ordered last ss [] p = omega arith
  match_all-once ordered last ss (e ∷ es) p =
      let skip = match_all-once ordered last ss es p in
      let go = λ (q : ℕ). match_all-once ordered (some q) (use_slot value_eq q ss) es p in
      elim (Option-cases (find_call value_eq ordered last e 0 ss)) [
        | inl h ↦ rw (h, match_all) (omega (arith, skip))
        | inr (q, h) ↦
            rw (h, match_all)
              (counted_once ss p q _
                (Found-Fits ordered last e ss q (find_call-Found ordered last e 0 ss q h)).1 (go q))
      ]
    where
      counted_once :
          (ss : List Slot) (p q n : ℕ)
          → free q ss ≡ 1
          → n ≤ free p (use_slot value_eq q ss)
          → (if q == p then 1 else 0) + n ≤ free p ss
      counted_once ss p q n f h = elim (Bool-cases (q == p)) [
        | inl e ↦
            let same = sym ((==_iff q p).0 e) in
            rw e (
              omega (
                arith,
                ap (λ i. free i ss) same,
                ap (λ i. free i (use_slot value_eq q ss)) same,
                use_slot-free_self q ss,
              ))
        | inr e ↦ rw e (omega (arith, use_slot-free p q ss e))
      ]

  match_all-InOrder :
      (ordered : Bool) (last : Option ℕ) (ss : List Slot) (es : List ExpectedCall)
      → InOrder ordered last (match_all value_eq ordered last ss es)
  unfolding match_all
  match_all-InOrder false last ss es = tt
  match_all-InOrder true last ss [] = tt
  match_all-InOrder true last ss (e ∷ es) =
      let skip = match_all-InOrder true last ss es in
      let go = λ (p : ℕ). match_all-InOrder true (some p) (use_slot value_eq p ss) es in
      elim (Option-cases (find_call value_eq true last e 0 ss)) [
        | inl h ↦ rw (h, match_all) skip
        | inr (p, h) ↦
            rw (h, match_all)
              (beyond_last last p (find_call-Found true last e 0 ss p h).beyond, go p)
      ]
    where
      beyond_last : (last : Option ℕ) (p : ℕ) → behind true last p ≡ true → Beyond last p
      beyond_last none p h = tt
      beyond_last (some l) p h = ground arith

  none_at : (p : ℕ) (os : List (Option ℕ)) → count (is_at p) os ≡ 0 → any (is_at p) os ≡ false
  none_at p [] h = refl
  none_at p (o ∷ os) h = ground (arith, none_at p os)

  match_all-AllOnce :
      (ordered : Bool) (last : Option ℕ) (ss : List Slot) (es : List ExpectedCall)
      → AllOnce (match_all value_eq ordered last ss es)
  unfolding match_all
  match_all-AllOnce ordered last ss [] = tt
  match_all-AllOnce ordered last ss (e ∷ es) =
      let skip = match_all-AllOnce ordered last ss es in
      let go = λ (p : ℕ). match_all-AllOnce ordered (some p) (use_slot value_eq p ss) es in
      let once = λ (p : ℕ). match_all-once ordered (some p) (use_slot value_eq p ss) es p in
      elim (Option-cases (find_call value_eq ordered last e 0 ss)) [
        | inl h ↦ rw (h, match_all) skip
        | inr (p, h) ↦
            rw (h, match_all)
              (
                none_at p (match_all value_eq ordered (some p) (use_slot value_eq p ss) es)
                    (omega (arith, once p, use_slot-free_self p ss)),
                go p,
              )
      ]

  fresh-calls : (cs : List Call) → slot_calls (fresh value_eq cs) ≡ cs
  fresh-calls [] = refl
  fresh-calls (c ∷ cs) = ap (λ (l : List Call). c ∷ l) (fresh-calls cs)

-- The report of an evaluation rests on a matching of the expectations to the tool calls of the session:
-- an expectation is reported as satisfied where it has a call, each call has the tool and the required
-- arguments of its expectation, no call is given to two expectations, and where the order counts the
-- calls follow one another in the order of the expectations.
pub evaluate-matches :
    (value_eq : Value → Value → Bool) (codec : Codec) (ranks : Ranks) (spec : EvalSpec)
    (messages : List StoredMessage)
    → (found : List (Option ℕ)) × (evaluate value_eq codec ranks spec messages
        ≡ expected_results value_eq spec.expected found
          ++ map (forbidden_result value_eq (tool_calls codec ranks messages)) spec.forbidden)
      × AllFit value_eq (tool_calls codec ranks messages) spec.expected found
      × InOrder spec.ordered none found
      × AllOnce found
unfolding evaluate
evaluate-matches value_eq codec ranks spec messages =
    let calls = tool_calls codec ranks messages in
    let slots = fresh value_eq calls in
    let found = match_all value_eq spec.ordered none slots spec.expected in
    (
      found,
      refl,
      subst (λ l. AllFit value_eq l spec.expected found) (fresh-calls value_eq calls)
          (match_all-AllFit value_eq spec.ordered none slots spec.expected),
      match_all-InOrder value_eq spec.ordered none slots spec.expected,
      match_all-AllOnce value_eq spec.ordered none slots spec.expected,
    )
