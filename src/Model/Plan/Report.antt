-- ===== src/Model/Plan/Report.antt =====
-- What the counters of a plan say of its calls.
use mcptracer.Common.{
  ◌+◌, ◌≤◌, ◌≡◌, ◌↔◌, refl, ◌∙◌, String, Bool, true, false, ◌&&◌, ◌||◌, List, [], ◌∷◌, keep, map,
  count, any, length, length-map, ltb, arith, if◌then◌else◌, str_eq, eq_iff,
}
use mcptracer.Json.{Codec}
use mcptracer.Model.Session.{StoredMessage}
use mcptracer.Model.Plan.Driven.{length-driven_messages}
use mcptracer.Model.Plan.Filters.{PassesFilters, HasRisk, allowed-PassesFilters, risk_for-HasRisk}
use mcptracer.Model.Plan.{
  ToolAnnotations, RiskLevel, read_only, request, notification, PlannedCall, Plan, annotations_for,
  is_driven, driven_messages, is_destructive, is_unknown, observed_tool_annotations, planned_call,
  planned_calls, build_plan,
}

module _ {A : Type 0} where
  count-le-length : (p : A → Bool) (xs : List A) → count p xs ≤ length xs
  count-le-length p [] = omega arith
  count-le-length p (x ∷ xs) = ground (arith, count-le-length p xs)

  any-or :
      (p q r : A → Bool) (xs : List A)
      → ((x : A) → r x ≡ (p x || q x))
      → (ltb 0 (count p xs) || ltb 0 (count q xs)) ≡ any r xs
  any-or p q r [] h = refl
  any-or p q r (x ∷ xs) h = ground (arith, h x, any-or p q r xs h)

  length-keep-count : (p : A → Bool) (xs : List A) → length (keep p xs) ≡ count p xs
  length-keep-count p [] = refl
  length-keep-count p (x ∷ xs) = ground (arith, length-keep-count p xs)

abbrev pub is_read_only : RiskLevel → Bool
is_read_only read_only = true
is_read_only _ = false

-- A call that needs to be acknowledged: it would be sent, and it is destructive or was masked.
abbrev pub is_risky : PlannedCall → Bool
is_risky c = c.allowed && (is_destructive c.risk || c.contains_redacted_placeholder)

-- Each call that is sent has one risk.
one_risk :
    (calls : List PlannedCall)
    → count (λ c. c.allowed && is_destructive c.risk) calls
        + count (λ c. c.allowed && is_unknown c.risk) calls
        + count (λ c. c.allowed && is_read_only c.risk) calls
      ≡ count (λ c. c.allowed) calls
one_risk [] = refl
one_risk (c ∷ cs) = ground (arith, one_risk cs)

risky :
    (c : PlannedCall)
    → is_risky c
      ≡ ((c.allowed && is_destructive c.risk) || (c.allowed && c.contains_redacted_placeholder))
risky c = ground arith

-- What the plan says of a message that it drives.
pub record IsCallOf (contains : String → Bool) (known : List (String × ToolAnnotations))
    (allow deny : List String) (m : StoredMessage) (c : PlannedCall) : Type 0 where
  seq : c.seq ≡ m.seq
  is_request : (c.kind ≡ request) ↔ (m.message_kind ≡ "request")
  same_method : c.method ≡ m.method
  of_tool : c.tool_name ≡ m.tool_name
  same_id : c.rpc_id ≡ m.rpc_id
  observed : c.annotations ≡ annotations_for m.tool_name known
  risk : HasRisk known m.tool_name c.risk
  passes : (c.allowed ≡ true) ↔ PassesFilters allow deny m.tool_name
  masked : c.contains_redacted_placeholder ≡ contains m.payload

-- Two lists of one length whose entries belong together.
abbrev pub Pairs :
    (StoredMessage → PlannedCall → Type 0) → List StoredMessage → List PlannedCall → Type 0
Pairs P [] [] = Unit
Pairs P (m ∷ ms) (c ∷ cs) = P m c × Pairs P ms cs
Pairs P _ _ = ⊥

pub record IsPlan (source : List StoredMessage) (Call : StoredMessage → PlannedCall → Type 0)
    (plan : Plan) : Type 0 where
  calls_are : Pairs Call (driven_messages source) plan.calls
  total : plan.total_calls ≡ count is_driven source
  filtered : plan.allowed_calls + plan.filtered_out_calls ≡ plan.total_calls
  destroying : plan.destructive_calls ≡ count (λ c. c.allowed && is_destructive c.risk) plan.calls
  masking :
      plan.redacted_placeholder_calls
      ≡ count (λ c. c.allowed && c.contains_redacted_placeholder) plan.calls
  by_risk :
      plan.destructive_calls
        + plan.unknown_risk_calls
        + count (λ c. c.allowed && is_read_only c.risk) plan.calls
      ≡ plan.allowed_calls
  acknowledged : plan.requires_acknowledgement ≡ any is_risky plan.calls

module _ (contains : String → Bool) (codec : Codec) (source : List StoredMessage)
    (allow deny : List String) where
  abbrev pub CallOf : StoredMessage → PlannedCall → Type 0
  CallOf = IsCallOf contains (observed_tool_annotations codec source []) allow deny

  abbrev call_for : StoredMessage → PlannedCall
  call_for =
      planned_call contains codec source allow deny (observed_tool_annotations codec source [])

  kind_iff :
      (b : Bool) (kind : String)
      → (b ≡ true) ↔ (kind ≡ "request")
      → ((if b then request else notification) ≡ request) ↔ (kind ≡ "request")
  kind_iff true kind (to, from) = ((λ h. to refl), (λ h. refl))
  kind_iff false kind (to, from) = ((λ h. absurd (cc h)), (λ h. absurd (cc (from h))))

  planned_call-CallOf : (m : StoredMessage) → CallOf m (call_for m)
  unfolding planned_call
  planned_call-CallOf m = record {
    seq = refl;
    is_request =
        kind_iff (str_eq m.message_kind "request") m.message_kind (eq_iff m.message_kind "request");
    same_method = refl;
    of_tool = refl;
    same_id = refl;
    observed = refl;
    risk = risk_for-HasRisk (observed_tool_annotations codec source []) m.tool_name;
    passes = allowed-PassesFilters allow deny m.tool_name;
    masked = refl;
  }

  map-Pairs : (ms : List StoredMessage) → Pairs CallOf ms (map call_for ms)
  map-Pairs [] = tt
  map-Pairs (m ∷ ms) = (planned_call-CallOf m, map-Pairs ms)

  -- A plan has one call for each request and notification of the client, in the order in which they are
  -- driven. A call has the number, the kind, the method, the tool and the id of its message, and the
  -- annotations observed for its tool; it is
  -- allowed exactly where it names no tool, or one that is not denied and, where there are allowed tools,
  -- is one of them; it is destructive exactly where the annotations observed for its tool say so, and
  -- read-only exactly where it names no tool, or they say that and not the other; and its flag tells
  -- whether the payload contains the mask. The counters agree with the calls: each call is allowed or
  -- filtered out, each allowed call is counted under its one risk, and acknowledgement is asked for
  -- exactly when some allowed call is destructive or carries the mask.
  pub build_plan-IsPlan : IsPlan source CallOf (build_plan contains codec source allow deny)
  unfolding build_plan planned_calls
  build_plan-IsPlan =
      let calls = planned_calls contains codec source allow deny in
      record {
        calls_are = map-Pairs (driven_messages source);
        total =
            length-map _ (driven_messages source)
            ∙ (length-driven_messages source ∙ length-keep-count is_driven source);
        filtered = omega (arith, count-le-length (λ (c : PlannedCall). c.allowed) calls);
        destroying = refl;
        masking = refl;
        by_risk = one_risk calls;
        acknowledged = any-or _ _ is_risky calls risky;
      }
