-- ===== src/Model/Plan/Filters.antt =====
-- What the filters and the annotations of a tool say of a call.
use mcptracer.Common.{
  ◌≡◌, ◌↔◌, ◌⊎◌, inl, inr, refl, ap, String, Bool, true, false, not, or_true, Option, none, some,
  List, [], ◌∷◌, any, str_eq, eq_iff, and-true, Bool-cases, if◌then◌else◌, some-injective, sym, ◌∙◌,
  ap,
}
use mcptracer.Json.{is_true}
use mcptracer.Model.Plan.{
  ToolAnnotations, RiskLevel, read_only, destructive, unknown, is_empty, tool_is_allowed,
  find_annotations, risk_for, annotations_for,
}

abbrev pub InTexts : String → List String → Type 0
InTexts name [] = ⊥
InTexts name (x ∷ xs) = (x ≡ name) ⊎ InTexts name xs

any-InTexts :
    (name : String) (xs : List String) → (any (λ x. str_eq x name) xs ≡ true) ↔ InTexts name xs
any-InTexts name [] = ((λ h. absurd (cc h)), (λ h. absurd h))
any-InTexts name (x ∷ xs) =
    let (to, from) = any-InTexts name xs in
    (
      (λ h. elim (Bool-cases (str_eq x name)) [
        | inl e ↦ inl ((eq_iff x name).0 e)
        | inr e ↦ inr (to (rw e at h))
      ]),
      (λ h. elim h [
        | inl e ↦ rw ((eq_iff x name).1 e) refl
        | inr k ↦ rw (from k) (or_true (str_eq x name))
      ]),
    )

-- The filters let a call through: it names no tool, or one that is not denied, and that is allowed where
-- there are allowed tools.
abbrev pub PassesFilters : List String → List String → Option String → Type 0
PassesFilters allow deny none = Unit
PassesFilters allow deny (some name) =
    ¬ InTexts name deny × ((is_empty allow ≡ true) ⊎ InTexts name allow)

-- The annotations that stand for the tool give a hint.
abbrev pub Hints :
    (ToolAnnotations → Option Bool) → List (String × ToolAnnotations) → Option String → Type 0
Hints hint known none = ⊥
Hints hint known (some name) =
    (a : ToolAnnotations) × (find_annotations name known ≡ some a) × (hint a ≡ some true)

abbrev pub MayDestroy : List (String × ToolAnnotations) → Option String → Type 0
MayDestroy = Hints (λ a. a.destructive_hint)

abbrev pub OnlyReads : List (String × ToolAnnotations) → Option String → Type 0
OnlyReads known none = Unit
OnlyReads known (some name) =
    ¬ MayDestroy known (some name) × Hints (λ a. a.read_only_hint) known (some name)

pub allowed-PassesFilters :
    (allow deny : List String) (tool : Option String)
    → (tool_is_allowed tool allow deny ≡ true) ↔ PassesFilters allow deny tool
unfolding tool_is_allowed
allowed-PassesFilters allow deny none = ((λ h. tt), (λ h. refl))
allowed-PassesFilters allow deny (some name) =
    let (to_deny, from_deny) = any-InTexts name deny in
    let (to_allow, from_allow) = any-InTexts name allow in
    (
      (λ h.
          let (a, b) = and-true (not (any (λ d. str_eq d name) deny)) _ h in
          (
            (λ k. absurd (cc (a, ap not (from_deny k)))),
            elim (Bool-cases (is_empty allow)) [
              | inl e ↦ inl e
              | inr e ↦ inr (to_allow (rw e at b))
            ],
          )),
      (λ (n, o). elim (Bool-cases (any (λ d. str_eq d name) deny)) [
        | inl e ↦ absurd (n (to_deny e))
        | inr e ↦ elim o [
          | inl p ↦ rw (e, p) refl
          | inr p ↦ rw (e, from_allow p) (or_true (is_empty allow))
        ]
      ]),
    )

is_true_iff : (o : Option Bool) → (is_true o ≡ true) ↔ (o ≡ some true)
is_true_iff none = ((λ h. absurd (cc h)), (λ h. absurd (cc h)))
is_true_iff (some true) = ((λ h. refl), (λ h. refl))
is_true_iff (some false) = ((λ h. absurd (cc h)), (λ h. absurd (cc h)))

-- The risk that the annotations give, in full.
pub record HasRisk (known : List (String × ToolAnnotations)) (tool : Option String)
    (risk : RiskLevel) : Type 0 where
  pub destroys : (risk ≡ destructive) ↔ MayDestroy known tool
  pub reads : (risk ≡ read_only) ↔ OnlyReads known tool

hints-HasRisk :
    (known : List (String × ToolAnnotations)) (name : String) (o : Option ToolAnnotations)
    → find_annotations name known ≡ o
    → HasRisk known (some name) (risk_for (some name) o)
unfolding risk_for
hints-HasRisk known name none e = record {
  destroys = ((λ h. absurd (cc h)), (λ (a, f, h). absurd (cc (e, f))));
  reads = ((λ h. absurd (cc h)), (λ (n, (a, f, h)). absurd (cc (e, f))));
}
hints-HasRisk known name (some hints) e = elim (Bool-cases (is_true hints.destructive_hint)) [
  | inl d ↦ rw d (record {
    destroys = ((λ h. (hints, e, (is_true_iff hints.destructive_hint).0 d)), (λ h. refl));
    reads = (
      (λ h. absurd (cc h)),
      (λ (n, k). absurd (n (hints, e, (is_true_iff hints.destructive_hint).0 d))),
    );
  })
  | inr d ↦ rw d (
      settled (is_true hints.read_only_hint) refl (λ (a, f, h).
        (let same = some-injective _ _ (sym e ∙ f) in
          absurd (
            cc (
              d,
              (is_true_iff hints.destructive_hint).1
                  (ap (λ (x : ToolAnnotations). x.destructive_hint) same ∙ h),
            )))))
]
  where
    settled :
        (b : Bool)
        → is_true hints.read_only_hint ≡ b
        → ¬ MayDestroy known (some name)
        → HasRisk known (some name) (if b then read_only else unknown)
    settled true r n = record {
      destroys = ((λ h. absurd (cc h)), (λ h. absurd (n h)));
      reads = ((λ h. (n, (hints, e, (is_true_iff hints.read_only_hint).0 r))), (λ h. refl));
    }
    settled false r n = record {
      destroys = ((λ h. absurd (cc h)), (λ h. absurd (n h)));
      reads = (
        (λ h. absurd (cc h)),
        (λ (m, (a, f, h)).
            (let same = some-injective _ _ (sym e ∙ f) in
              absurd (
                cc (
                  r,
                  (is_true_iff hints.read_only_hint).1
                      (ap (λ (x : ToolAnnotations). x.read_only_hint) same ∙ h),
                )))),
      );
    }

pub risk_for-HasRisk :
    (known : List (String × ToolAnnotations)) (tool : Option String)
    → HasRisk known tool (risk_for tool (annotations_for tool known))
unfolding risk_for
risk_for-HasRisk known none = record {
  destroys = ((λ h. absurd (cc h)), (λ h. absurd h));
  reads = ((λ h. tt), (λ h. refl));
}
risk_for-HasRisk known (some name) = hints-HasRisk known name (find_annotations name known) refl
