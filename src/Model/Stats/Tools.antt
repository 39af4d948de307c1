-- ===== src/Model/Stats/Tools.antt =====
-- The table of tool calls.
use mcptracer.Common.{
  ℕ, ◌+◌, String, Bool, false, ◌≡◌, refl, none, some, List, [], ◌∷◌, arith, count, not, ◌&&◌, ltb,
  str_eq, eq_iff, if◌then◌else◌, inl, inr, Bool-cases, Option-cases,
}
use mcptracer.Common.Sort.{sort, insert_sorted}
use mcptracer.Common.Sort.Laws.{count-sort}
use mcptracer.Model.Session.{Exchange, NotificationEvent}
use mcptracer.Model.Stats.{Ranks, bump, tool_counts, by_count, compute_stats}

-- The count of a name in the table, over all its entries.
abbrev pub named : String → List (String × ℕ) → ℕ
named tool [] = 0
named tool ((name, n) ∷ counts) = (if str_eq name tool then n else 0) + named tool counts

abbrev pub calls : String → Exchange → Bool
calls tool e = elim e.tool_name [ none ↦ false | some name ↦ str_eq name tool ]

bump-named :
    (t tool : String) (counts : List (String × ℕ))
    → named tool (bump t counts) ≡ named tool counts + (if str_eq t tool then 1 else 0)
unfolding bump
bump-named t tool [] = omega arith
bump-named t tool ((name, n) ∷ counts) =
    ground (arith, bump-named t tool counts, eq_iff name t, eq_iff name tool, eq_iff t tool)

-- The entries of a name.
abbrev pub is_entry : String → String × ℕ → Bool
is_entry tool (name, n) = str_eq name tool

bump-entries :
    (t tool : String) (counts : List (String × ℕ))
    → count (is_entry tool) (bump t counts) ≡ (
        if str_eq t tool && not (ltb 0 (count (is_entry tool) counts))
        then 1
        else count (is_entry tool) counts)
unfolding bump
bump-entries t tool [] = ground arith
bump-entries t tool ((name, n) ∷ counts) =
    ground (arith, bump-entries t tool counts, eq_iff name t, eq_iff name tool, eq_iff t tool)

-- The table has one entry of `tool`, with the count `n`, or none where `n` is 0.
abbrev pub Counted : String → ℕ → List (String × ℕ) → Type 0
Counted tool n counts =
    (named tool counts ≡ n) × (count (is_entry tool) counts ≡ (if ltb 0 n then 1 else 0))

bump-Counted :
    (t tool : String) (n : ℕ) (counts : List (String × ℕ))
    → Counted tool n counts
    → Counted tool (n + (if str_eq t tool then 1 else 0)) (bump t counts)
bump-Counted t tool n counts (s, e) =
    (omega (arith, bump-named t tool counts, s), ground (arith, bump-entries t tool counts, e))

regrouped :
    (tool : String) (a b c : ℕ) (counts : List (String × ℕ))
    → Counted tool (a + b + c) counts
    → Counted tool (a + (b + c)) counts
regrouped tool a b c counts h = ground (arith, h)

tool_counts-Counted :
    (tool : String) (n : ℕ) (counts : List (String × ℕ)) (es : List Exchange)
    → Counted tool n counts
    → Counted tool (n + count (calls tool) es) (tool_counts counts es)
unfolding tool_counts
tool_counts-Counted tool n counts [] h = ground (arith, h)
tool_counts-Counted tool n counts (e ∷ es) h = elim (Option-cases e.tool_name) [
  | inl q ↦
      rw (q, tool_counts)
        (regrouped tool n 0 (count (calls tool) es) _
          (tool_counts-Counted tool (n + 0) counts es (ground (arith, h))))
  | inr (t, q) ↦
      rw (q, tool_counts)
        (regrouped tool n (if str_eq t tool then 1 else 0) (count (calls tool) es) _
          (tool_counts-Counted tool _ (bump t counts) es (bump-Counted t tool n counts h)))
]

insert_sorted-named :
    (tool : String) (x : String × ℕ) (xs : List (String × ℕ))
    → named tool (insert_sorted by_count x xs) ≡ named tool (x ∷ xs)
unfolding insert_sorted
insert_sorted-named tool (a, n) [] = refl
insert_sorted-named tool (a, n) ((b, m) ∷ xs) =
    let rest = insert_sorted-named tool (a, n) xs in
    elim (Bool-cases (by_count (a, n) (b, m))) [ inl q ↦ rw q | inr q ↦ rw q (omega (arith, rest)) ]

sort-named :
    (tool : String) (xs : List (String × ℕ)) → named tool (sort by_count xs) ≡ named tool xs
unfolding sort
sort-named tool [] = refl
sort-named tool ((a, n) ∷ xs) =
    omega (arith, insert_sorted-named tool (a, n) (sort by_count xs), sort-named tool xs)

-- The table of tool calls has one entry for each tool that an exchange names, with the number of the
-- exchanges that name it, and no entry of another tool.
pub tool_call_counts-Counted :
    (ranks : Ranks) (es : List Exchange) (ns : List NotificationEvent) (tool : String)
    → Counted tool (count (calls tool) es) (compute_stats ranks es ns).tool_call_counts
unfolding compute_stats
tool_call_counts-Counted ranks es ns tool =
    let (s, e) = tool_counts-Counted tool 0 [] es (refl, refl) in
    (
      omega (arith, sort-named tool (tool_counts [] es), s),
      ground (arith, count-sort by_count (is_entry tool) (tool_counts [] es), e),
    )
