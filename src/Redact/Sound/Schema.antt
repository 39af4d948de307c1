-- ===== src/Redact/Sound/Schema.antt =====
-- The masking walk and the validator agree on every value and on every schema.
use mcptracer.Common.{
  String, Bool, true, false, ◌≡◌, refl, List, [], ◌++◌, arith, Bool-cases, inl, inr, if◌then◌else◌,
}
use mcptracer.Json.{
  Value, null, bool, number, string, array, object, Items, nil, cons, Fields, end, field,
}
use mcptracer.Redact.Schema.{
  Keyword, named_schemas, one_schema, schema_list, one_or_list, dependencies, dependent_required,
  other, keyword, walk_schema, schema_child-object, schema_child-sensitive, all_strings,
  schema_dependency-array, schema_dependency-string, schema_child-array,
  schema_child-sensitive_array, schema_fields, schema_child, schema_or_visit, schema_properties,
  schema_items, schema_dependency, schema_dependencies,
}
use mcptracer.Redact.Walk.{mask_plain, walk, walk_fields, walk_items, mask_visit}
use mcptracer.Redact.Collect.{
  collect_unredacted_sensitive_keys, collect_fields, collect_items, push_if_unredacted,
  collect_visit,
}

pub append-nil_nil : (xs ys : List String) → xs ≡ [] → ys ≡ [] → xs ++ ys ≡ []
append-nil_nil xs ys h k = ground arith

-- `s` is what the validator takes for sensitive, `r` what the redactor masks.
module _ (s r : String → Bool) (covers : (k : String) → s k ≡ true → r k ≡ true) where
  pub push-mask :
      (k : String) (v : Value)
      → collect_unredacted_sensitive_keys s (walk r mask_plain v) ≡ []
      → push_if_unredacted s k (if r k then mask_plain v else walk r mask_plain v) ≡ []
  unfolding push_if_unredacted walk
  push-mask k null h = ground (arith, covers k)
  push-mask k _ h = ground (arith, covers k)

  mutual
    unfolding walk collect_unredacted_sensitive_keys

    pub clean : (v : Value) → collect_unredacted_sensitive_keys s (walk r mask_plain v) ≡ []
    clean (object fs) = clean_fields fs
    clean (array xs) = clean_items xs
    clean null = refl
    clean (bool b) = refl
    clean (number n) = refl
    clean (string t) = refl

    clean_fields : (fs : Fields) → collect_fields s (walk_fields r mask_plain fs) ≡ []
    clean_fields end = refl
    clean_fields (field k v fs) = append-nil_nil _ _ (push-mask k v (clean v)) (clean_fields fs)

    clean_items : (xs : Items) → collect_items s (walk_items r mask_plain xs) ≡ []
    clean_items nil = refl
    clean_items (cons v xs) = append-nil_nil _ _ (clean v) (clean_items xs)

  abbrev masked : String → Value → Value × List String
  masked = mask_visit r mask_plain

  abbrev checked : String → Value → Value × List String
  checked = collect_visit s

  pub push_visit : (k : String) (v : Value) → push_if_unredacted s k (masked k v).0 ≡ []
  push_visit k v = push-mask k v (clean v)

  -- The child of a schema that is an object, by its key's keyword.
  module _ (k : String) (fs : Fields) where
    abbrev Cleaned : Type 0
    Cleaned = (schema_child s checked k (schema_child r masked k (object fs)).0).1 ≡ []

    clean_visited :
        schema_child r masked k (object fs) ≡ masked k (object fs)
        → r k ≡ false
        → s k ≡ false
        → (schema_child s checked k (object (walk_fields r mask_plain fs))
            ≡ checked k (object (walk_fields r mask_plain fs)))
        → Cleaned
    unfolding walk
    clean_visited h er es c = rw (h, er) (rw c (rw er at (push_visit k (object fs))))

    clean_keyword :
        (w : Keyword)
        → keyword k ≡ w
        → r k ≡ false
        → s k ≡ false
        → (schema_fields s checked (schema_fields r masked fs).0).1 ≡ []
        → (schema_properties s checked (schema_properties r masked fs).0).1 ≡ []
        → ((d : Bool)
            → (schema_dependencies s checked d (schema_dependencies r masked d fs).0).1 ≡ [])
        → Cleaned
    clean_keyword named_schemas e er es f p d =
        rw (schema_child-object r masked k fs _ e er)
          (rw (schema_child-object s checked k _ _ e es) p)
    clean_keyword one_schema e er es f p d =
        rw (schema_child-object r masked k fs _ e er)
          (rw (schema_child-object s checked k _ _ e es) f)
    clean_keyword one_or_list e er es f p d =
        rw (schema_child-object r masked k fs _ e er)
          (rw (schema_child-object s checked k _ _ e es) f)
    clean_keyword dependencies e er es f p d =
        rw (schema_child-object r masked k fs _ e er)
          (rw (schema_child-object s checked k _ _ e es) (d true))
    clean_keyword dependent_required e er es f p d =
        rw (schema_child-object r masked k fs _ e er)
          (rw (schema_child-object s checked k _ _ e es) (d false))
    clean_keyword schema_list e er es f p d =
        clean_visited (schema_child-object r masked k fs _ e er) er es
          (schema_child-object s checked k _ _ e es)
    clean_keyword other e er es f p d =
        clean_visited (schema_child-object r masked k fs _ e er) er es
          (schema_child-object s checked k _ _ e es)

    clean_sensitive : r k ≡ true → Cleaned
    clean_sensitive er =
        rw (schema_child-sensitive r masked k fs er, er)
          (unfold walk_schema in rw er at (push_visit k (object fs)))

  -- The child of a schema that is an array, by its key's keyword.
  module _ (k : String) (xs : Items) where
    abbrev CleanedItems : Type 0
    CleanedItems = (schema_child s checked k (schema_child r masked k (array xs)).0).1 ≡ []

    clean_list_keyword :
        (w : Keyword)
        → keyword k ≡ w
        → r k ≡ false
        → s k ≡ false
        → (schema_items s checked k (schema_items r masked k xs).0).1 ≡ []
        → CleanedItems
    unfolding walk
    clean_list_keyword schema_list e er es c =
        rw (schema_child-array r masked k xs _ e er)
          (rw (schema_child-array s checked k _ _ e es) c)
    clean_list_keyword one_or_list e er es c =
        rw (schema_child-array r masked k xs _ e er)
          (rw (schema_child-array s checked k _ _ e es) c)
    clean_list_keyword _ e er es c =
        rw (schema_child-array r masked k xs _ e er, er)
          (rw (schema_child-array s checked k _ _ e es) (rw er at (push_visit k (array xs))))

    clean_sensitive_list : r k ≡ true → CleanedItems
    clean_sensitive_list er =
        rw (schema_child-sensitive_array r masked k xs er, er)
          (unfold walk_schema in rw er at (push_visit k (array xs)))

  insensitive : (k : String) → r k ≡ false → s k ≡ false
  insensitive k e = ground (arith, covers k)

  all_strings-walk : (xs : Items) → all_strings (walk_items r mask_plain xs) ≡ all_strings xs
  unfolding walk
  all_strings-walk nil = refl
  all_strings-walk (cons (string t) xs) = all_strings-walk xs
  all_strings-walk (cons _ xs) = refl

  clean_dependency_array :
      (d : Bool) (k : String) (xs : Items)
      → (schema_dependency s checked d k (schema_dependency r masked d k (array xs)).0).1 ≡ []
  clean_dependency_array d k xs = rw schema_dependency-array (elim (Bool-cases (all_strings xs)) [
    | inl e ↦ rw e (rw schema_dependency-array (rw e))
    | inr e ↦ rw e (elim (Bool-cases (r k)) [
      | inl er ↦ rw er (rw schema_dependency-string (rw er at (push_visit k (array xs))))
      | inr er ↦ rw er (
          unfold walk in
          rw schema_dependency-array
            (rw (all_strings-walk xs, e) (rw er at (push_visit k (array xs)))))
    ])
  ])

  mutual
    unfolding walk_schema walk

    pub clean_schema : (v : Value) → (walk_schema s checked (walk_schema r masked v).0).1 ≡ []
    clean_schema (object fs) = clean_schema_fields fs
    clean_schema (bool b) = refl
    clean_schema (array xs) = ground (arith, push_visit "" (array xs))
    clean_schema null = ground (arith, push_visit "" null)
    clean_schema (number n) = ground (arith, push_visit "" (number n))
    clean_schema (string t) = ground (arith, push_visit "" (string t))

    clean_schema_fields :
        (fs : Fields) → (schema_fields s checked (schema_fields r masked fs).0).1 ≡ []
    clean_schema_fields end = refl
    clean_schema_fields (field k v fs) =
        append-nil_nil _ _ (clean_child k v) (clean_schema_fields fs)

    clean_child :
        (k : String) (v : Value) → (schema_child s checked k (schema_child r masked k v).0).1 ≡ []
    clean_child k (object fs) =
        let f = clean_schema_fields fs in
        let p = clean_properties fs in
        let t = clean_dependencies true fs in
        let u = clean_dependencies false fs in
        elim (Bool-cases (r k)) [
          | inl e ↦ clean_sensitive k fs e
          | inr e ↦
              clean_keyword k fs (keyword k) refl e (insensitive k e) f p
                (elim [ true ↦ t | false ↦ u ])
        ]
    clean_child k (bool b) = ground (arith, covers k, push_visit k (bool b))
    clean_child k (array xs) =
        let c = clean_schema_items k xs in
        elim (Bool-cases (r k)) [
          | inl e ↦ clean_sensitive_list k xs e
          | inr e ↦ clean_list_keyword k xs (keyword k) refl e (insensitive k e) c
        ]
    clean_child k null = ground (arith, push_visit k null)
    clean_child k (number n) = ground (arith, push_visit k (number n))
    clean_child k (string t) = ground (arith, push_visit k (string t))

    clean_definition :
        (k : String) (v : Value)
        → (schema_or_visit s checked k (schema_or_visit r masked k v).0).1 ≡ []
    clean_definition k (object fs) = clean_schema_fields fs
    clean_definition k (bool b) = refl
    clean_definition k (array xs) = ground (arith, push_visit k (array xs))
    clean_definition k null = ground (arith, push_visit k null)
    clean_definition k (number n) = ground (arith, push_visit k (number n))
    clean_definition k (string t) = ground (arith, push_visit k (string t))

    clean_properties :
        (fs : Fields) → (schema_properties s checked (schema_properties r masked fs).0).1 ≡ []
    clean_properties end = refl
    clean_properties (field k v fs) =
        append-nil_nil _ _ (clean_definition k v) (clean_properties fs)

    clean_schema_items :
        (k : String) (xs : Items) → (schema_items s checked k (schema_items r masked k xs).0).1 ≡ []
    clean_schema_items k nil = refl
    clean_schema_items k (cons v xs) =
        append-nil_nil _ _ (clean_definition k v) (clean_schema_items k xs)

    clean_dependency :
        (d : Bool) (k : String) (v : Value)
        → (schema_dependency s checked d k (schema_dependency r masked d k v).0).1 ≡ []
    clean_dependency true k (object fs) = clean_schema_fields fs
    clean_dependency false k (object fs) = ground (arith, push_visit k (object fs))
    clean_dependency true k (bool b) = refl
    clean_dependency false k (bool b) = ground (arith, push_visit k (bool b))
    clean_dependency d k (array xs) = clean_dependency_array d k xs
    clean_dependency d k null = ground (arith, push_visit k null)
    clean_dependency d k (number n) = ground (arith, push_visit k (number n))
    clean_dependency d k (string t) = ground (arith, push_visit k (string t))

    clean_dependencies :
        (d : Bool) (fs : Fields)
        → (schema_dependencies s checked d (schema_dependencies r masked d fs).0).1 ≡ []
    clean_dependencies d end = refl
    clean_dependencies d (field k v fs) =
        append-nil_nil _ _ (clean_dependency d k v) (clean_dependencies d fs)
