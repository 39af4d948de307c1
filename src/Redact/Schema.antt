-- ===== src/Redact/Schema.antt =====
-- crates/mcptracer-redact/src/lib.rs: `walk_schema`, the traversal of a tool's schema that masking
-- and validation share. A traversal in place returns the value it leaves.
use mcptracer.Common.{
  String, Bool, true, false, ◌||◌, ◌≡◌, refl, List, [], ◌∷◌, ◌++◌, str_eq, if◌then◌else◌,
}
use mcptracer.Json.{Value, bool, string, array, object, Items, nil, cons, Fields, end, field}

-- Which schema keywords hold schemas, and how.
pub data Keyword : Type 0 where
  named_schemas one_schema schema_list one_or_list dependencies dependent_required other : Keyword

abbrev pub among : String → List String → Bool
among k [] = false
among k (j ∷ js) = str_eq k j || among k js

unfoldable pub keyword : String → Keyword
keyword k =
    if among k
      ("properties" ∷ "patternProperties" ∷ "$defs" ∷ "definitions" ∷ "dependentSchemas" ∷ [])
    then named_schemas
    else if str_eq k "items"
    then one_or_list
    else if among k (
        "additionalItems" ∷ "additionalProperties" ∷ "unevaluatedProperties" ∷ "unevaluatedItems"
        ∷ "propertyNames" ∷ "not" ∷ "if" ∷ "then" ∷ "else" ∷ "contains" ∷ "contentSchema" ∷ [])
    then one_schema
    else if among k ("allOf" ∷ "anyOf" ∷ "oneOf" ∷ "prefixItems" ∷ [])
    then schema_list
    else if str_eq k "dependencies"
    then dependencies
    else if str_eq k "dependentRequired"
    then dependent_required
    else other

unfoldable pub is_mcp_tool_schema_key : String → Bool
is_mcp_tool_schema_key k = str_eq k "inputSchema" || str_eq k "outputSchema"

-- `items.iter().all(Value::is_string)`
abbrev pub all_strings : Items → Bool
all_strings nil = true
all_strings (cons (string s) xs) = all_strings xs
all_strings (cons _ xs) = false

-- `walk_schema`: `visit` returns the value it leaves and the keys it reports.
module _ (is_sensitive : String → Bool) (visit : String → Value → Value × List String) where
  unfoldable mutual
    pub walk_schema : Value → Value × List String
    walk_schema (object fs) = let (fs', out) = schema_fields fs in (object fs', out)
    walk_schema (bool b) = (bool b, [])
    walk_schema v = visit "" v

    pub schema_fields : Fields → Fields × List String
    schema_fields end = (end, [])
    schema_fields (field k v fs) =
        let (v', out) = schema_child k v in
        let (fs', rest) = schema_fields fs in (field k v' fs', out ++ rest)

    pub schema_child : String → Value → Value × List String
    schema_child k (object fs) = elim (is_sensitive k) [
      | true ↦ visit k (object fs)
      | false ↦ elim (keyword k) [
        | named_schemas ↦ let (fs', out) = schema_properties fs in (object fs', out)
        | one_schema ↦ let (fs', out) = schema_fields fs in (object fs', out)
        | one_or_list ↦ let (fs', out) = schema_fields fs in (object fs', out)
        | dependencies ↦ let (fs', out) = schema_dependencies true fs in (object fs', out)
        | dependent_required ↦ let (fs', out) = schema_dependencies false fs in (object fs', out)
        | schema_list ↦ visit k (object fs)
        | other ↦ visit k (object fs)
      ]
    ]
    schema_child k (bool b) = elim (is_sensitive k) [
      | true ↦ visit k (bool b)
      | false ↦ elim (keyword k) [
        | one_schema ↦ (bool b, [])
        | one_or_list ↦ (bool b, [])
        | _ ↦ visit k (bool b)
      ]
    ]
    schema_child k (array xs) = elim (is_sensitive k) [
      | true ↦ visit k (array xs)
      | false ↦ elim (keyword k) [
        | schema_list ↦ let (xs', out) = schema_items k xs in (array xs', out)
        | one_or_list ↦ let (xs', out) = schema_items k xs in (array xs', out)
        | _ ↦ visit k (array xs)
      ]
    ]
    schema_child k v = visit k v

    -- A definition under `properties` and its kin, and an element of `allOf` and its kin.
    pub schema_or_visit : String → Value → Value × List String
    schema_or_visit name (object fs) = let (fs', out) = schema_fields fs in (object fs', out)
    schema_or_visit name (bool b) = (bool b, [])
    schema_or_visit name v = visit name v

    pub schema_properties : Fields → Fields × List String
    schema_properties end = (end, [])
    schema_properties (field name v fs) =
        let (v', out) = schema_or_visit name v in
        let (fs', rest) = schema_properties fs in (field name v' fs', out ++ rest)

    pub schema_items : String → Items → Items × List String
    schema_items k nil = (nil, [])
    schema_items k (cons v xs) =
        let (v', out) = schema_or_visit k v in
        let (xs', rest) = schema_items k xs in (cons v' xs', out ++ rest)

    -- The flag is `key == "dependencies"`.
    pub schema_dependency : Bool → String → Value → Value × List String
    schema_dependency schemas name (array xs) =
        if all_strings xs then (array xs, []) else visit name (array xs)
    schema_dependency true name (object fs) = let (fs', out) = schema_fields fs in (object fs', out)
    schema_dependency true name (bool b) = (bool b, [])
    schema_dependency schemas name v = visit name v

    pub schema_dependencies : Bool → Fields → Fields × List String
    schema_dependencies schemas end = (end, [])
    schema_dependencies schemas (field name v fs) =
        let (v', out) = schema_dependency schemas name v in
        let (fs', rest) = schema_dependencies schemas fs in (field name v' fs', out ++ rest)

  -- `schema_child` on an object whose key is not sensitive, by its keyword.
  abbrev pub object_by : Keyword → String → Fields → Value × List String
  object_by named_schemas k fs = (object (schema_properties fs).0, (schema_properties fs).1)
  object_by one_schema k fs = (object (schema_fields fs).0, (schema_fields fs).1)
  object_by one_or_list k fs = (object (schema_fields fs).0, (schema_fields fs).1)
  object_by dependencies k fs =
      (object (schema_dependencies true fs).0, (schema_dependencies true fs).1)
  object_by dependent_required k fs =
      (object (schema_dependencies false fs).0, (schema_dependencies false fs).1)
  object_by schema_list k fs = visit k (object fs)
  object_by other k fs = visit k (object fs)

  pub schema_child-object :
      (k : String) (fs : Fields) (w : Keyword)
      → keyword k ≡ w
      → is_sensitive k ≡ false
      → schema_child k (object fs) ≡ object_by w k fs
  unfolding walk_schema
  schema_child-object k fs named_schemas e h = rw (h, schema_child, e)
  schema_child-object k fs one_schema e h = rw (h, schema_child, e)
  schema_child-object k fs one_or_list e h = rw (h, schema_child, e)
  schema_child-object k fs dependencies e h = rw (h, schema_child, e)
  schema_child-object k fs dependent_required e h = rw (h, schema_child, e)
  schema_child-object k fs schema_list e h = rw (h, schema_child, e)
  schema_child-object k fs other e h = rw (h, schema_child, e)

  pub schema_child-sensitive :
      (k : String) (fs : Fields)
      → is_sensitive k ≡ true
      → schema_child k (object fs) ≡ visit k (object fs)
  unfolding walk_schema
  schema_child-sensitive k fs h = rw (h, schema_child)

  -- `schema_child` on an array whose key is not sensitive, by its keyword.
  abbrev pub array_by : Keyword → String → Items → Value × List String
  array_by schema_list k xs = (array (schema_items k xs).0, (schema_items k xs).1)
  array_by one_or_list k xs = (array (schema_items k xs).0, (schema_items k xs).1)
  array_by _ k xs = visit k (array xs)

  pub schema_child-array :
      (k : String) (xs : Items) (w : Keyword)
      → keyword k ≡ w
      → is_sensitive k ≡ false
      → schema_child k (array xs) ≡ array_by w k xs
  unfolding walk_schema
  schema_child-array k xs schema_list e h = rw (h, schema_child, e)
  schema_child-array k xs _ e h = rw (h, schema_child, e)

  pub schema_child-sensitive_array :
      (k : String) (xs : Items)
      → is_sensitive k ≡ true
      → schema_child k (array xs) ≡ visit k (array xs)
  unfolding walk_schema
  schema_child-sensitive_array k xs h = rw (h, schema_child)

  pub schema_dependency-array :
      (d : Bool) (k : String) (xs : Items)
      → schema_dependency d k (array xs)
        ≡ (if all_strings xs then (array xs, []) else visit k (array xs))
  unfolding walk_schema
  schema_dependency-array true k xs = refl
  schema_dependency-array false k xs = refl

  pub schema_dependency-string :
      (d : Bool) (k t : String) → schema_dependency d k (string t) ≡ visit k (string t)
  unfolding walk_schema
  schema_dependency-string true k t = refl
  schema_dependency-string false k t = refl
