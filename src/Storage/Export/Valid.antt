-- ===== src/Storage/Export/Valid.antt =====
-- What the export promises of a document.
use mcptracer.Common.{
  ℕ, ℤ, pos, ◌≤◌, ◌≤ℤ◌, leb, String, Bool, true, false, not, ◌&&◌, ◌≡◌, refl, sym, subst, Option,
  none, some, List, length, All, arith, if◌then◌else◌, Result, ok, err, ◌>>=◌, ok_behind,
  ok_injective,
}
use mcptracer.Json.{Codec}
use mcptracer.Redact.Keys.{Key}
use mcptracer.Redact.Policy.{
  RedactionPolicy, verbatim, default, custom, PolicyError, new, redactor_sensitive, from_storage,
  policy_str, custom_keys,
}
use mcptracer.Redact.Policy.Stored.{StoredBack, from_storage-StoredBack}
use mcptracer.Redact.Context.{default as empty_tracker}
use mcptracer.Model.Session.{StoredMessage}
use mcptracer.Model.Validate.Laws.{Ascends}
use mcptracer.Storage.Row.{SessionSummary}
use mcptracer.Storage.Mtrace.{
  ExportOptions, MtraceMessage, MtraceDocument, MtraceError, max_messages, require, policy_of,
  validate_messages, validate,
}
use mcptracer.Storage.Export.{
  ExportError, refusing_unredacted, demand, effective_policy, redaction_policy_for_summary,
  export_messages, document, export_mtrace_document, invalid_stored_policy, keys_not_json,
  conflicting_options,
}
use mcptracer.Storage.Export.Columns.{LeavesColumns}
use mcptracer.Storage.Export.Accepted.{Recorded, eq_keys_refl, export_messages-accepted}

stored_summary :
    (r : Result PolicyError RedactionPolicy) (name : String) (keys : List Key) (p : RedactionPolicy)
    → from_storage name keys ≡ r
    → elim r as (λ _. Result ExportError RedactionPolicy) [
      | ok p ↦ ok p
      | err e ↦ err (invalid_stored_policy e)
    ]
      ≡ ok p
    → StoredBack p
stored_summary (ok q) name keys p e h =
    subst StoredBack (ok_injective h) (from_storage-StoredBack name keys q e)
stored_summary (err x) name keys p e h = absurd (cc h)

parsed_summary :
    (o : Option (List Key)) (name : String) (p : RedactionPolicy)
    → elim o as (λ _. Result ExportError RedactionPolicy) [
      | none ↦ err keys_not_json
      | some keys ↦ elim (from_storage name keys) as (λ _. Result ExportError RedactionPolicy) [
        | ok p ↦ ok p
        | err e ↦ err (invalid_stored_policy e)
      ]
    ]
      ≡ ok p
    → StoredBack p
parsed_summary none name p h = absurd (cc h)
parsed_summary (some keys) name p h = stored_summary (from_storage name keys) name keys p refl h

summary-StoredBack :
    (parse_keys : String → Option (List Key)) (summary : SessionSummary) (p : RedactionPolicy)
    → redaction_policy_for_summary parse_keys summary ≡ ok p
    → StoredBack p
unfolding redaction_policy_for_summary
summary-StoredBack parse_keys summary p h =
    parsed_summary (parse_keys summary.redaction_keys_json) summary.redaction_policy p h

verbatim-StoredBack :
    (force allow : Bool) (p : RedactionPolicy)
    → ◌≡◌ {A = Result ExportError RedactionPolicy}
        (if force then ok default else if allow then ok verbatim else err refusing_unredacted)
        (ok p)
    → StoredBack p
unfolding from_storage policy_str custom_keys
verbatim-StoredBack true allow p h = subst StoredBack (ok_injective h) refl
verbatim-StoredBack false true p h = subst StoredBack (ok_injective h) refl
verbatim-StoredBack false false p h = absurd (cc h)

effective-StoredBack :
    (options : ExportOptions) (source p : RedactionPolicy)
    → StoredBack source
    → effective_policy options source ≡ ok p
    → StoredBack p
unfolding effective_policy
effective-StoredBack options verbatim p b h =
    verbatim-StoredBack options.force_default_redaction options.allow_unredacted p h
effective-StoredBack options default p b h = subst StoredBack (ok_injective h) b
effective-StoredBack options (custom keys) p b h = subst StoredBack (ok_injective h) b

require_ok : (b : Bool) (e : MtraceError) → b ≡ true → require b e ≡ ok tt
require_ok true e h = refl
require_ok false e h = absurd (cc h)

module _ (codec : Codec) (len : String → ℕ) (summary : SessionSummary) (tags : List String) (at : ℤ)
    (exporter : String) (p : RedactionPolicy) where
  document-valid :
      (out : List MtraceMessage)
      → StoredBack p
      → length out ≤ max_messages
      → pos 0 ≤ℤ summary.dropped_messages
      → validate_messages codec len p none empty_tracker out ≡ ok tt
      → validate codec len (document codec len summary tags at exporter p out) ≡ ok tt
  unfolding validate
  document-valid out b n z v =
      rw
        (
          leb_intro (length out) max_messages n,
          b,
          policy_of,
          eq_keys_refl (custom_keys p),
          leb_intro _ _ z,
        )
        v
    where
      leb_intro : (a b : ℕ) → a ≤ b → leb a b ≡ true
      leb_intro a b h = ground arith

demand_ok : (b : Bool) (e : ExportError) → demand b e ≡ ok tt → b ≡ true
demand_ok true e h = refl
demand_ok false e h = absurd (cc h)

pub export_mtrace_document-valid :
    (codec : Codec) (len : String → ℕ) (parse_keys : String → Option (List Key))
    (options : ExportOptions) (summary : SessionSummary) (tags : List String)
    (messages : List StoredMessage) (at : ℤ) (exporter : String) (source p : RedactionPolicy)
    (d : MtraceDocument)
    → redaction_policy_for_summary parse_keys summary ≡ ok source
    → effective_policy options source ≡ ok p
    → LeavesColumns (redactor_sensitive (new p))
    → All (Recorded codec) messages
    → Ascends none messages
    → length messages ≤ max_messages
    → pos 0 ≤ℤ summary.dropped_messages
    → export_mtrace_document codec len parse_keys options summary tags messages at exporter ≡ ok d
    → validate codec len d ≡ ok tt
unfolding export_mtrace_document
export_mtrace_document-valid codec len parse_keys options summary tags messages at exporter source p
      d hs he hl hr ha hn hd h =
    let finish : RedactionPolicy → Result ExportError MtraceDocument = λ policy.
      export_messages codec len (new policy) empty_tracker messages >>= λ out.
      ok (document codec len summary tags at exporter policy out) in
    let built : finish p ≡ ok d =
      behind_demand (not (options.force_default_redaction && options.allow_unredacted))
        conflicting_options (finish p) (rw (hs, he, export_mtrace_document) at h) in
    let (out, eo, ed) =
      ok_behind (export_messages codec len (new p) empty_tracker messages)
        (λ out. ok (document codec len summary tags at exporter p out)) built in
    let (v, n) = export_messages-accepted codec len p hl none empty_tracker messages out hr ha eo in
    subst (λ x. validate codec len x ≡ ok tt) (ok_injective ed)
      (document-valid codec len summary tags at exporter p out
        (effective-StoredBack options source p (summary-StoredBack parse_keys summary source hs) he)
        (subst (λ k. k ≤ max_messages) (sym n) hn) hd v)
  where
    behind_demand :
        (b : Bool) (e : ExportError) (r : Result ExportError MtraceDocument)
        → ◌>>=◌ {B = MtraceDocument} (demand b e) (λ _. r) ≡ ok d
        → r ≡ ok d
    behind_demand true e r k = k
    behind_demand false e r k = absurd (cc k)
