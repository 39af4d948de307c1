-- ===== src/Health/Masked.antt =====
-- A capture that the storage writer masked is not reported as unmasked.
use mcptracer.Common.{
  ℕ, String, Bool, true, false, not, ◌&&◌, ◌||◌, ◌≡◌, refl, Option, some, List, [], ◌∷◌, ◌++◌, map,
  any, All, arith,
}
use mcptracer.Json.{Codec, Value}
use mcptracer.Protocol.Message.{McpMessage, as_db_str}
use mcptracer.Redact.Keys.{Key}
use mcptracer.Redact.Walk.{RedactionContext}
use mcptracer.Redact.Policy.{
  RedactionPolicy, new, redactor_sensitive, redact_with_context, is_active_policy, from_storage,
  policy_str, custom_keys, unredacted_sensitive_keys_with_context,
}
use mcptracer.Redact.Policy.Stored.{StoredBack}
use mcptracer.Redact.Sound.Policy.{redact-unredacted}
use mcptracer.Redact.Envelope.Observe.{observe-same}
use mcptracer.Redact.Context.{Tracker, observe}
use mcptracer.Model.Session.{StoredMessage}
use mcptracer.Model.Validate.{Issue, dropped_messages, issue_if}
use mcptracer.Storage.Row.{stored_row}
use mcptracer.Storage.Mtrace.{texts}
use mcptracer.Storage.Export.Columns.{LeavesColumns, redact-SameEnvelope}
use mcptracer.Writer.Thread.{Writer, start, redact_one, redact_batch}
use mcptracer.Health.{
  is_unredacted, seen_issues, redaction_issues, policy_issues, append_redaction_issues,
}

-- The store gives back what was printed.
abbrev pub ReadsBack : Codec → McpMessage → Type 0
ReadsBack codec m = codec.parse (codec.print m.payload) ≡ some m.payload

any-append : (p : Issue → Bool) (xs ys : List Issue) → any p (xs ++ ys) ≡ (any p xs || any p ys)
any-append p [] ys = refl
any-append p (x ∷ xs) ys = ground (arith, any-append p xs ys)

module _ (codec : Codec) (len : String → ℕ) (p : RedactionPolicy)
    (h : LeavesColumns (redactor_sensitive (new p))) where
  clean_issues :
      (reported : Bool) (seq : ℕ) (payload : Value) (c : RedactionContext × Tracker)
      → unredacted_sensitive_keys_with_context payload p c.0 ≡ []
      → any is_unredacted (seen_issues codec len p reported seq payload c).0 ≡ false
  clean_issues reported seq payload c e =
      rw e (no_loss (is_active_policy p && (c.1.lost_context && not reported)) seq)
    where
      no_loss :
          (b : Bool) (seq : ℕ)
          → any is_unredacted (issue_if b dropped_messages (some seq) ++ []) ≡ false
      no_loss true seq = refl
      no_loss false seq = refl

  -- The first issues are clean, and the others are clean.
  both_clean :
      (reported : Bool) (seq : ℕ) (payload : Value) (c : RedactionContext × Tracker)
      (later : List Issue)
      → unredacted_sensitive_keys_with_context payload p c.0 ≡ []
      → any is_unredacted later ≡ false
      → any is_unredacted ((seen_issues codec len p reported seq payload c).0 ++ later) ≡ false
  both_clean reported seq payload c later e l =
      rw (any-append, clean_issues reported seq payload c e) l

  abbrev rows : List McpMessage → Writer → List StoredMessage
  rows ms w = map (stored_row codec) (redact_batch (texts codec len) (new p) ms w).0

  redact_batch-clean :
      (ms : List McpMessage) (w : Writer) (reported : Bool)
      → All (ReadsBack codec) (redact_batch (texts codec len) (new p) ms w).0
      → any is_unredacted (redaction_issues codec len p w.redaction_context reported (rows ms w))
        ≡ false
  unfolding redact_batch redact_one redaction_issues stored_row
  redact_batch-clean [] w reported r = refl
  redact_batch-clean (m ∷ ms) w reported r =
      let c =
        observe (texts codec len) w.redaction_context m.seq (as_db_str m.direction) m.payload in
      let x = redact_with_context (new p) m.payload c.0 in
      let same =
        observe-same (texts codec len) w.redaction_context m.seq (as_db_str m.direction) x m.payload
          (redact-SameEnvelope p m.payload c.0 h) in
      let u = (redact_one (texts codec len) (new p) m w).1 in
      let next = (seen_issues codec len p reported m.seq x c).1 in
      rw (r.0, redaction_issues, same)
        (both_clean reported m.seq x c (redaction_issues codec len p c.1 next (rows ms u))
          (redact-unredacted p m.payload c.0) (redact_batch-clean ms u next r.1))

  policy_clean :
      (ms : List McpMessage)
      → All (ReadsBack codec) (redact_batch (texts codec len) (new p) ms start).0
      → StoredBack p
      → any is_unredacted
          (policy_issues codec len (from_storage (policy_str p) (custom_keys p)) (rows ms start))
        ≡ false
  policy_clean ms r b = rw (b, policy_issues) (redact_batch-clean ms start false r)

-- A capture whose messages the storage writer masked, in the order in which it masked them, and that is
-- assessed under the policy that it was masked with, is reported to hold no unmasked sensitive value.
-- The policy is stored as its name and a text that parses to its keys, it leaves alone the keys of the
-- JSON-RPC envelope and those of the columns, and the store gives back each payload that was printed.
pub append_redaction_issues-clean :
    (codec : Codec) (len : String → ℕ) (p : RedactionPolicy) (ms : List McpMessage)
    (parse_keys : String → Option (List Key)) (keys_json : String)
    → LeavesColumns (redactor_sensitive (new p))
    → StoredBack p
    → parse_keys keys_json ≡ some (custom_keys p)
    → All (ReadsBack codec) (redact_batch (texts codec len) (new p) ms start).0
    → any is_unredacted (
        append_redaction_issues codec len parse_keys
          (map (stored_row codec) (redact_batch (texts codec len) (new p) ms start).0)
          (policy_str p)
          keys_json)
      ≡ false
unfolding append_redaction_issues
append_redaction_issues-clean codec len p ms parse_keys keys_json h b k r =
    rw (k, append_redaction_issues) (policy_clean codec len p h ms r b)
