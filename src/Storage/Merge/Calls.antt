-- ===== src/Storage/Merge/Calls.antt =====
-- Deduplication leaves one of each call.
use mcptracer.Common.{
  ◌+◌, String, Bool, true, false, ◌&&◌, ◌≡◌, Option, none, some, List, [], ◌∷◌, ◌++◌, any, count,
  count-append, length, arith, if◌then◌else◌, Bool-cases, inl, inr,
}
use mcptracer.Json.{Codec, is_some}
use mcptracer.Model.Session.{StoredMessage}
use mcptracer.Storage.Merge.{
  DeduplicationKey, same_key, deduplication_key, is_client_request, is_server_response, Dedup,
  dedup_request, dedup_response, scan_one, scan, deduplicate_source_messages, merge_deduplicated,
}

-- No key stands twice.
abbrev pub AllDiffer : List DeduplicationKey → Type 0
AllDiffer [] = Unit
AllDiffer (k ∷ ks) = (any (same_key k) ks ≡ false) × AllDiffer ks

abbrev pub all_messages : List (List StoredMessage) → List StoredMessage
all_messages [] = []
all_messages (ms ∷ sources) = ms ++ all_messages sources

module _ (codec : Codec) where
  -- A call that can be compared: a client request with a key.
  abbrev pub is_comparable : StoredMessage → Bool
  is_comparable m = is_client_request m && is_some (deduplication_key codec m)

  dedup_request-seen_calls :
      (o : Option DeduplicationKey) (m : StoredMessage) (d : Dedup)
      → ((dedup_request o m d).removed_calls + length (dedup_request o m d).seen_calls
          ≡ (if is_some o then 1 else 0) + (d.removed_calls + length d.seen_calls))
        × (AllDiffer d.seen_calls → AllDiffer (dedup_request o m d).seen_calls)
  unfolding dedup_request
  dedup_request-seen_calls none m d = (omega arith, λ h. h)
  dedup_request-seen_calls (some key) m d = elim (Bool-cases (any (same_key key) d.seen_calls)) [
    | inl e ↦ rw e (omega arith, λ h. h)
    | inr e ↦ rw e (omega arith, λ h. (e, h))
  ]

  dedup_response-seen_calls :
      (b : Bool) (o : Option String) (m : StoredMessage) (d : Dedup)
      → ((if b then dedup_response o m d else d).removed_calls
            + length (if b then dedup_response o m d else d).seen_calls
          ≡ 0 + (d.removed_calls + length d.seen_calls))
        × (AllDiffer d.seen_calls → AllDiffer (if b then dedup_response o m d else d).seen_calls)
  unfolding dedup_response
  dedup_response-seen_calls false o m d = (omega arith, λ h. h)
  dedup_response-seen_calls true none m d = (omega arith, λ h. h)
  dedup_response-seen_calls true (some id) m d = (omega arith, λ h. h)

  scan_one-seen_calls :
      (m : StoredMessage) (d : Dedup)
      → ((scan_one codec m d).removed_calls + length (scan_one codec m d).seen_calls
          ≡ (if is_comparable m then 1 else 0) + (d.removed_calls + length d.seen_calls))
        × (AllDiffer d.seen_calls → AllDiffer (scan_one codec m d).seen_calls)
  unfolding scan_one
  scan_one-seen_calls m d = elim (Bool-cases (is_client_request m)) [
    | inl e ↦ rw e (dedup_request-seen_calls (deduplication_key codec m) m d)
    | inr e ↦ rw e (dedup_response-seen_calls (is_server_response m) m.rpc_id m d)
  ]

  scan-seen_calls :
      (ms : List StoredMessage) (d : Dedup)
      → ((scan codec ms d).removed_calls + length (scan codec ms d).seen_calls
          ≡ count is_comparable ms + (d.removed_calls + length d.seen_calls))
        × (AllDiffer d.seen_calls → AllDiffer (scan codec ms d).seen_calls)
  unfolding scan
  scan-seen_calls [] d = (omega arith, λ h. h)
  scan-seen_calls (m ∷ ms) d =
      let (a, f) = scan_one-seen_calls m d in
      let (b, g) = scan-seen_calls ms (scan_one codec m d) in (omega (arith, a, b), λ h. g (f h))

  merge_deduplicated-seen_calls :
      (sources : List (List StoredMessage)) (seen : List DeduplicationKey)
      → ((merge_deduplicated codec sources seen).2
            + length (merge_deduplicated codec sources seen).1
          ≡ count is_comparable (all_messages sources) + length seen)
        × (AllDiffer seen → AllDiffer (merge_deduplicated codec sources seen).1)
  unfolding merge_deduplicated deduplicate_source_messages
  merge_deduplicated-seen_calls [] seen = (omega arith, λ h. h)
  merge_deduplicated-seen_calls (ms ∷ sources) seen =
      let (a, f) = scan-seen_calls ms (record {
        seen_calls = seen;
        removed_sequences = [];
        pending_requests = [];
        removed_calls = 0;
      }) in
      let (b, g) =
        merge_deduplicated-seen_calls sources
          (scan codec ms (record {
            seen_calls = seen;
            removed_sequences = [];
            pending_requests = [];
            removed_calls = 0;
          })).seen_calls in
      (omega (arith, a, b, count-append is_comparable ms (all_messages sources)), λ h. g (f h))

-- Deduplication over all sources counts each call once: the calls that it removes and the different
-- calls that it has seen make up the client requests that can be compared, those with a method and an
-- object as payload of which no argument is masked, and no two of the calls seen are the same.
pub merge_deduplicated-AllDiffer :
    (codec : Codec) (sources : List (List StoredMessage))
    → ((merge_deduplicated codec sources []).2 + length (merge_deduplicated codec sources []).1
        ≡ count (is_comparable codec) (all_messages sources))
      × AllDiffer (merge_deduplicated codec sources []).1
merge_deduplicated-AllDiffer codec sources =
    let (a, f) = merge_deduplicated-seen_calls codec sources [] in (omega (arith, a), f tt)
