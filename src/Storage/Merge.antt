-- ===== src/Storage/Merge.antt =====
-- crates/mcptracer-storage/src/lib.rs: `merge_sessions` up to the transaction, with its deduplication of
-- calls. The sources are what the queries give for each id; the new id, the tags and the fixed texts of
-- the new session are left out, and so are the conversions of the message count, the new numbers and the
-- payload sizes to `i64`. The text of `canonical_json` is held as its code points; hash sets and maps
-- are lists of entries.
pub mod Calls
pub mod Covered
pub mod Kept
pub mod Rows
use mcptracer.Common.{
  fits_i64, ℤ, pos, negsuc, leb_ℤ, ◌-◌, ltb, all, ◌^◌, Result, ok, err, ◌>>=◌, eq_text?, ℕ, ◌+◌,
  String, Bool, true, false, not, ◌&&◌, ◌||◌, Option, none, some, List, [], ◌∷◌, ◌++◌, map, any,
  keep, length, codes, text_le, list_eq, leb, ◌==◌, str_eq, if◌then◌else◌,
}
use mcptracer.Common.Sort.{sort}
use mcptracer.Json.{
  Codec, Value, null, bool, number, string, array, object, Items, nil, cons, Fields, end, field,
  get, is_object, is_some,
}
use mcptracer.Redact.Keys.{redacted_placeholder}
use mcptracer.Model.Session.{StoredMessage}
use mcptracer.Storage.Row.{SessionSummary}

unfoldable mutual
  pub contains_redacted_value : Value → Bool
  contains_redacted_value (string text) = str_eq text redacted_placeholder
  contains_redacted_value (array values) = contains_redacted_item values
  contains_redacted_value (object values) = contains_redacted_field values
  contains_redacted_value (number n) = false
  contains_redacted_value (bool b) = false
  contains_redacted_value null = false

  pub contains_redacted_item : Items → Bool
  contains_redacted_item nil = false
  contains_redacted_item (cons v vs) = contains_redacted_value v || contains_redacted_item vs

  pub contains_redacted_field : Fields → Bool
  contains_redacted_field end = false
  contains_redacted_field (field k v fs) = contains_redacted_value v || contains_redacted_field fs

-- `join(",")`
abbrev pub join : List (List ℕ) → List ℕ
join [] = []
join (x ∷ []) = x
join (x ∷ (y ∷ ys)) = x ++ (codes "," ++ join (y ∷ ys))

abbrev pub by_name : String × List ℕ → String × List ℕ → Bool
by_name (k, x) (j, y) = text_le (codes k) (codes j)

abbrev pub entry_text : Codec → String × List ℕ → List ℕ
entry_text codec (k, text) = codes (codec.print (string k)) ++ (codes ":" ++ text)

module _ (codec : Codec) where
  unfoldable mutual
    pub canonical_json : Value → List ℕ
    canonical_json (array values) = codes "[" ++ (join (canonical_items values) ++ codes "]")
    canonical_json (object values) =
        codes "{"
        ++ (join (map (entry_text codec) (sort by_name (canonical_fields values))) ++ codes "}")
    canonical_json null = codes "null"
    canonical_json (bool b) = codes (codec.print (bool b))
    canonical_json (number n) = codes (codec.print (number n))
    canonical_json (string s) = codes (codec.print (string s))

    pub canonical_items : Items → List (List ℕ)
    canonical_items nil = []
    canonical_items (cons v vs) = canonical_json v ∷ canonical_items vs

    pub canonical_fields : Fields → List (String × List ℕ)
    canonical_fields end = []
    canonical_fields (field k v fs) = (k, canonical_json v) ∷ canonical_fields fs

pub record DeduplicationKey : Type 0 where
  pub method : String
  pub tool_name : Option String
  pub normalized_params : List ℕ

abbrev pub same_key : DeduplicationKey → DeduplicationKey → Bool
same_key a b =
    str_eq a.method b.method
    && (eq_text? a.tool_name b.tool_name && list_eq a.normalized_params b.normalized_params)

abbrev pub or_default : Option Value → Value
or_default none = null
or_default (some v) = v

module _ (codec : Codec) where
  abbrev pub key_of_params : StoredMessage → String → Value → Option DeduplicationKey
  key_of_params m method params =
      if contains_redacted_value params
      then none
      else some (record {
        method = method;
        tool_name = m.tool_name;
        normalized_params = canonical_json codec params;
      })

  abbrev pub key_of_payload : StoredMessage → String → Option Value → Option DeduplicationKey
  key_of_payload m method none = none
  key_of_payload m method (some payload) =
      if is_object payload then key_of_params m method (or_default (get payload "params")) else none

  unfoldable pub deduplication_key : StoredMessage → Option DeduplicationKey
  deduplication_key m = elim m.method [
    | none ↦ none
    | some method ↦ key_of_payload m method (codec.parse m.payload)
  ]

abbrev pub is_client_request : StoredMessage → Bool
is_client_request m = str_eq m.direction "c2s" && str_eq m.message_kind "request"

abbrev pub is_server_response : StoredMessage → Bool
is_server_response m = str_eq m.direction "s2c" && str_eq m.message_kind "response"

-- The variables of the loop.
pub record Dedup : Type 0 where
  pub seen_calls : List DeduplicationKey
  pub removed_sequences : List ℕ
  pub pending_requests : List (String × Bool)
  pub removed_calls : ℕ

-- `HashMap::insert` and `HashMap::remove`, which gives the flag or false.
abbrev pub forget : String → List (String × Bool) → List (String × Bool)
forget id = keep (λ (p : String × Bool). not (str_eq p.0 id))

abbrev pub flag_of : String → List (String × Bool) → Bool
flag_of id [] = false
flag_of id ((other, flag) ∷ rest) = if str_eq other id then flag else flag_of id rest

abbrev pub await_reply : Option String → Bool → List (String × Bool) → List (String × Bool)
await_reply none flag pending = pending
await_reply (some id) flag pending = (id, flag) ∷ forget id pending

-- A client request whose key is `key`.
unfoldable pub dedup_request : Option DeduplicationKey → StoredMessage → Dedup → Dedup
dedup_request none m d = record d {
  pending_requests = await_reply m.rpc_id false d.pending_requests;
}
dedup_request (some key) m d =
    if any (same_key key) d.seen_calls
    then record d {
      removed_sequences = m.seq ∷ d.removed_sequences;
      removed_calls = d.removed_calls + 1;
      pending_requests = await_reply m.rpc_id true d.pending_requests;
    }
    else record d {
      seen_calls = key ∷ d.seen_calls;
      pending_requests = await_reply m.rpc_id false d.pending_requests;
    }

unfoldable pub dedup_response : Option String → StoredMessage → Dedup → Dedup
dedup_response none m d = d
dedup_response (some id) m d = record d {
  removed_sequences =
      if flag_of id d.pending_requests then m.seq ∷ d.removed_sequences else d.removed_sequences;
  pending_requests = forget id d.pending_requests;
}

module _ (codec : Codec) where
  unfoldable pub scan_one : StoredMessage → Dedup → Dedup
  scan_one m d =
      if is_client_request m
      then dedup_request (deduplication_key codec m) m d
      else if is_server_response m
      then dedup_response m.rpc_id m d
      else d

  unfoldable pub scan : List StoredMessage → Dedup → Dedup
  scan [] d = d
  scan (m ∷ ms) d = scan ms (scan_one m d)

  -- The messages that stay, the calls seen, and the number of calls that go.
  unfoldable pub deduplicate_source_messages :
      List StoredMessage → List DeduplicationKey → List StoredMessage × List DeduplicationKey × ℕ
  deduplicate_source_messages ms seen =
      let d = scan ms (record {
        seen_calls = seen;
        removed_sequences = [];
        pending_requests = [];
        removed_calls = 0;
      }) in
      (
        keep (λ (m : StoredMessage). not (any (λ n. n == m.seq) d.removed_sequences)) ms,
        d.seen_calls,
        d.removed_calls,
      )

  -- The loop over the sources of `merge_sessions`, where calls are deduplicated.
  unfoldable pub merge_deduplicated :
      List (List StoredMessage)
      → List DeduplicationKey
      → List StoredMessage × List DeduplicationKey × ℕ
  merge_deduplicated [] seen = ([], seen, 0)
  merge_deduplicated (ms ∷ sources) seen =
      let (kept, later, removed) = deduplicate_source_messages ms seen in
      let (rest, last, others) = merge_deduplicated sources later in
      (kept ++ rest, last, removed + others)

pub data MergeError : Type 0 where
  too_few_sources different_configuration dropped_exceeds_i64 : MergeError
  provided_twice : String → MergeError

pub record Source : Type 0 where
  pub summary : SessionSummary
  pub messages : List StoredMessage

-- The row of the merged session, its messages, the ids of its sources, and the number of calls removed.
pub record MergedSession : Type 0 where
  pub transport : String
  pub redaction_policy : String
  pub redaction_keys_json : String
  pub started_at_ns : ℤ
  pub ended_at_ns : Option ℤ
  pub dropped_messages : ℤ
  pub rows : List StoredMessage
  pub source_session_ids : List String
  pub deduplicated_calls : ℕ

-- The loop that looks the sources up: an id that was seen already ends it.
unfoldable pub check_distinct : List String → List Source → Result MergeError (Unit {0})
check_distinct seen [] = ok tt
check_distinct seen (s ∷ ss) =
    let rest = check_distinct (s.summary.session_id ∷ seen) ss in
    if any (λ id. str_eq id s.summary.session_id) seen
    then err (provided_twice s.summary.session_id)
    else rest

abbrev pub same_configuration : SessionSummary → Source → Bool
same_configuration reference s =
    str_eq s.summary.transport reference.transport
    && (str_eq s.summary.redaction_policy reference.redaction_policy
        && str_eq s.summary.redaction_keys_json reference.redaction_keys_json)

-- `i64::checked_add` is the sum where it fits.
abbrev pub add_ℤ : ℤ → ℤ → ℤ
add_ℤ (pos a) (pos b) = pos (a + b)
add_ℤ (negsuc a) (negsuc b) = negsuc (a + b + 1)
add_ℤ (pos a) (negsuc b) = if ltb b a then pos (a - (b + 1)) else negsuc (b - a)
add_ℤ (negsuc a) (pos b) = if ltb a b then pos (b - (a + 1)) else negsuc (a - b)

unfoldable pub sum_dropped : ℤ → List Source → Result MergeError ℤ
sum_dropped total [] = ok total
sum_dropped total (s ∷ ss) =
    let next = add_ℤ total s.summary.dropped_messages in
    let rest = sum_dropped next ss in if fits_i64 next then rest else err dropped_exceeds_i64

unfoldable pub earliest : ℤ → List Source → ℤ
earliest started [] = started
earliest started (s ∷ ss) =
    earliest (if leb_ℤ started s.summary.started_at_ns then started else s.summary.started_at_ns) ss

-- The latest end, where every source has one.
unfoldable pub latest : Option ℤ → List Source → Option ℤ
latest ended [] = ended
latest none (s ∷ ss) = none
latest (some ended) (s ∷ ss) = elim s.summary.ended_at_ns [
  | none ↦ none
  | some other ↦ latest (some (if leb_ℤ ended other then other else ended)) ss
]

abbrev pub concat_messages : List (List StoredMessage) → List StoredMessage
concat_messages [] = []
concat_messages (ms ∷ sources) = ms ++ concat_messages sources

-- `enumerate`: the messages under new numbers.
unfoldable pub renumber : ℕ → List StoredMessage → List StoredMessage
renumber n [] = []
renumber n (m ∷ ms) = record m { seq = n } ∷ renumber (n + 1) ms

module _ (codec : Codec) where
  abbrev pub merge_messages : Bool → List Source → List StoredMessage × ℕ
  merge_messages true sources =
      let (kept, _, removed) =
        merge_deduplicated codec (map (λ (s : Source). s.messages) sources) [] in
      (kept, removed)
  merge_messages false sources = (concat_messages (map (λ (s : Source). s.messages) sources), 0)

  abbrev pub merged : Bool → Source → List Source → ℤ → MergedSession
  merged deduplicate first sources dropped =
      let (kept, removed) = merge_messages deduplicate (first ∷ sources) in
      record {
        transport = first.summary.transport;
        redaction_policy = first.summary.redaction_policy;
        redaction_keys_json = first.summary.redaction_keys_json;
        started_at_ns = earliest first.summary.started_at_ns sources;
        ended_at_ns = latest first.summary.ended_at_ns sources;
        dropped_messages = dropped;
        rows = renumber 0 kept;
        source_session_ids = map (λ (s : Source). s.summary.session_id) (first ∷ sources);
        deduplicated_calls = removed;
      }

  unfoldable pub merge_sessions : List Source → Bool → Result MergeError MergedSession
  merge_sessions [] deduplicate = err too_few_sources
  merge_sessions (first ∷ []) deduplicate = err too_few_sources
  merge_sessions (first ∷ (second ∷ others)) deduplicate =
      let sources = second ∷ others in
      check_distinct [] (first ∷ sources) >>= λ _.
      (if all (same_configuration first.summary) (first ∷ sources)
        then ok tt
        else err different_configuration)
      >>= λ _. sum_dropped (pos 0) (first ∷ sources) >>= λ dropped.
          ok (merged deduplicate first sources dropped)
