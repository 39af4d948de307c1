-- ===== src/Storage/Merge/Covered.antt =====
-- No call is lost by deduplication, and what it keeps stands in the order of its sources.
use mcptracer.Common.{
  Bool, true, false, ◌≡◌, refl, sym, ap, ◌∙◌, inl, inr, Option, none, some, List, [], ◌∷◌, ◌++◌,
  keep, any, All, All-append, All-map, Bool-cases, or_true, eq_refl, eq_text?_refl, list_eq_refl,
}
use mcptracer.Json.{Codec}
use mcptracer.Model.Session.{StoredMessage}
use mcptracer.Storage.Merge.{
  DeduplicationKey, same_key, deduplication_key, is_client_request, is_server_response, Dedup,
  dedup_request, scan_one, scan, deduplicate_source_messages, merge_deduplicated,
}
use mcptracer.Storage.Merge.Calls.{all_messages}
use mcptracer.Storage.Merge.Kept.{
  Unique, PartOf, is_other, stays, key_of, keys_of, keys_of-append, dedup_response-seen,
  scan-keys_of, scan-others,
}

same_key_refl : (k : DeduplicationKey) → same_key k k ≡ true
same_key_refl k =
    rw (eq_refl k.method, eq_text?_refl k.tool_name, list_eq_refl k.normalized_params) refl

abbrev KeyIn : List DeduplicationKey → Option DeduplicationKey → Type 0
KeyIn seen none = Unit
KeyIn seen (some k) = any (same_key k) seen ≡ true

dedup_request-keeps :
    (k : DeduplicationKey) (o : Option DeduplicationKey) (m : StoredMessage) (d : Dedup)
    → any (same_key k) d.seen_calls ≡ true
    → any (same_key k) (dedup_request o m d).seen_calls ≡ true
unfolding dedup_request
dedup_request-keeps k none m d h = h
dedup_request-keeps k (some key) m d h = elim (Bool-cases (any (same_key key) d.seen_calls)) [
  | inl e ↦ rw e h
  | inr e ↦ rw (e, h) (or_true (same_key k key))
]

dedup_request-adds :
    (o : Option DeduplicationKey) (m : StoredMessage) (d : Dedup)
    → KeyIn (dedup_request o m d).seen_calls o
unfolding dedup_request
dedup_request-adds none m d = tt
dedup_request-adds (some key) m d = elim (Bool-cases (any (same_key key) d.seen_calls)) [
  | inl e ↦ rw e e
  | inr e ↦ rw (e, same_key_refl key) refl
]

PartOf-nil :
    (xs ys : List StoredMessage) → PartOf xs ys → (zs : List StoredMessage) → PartOf xs (zs ++ ys)
PartOf-nil xs ys h [] = h
PartOf-nil [] ys h (z ∷ zs) = tt
PartOf-nil (x ∷ xs) ys h (z ∷ zs) = inr (PartOf-nil (x ∷ xs) ys h zs)

keep-PartOf :
    (p : StoredMessage → Bool) (xs more rest : List StoredMessage)
    → PartOf more rest
    → PartOf (keep p xs ++ more) (xs ++ rest)
keep-PartOf p [] more rest h = h
keep-PartOf p (x ∷ xs) more rest h = elim (Bool-cases (p x)) [
  | inl e ↦ rw e (inl (refl, keep-PartOf p xs more rest h))
  | inr e ↦ rw e (skipped (keep p xs ++ more) (keep-PartOf p xs more rest h))
]
  where
    skipped : (l : List StoredMessage) → PartOf l (xs ++ rest) → PartOf l (x ∷ (xs ++ rest))
    skipped [] k = tt
    skipped (y ∷ ys) k = inr k

abbrev beginning : List DeduplicationKey → Dedup
beginning seen = record {
  seen_calls = seen;
  removed_sequences = [];
  pending_requests = [];
  removed_calls = 0;
}

keep-append :
    (p : StoredMessage → Bool) (xs ys : List StoredMessage)
    → keep p (xs ++ ys) ≡ keep p xs ++ keep p ys
keep-append p [] ys = refl
keep-append p (x ∷ xs) ys = elim (Bool-cases (p x)) [
  | inl e ↦ rw e (ap (λ (l : List StoredMessage). x ∷ l) (keep-append p xs ys))
  | inr e ↦ rw e (keep-append p xs ys)
]

module _ (codec : Codec) where
  -- The key of the message, if it has one, is among the keys.
  abbrev pub Covered : List DeduplicationKey → StoredMessage → Type 0
  Covered seen m = KeyIn seen (key_of codec m)

  scan_one-keeps :
      (k : DeduplicationKey) (m : StoredMessage) (d : Dedup)
      → any (same_key k) d.seen_calls ≡ true
      → any (same_key k) (scan_one codec m d).seen_calls ≡ true
  unfolding scan_one
  scan_one-keeps k m d h = elim (Bool-cases (is_client_request m)) [
    | inl e ↦ rw e (dedup_request-keeps k (deduplication_key codec m) m d h)
    | inr e ↦ rw (e, dedup_response-seen codec (is_server_response m) m.rpc_id m d) h
  ]

  scan-keeps :
      (k : DeduplicationKey) (ms : List StoredMessage) (d : Dedup)
      → any (same_key k) d.seen_calls ≡ true
      → any (same_key k) (scan codec ms d).seen_calls ≡ true
  unfolding scan
  scan-keeps k [] d h = h
  scan-keeps k (m ∷ ms) d h = scan-keeps k ms (scan_one codec m d) (scan_one-keeps k m d h)

  scan_one-Covered : (m : StoredMessage) (d : Dedup) → Covered (scan_one codec m d).seen_calls m
  unfolding scan_one
  scan_one-Covered m d = elim (Bool-cases (is_client_request m)) [
    | inl e ↦ rw e (dedup_request-adds (deduplication_key codec m) m d)
    | inr e ↦ rw e tt
  ]

  kept-KeyIn :
      (o : Option DeduplicationKey) (ms : List StoredMessage) (d : Dedup)
      → KeyIn d.seen_calls o
      → KeyIn (scan codec ms d).seen_calls o
  kept-KeyIn none ms d h = tt
  kept-KeyIn (some k) ms d h = scan-keeps k ms d h

  scan-Covered :
      (ms : List StoredMessage) (d : Dedup) → All (Covered (scan codec ms d).seen_calls) ms
  unfolding scan
  scan-Covered [] d = tt
  scan-Covered (m ∷ ms) d = (
    kept-KeyIn (key_of codec m) ms (scan_one codec m d) (scan_one-Covered m d),
    scan-Covered ms (scan_one codec m d),
  )

  Fresh-nil : (ms : List StoredMessage) → All (λ (m : StoredMessage). false ≡ false) ms
  Fresh-nil [] = tt
  Fresh-nil (m ∷ ms) = (refl, Fresh-nil ms)

  -- What deduplication makes of the rows of all sources.
  pub record IsDeduplicated (sources : List (List StoredMessage)) (seen : List DeduplicationKey)
      (kept : List StoredMessage) (last : List DeduplicationKey) : Type 0 where
    pub part : PartOf kept (all_messages sources)
    pub keys : keys_of codec kept seen ≡ last
    pub covered : All (Covered last) (all_messages sources)
    pub others : keep is_other kept ≡ keep is_other (all_messages sources)

  later-Covered :
      (sources : List (List StoredMessage)) (seen : List DeduplicationKey) (m : StoredMessage)
      → Covered seen m
      → Covered (merge_deduplicated codec sources seen).1 m
  unfolding merge_deduplicated deduplicate_source_messages
  later-Covered [] seen m h = h
  later-Covered (ms ∷ sources) seen m h =
      later-Covered sources _ m (kept-KeyIn (key_of codec m) ms (beginning seen) h)

  pub merge_deduplicated-IsDeduplicated :
      (sources : List (List StoredMessage)) (seen : List DeduplicationKey)
      → All Unique sources
      → IsDeduplicated sources seen
          (merge_deduplicated codec sources seen).0
          (merge_deduplicated codec sources seen).1
  unfolding merge_deduplicated deduplicate_source_messages
  merge_deduplicated-IsDeduplicated [] seen u = record {
    part = tt;
    keys = refl;
    covered = tt;
    others = refl;
  }
  merge_deduplicated-IsDeduplicated (ms ∷ sources) seen (u, us) =
      let d = scan codec ms (beginning seen) in
      let kept = keep (stays d.removed_sequences) ms in
      let rest = merge_deduplicated-IsDeduplicated sources d.seen_calls us in
      let more = (merge_deduplicated codec sources d.seen_calls).0 in
      record {
        part = keep-PartOf (stays d.removed_sequences) ms more (all_messages sources) rest.part;
        keys =
            keys_of-append codec kept more seen
            ∙ (ap (keys_of codec more) (scan-keys_of codec ms (beginning seen) u (Fresh-nil ms))
                ∙ rest.keys);
        covered =
            All-append (Covered (merge_deduplicated codec sources d.seen_calls).1) ms
              (all_messages sources)
              (All-map (Covered d.seen_calls)
                (Covered (merge_deduplicated codec sources d.seen_calls).1)
                (later-Covered sources d.seen_calls) ms (scan-Covered ms (beginning seen)))
              rest.covered;
        others =
            keep-append is_other kept more
            ∙ (ap (λ (l : List StoredMessage). l ++ keep is_other more)
                  (scan-others codec ms (beginning seen) u (Fresh-nil ms))
                ∙ (ap (λ (l : List StoredMessage). keep is_other ms ++ l) rest.others
                    ∙ sym (keep-append is_other ms (all_messages sources))));
      }
