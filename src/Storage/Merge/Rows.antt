-- ===== src/Storage/Merge/Rows.antt =====
-- What a merge of sessions makes of its sources.
use mcptracer.Common.{
  ℕ, ◌+◌, String, Bool, true, false, ◌≡◌, refl, subst, List, [], ◌∷◌, map, any, all, All, keep, sym,
  count, length, if◌then◌else◌, Bool-cases, inl, inr, Result, ok, err, ok_injective, ok_behind,
  str_eq, fits_i64, ℤ, pos,
}
use mcptracer.Json.{Codec}
use mcptracer.Model.Session.{StoredMessage}
use mcptracer.Storage.Merge.{
  Source, MergeError, provided_twice, different_configuration, MergedSession, check_distinct,
  same_configuration, sum_dropped, merged, add_ℤ, dropped_exceeds_i64, merge_sessions, renumber,
  merge_deduplicated,
}
use mcptracer.Storage.Merge.Kept.{Unique, PartOf, is_other, keys_of}
use mcptracer.Storage.Merge.Covered.{Covered, merge_deduplicated-IsDeduplicated}
use mcptracer.Storage.Merge.Calls.{
  AllDiffer, all_messages, is_comparable, merge_deduplicated-AllDiffer,
}

abbrev pub Numbers : ℕ → List StoredMessage → Type 0
Numbers n [] = Unit
Numbers n (m ∷ ms) = (m.seq ≡ n) × Numbers (n + 1) ms

-- No source has an id that stands before it or among `seen`.
abbrev pub FreshIds : List String → List Source → Type 0
FreshIds seen [] = Unit
FreshIds seen (s ∷ ss) =
    (any (λ id. str_eq id s.summary.session_id) seen ≡ false)
    × FreshIds (s.summary.session_id ∷ seen) ss

-- The running sum of the dropped messages stays in 64 bits.
abbrev pub FitsDropped : ℤ → List Source → Type 0
FitsDropped total [] = Unit
FitsDropped total (s ∷ ss) =
    (fits_i64 (add_ℤ total s.summary.dropped_messages) ≡ true)
    × FitsDropped (add_ℤ total s.summary.dropped_messages) ss

pub record Mergeable (first : Source) (sources : List Source) : Type 0 where
  pub ids : FreshIds [] (first ∷ sources)
  pub configuration : all (same_configuration first.summary) (first ∷ sources) ≡ true
  pub dropped : FitsDropped (pos 0) (first ∷ sources)

abbrev pub messages_of : List Source → List (List StoredMessage)
messages_of sources = map (λ (s : Source). s.messages) sources

renumber-Numbers : (n : ℕ) (ms : List StoredMessage) → Numbers n (renumber n ms)
unfolding renumber
renumber-Numbers n [] = tt
renumber-Numbers n (m ∷ ms) = (refl, renumber-Numbers (n + 1) ms)

check_distinct-FreshIds :
    (seen : List String) (ss : List Source) → check_distinct seen ss ≡ ok tt → FreshIds seen ss
unfolding check_distinct
check_distinct-FreshIds seen [] good = tt
check_distinct-FreshIds seen (s ∷ ss) good =
    elim (Bool-cases (any (λ id. str_eq id s.summary.session_id) seen)) [
      | inl e ↦ absurd (
          cc (
            subst
              (λ b.
                (if b
                  then err (provided_twice s.summary.session_id)
                  else check_distinct (s.summary.session_id ∷ seen) ss)
                ≡ ok tt)
              e good))
      | inr e ↦ (
        e,
        check_distinct-FreshIds (s.summary.session_id ∷ seen) ss (
            subst
              (λ b.
                (if b
                  then err (provided_twice s.summary.session_id)
                  else check_distinct (s.summary.session_id ∷ seen) ss)
                ≡ ok tt)
              e good),
      )
    ]

FreshIds-check_distinct :
    (seen : List String) (ss : List Source) → FreshIds seen ss → check_distinct seen ss ≡ ok tt
unfolding check_distinct
FreshIds-check_distinct seen [] fresh = refl
FreshIds-check_distinct seen (s ∷ ss) (new, fresh) =
    rw new (FreshIds-check_distinct (s.summary.session_id ∷ seen) ss fresh)

sum_dropped-FitsDropped :
    (total : ℤ) (ss : List Source) {sum : ℤ} → sum_dropped total ss ≡ ok sum → FitsDropped total ss
unfolding sum_dropped
sum_dropped-FitsDropped total [] good = tt
sum_dropped-FitsDropped total (s ∷ ss) {sum} good =
    elim (Bool-cases (fits_i64 (add_ℤ total s.summary.dropped_messages))) [
      | inl e ↦ (
        e,
        sum_dropped-FitsDropped (add_ℤ total s.summary.dropped_messages) ss (
            subst
              (λ b.
                (if b
                  then sum_dropped (add_ℤ total s.summary.dropped_messages) ss
                  else err dropped_exceeds_i64)
                ≡ ok sum)
              e good),
      )
      | inr e ↦ absurd (
          cc (
            subst
              (λ b.
                (if b
                  then sum_dropped (add_ℤ total s.summary.dropped_messages) ss
                  else err dropped_exceeds_i64)
                ≡ ok sum)
              e good))
    ]

FitsDropped-sum_dropped :
    (total : ℤ) (ss : List Source)
    → FitsDropped total ss
    → (sum : ℤ) × (sum_dropped total ss ≡ ok sum)
unfolding sum_dropped
FitsDropped-sum_dropped total [] fits = (total, refl)
FitsDropped-sum_dropped total (s ∷ ss) (now, fits) =
    rw now (FitsDropped-sum_dropped (add_ℤ total s.summary.dropped_messages) ss fits)

-- What a good test passed.
guard-true : (b : Bool) (e : MergeError) → (if b then ok tt else err e) ≡ ok (tt {0}) → b ≡ true
guard-true true e good = refl
guard-true false e good = absurd (cc good)

module _ (codec : Codec) where
  pub record Merged (first : Source) (sources : List Source) (r : MergedSession) : Type 0 where
    mergeable : Mergeable first sources
    numbers : Numbers 0 r.rows
    kept : List StoredMessage
    renumbered : r.rows ≡ renumber 0 kept
    part : PartOf kept (all_messages (messages_of (first ∷ sources)))
    others : keep is_other kept ≡ keep is_other (all_messages (messages_of (first ∷ sources)))
    different : AllDiffer (keys_of codec kept [])
    covered :
        All (Covered codec (keys_of codec kept [])) (all_messages (messages_of (first ∷ sources)))
    counted :
        r.deduplicated_calls + length (keys_of codec kept [])
        ≡ count (is_comparable codec) (all_messages (messages_of (first ∷ sources)))

  accepted-Merged :
      (first second : Source) (others : List Source) (r : MergedSession)
      → All Unique (messages_of (first ∷ (second ∷ others)))
      → merge_sessions codec (first ∷ (second ∷ others)) true ≡ ok r
      → Merged first (second ∷ others) r
  unfolding merge_sessions
  accepted-Merged first second others r unique good =
      let sources = second ∷ others in
      let (_, distinct, good1) = ok_behind (check_distinct [] (first ∷ sources)) _ good in
      let (_, same, good2) =
        ok_behind
          (if all (same_configuration first.summary) (first ∷ sources)
            then ok tt
            else err different_configuration)
          _ good1 in
      let (_, summed, good3) = ok_behind (sum_dropped (pos 0) (first ∷ sources)) _ good2 in
      let (counted, different) =
        merge_deduplicated-AllDiffer codec (messages_of (first ∷ sources)) in
      let d = merge_deduplicated-IsDeduplicated codec (messages_of (first ∷ sources)) [] unique in
      subst (Merged first sources) (ok_injective good3) (record {
        mergeable = record {
          ids = check_distinct-FreshIds [] (first ∷ sources) distinct;
          configuration = guard-true _ different_configuration same;
          dropped = sum_dropped-FitsDropped (pos 0) (first ∷ sources) summed;
        };
        numbers =
            renumber-Numbers 0 (merge_deduplicated codec (messages_of (first ∷ sources)) []).0;
        kept = (merge_deduplicated codec (messages_of (first ∷ sources)) []).0;
        renumbered = refl;
        part = d.part;
        others = d.others;
        different = subst AllDiffer (sym d.keys) different;
        covered =
            subst (λ k. All (Covered codec k) (all_messages (messages_of (first ∷ sources))))
              (sym d.keys) d.covered;
        counted = rw d.keys counted;
      })

  Mergeable-merge_sessions :
      (first second : Source) (others : List Source)
      → Mergeable first (second ∷ others)
      → (r : MergedSession) × (merge_sessions codec (first ∷ (second ∷ others)) true ≡ ok r)
  unfolding merge_sessions
  Mergeable-merge_sessions first second others m =
      let (sum, summed) = FitsDropped-sum_dropped (pos 0) (first ∷ (second ∷ others)) m.dropped in
      (
        merged codec true first (second ∷ others) sum,
        rw (FreshIds-check_distinct [] (first ∷ (second ∷ others)) m.ids, m.configuration, summed)
            refl,
      )

  -- What a merge gives: a merged session, or an error where the sources cannot be merged.
  abbrev pub Outcome : Source → List Source → Result MergeError MergedSession → Type 0
  Outcome first sources (ok r) = Merged first sources r
  Outcome first sources (err e) = ¬ Mergeable first sources

  given-Outcome :
      (first second : Source) (others : List Source) (r : Result MergeError MergedSession)
      → All Unique (messages_of (first ∷ (second ∷ others)))
      → merge_sessions codec (first ∷ (second ∷ others)) true ≡ r
      → Outcome first (second ∷ others) r
  given-Outcome first second others (ok r) u same = accepted-Merged first second others r u same
  given-Outcome first second others (err e) u same =
      λ m. (let (r, good) = Mergeable-merge_sessions first second others m in cc (same, good))

  -- A deduplicated merge of at least two sources, none of which has two messages of one number, fails
  -- only where they cannot be merged: two of them have the same id, one differs from the first in
  -- transport, policy or redaction keys, or a running sum of their dropped messages does not fit in 64
  -- bits. Else they can be merged, and the rows, which are numbered from zero without a gap, are those of
  -- the sources in their order with some left out: all that are neither a request of the client nor a
  -- response of the server are there; of the client requests that can be compared no two are the same,
  -- and each of the sources is the same as one of them; and with the number of calls that is reported as
  -- removed they make up those of the sources.
  pub merge_sessions-Outcome :
      (first second : Source) (others : List Source)
      → All Unique (messages_of (first ∷ (second ∷ others)))
      → Outcome first (second ∷ others) (merge_sessions codec (first ∷ (second ∷ others)) true)
  merge_sessions-Outcome first second others u = given-Outcome first second others _ u refl
