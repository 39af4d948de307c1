-- ===== src/Model/Stats/Laws.antt =====
-- The aggregates agree with the exchanges they are computed from.
use mcptracer.Common.{
  ℕ, suc, ◌+◌, ◌<◌, ℤ, leb_ℤ, Bool, true, false, ◌≡◌, refl, ◌∙◌, List, [], ◌∷◌, arith, length,
  count, get_elem?, zero,
}
use mcptracer.Common.Sort.{sort, insert_sorted}
use mcptracer.Json.{is_some}
use mcptracer.Model.Session.{
  ExchangeStatus, ok, error, tool_error, subscribed, cancelled, unanswered, orphan_response,
  Exchange, NotificationEvent, SessionStats,
}
use mcptracer.Model.Stats.{
  Ranks, initial, tally, tally_all, percentile, latencies, last, compute_stats,
}

abbrev pub is_status : (ExchangeStatus → Bool) → Exchange → Bool
is_status p e = p e.status

abbrev pub counts_ok : ExchangeStatus → Bool
counts_ok ok = true
counts_ok subscribed = true
counts_ok _ = false

abbrev pub counts_error : ExchangeStatus → Bool
counts_error error = true
counts_error tool_error = true
counts_error _ = false

abbrev pub counts_cancelled : ExchangeStatus → Bool
counts_cancelled cancelled = true
counts_cancelled _ = false

abbrev pub counts_unanswered : ExchangeStatus → Bool
counts_unanswered unanswered = true
counts_unanswered _ = false

abbrev pub counts_orphan : ExchangeStatus → Bool
counts_orphan orphan_response = true
counts_orphan _ = false

-- The five counters of `stats` over those of `before`.
record Tallied (before after : SessionStats) (es : List Exchange) : Type 0 where
  ok_is : after.ok_count ≡ before.ok_count + count (is_status counts_ok) es
  error_is : after.errors ≡ before.errors + count (is_status counts_error) es
  cancelled_is :
      after.cancelled_count ≡ before.cancelled_count + count (is_status counts_cancelled) es
  unanswered_is :
      after.unanswered_count ≡ before.unanswered_count + count (is_status counts_unanswered) es
  orphan_is : after.orphan_responses ≡ before.orphan_responses + count (is_status counts_orphan) es
  total_is : after.total_exchanges ≡ before.total_exchanges
  notifications_is : after.notifications ≡ before.notifications

tally-Tallied : (s : SessionStats) (e : Exchange) → Tallied s (tally s e.status) (e ∷ [])
unfolding tally
tally-Tallied s e = ground arith

tally_all-Tallied : (s : SessionStats) (es : List Exchange) → Tallied s (tally_all s es) es
unfolding tally_all
tally_all-Tallied s [] = ground arith
tally_all-Tallied s (e ∷ es) =
    let a = tally-Tallied s e in
    let b = tally_all-Tallied (tally s e.status) es in
    record {
      ok_is = omega (arith, a.ok_is, b.ok_is);
      error_is = omega (arith, a.error_is, b.error_is);
      cancelled_is = omega (arith, a.cancelled_is, b.cancelled_is);
      unanswered_is = omega (arith, a.unanswered_is, b.unanswered_is);
      orphan_is = omega (arith, a.orphan_is, b.orphan_is);
      total_is = omega (arith, a.total_is, b.total_is);
      notifications_is = omega (arith, a.notifications_is, b.notifications_is);
    }

statuses_partition :
    (es : List Exchange)
    → count (is_status counts_ok) es
        + count (is_status counts_error) es
        + count (is_status counts_cancelled) es
        + count (is_status counts_unanswered) es
        + count (is_status counts_orphan) es
      ≡ length es
statuses_partition [] = refl
statuses_partition (e ∷ es) = ground (arith, statuses_partition es)

-- Each counter is the number of exchanges with the statuses it stands for, and together they are
-- all exchanges.
pub compute_stats-counts :
    (ranks : Ranks) (es : List Exchange) (ns : List NotificationEvent)
    → ((compute_stats ranks es ns).ok_count ≡ count (is_status counts_ok) es)
      × ((compute_stats ranks es ns).errors ≡ count (is_status counts_error) es)
      × ((compute_stats ranks es ns).cancelled_count ≡ count (is_status counts_cancelled) es)
      × ((compute_stats ranks es ns).unanswered_count ≡ count (is_status counts_unanswered) es)
      × ((compute_stats ranks es ns).orphan_responses ≡ count (is_status counts_orphan) es)
      × ((compute_stats ranks es ns).total_exchanges
          ≡ (compute_stats ranks es ns).ok_count
            + (compute_stats ranks es ns).errors
            + (compute_stats ranks es ns).cancelled_count
            + (compute_stats ranks es ns).unanswered_count
            + (compute_stats ranks es ns).orphan_responses)
unfolding compute_stats
compute_stats-counts ranks es ns =
    let t = tally_all-Tallied (initial (length es) (length ns)) es in
    (
      omega (arith, t.ok_is),
      omega (arith, t.error_is),
      omega (arith, t.cancelled_is),
      omega (arith, t.unanswered_is),
      omega (arith, t.orphan_is),
      omega (
        arith,
        t.ok_is,
        t.error_is,
        t.cancelled_is,
        t.unanswered_is,
        t.orphan_is,
        t.total_is,
        statuses_partition es,
      ),
    )

abbrev pub has_any : List ℤ → Bool
has_any [] = false
has_any (x ∷ xs) = true

get_elem?-some : (xs : List ℤ) (i : ℕ) → i < length xs → is_some (get_elem? xs i) ≡ true
get_elem?-some [] i h = elim h [ ]
get_elem?-some (x ∷ xs) zero h = refl
get_elem?-some (x ∷ xs) (suc i) h = get_elem?-some xs i (omega arith)

percentile-some : (rank : ℕ → ℕ) (xs : List ℤ) → is_some (percentile rank xs) ≡ has_any xs
unfolding percentile
percentile-some rank [] = refl
percentile-some rank (x ∷ xs) = get_elem?-some (x ∷ xs) _ (omega arith)

last-some : (xs : List ℤ) → is_some (last xs) ≡ has_any xs
last-some [] = refl
last-some (x ∷ []) = refl
last-some (x ∷ y ∷ ys) = last-some (y ∷ ys)

insert_sorted-has_any : (x : ℤ) (xs : List ℤ) → has_any (insert_sorted leb_ℤ x xs) ≡ true
unfolding insert_sorted
insert_sorted-has_any x [] = refl
insert_sorted-has_any x (y ∷ ys) = ground arith

sort-has_any : (xs : List ℤ) → has_any (sort leb_ℤ xs) ≡ has_any xs
unfolding sort
sort-has_any [] = refl
sort-has_any (x ∷ xs) = insert_sorted-has_any x (sort leb_ℤ xs)

-- Whatever ranks the float computation gives, no percentile reads past the latencies: the two
-- percentiles and the maximum are there exactly when some exchange has a latency.
pub compute_stats-latency :
    (ranks : Ranks) (es : List Exchange) (ns : List NotificationEvent)
    → (is_some (compute_stats ranks es ns).latency_p50_ns ≡ has_any (latencies es))
      × (is_some (compute_stats ranks es ns).latency_p95_ns ≡ has_any (latencies es))
      × (is_some (compute_stats ranks es ns).latency_max_ns ≡ has_any (latencies es))
unfolding compute_stats
compute_stats-latency ranks es ns =
    let sorted = sort leb_ℤ (latencies es) in
    let kept = sort-has_any (latencies es) in
    (
      percentile-some ranks.p50 sorted ∙ kept,
      percentile-some ranks.p95 sorted ∙ kept,
      last-some sorted ∙ kept,
    )
