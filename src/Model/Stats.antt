-- ===== src/Model/Stats.antt =====
-- crates/mcptracer-model/src/lib.rs: `compute_stats` and `percentile`. The float computation of a
-- rank, `(p * n as f64).ceil() as usize`, is the parameter `Ranks`, one function for each `p` used.
pub mod Laws
pub mod Tools
use mcptracer.Common.{
  ℕ, ◌+◌, ◌-◌, ℤ, leb_ℤ, min, String, Bool, true, false, Option, none, some, List, [], ◌∷◌, length,
  codes, str_eq, get_elem?, text_le, ltb, ◌==◌, if◌then◌else◌,
}
use mcptracer.Common.Sort.{sort}
use mcptracer.Model.Session.{
  ExchangeStatus, ok, error, tool_error, subscribed, cancelled, unanswered, orphan_response,
  Exchange, NotificationEvent, SessionStats,
}

pub record Ranks : Type 0 where
  pub p50 : ℕ → ℕ
  pub p95 : ℕ → ℕ

-- `Default`, with the two counts that are known at once.
abbrev pub initial : ℕ → ℕ → SessionStats
initial exchanges notifications = record {
  total_exchanges = exchanges;
  ok_count = 0;
  errors = 0;
  unanswered_count = 0;
  cancelled_count = 0;
  orphan_responses = 0;
  notifications = notifications;
  latency_p50_ns = none;
  latency_p95_ns = none;
  latency_max_ns = none;
  tool_call_counts = [];
}

unfoldable pub tally : SessionStats → ExchangeStatus → SessionStats
tally stats ok = record stats { ok_count = stats.ok_count + 1 }
tally stats subscribed = record stats { ok_count = stats.ok_count + 1 }
tally stats error = record stats { errors = stats.errors + 1 }
tally stats tool_error = record stats { errors = stats.errors + 1 }
tally stats cancelled = record stats { cancelled_count = stats.cancelled_count + 1 }
tally stats unanswered = record stats { unanswered_count = stats.unanswered_count + 1 }
tally stats orphan_response = record stats { orphan_responses = stats.orphan_responses + 1 }

unfoldable pub tally_all : SessionStats → List Exchange → SessionStats
tally_all stats [] = stats
tally_all stats (e ∷ es) = tally_all (tally stats e.status) es

unfoldable pub latencies : List Exchange → List ℤ
latencies [] = []
latencies (e ∷ es) =
    let rest = latencies es in elim e.latency_ns [ none ↦ rest | some l ↦ l ∷ rest ]

-- `*tool_counts.entry(tool).or_insert(0) += 1`
unfoldable pub bump : String → List (String × ℕ) → List (String × ℕ)
bump tool [] = (tool, 1) ∷ []
bump tool ((name, n) ∷ counts) =
    let rest = bump tool counts in
    if str_eq name tool then (name, n + 1) ∷ counts else (name, n) ∷ rest

unfoldable pub tool_counts : List (String × ℕ) → List Exchange → List (String × ℕ)
tool_counts counts [] = counts
tool_counts counts (e ∷ es) =
    tool_counts (elim e.tool_name [ none ↦ counts | some tool ↦ bump tool counts ]) es

-- By count, the larger first, and then by name.
abbrev pub by_count : String × ℕ → String × ℕ → Bool
by_count (a, n) (b, m) =
    if ltb m n then true else if n == m then text_le (codes a) (codes b) else false

unfoldable pub percentile : (ℕ → ℕ) → List ℤ → Option ℤ
percentile rank [] = none
percentile rank (x ∷ xs) = let n = length (x ∷ xs) in get_elem? (x ∷ xs) (min (rank n - 1) (n - 1))

-- `latencies.last().copied()`
abbrev pub last : List ℤ → Option ℤ
last [] = none
last (x ∷ []) = some x
last (x ∷ y ∷ ys) = last (y ∷ ys)

unfoldable pub compute_stats : Ranks → List Exchange → List NotificationEvent → SessionStats
compute_stats ranks exchanges notifications =
    let sorted = sort leb_ℤ (latencies exchanges) in
    record (tally_all (initial (length exchanges) (length notifications)) exchanges) {
      latency_p50_ns = percentile ranks.p50 sorted;
      latency_p95_ns = percentile ranks.p95 sorted;
      latency_max_ns = last sorted;
      tool_call_counts = sort by_count (tool_counts [] exchanges);
    }
