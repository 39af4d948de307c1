-- ===== src/Writer/Budget/Safe.antt =====
-- The counter of the queue is the sum of the reservations held, and never passes its maximum.
use mcptracer.Common.{
  ℕ, zero, suc, ◌+◌, ◌≤◌, ◌<◌, ◌^◌, ◌≡◌, some, List, [], ◌∷◌, arith, get_elem?, set,
}
use mcptracer.Writer.Budget.{
  attempt, Thread, idle, trying, holding, refused, Queue, held, held_all, Step, load, refuse,
  exchange, retry, release, Reach, here, next,
}

pub record IsSafe (max_bytes : ℕ) (q : Queue) : Type 0 where
  pub accounted : q.queued_bytes ≡ held_all q.threads
  pub within : q.queued_bytes ≤ max_bytes

held_all-set :
    (ts : List Thread) (i : ℕ) (t u : Thread)
    → get_elem? ts i ≡ some t
    → held_all (set ts i u) + held t ≡ held_all ts + held u
held_all-set [] i t u h = cc
held_all-set (x ∷ ts) zero t u h = ground arith
held_all-set (x ∷ ts) (suc i) t u h = omega (arith, held_all-set ts i t u h)

Step-IsSafe :
    (max_bytes : ℕ) {q r : Queue}
    → max_bytes < 2 ^ 64
    → Step max_bytes q r
    → IsSafe max_bytes q
    → IsSafe max_bytes r
unfolding attempt
Step-IsSafe m {q} {r} w (load i b h e) s =
    ground (arith, held_all-set q.threads i idle (trying b q.queued_bytes) h)
Step-IsSafe m {q} {r} w (refuse i b c h a e) s =
    ground (arith, held_all-set q.threads i (trying b c) refused h)
Step-IsSafe m {q} {r} w (exchange i b c n h a x e) s =
    ground (arith, held_all-set q.threads i (trying b c) (holding b) h)
Step-IsSafe m {q} {r} w (retry i b c n h a e) s =
    ground (arith, held_all-set q.threads i (trying b c) (trying b q.queued_bytes) h)
Step-IsSafe m {q} {r} w (release i b h e) s =
    ground (arith, held_all-set q.threads i (holding b) idle h)

-- From a queue whose counter is the sum of the reservations held and within its maximum, which fits
-- the machine word, every interleaving of reserving and releasing threads keeps it so: no update is
-- lost, the counter never wraps, and the reserved bytes never pass the maximum.
pub Reach-IsSafe :
    (max_bytes : ℕ) {q r : Queue}
    → max_bytes < 2 ^ 64
    → IsSafe max_bytes q
    → Reach max_bytes q r
    → IsSafe max_bytes r
Reach-IsSafe m w s here = s
Reach-IsSafe m w s (next a b) = Step-IsSafe m w b (Reach-IsSafe m w s a)
