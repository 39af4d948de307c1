-- ===== src/Writer/Budget.antt =====
-- crates/mcptracer-proxy/src/session_writer.rs: the byte budget of the storage queue. Two pumps
-- reserve and the writer releases, on one atomic counter: each atomic operation is one step, in any
-- order. `compare_exchange_weak` may fail at any time, and then gives the value it saw.
pub mod Safe
use Prim.Native.Nat.{◌%◌}
use mcptracer.Common.{
  ℕ, ◌+◌, ◌-◌, ◌≤◌, ◌<◌, Bool, true, false, ◌≡◌, Option, none, some, List, [], ◌∷◌, ◌++◌, ltb, leb,
  ◌^◌, if◌then◌else◌, get_elem?, set,
}

-- `self.max_bytes.checked_sub(bytes)`
abbrev pub checked_sub : ℕ → ℕ → Option ℕ
checked_sub a b = if leb b a then some (a - b) else none

-- `let Some(limit) = … else { return false }`, and `if current > limit { return false }`: the new
-- counter that the loop tries to write, or none where it gives up.
unfoldable pub attempt : ℕ → ℕ → ℕ → Option ℕ
attempt max_bytes bytes current = elim (checked_sub max_bytes bytes) [
  | none ↦ none
  | some limit ↦ if ltb limit current then none else some (current + bytes)
]

-- A thread inside `try_reserve`, a reservation that is held, or nothing.
pub data Thread : Type 0 where
  idle : Thread
  -- after the load, or after a failed exchange: the value observed
  trying : ℕ → ℕ → Thread
  -- the bytes of its reservation
  holding : ℕ → Thread
  refused : Thread

pub record Queue : Type 0 where
  pub queued_bytes : ℕ
  pub threads : List Thread

-- The bytes that are reserved.
abbrev pub held : Thread → ℕ
held (holding n) = n
held _ = 0

abbrev pub held_all : List Thread → ℕ
held_all [] = 0
held_all (t ∷ ts) = held t + held_all ts

-- One atomic step of thread `i`.
pub data Step (max_bytes : ℕ) (q r : Queue) : Type 0 where
  -- `self.queued_bytes.load`
  load :
      (i bytes : ℕ)
      → get_elem? q.threads i ≡ some idle
      → r ≡ record q { threads = set q.threads i (trying bytes q.queued_bytes) }
      → Step max_bytes q r
  -- `return false`
  refuse :
      (i bytes current : ℕ)
      → get_elem? q.threads i ≡ some (trying bytes current)
      → attempt max_bytes bytes current ≡ none
      → r ≡ record q { threads = set q.threads i refused }
      → Step max_bytes q r
  -- the exchange succeeds: the counter still has the value observed
  exchange :
      (i bytes current next : ℕ)
      → get_elem? q.threads i ≡ some (trying bytes current)
      → attempt max_bytes bytes current ≡ some next
      → q.queued_bytes ≡ current
      → r ≡ record { queued_bytes = next; threads = set q.threads i (holding bytes) }
      → Step max_bytes q r
  -- the exchange fails, also where the counter has the value observed
  retry :
      (i bytes current next : ℕ)
      → get_elem? q.threads i ≡ some (trying bytes current)
      → attempt max_bytes bytes current ≡ some next
      → r ≡ record q { threads = set q.threads i (trying bytes q.queued_bytes) }
      → Step max_bytes q r
  -- `QueueReservation` is dropped: `fetch_sub`, which wraps at zero
  release :
      (i bytes : ℕ)
      → get_elem? q.threads i ≡ some (holding bytes)
      → r ≡ record {
        queued_bytes = (q.queued_bytes + 2 ^ 64 - bytes) % 2 ^ 64;
        threads = set q.threads i idle;
      }
      → Step max_bytes q r

pub data Reach (max_bytes : ℕ) (q : Queue) : Queue → Type 0 where
  here : Reach max_bytes q q
  next : {r s : Queue} → Reach max_bytes q r → Step max_bytes r s → Reach max_bytes q s
