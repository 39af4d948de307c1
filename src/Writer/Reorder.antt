-- ===== src/Writer/Reorder.antt =====
-- crates/mcptracer-proxy/src/session_writer.rs: the reorder buffer of the storage writer. The ordered
-- map is its entries in ascending order of number and arrival; a reservation moves with its message
-- and is left out. The writer calls `take_in` for the messages of a batch and then `release`.
pub mod Gaps
use Prim.Native.Nat.{◌%◌}
use mcptracer.Common.{
  ℕ, suc, ◌^◌, ◌-◌, ◌+◌, max, Bool, true, false, not, ◌&&◌, ◌||◌, List, [], ◌∷◌, length, leb, ltb,
  ◌==◌, if◌then◌else◌,
}
use mcptracer.Common.Sort.{insert_sorted}
use mcptracer.Protocol.Message.{McpMessage}
use mcptracer.Writer.Pump.{saturating_add}

pub record Entry : Type 0 where
  pub arrived : ℕ
  pub message : McpMessage

pub record Reorder : Type 0 where
  pub pending : List Entry
  pub next_seq : ℕ
  pub arrival : ℕ
  pub failed_message_records : ℕ
  pub context_loss_reported : Bool

abbrev pub storage_reorder_max_messages : ℕ
storage_reorder_max_messages = 4096

-- The order of the keys of the map.
abbrev pub entry_le : Entry → Entry → Bool
entry_le a b =
    ltb a.message.seq b.message.seq || (a.message.seq == b.message.seq && leb a.arrived b.arrived)

unfoldable pub take_in : List McpMessage → Reorder → Reorder
take_in [] s = s
take_in (m ∷ ms) s = take_in ms (record s {
  pending = insert_sorted entry_le (record { arrived = s.arrival; message = m }) s.pending;
  arrival = (s.arrival + 1) % 2 ^ 64;
})

-- The first entry stays: its number is ahead, the session is not closing and there is room.
abbrev pub waits : Bool → Reorder → Entry → List Entry → Bool
waits closing s e es =
    ltb s.next_seq e.message.seq
    && (not closing && not (leb storage_reorder_max_messages (length (e ∷ es))))

-- An entry ahead of its turn leaves for want of room, and that was not reported.
abbrev pub loses_context : Reorder → Entry → List Entry → Bool
loses_context s e es =
    ltb s.next_seq e.message.seq
    && (leb storage_reorder_max_messages (length (e ∷ es)) && not s.context_loss_reported)

unfoldable pub released : Reorder → Entry → List Entry → Reorder
released s e es =
    let lost = loses_context s e es in
    record s {
      pending = es;
      next_seq = max s.next_seq (saturating_add e.message.seq 1);
      failed_message_records =
          if lost then saturating_add s.failed_message_records 1 else s.failed_message_records;
      context_loss_reported = s.context_loss_reported || lost;
    }

-- The entries, apart for the recursion, are those of the state.
unfoldable pub release_from : Bool → List Entry → Reorder → List McpMessage × Reorder
release_from closing [] s = ([], s)
release_from closing (e ∷ es) s =
    let (out, t) = release_from closing es (released s e es) in
    if waits closing s e es then ([], s) else (e.message ∷ out, t)

unfoldable pub release : Bool → Reorder → List McpMessage × Reorder
release closing s = release_from closing s.pending s
