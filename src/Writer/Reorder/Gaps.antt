-- ===== src/Writer/Reorder/Gaps.antt =====
-- What the reorder buffer releases and keeps.
use mcptracer.Common.{
  ℕ, ◌≤◌, ◌<◌, max, Bool, true, false, not, ◌&&◌, ◌||◌, ◌≡◌, refl, ap, List, [], ◌∷◌, ◌++◌, map,
  length, ltb, arith, Bool-cases, inl, inr,
}
use mcptracer.Protocol.Message.{McpMessage}
use mcptracer.Writer.Pump.{saturating_add}
use mcptracer.Writer.Reorder.{
  Entry, Reorder, storage_reorder_max_messages, waits, loses_context, released, release_from,
  release,
}

-- No released number skips one that was not seen yet.
abbrev pub NoGap : ℕ → List McpMessage → Type 0
NoGap n [] = Unit
NoGap n (m ∷ ms) = (m.seq ≤ n) × NoGap (max n (saturating_add m.seq 1)) ms

-- The first entry that stays, if any, is ahead of the next number, and the session is not closing.
abbrev pub rests : Bool → Reorder → Bool
rests closing s = elim s.pending [
  | [] ↦ true
  | e ∷ es ↦ ltb s.next_seq e.message.seq && not closing
]

abbrev pub messages : List Entry → List McpMessage
messages = map (λ (e : Entry). e.message)

-- What a run of the loop leaves.
abbrev Released : Bool → List Entry → List McpMessage × Reorder → Type 0
Released closing es (out, t) =
    (messages es ≡ out ++ messages t.pending)
    × (length t.pending < storage_reorder_max_messages)
    × (rests closing t ≡ true)

waits_room :
    (closing : Bool) (s : Reorder) (e : Entry) (es : List Entry)
    → waits closing s e es ≡ true
    → length (e ∷ es) < storage_reorder_max_messages
waits_room closing s e es w = ground arith

waits_ahead :
    (closing : Bool) (s : Reorder) (e : Entry) (es : List Entry)
    → waits closing s e es ≡ true
    → (ltb s.next_seq e.message.seq && not closing) ≡ true
waits_ahead closing s e es w = ground arith

waiting-Released :
    (closing : Bool) (s : Reorder) (e : Entry) (es : List Entry)
    → s.pending ≡ e ∷ es
    → waits closing s e es ≡ true
    → Released closing (e ∷ es) ([], s)
waiting-Released closing s e es p w =
    rw (p, rests) (refl, waits_room closing s e es w, waits_ahead closing s e es w)

release_from-Released :
    (closing : Bool) (es : List Entry) (s : Reorder)
    → s.pending ≡ es
    → Released closing es (release_from closing es s)
unfolding release_from released
release_from-Released closing [] s p = rw (p, rests) (refl, omega arith, refl)
release_from-Released closing (e ∷ es) s p =
    let rest = release_from-Released closing es (released s e es) refl in
    elim (Bool-cases (waits closing s e es)) [
      | inl w ↦ rw w (waiting-Released closing s e es p w)
      | inr w ↦ rw w (ap (λ (l : List McpMessage). e.message ∷ l) rest.0, rest.1, rest.2)
    ]

pub release_from-reports :
    (closing : Bool) (es : List Entry) (s : Reorder)
    → s.context_loss_reported ≡ true
    → (release_from closing es s).1.context_loss_reported ≡ true
unfolding release_from released
release_from-reports closing [] s h = h
release_from-reports closing (e ∷ es) s h =
    let later = release_from-reports closing es (released s e es) in
    elim (Bool-cases (waits closing s e es)) [ inl w ↦ rw w h | inr w ↦ rw w (later (rw h refl)) ]

in_turn :
    (s : Reorder) (e : Entry) (es : List Entry)
    → waits false s e es ≡ false
    → (s.context_loss_reported || loses_context s e es) ≡ false
    → e.message.seq ≤ s.next_seq
in_turn s e es w h = ground arith

release_from-NoGap :
    (es : List Entry) (s : Reorder)
    → (release_from false es s).1.context_loss_reported ≡ false
    → NoGap s.next_seq (release_from false es s).0
unfolding release_from released
release_from-NoGap [] s h = tt
release_from-NoGap (e ∷ es) s h =
    let later = release_from-NoGap es (released s e es) in
    elim (Bool-cases (waits false s e es)) [
      | inl w ↦ rw w tt
      | inr w ↦
          let k = rw w at h in
          elim (Bool-cases (s.context_loss_reported || loses_context s e es)) [
            | inl r ↦ absurd (cc (k, release_from-reports false es (released s e es) r))
            | inr r ↦ rw w (in_turn s e es w r, later k)
          ]
    ]

-- A run of the loop releases a prefix of the buffer in its order and keeps the rest; it keeps fewer
-- than 4096 entries, none where the session is closing, and the first that it keeps is ahead of the
-- next number.
pub release-Released :
    (closing : Bool) (s : Reorder)
    → (messages s.pending ≡ (release closing s).0 ++ messages (release closing s).1.pending)
      × (length (release closing s).1.pending < storage_reorder_max_messages)
      × (rests closing (release closing s).1 ≡ true)
unfolding release
release-Released closing s = release_from-Released closing s.pending s refl

-- Where the session is not closing and no loss of context is reported after a run of the loop, each
-- released number is at most the next one expected at its turn: none was released ahead of a gap.
pub release-NoGap :
    (s : Reorder)
    → (release false s).1.context_loss_reported ≡ false
    → NoGap s.next_seq (release false s).0
unfolding release
release-NoGap s h = release_from-NoGap s.pending s h
