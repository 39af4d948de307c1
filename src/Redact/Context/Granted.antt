-- ===== src/Redact/Context/Granted.antt =====
-- Every message keeps the tracker sound, and only answers get the exception.
use mcptracer.Common.{
  ◌≤◌, ◌≡◌, refl, sym, ◌∙◌, Bool, true, false, not, ◌||◌, some, List, [], ◌∷◌, length,
  if◌then◌else◌, All, arith, inl, inr, Bool-cases, Option-cases, ap,
}
use mcptracer.Json.{Value, get, is_string, is_number, is_some}
use mcptracer.Redact.Walk.{RedactionContext, runtime, tool_list_response}
use mcptracer.Redact.Context.{
  Texts, Key, key_eq, Tracker, max_pending_list_requests, after_gap, responder_of, too_long,
  observe_id, observe_side, observe,
}
use mcptracer.Redact.Context.Answers.{
  Seen, track, uses, IsTracked, Kept, Kept-after_gap, unused, used, not-not, request-IsTracked,
  response-IsTracked, IsAnswer, response-IsAnswer,
}

module _ (texts : Texts) (m : Seen) (ms : List Seen) where
  -- The whole step: the tracker and what a grant says.
  abbrev Observed : RedactionContext × Tracker → Type 0
  Observed r = IsTracked texts (m ∷ ms) r.1 × (r.0 ≡ tool_list_response → IsAnswer texts m ms)

  unused-Observed :
      (u : Tracker) (lost : Bool)
      → u.previous_seq ≡ some m.seq
      → length u.pending ≤ max_pending_list_requests
      → All (Kept texts m ms) u.pending
      → ((k : Key) → uses texts m k ≡ false)
      → Observed (runtime, record u { lost_context = lost })
  unused-Observed u lost p b h n =
      (record { previous = p; sources = unused texts m ms u.pending n h; bounded = b }, λ g. cc)

  uses-key :
      (responder : Bool) (i : Value) (k : Key)
      → responder_of m.direction ≡ some responder
      → get m.payload "id" ≡ some i
      → (is_string i || is_number i) ≡ true
      → too_long texts i ≡ false
      → uses texts m k
        ≡ key_eq
            (record {
              responder = if is_some (get m.payload "method") then not responder else responder;
              encoded = texts.to_string i;
            })
            k
  unfolding uses
  uses-key responder i k d e v l = rw (d, e, v, l, uses) refl

  observe_id-Observed :
      (u : Tracker) (responder : Bool) (i : Value)
      → u.previous_seq ≡ some m.seq
      → length u.pending ≤ max_pending_list_requests
      → All (Kept texts m ms) u.pending
      → responder_of m.direction ≡ some responder
      → get m.payload "id" ≡ some i
      → (is_string i || is_number i) ≡ true
      → Observed (observe_id texts u responder m.payload i)
  unfolding observe_id uses
  observe_id-Observed u responder i p b h d e v = elim (Bool-cases (too_long texts i)) [
    | inl l ↦ rw (l, observe_id) (unused-Observed u _ p b h (λ k. rw (d, e, v, l, uses) refl))
    | inr l ↦ elim (Bool-cases (is_some (get m.payload "method"))) [
      | inl k ↦
          rw (l, k, observe_id)
            (
              request-IsTracked texts m ms u _ _ p b
                  (used texts m ms _ u.pending (λ j. uses-key responder i j d e v l ∙ rw k refl) h)
                  (λ r. record {
                    request_id = i;
                    to_side = d ∙ ap some (sym (not-not responder));
                    lists = r;
                    has_id = e;
                    id_text = refl;
                  }),
              λ g. cc,
            )
      | inr k ↦
          rw (l, k, observe_id)
            (
              response-IsTracked texts m ms u _ p b
                  (used texts m ms _ u.pending (λ j. uses-key responder i j d e v l ∙ rw k refl) h),
              response-IsAnswer texts m ms u responder i d e k h,
            )
    ]
  ]

  observe_side-Observed :
      (u : Tracker) (responder : Bool)
      → u.previous_seq ≡ some m.seq
      → length u.pending ≤ max_pending_list_requests
      → All (Kept texts m ms) u.pending
      → responder_of m.direction ≡ some responder
      → Observed (observe_side texts u responder m.payload)
  unfolding observe_side uses
  observe_side-Observed u responder p b h d = elim (Option-cases (get m.payload "id")) [
    | inl e ↦ rw (e, observe_side) (unused-Observed u _ p b h (λ k. rw (d, e, uses) refl))
    | inr (i, e) ↦ elim (Bool-cases (is_string i || is_number i)) [
      | inl v ↦ rw (e, v, observe_side) (observe_id-Observed u responder i p b h d e v)
      | inr v ↦ rw (e, v, observe_side) (unused-Observed u _ p b h (λ k. rw (d, e, v, uses) refl))
    ]
  ]

  after_gap-bounded :
      (t : Tracker)
      → length t.pending ≤ max_pending_list_requests
      → length (after_gap t m.seq).pending ≤ max_pending_list_requests
  unfolding after_gap
  after_gap-bounded t b = ground arith

  observe-Observed :
      (t : Tracker) → IsTracked texts ms t → Observed (observe texts t m.seq m.direction m.payload)
  unfolding observe after_gap
  observe-Observed t h =
      let b = after_gap-bounded t h.bounded in
      let k = Kept-after_gap texts m ms t h.previous h.sources in
      elim (Option-cases (responder_of m.direction)) [
        | inl d ↦
            rw (d, observe)
              (record { previous = refl; sources = tt; bounded = omega arith }, λ g. cc)
        | inr (r, d) ↦ rw (d, observe) (observe_side-Observed (after_gap t m.seq) r refl b k d)
      ]

track-IsTracked :
    (texts : Texts) (history : List Seen) → IsTracked texts history (track texts history)
track-IsTracked texts [] = record { previous = refl; sources = tt; bounded = omega arith }
track-IsTracked texts (m ∷ ms) =
    (observe-Observed texts m ms (track texts ms) (track-IsTracked texts ms)).0

-- After any history from the default tracker, a message is given the tools/list exception only as an
-- answer without a method and without an error, whose id an earlier tools/list request in the other
-- direction has; and from that request on no message used that id toward the same side and the
-- numbers have no gap.
pub observe-IsAnswer :
    (texts : Texts) (m : Seen) (history : List Seen)
    → (observe texts (track texts history) m.seq m.direction m.payload).0 ≡ tool_list_response
    → IsAnswer texts m history
observe-IsAnswer texts m history g =
    (observe-Observed texts m history (track texts history) (track-IsTracked texts history)).1 g

-- After any history from the default tracker, at most 4096 requests are pending.
pub track-bounded :
    (texts : Texts) (history : List Seen) → length (track texts history).pending ≤ 4096
track-bounded texts history = (track-IsTracked texts history).bounded
