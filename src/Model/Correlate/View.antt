-- ===== src/Model/Correlate/View.antt =====
-- What `correlate` promises of a recorded session.
use mcptracer.Common.{
  ℕ, String, true, false, ◌≡◌, sym, ◌∙◌, inl, inr, Option, none, some, List, [], ◌∷◌, ◌++◌, arith,
  count, All, Option-cases, append-nil, append_assoc, if◌then◌else◌, eq_iff,
}
use mcptracer.Common.Sort.Laws.{All-sort, count-sort, Ascending, sort-Ascending}
use mcptracer.Json.{Codec}
use mcptracer.Protocol.Message.{Direction, from_db_str}
use mcptracer.Model.Session.{
  StoredMessage, NotificationEvent, is_request_kind, is_response_kind, is_notification_kind,
}
use mcptracer.Model.Stats.{Ranks}
use mcptracer.Model.Correlate.Sound.{IsSound}
use mcptracer.Model.Correlate.Loop.{run_lem}
use mcptracer.Model.Correlate.Counts.{
  request_at, response_at, recorded_request, recorded_response, run-counts,
}
use mcptracer.Model.Correlate.{
  Correlation, empty, on_request, on_response, on_cancelled, on_acknowledged, note_cancelled,
  note_acknowledged, event, on_notification, on_message, step, run, sort_key, by_key, correlate,
}

-- Every exchange of the model is a pair of recorded messages that belong together, or one side of
-- it: its request and its response stand in the session, they carry its id, they travel in opposite
-- directions, its status tells which of the two it has, and its latency is the time between them, where
-- that fits in 64 bits, and else its remainder in 64 bits.
pub correlate-IsSound :
    (codec : Codec) (ranks : Ranks) (messages : List StoredMessage)
    → All (IsSound messages) (correlate codec ranks messages).exchanges
unfolding correlate
correlate-IsSound codec ranks messages =
    All-sort by_key (IsSound messages) _ (run_lem codec messages).sound

-- No request or response is lost or counted twice: of each number the model has as many exchanges
-- with that request as the session has requests with it and a known direction, and likewise for
-- responses.
pub correlate-counts :
    (codec : Codec) (ranks : Ranks) (messages : List StoredMessage) (s : ℕ)
    → (count (request_at s) (correlate codec ranks messages).exchanges
        ≡ count (recorded_request s) messages)
      × (count (response_at s) (correlate codec ranks messages).exchanges
          ≡ count (recorded_response s) messages)
unfolding correlate
correlate-counts codec ranks messages s =
    let (a, b) = run-counts codec s messages in
    (count-sort by_key (request_at s) _ ∙ a, count-sort by_key (response_at s) _ ∙ b)

-- The recorded notifications, in order.
abbrev pub note : Option Direction → StoredMessage → List NotificationEvent → List NotificationEvent
note none m rest = rest
note (some dir) m rest = if is_notification_kind m.message_kind then event dir m ∷ rest else rest

abbrev pub recorded_notifications : List StoredMessage → List NotificationEvent
recorded_notifications [] = []
recorded_notifications (m ∷ ms) = note (from_db_str m.direction) m (recorded_notifications ms)

module _ (codec : Codec) where
  on_response-notifications :
      (c : Correlation) (dir : Direction) (m : StoredMessage)
      → (on_response codec c dir m).notifications ≡ c.notifications
  unfolding on_response
  on_response-notifications c dir m = ground arith

  note_cancelled-notifications :
      (c : Correlation) (dir : Direction) (m : StoredMessage)
      → (note_cancelled codec c dir m).notifications ≡ c.notifications
  unfolding note_cancelled on_cancelled
  note_cancelled-notifications c dir m = ground arith

  note_acknowledged-notifications :
      (c : Correlation) (dir : Direction) (m : StoredMessage)
      → (note_acknowledged codec c dir m).notifications ≡ c.notifications
  unfolding note_acknowledged on_acknowledged
  note_acknowledged-notifications c dir m = ground arith

  not_notification : (k : String) → is_request_kind k ≡ true → is_notification_kind k ≡ false
  not_notification k h = rw ((eq_iff k "request").0 h)

  not_notification_response :
      (k : String) → is_response_kind k ≡ true → is_notification_kind k ≡ false
  not_notification_response k h = rw ((eq_iff k "response").0 h)

  noted : List NotificationEvent → List StoredMessage → List NotificationEvent
  noted events ms = events ++ recorded_notifications ms

  step-noted :
      (c : Correlation) (m : StoredMessage) (ms : List StoredMessage)
      → noted (step codec c m).notifications ms ≡ noted c.notifications (m ∷ ms)
  unfolding step on_message on_notification on_request noted
  step-noted c m ms = elim (Option-cases (from_db_str m.direction)) [
    | inl q ↦ rw (q, step, noted)
    | inr (dir, q) ↦
        rw (q, step)
          (ground (
            arith,
            on_response-notifications c dir m,
            note_acknowledged-notifications (note_cancelled codec c dir m) dir m,
            note_cancelled-notifications c dir m,
            not_notification m.message_kind,
            not_notification_response m.message_kind,
            append_assoc c.notifications (event dir m ∷ []) (recorded_notifications ms),
          ))
  ]

  run-noted :
      (c : Correlation) (ms : List StoredMessage)
      → (run codec c ms).notifications ≡ noted c.notifications ms
  unfolding run
  run-noted c [] = unfold noted in sym (append-nil c.notifications)
  run-noted c (m ∷ ms) = run-noted (step codec c m) ms ∙ step-noted c m ms

-- The model lists the recorded notifications of known direction, all of them and in order, and its
-- exchanges ascend by the number of their request, or of their response where they have none.
pub correlate_order :
    (codec : Codec) (ranks : Ranks) (messages : List StoredMessage)
    → ((correlate codec ranks messages).notifications ≡ recorded_notifications messages)
      × Ascending sort_key (correlate codec ranks messages).exchanges
unfolding correlate noted
correlate_order codec ranks messages =
    (run-noted codec empty messages, sort-Ascending sort_key (run codec empty messages).exchanges)
