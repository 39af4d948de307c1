-- ===== src/Model/Correlate/Counts.antt =====
-- No recorded message is lost or counted twice.
use mcptracer.Common.{
  ℕ, ◌+◌, String, Bool, true, false, ◌&&◌, ◌≡◌, refl, sym, ◌∙◌, inl, inr, Option, none, some, List,
  [], ◌∷◌, arith, get_elem?, count, count-append, count-set, ◌==◌, if◌then◌else◌, Option-cases, All,
  All-get_elem?, eq_iff,
}
use mathlib.Core.Option.{some-injective}
use mcptracer.Json.{Codec, is_some}
use mcptracer.Protocol.Message.{Direction, from_db_str, opposite}
use mcptracer.Model.Session.{
  StoredMessage, ExchangeStatus, cancelled, subscribed, Exchange, is_request_kind, is_response_kind,
}
use mcptracer.Model.Pending.{Key, find}
use mcptracer.Model.Correlate.Sound.{In, Inv, WaitsAt}
use mcptracer.Model.Correlate.Links.{find-All}
use mcptracer.Model.Correlate.Loop.{In-self, step-Inv}
use mcptracer.Model.Correlate.{
  Correlation, empty, opened, on_request, orphan, find?, update_at, answered, on_response, cancel,
  acknowledge, on_cancelled, on_acknowledged, cancelled_id, subscription_id, note_cancelled,
  note_acknowledged, on_notification, on_message, step, run,
}

-- An exchange whose request, or response, has this number, and a recorded message that is one.
abbrev pub request_at : ℕ → Exchange → Bool
request_at s e = elim e.request_seq [ none ↦ false | some t ↦ t == s ]

abbrev pub response_at : ℕ → Exchange → Bool
response_at s e = elim e.response_seq [ none ↦ false | some t ↦ t == s ]

abbrev pub recorded_request : ℕ → StoredMessage → Bool
recorded_request s m =
    is_some (from_db_str m.direction) && is_request_kind m.message_kind && m.seq == s

abbrev pub recorded_response : ℕ → StoredMessage → Bool
recorded_response s m =
    is_some (from_db_str m.direction) && is_response_kind m.message_kind && m.seq == s

kinds_differ : (k : String) → is_request_kind k ≡ true → is_response_kind k ≡ false
kinds_differ k h = rw ((eq_iff k "request").0 h)

-- A count of exchanges by what no status decides: notifications leave it.
module _ (codec : Codec) (p : Exchange → Bool)
    (same : (e : Exchange) (x : ExchangeStatus) → p (record e { status = x }) ≡ p e) where
  counted : Correlation → ℕ
  counted c = count p c.exchanges

  update-counted :
      (f : Exchange → Exchange) (es : List Exchange) (idx : ℕ)
      → ((e : Exchange) → p (f e) ≡ p e)
      → count p (update_at f es idx) ≡ count p es
  unfolding update_at
  update-counted f es idx h = elim (Option-cases (get_elem? es idx)) [
    | inl q ↦ rw (q, update_at)
    | inr (e, q) ↦ rw (q, update_at) (ground (arith, count-set p es idx e (f e) q, h e))
  ]

  on_cancelled-counted :
      (c : Correlation) (dir : Direction) (id : Option String)
      → counted (on_cancelled c dir id) ≡ counted c
  unfolding on_cancelled counted
  on_cancelled-counted c dir id = elim (Option-cases (find? id (opposite dir) c.pending)) [
    | inl q ↦ rw (q, on_cancelled)
    | inr (idx, q) ↦
        rw (q, on_cancelled) (update-counted cancel c.exchanges idx (λ e. same e cancelled))
  ]

  on_acknowledged-counted :
      (c : Correlation) (dir : Direction) (id : Option String)
      → counted (on_acknowledged c dir id) ≡ counted c
  unfolding on_acknowledged counted
  on_acknowledged-counted c dir id = elim (Option-cases (find? id dir c.pending)) [
    | inl q ↦ rw (q, on_acknowledged)
    | inr (idx, q) ↦
        rw (q, on_acknowledged)
          (update-counted acknowledge c.exchanges idx (λ e. ground (arith, same e subscribed)))
  ]

  note_cancelled-counted :
      (c : Correlation) (dir : Direction) (m : StoredMessage)
      → counted (note_cancelled codec c dir m) ≡ counted c
  unfolding note_cancelled
  note_cancelled-counted c dir m = ground (arith, on_cancelled-counted c dir (cancelled_id codec m))

  note_acknowledged-counted :
      (c : Correlation) (dir : Direction) (m : StoredMessage)
      → counted (note_acknowledged codec c dir m) ≡ counted c
  unfolding note_acknowledged
  note_acknowledged-counted c dir m =
      ground (arith, on_acknowledged-counted c dir (subscription_id codec m))

  on_notification-counted :
      (c : Correlation) (dir : Direction) (m : StoredMessage)
      → counted (on_notification codec c dir m) ≡ counted c
  unfolding on_notification counted
  on_notification-counted c dir m =
      note_acknowledged-counted (note_cancelled codec c dir m) dir m
      ∙ note_cancelled-counted c dir m

module _ (codec : Codec) (s : ℕ) where
  requests : Correlation → ℕ
  requests c = count (request_at s) c.exchanges

  responses : Correlation → ℕ
  responses c = count (response_at s) c.exchanges

  on_response-requests :
      (c : Correlation) (dir : Direction) (m : StoredMessage)
      → requests (on_response codec c dir m) ≡ requests c
  unfolding on_response requests
  on_response-requests c dir m = elim (Option-cases (find? m.rpc_id dir c.pending)) [
    | inl q ↦
        rw (q, on_response)
          (omega (arith, count-append (request_at s) c.exchanges (orphan dir m ∷ [])))
    | inr (idx, q) ↦
        rw (q, on_response)
          (update-counted codec (request_at s) (λ e x. refl) (λ e. answered codec e m) c.exchanges
            idx (λ e. unfold answered in refl))
  ]

  -- The exchange that a response answers had no response.
  waiting-response :
      (recorded : List StoredMessage) (c : Correlation) (k : Key) (idx : ℕ) (e : Exchange)
      → Inv recorded c
      → find k c.pending ≡ some idx
      → get_elem? c.exchanges idx ≡ some e
      → response_at s e ≡ false
  waiting-response recorded c k idx e h found at =
      let w = find-All (WaitsAt recorded c.exchanges) k c.pending found h.waits in
      let same = some-injective _ _ (sym w.at ∙ at) in
      let sides_of = (All-get_elem? _ c.exchanges idx h.sound w.at).has_sides ∙ w.unreplied in
      rw (← same) (ground (arith, sides_of))

  answered-responses :
      (recorded : List StoredMessage) (c : Correlation) (k : Key) (idx : ℕ) (m : StoredMessage)
      → Inv recorded c
      → find k c.pending ≡ some idx
      → count (response_at s) (update_at (λ e. answered codec e m) c.exchanges idx)
        ≡ responses c + (if m.seq == s then 1 else 0)
  unfolding update_at responses answered
  answered-responses recorded c k idx m h found = elim (Option-cases (get_elem? c.exchanges idx)) [
    | inl q ↦ cc (q, (find-All (WaitsAt recorded c.exchanges) k c.pending found h.waits).at)
    | inr (e, q) ↦
        rw (q, update_at)
          (ground (
            arith,
            count-set (response_at s) c.exchanges idx e (answered codec e m) q,
            waiting-response recorded c k idx e h found q,
          ))
  ]

  on_response-responses :
      (recorded : List StoredMessage) (c : Correlation) (dir : Direction) (m : StoredMessage)
      → (id : Option String) → m.rpc_id ≡ id
      → Inv recorded c
      → responses (on_response codec c dir m) ≡ responses c + (if m.seq == s then 1 else 0)
  unfolding on_response responses
  on_response-responses recorded c dir m none e h =
      rw (e, on_response)
        (omega (arith, count-append (response_at s) c.exchanges (orphan dir m ∷ [])))
  on_response-responses recorded c dir m (some id) e h =
      elim (Option-cases (find (dir, id) c.pending)) [
        | inl q ↦
            rw (e, on_response)
              (rw (q, on_response)
                (omega (arith, count-append (response_at s) c.exchanges (orphan dir m ∷ []))))
        | inr (idx, q) ↦
            rw (e, on_response)
              (rw (q, on_response) (answered-responses recorded c (dir, id) idx m h q))
      ]

  on_request-requests :
      (c : Correlation) (dir : Direction) (m : StoredMessage)
      → requests (on_request c dir m) ≡ requests c + (if m.seq == s then 1 else 0)
  unfolding on_request requests
  on_request-requests c dir m =
      omega (arith, count-append (request_at s) c.exchanges (opened dir m ∷ []))

  on_request-responses :
      (c : Correlation) (dir : Direction) (m : StoredMessage)
      → responses (on_request c dir m) ≡ responses c
  unfolding on_request responses
  on_request-responses c dir m =
      omega (arith, count-append (response_at s) c.exchanges (opened dir m ∷ []))

  noted_requests :
      (c : Correlation) (dir : Direction) (m : StoredMessage)
      → requests (on_notification codec c dir m) ≡ requests c
  unfolding requests counted
  noted_requests = on_notification-counted codec (request_at s) (λ e x. refl)

  noted_responses :
      (c : Correlation) (dir : Direction) (m : StoredMessage)
      → responses (on_notification codec c dir m) ≡ responses c
  unfolding responses counted
  noted_responses = on_notification-counted codec (response_at s) (λ e x. refl)

  step-requests :
      (c : Correlation) (m : StoredMessage)
      → requests (step codec c m) ≡ requests c + (if recorded_request s m then 1 else 0)
  unfolding step on_message
  step-requests c m = elim (Option-cases (from_db_str m.direction)) [
    | inl q ↦ rw (q, step) (omega arith)
    | inr (dir, q) ↦
        rw (q, step)
          (ground (
            arith,
            on_request-requests c dir m,
            on_response-requests c dir m,
            noted_requests c dir m,
          ))
  ]

  step-responses :
      (recorded : List StoredMessage) (c : Correlation) (m : StoredMessage)
      → Inv recorded c
      → responses (step codec c m) ≡ responses c + (if recorded_response s m then 1 else 0)
  unfolding step on_message
  step-responses recorded c m h = elim (Option-cases (from_db_str m.direction)) [
    | inl q ↦ rw (q, step) (omega arith)
    | inr (dir, q) ↦
        rw (q, step)
          (ground (
            arith,
            on_request-responses c dir m,
            on_response-responses recorded c dir m m.rpc_id refl h,
            noted_responses c dir m,
            kinds_differ m.message_kind,
          ))
  ]

  run-requests :
      (c : Correlation) (ms : List StoredMessage)
      → requests (run codec c ms) ≡ requests c + count (recorded_request s) ms
  unfolding run
  run-requests c [] = omega arith
  run-requests c (m ∷ ms) = omega (arith, run-requests (step codec c m) ms, step-requests c m)

  run-responses :
      (recorded : List StoredMessage) (c : Correlation) (ms : List StoredMessage)
      → All (λ m. In m recorded) ms
      → Inv recorded c
      → responses (run codec c ms) ≡ responses c + count (recorded_response s) ms
  unfolding run
  run-responses recorded c [] i h = omega arith
  run-responses recorded c (m ∷ ms) i h = omega (
    arith,
    run-responses recorded (step codec c m) ms i.1 (step-Inv recorded codec c m i.0 h),
    step-responses recorded c m h,
  )

-- Of each number the loop leaves as many exchanges with that request, and with that response, as
-- there are recorded requests, and responses, with it.
pub run-counts :
    (codec : Codec) (s : ℕ) (ms : List StoredMessage)
    → (count (request_at s) (run codec empty ms).exchanges ≡ count (recorded_request s) ms)
      × (count (response_at s) (run codec empty ms).exchanges ≡ count (recorded_response s) ms)
unfolding requests responses
run-counts codec s ms = (
  omega (arith, run-requests codec s empty ms),
  omega (arith, run-responses codec s ms empty ms (In-self ms) (record { sound = tt; waits = tt })),
)
