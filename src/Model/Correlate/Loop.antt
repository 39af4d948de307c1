-- ===== src/Model/Correlate/Loop.antt =====
-- The loop of `correlate` keeps its exchanges sound and its pending map linked to them.
use mcptracer.Common.{
  ℕ, String, Bool, true, false, ◌≡◌, refl, sym, inl, inr, Option, none, some, List, [], ◌∷◌, ◌++◌,
  arith, length, All, All-append, All-get_elem?, All-set, All-map, All-restrict, get_elem?-length,
  if◌then◌else◌, Bool-cases, Option-cases,
}
use mathlib.Core.Path.{subst}
use mcptracer.Json.{Codec}
use mcptracer.Protocol.Message.{Direction, from_db_str, opposite}
use mcptracer.Model.Session.{
  StoredMessage, Exchange, NotificationEvent, is_request_kind, is_response_kind,
}
use mcptracer.Model.Pending.{Key, Pending, find, remove}
use mcptracer.Model.Correlate.Sound.{
  In, sides, IsSound, WaitsAt, Inv, opened-IsSound, orphan-IsSound, answered-IsSound,
}
use mcptracer.Model.Correlate.Links.{
  find-All, remove-All, remove-ne, cancel-IsSound, acknowledge-IsSound, update-Waits, append-Waits,
  keep-Waits,
}
use mcptracer.Model.Correlate.{
  Correlation, empty, opened, await, on_request, orphan, remove?, update_at, answered, on_response,
  cancel, acknowledge, on_cancelled, on_acknowledged, cancelled_id, subscription_id,
  on_notification, note_cancelled, note_acknowledged, on_message, step, run,
}

acknowledged_id : (e : Exchange) → (acknowledge e).rpc_id ≡ e.rpc_id
acknowledged_id e = ground arith

acknowledged_origin : (e : Exchange) → (acknowledge e).origin ≡ e.origin
acknowledged_origin e = ground arith

acknowledged_sides :
    (e : Exchange) → sides e.status ≡ (true, false) → sides (acknowledge e).status ≡ sides e.status
acknowledged_sides e h = ground arith

module _ (recorded : List StoredMessage) where
  append-All :
      (es fs : List Exchange) (p : Pending)
      → All (WaitsAt recorded es) p
      → All (WaitsAt recorded (es ++ fs)) p
  append-All es fs p h = All-map _ _ (λ (e : Key × ℕ). append-Waits recorded es fs e.0 e.1) p h

  await-Waits :
      (es : List Exchange) (dir : Direction) (m : StoredMessage) (id : Option String) (p : Pending)
      → m.rpc_id ≡ id
      → All (WaitsAt recorded es) p
      → All (WaitsAt recorded (es ++ (opened dir m ∷ []))) (await id dir (length es) p)
  await-Waits es dir m none p e h = append-All es _ p h
  await-Waits es dir m (some id) p e h = (
    record {
      exchange = opened dir m;
      at = get_elem?-length es (opened dir m);
      id = e;
      reply = refl;
      unreplied = refl;
    },
    append-All es _ _ (remove-All _ (opposite dir, id) p h),
  )

  on_request-Inv :
      (c : Correlation) (dir : Direction) (m : StoredMessage)
      → In m recorded
      → from_db_str m.direction ≡ some dir
      → is_request_kind m.message_kind ≡ true
      → Inv recorded c
      → Inv recorded (on_request c dir m)
  unfolding on_request
  on_request-Inv c dir m i d k h = record {
    sound = All-append _ c.exchanges _ h.sound (opened-IsSound recorded dir m i d k, tt);
    waits = await-Waits c.exchanges dir m m.rpc_id c.pending refl h.waits;
  }

  -- A step behind a test, and the notification that is noted in any case.
  kept_if :
      (b : Bool) (c d : Correlation)
      → (Inv recorded c → Inv recorded d)
      → Inv recorded c
      → Inv recorded (if b then d else c)
  kept_if true c d f h = f h
  kept_if false c d f h = h

  noted :
      {c : Correlation} {ns : List NotificationEvent}
      → Inv recorded c
      → Inv recorded (record c { notifications = ns })
  noted h = record { sound = h.sound; waits = h.waits }

  orphan-Inv :
      (c : Correlation) (dir : Direction) (m : StoredMessage)
      → In m recorded
      → from_db_str m.direction ≡ some dir
      → is_response_kind m.message_kind ≡ true
      → Inv recorded c
      → Inv recorded (record c { exchanges = c.exchanges ++ (orphan dir m ∷ []) })
  orphan-Inv c dir m i d k h = record {
    sound = All-append _ c.exchanges _ h.sound (orphan-IsSound recorded dir m i d k, tt);
    waits = append-All c.exchanges _ c.pending h.waits;
  }

  -- The exchange found is replaced, and its key leaves the map.
  replace-Inv :
      (c : Correlation) (k : Key) (idx : ℕ) (f : Exchange → Exchange)
      → Inv recorded c
      → find k c.pending ≡ some idx
      → ((e : Exchange)
          → e.rpc_id ≡ some k.1
          → opposite e.origin ≡ k.0
          → sides e.status ≡ (true, false)
          → IsSound recorded e
          → IsSound recorded (f e))
      → Inv recorded
          (record c { exchanges = update_at f c.exchanges idx; pending = remove k c.pending })
  unfolding update_at
  replace-Inv c k idx f h found keep =
      let w = find-All (WaitsAt recorded c.exchanges) k c.pending found h.waits in
      rw (w.at, update_at)
        (record {
          sound = All-set _ c.exchanges idx h.sound (
              keep w.exchange w.id w.reply w.unreplied
                (All-get_elem? _ c.exchanges idx h.sound w.at));
          waits =
              All-restrict _ _ _
                (λ (e : Key × ℕ). update-Waits recorded c.exchanges k idx (f w.exchange) w e.0 e.1)
                (remove k c.pending) (remove-ne k c.pending) (remove-All _ k c.pending h.waits);
        })

  -- An exchange that waits is marked, and its key stays.
  mark-Inv :
      (c : Correlation) (k : Key) (idx : ℕ)
      → Inv recorded c
      → find k c.pending ≡ some idx
      → Inv recorded (record c { exchanges = update_at acknowledge c.exchanges idx })
  unfolding update_at
  mark-Inv c k idx h found =
      let w = find-All (WaitsAt recorded c.exchanges) k c.pending found h.waits in
      let e = w.exchange in
      rw (w.at, update_at)
        (record {
          sound = All-set _ c.exchanges idx h.sound (
              acknowledge-IsSound recorded e w.unreplied
                (All-get_elem? _ c.exchanges idx h.sound w.at));
          waits =
              All-map _ _
                (λ (x : Key × ℕ).
                  keep-Waits recorded c.exchanges idx e (acknowledge e) w.at (acknowledged_id e)
                    (acknowledged_origin e) (acknowledged_sides e w.unreplied) x.0 x.1)
                c.pending h.waits;
        })

  on_response-Inv :
      (codec : Codec) (c : Correlation) (dir : Direction) (m : StoredMessage) (id : Option String)
      → m.rpc_id ≡ id
      → In m recorded
      → from_db_str m.direction ≡ some dir
      → is_response_kind m.message_kind ≡ true
      → Inv recorded c
      → Inv recorded (on_response codec c dir m)
  unfolding on_response
  on_response-Inv codec c dir m none e i d k h = rw (e, on_response) (orphan-Inv c dir m i d k h)
  on_response-Inv codec c dir m (some id) e i d k h =
      elim (Option-cases (find (dir, id) c.pending)) [
        | inl q ↦ rw (e, on_response) (rw (q, on_response) (orphan-Inv c dir m i d k h))
        | inr (idx, q) ↦
            rw (e, on_response)
              (rw (q, on_response)
                (subst
                  (λ (r : Option String). Inv recorded (record c {
                    exchanges = update_at (λ x. answered codec x m) c.exchanges idx;
                    pending = remove? r dir c.pending;
                  }))
                  (sym e)
                  (replace-Inv c (dir, id) idx (λ x. answered codec x m) h q
                    (λ x xi xo xs xh.
                      answered-IsSound recorded codec dir x m id i d k e xi xo xs xh))))
      ]

  on_cancelled-Inv :
      (c : Correlation) (dir : Direction) (id : Option String)
      → Inv recorded c
      → Inv recorded (on_cancelled c dir id)
  unfolding on_cancelled
  on_cancelled-Inv c dir none h = h
  on_cancelled-Inv c dir (some id) h = elim (Option-cases (find (opposite dir, id) c.pending)) [
    | inl q ↦ rw (q, on_cancelled) h
    | inr (idx, q) ↦
        rw (q, on_cancelled)
          (replace-Inv c (opposite dir, id) idx cancel h q
            (λ x xi xo xs xh. cancel-IsSound recorded x xs xh))
  ]

  on_acknowledged-Inv :
      (c : Correlation) (dir : Direction) (id : Option String)
      → Inv recorded c
      → Inv recorded (on_acknowledged c dir id)
  unfolding on_acknowledged
  on_acknowledged-Inv c dir none h = h
  on_acknowledged-Inv c dir (some id) h = elim (Option-cases (find (dir, id) c.pending)) [
    | inl q ↦ rw (q, on_acknowledged) h
    | inr (idx, q) ↦ rw (q, on_acknowledged) (mark-Inv c (dir, id) idx h q)
  ]

  on_notification-Inv :
      (codec : Codec) (c : Correlation) (dir : Direction) (m : StoredMessage)
      → Inv recorded c
      → Inv recorded (on_notification codec c dir m)
  unfolding on_notification note_acknowledged note_cancelled
  on_notification-Inv codec c dir m h = noted (
      kept_if _ _ _ (λ g. on_acknowledged-Inv _ dir (subscription_id codec m) g)
        (kept_if _ _ _ (λ g. on_cancelled-Inv _ dir (cancelled_id codec m) g) h))

  on_message-Inv :
      (codec : Codec) (c : Correlation) (dir : Direction) (m : StoredMessage)
      → In m recorded
      → from_db_str m.direction ≡ some dir
      → Inv recorded c
      → Inv recorded (on_message codec c dir m)
  unfolding on_message
  on_message-Inv codec c dir m i d h = elim (Bool-cases (is_request_kind m.message_kind)) [
    | inl q ↦ rw q (on_request-Inv c dir m i d q h)
    | inr q ↦ rw q (elim (Bool-cases (is_response_kind m.message_kind)) [
      | inl r ↦ rw r (on_response-Inv codec c dir m m.rpc_id refl i d r h)
      | inr r ↦ rw r (kept_if _ _ _ (λ g. on_notification-Inv codec _ dir m g) h)
    ])
  ]

  pub step-Inv :
      (codec : Codec) (c : Correlation) (m : StoredMessage)
      → In m recorded
      → Inv recorded c
      → Inv recorded (step codec c m)
  unfolding step
  step-Inv codec c m i h = elim (Option-cases (from_db_str m.direction)) [
    | inl q ↦ rw (q, step) h
    | inr (dir, q) ↦ rw (q, step) (on_message-Inv codec c dir m i q h)
  ]

  run-Inv :
      (codec : Codec) (c : Correlation) (ms : List StoredMessage)
      → All (λ m. In m recorded) ms
      → Inv recorded c
      → Inv recorded (run codec c ms)
  unfolding run
  run-Inv codec c [] i h = h
  run-Inv codec c (m ∷ ms) i h = run-Inv codec (step codec c m) ms i.1 (step-Inv codec c m i.0 h)

In-weaken :
    (x : StoredMessage) (ms ns : List StoredMessage)
    → All (λ m. In m ns) ms
    → All (λ m. In m (x ∷ ns)) ms
In-weaken x [] ns h = tt
In-weaken x (m ∷ ms) ns h = (inr h.0, In-weaken x ms ns h.1)

pub In-self : (ms : List StoredMessage) → All (λ m. In m ms) ms
In-self [] = tt
In-self (m ∷ ms) = (inl refl, In-weaken m ms ms (In-self ms))

-- At the end of the loop every exchange is sound and every key of the map still waits.
pub run_lem : (codec : Codec) (ms : List StoredMessage) → Inv ms (run codec empty ms)
run_lem codec ms = run-Inv ms codec empty ms (In-self ms) (record { sound = tt; waits = tt })
