-- ===== src/Model/Validate/Laws.antt =====
-- When a session is healthy.
use mcptracer.Common.{
  ℕ, ◌<◌, Bool, true, false, ◌&&◌, ◌≡◌, ◌↔◌, refl, Option, none, some, List, [], ◌∷◌, ◌++◌, arith,
  All, ltb, and-true,
}
use mcptracer.Json.{Codec, is_some}
use mcptracer.Protocol.Message.{from_db_str}
use mcptracer.Model.Session.{StoredMessage, ExchangeStatus, unanswered, orphan_response, Exchange}
use mcptracer.Model.Stats.{Ranks}
use mcptracer.Model.Correlate.{correlate}
use mcptracer.Model.Validate.{
  Issue, IssueKind, empty_session, dropped_messages, is_nil, issue_if, known_kind, message_issues,
  stream_issues, exchange_issue, exchange_issues, validate_session, is_healthy,
}

-- A message whose fields the tools can interpret.
pub record IsReadable (codec : Codec) (m : StoredMessage) : Type 0 where
  pub direction : is_some (from_db_str m.direction) ≡ true
  pub kind : known_kind m.message_kind ≡ true
  pub payload : is_some (codec.parse m.payload) ≡ true

abbrev pub After : Option ℕ → ℕ → Type 0
After none s = Unit
After (some p) s = p < s

-- The numbers ascend strictly, from the previous one on.
abbrev pub Ascends : Option ℕ → List StoredMessage → Type 0
Ascends previous [] = Unit
Ascends previous (m ∷ ms) = After previous m.seq × Ascends (some m.seq) ms

abbrev pub Settled : ExchangeStatus → Type 0
Settled unanswered = ⊥
Settled orphan_response = ⊥
Settled _ = Unit

pub record IsHealthy (codec : Codec) (ranks : Ranks) (messages : List StoredMessage) (dropped : ℕ)
    : Type 0 where
  pub recorded : is_nil messages ≡ false
  pub complete : dropped ≡ 0
  pub ascends : Ascends none messages
  pub readable : All (IsReadable codec) messages
  pub settled : All (λ e. Settled e.status) (correlate codec ranks messages).exchanges

is_nil-append : (xs ys : List Issue) → is_nil (xs ++ ys) ≡ (is_nil xs && is_nil ys)
is_nil-append [] ys = refl
is_nil-append (x ∷ xs) ys = refl

and_intro : (a b : Bool) → a ≡ true → b ≡ true → (a && b) ≡ true
and_intro a b h k = ground arith

is_nil-append_intro :
    (xs ys : List Issue) → is_nil xs ≡ true → is_nil ys ≡ true → is_nil (xs ++ ys) ≡ true
is_nil-append_intro xs ys h k = rw is_nil-append (and_intro _ _ h k)

is_nil-append_split :
    (xs ys : List Issue) → is_nil (xs ++ ys) ≡ true → (is_nil xs ≡ true) × (is_nil ys ≡ true)
is_nil-append_split xs ys h = and-true _ _ (rw is_nil-append at h)

issue-absent :
    (b : Bool) (k : IssueKind) (s : Option ℕ) → is_nil (issue_if b k s) ≡ true → b ≡ false
issue-absent b k s h = ground arith

dropped-zero : (n : ℕ) → ltb 0 n ≡ false → n ≡ 0
dropped-zero n h = ground arith

no_issue : (b : Bool) (k : IssueKind) (s : Option ℕ) → b ≡ false → is_nil (issue_if b k s) ≡ true
no_issue b k s h = ground arith

zero_dropped : (n : ℕ) → n ≡ 0 → ltb 0 n ≡ false
zero_dropped n h = ground arith

module _ (codec : Codec) where
  message-healthy :
      (previous : Option ℕ) (m : StoredMessage)
      → is_nil (message_issues codec previous m) ≡ true
      → After previous m.seq × IsReadable codec m
  unfolding message_issues
  message-healthy previous m h = ground arith

  healthy-message :
      (previous : Option ℕ) (m : StoredMessage)
      → After previous m.seq
      → IsReadable codec m
      → is_nil (message_issues codec previous m) ≡ true
  unfolding message_issues
  healthy-message previous m a r = ground arith

  stream-healthy :
      (previous : Option ℕ) (ms : List StoredMessage)
      → is_nil (stream_issues codec previous ms) ≡ true
      → Ascends previous ms × All (IsReadable codec) ms
  unfolding stream_issues
  stream-healthy previous [] h = (tt, tt)
  stream-healthy previous (m ∷ ms) h =
      let (a, b) = and-true _ _ (rw is_nil-append at h) in
      let (x, y) = message-healthy previous m a in
      let (z, w) = stream-healthy (some m.seq) ms b in ((x, z), (y, w))

  healthy-stream :
      (previous : Option ℕ) (ms : List StoredMessage)
      → Ascends previous ms
      → All (IsReadable codec) ms
      → is_nil (stream_issues codec previous ms) ≡ true
  unfolding stream_issues
  healthy-stream previous [] a r = refl
  healthy-stream previous (m ∷ ms) a r =
      rw (is_nil-append, healthy-message previous m a.0 r.0)
        (healthy-stream (some m.seq) ms a.1 r.1)

exchange-healthy : (e : Exchange) → (is_nil (exchange_issue e) ≡ true) ↔ Settled e.status
unfolding exchange_issue
exchange-healthy e = ground arith

exchanges-healthy :
    (es : List Exchange) → is_nil (exchange_issues es) ≡ true → All (λ e. Settled e.status) es
unfolding exchange_issues
exchanges-healthy [] h = tt
exchanges-healthy (e ∷ es) h =
    let (a, b) = is_nil-append_split _ _ h in ((exchange-healthy e).0 a, exchanges-healthy es b)

healthy-exchanges :
    (es : List Exchange) → All (λ e. Settled e.status) es → is_nil (exchange_issues es) ≡ true
unfolding exchange_issues
healthy-exchanges [] h = refl
healthy-exchanges (e ∷ es) h =
    rw (is_nil-append, (exchange-healthy e).1 h.0) (healthy-exchanges es h.1)

-- A session is reported healthy exactly when it holds a message, no record was dropped, the message
-- numbers ascend strictly, every message has a known direction, a known kind and a payload that
-- parses, and no exchange is an unanswered request or an orphan response.
pub validate_session_iff :
    (codec : Codec) (ranks : Ranks) (messages : List StoredMessage) (dropped : ℕ)
    → (is_healthy (validate_session codec ranks messages dropped) ≡ true)
      ↔ IsHealthy codec ranks messages dropped
unfolding validate_session
validate_session_iff codec ranks messages dropped = (
  λ h.
      let (a, b) = is_nil-append_split (issue_if (is_nil messages) empty_session none) _ h in
      let (c, d) = is_nil-append_split (issue_if (ltb 0 dropped) dropped_messages none) _ b in
      let (e, f) = is_nil-append_split (stream_issues codec none messages) _ d in
      let (x, y) = stream-healthy codec none messages e in
      record {
        recorded = issue-absent (is_nil messages) _ _ a;
        complete = dropped-zero dropped (issue-absent (ltb 0 dropped) _ _ c);
        ascends = x;
        readable = y;
        settled = exchanges-healthy _ f;
      },
  λ h. is_nil-append_intro _ _ (no_issue (is_nil messages) _ _ h.recorded) (
      is_nil-append_intro _ _ (no_issue (ltb 0 dropped) _ _ (zero_dropped dropped h.complete)) (
        is_nil-append_intro _ _ (healthy-stream codec none messages h.ascends h.readable)
          (healthy-exchanges _ h.settled))),
)
