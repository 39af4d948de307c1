-- ===== src/Model/Serve/Inventory.antt =====
-- Why the building of a mock server fails.
use mcptracer.Common.{
  ℕ, Bool, true, false, ◌≡◌, refl, sym, ◌∙◌, inl, inr, Option, none, some, List, [], ◌∷◌, All, ◌==◌,
  ==_iff, arith, if◌then◌else◌, Option-cases, Result, ok, err, ◌>>=◌, subst, some-injective,
}
use mcptracer.Json.{Codec, Value, get, as_str?}
use mcptracer.Model.Session.{StoredMessage, Exchange}
use mcptracer.Model.Stats.{Ranks}
use mcptracer.Model.Correlate.{correlate}
use mcptracer.Model.Correlate.Sound.{In, IsSound, FromRequest, FromResponse}
use mcptracer.Model.Correlate.View.{correlate-IsSound}
use mcptracer.Model.Serve.{
  MatchStrategy, Side, request_side, response_side, MockSessionError, invalid_payload,
  missing_method, lost_message, RecordedExchange, MockSession, by_seq, answered_pair, parse_at,
  recorded_exchange, record_pair, record_all, from_messages_with_strategy,
}

-- A recorded message of this number.
abbrev Numbered : List StoredMessage → ℕ → StoredMessage → Type 0
Numbered ms n m = In m ms × (m.seq ≡ n)

-- The message that an error names.
abbrev pub Blames : Codec → List StoredMessage → MockSessionError → Type 0
Blames codec ms (invalid_payload n side) =
    (m : StoredMessage) × Numbered ms n m × (codec.parse m.payload ≡ none)
Blames codec ms (missing_method n) =
    (m : StoredMessage) × Numbered ms n m
    × ((v : Value) × (codec.parse m.payload ≡ some v) × (as_str? (get v "method") ≡ none))
Blames codec ms (lost_message n) = ⊥

abbrev Found : List StoredMessage → ℕ → Option StoredMessage → Type 0
Found ms n none = (m : StoredMessage) → In m ms → m.seq ≡ n → ⊥
Found ms n (some m) = Numbered ms n m

Found-head :
    (x : StoredMessage) (xs : List StoredMessage) (n : ℕ) (b : Bool)
    → (x.seq == n) ≡ b
    → Found xs n none
    → Found (x ∷ xs) n (if b then some x else none)
Found-head x xs n true e h = (inl refl, (==_iff x.seq n).0 e)
Found-head x xs n false e h = λ m i s. elim i [ inl q ↦ other x m n q s e | inr j ↦ h m j s ]
  where
    other : (x m : StoredMessage) (n : ℕ) → x ≡ m → m.seq ≡ n → (x.seq == n) ≡ false → ⊥
    other x m n q s e = ground arith

Found-later :
    (x : StoredMessage) (xs : List StoredMessage) (n : ℕ) (o : Option StoredMessage)
    → Found xs n o
    → Found
        (x ∷ xs)
        n
        (elim o [ some later ↦ some later | none ↦ if x.seq == n then some x else none ])
Found-later x xs n none h = Found-head x xs n (x.seq == n) refl h
Found-later x xs n (some m) (i, s) = (inr i, s)

by_seq-Found : (ms : List StoredMessage) (n : ℕ) → Found ms n (by_seq n ms)
unfolding by_seq
by_seq-Found [] n = λ m i s. i
by_seq-Found (x ∷ xs) n = Found-later x xs n (by_seq n xs) (by_seq-Found xs n)

module _ (codec : Codec) (ms : List StoredMessage) where
  abbrev Present : ℕ → Type 0
  Present n = (m : StoredMessage) × Numbered ms n m

  -- A parsed payload, of a recorded message.
  abbrev Parsed : ℕ → Result MockSessionError Value → Type 0
  Parsed n (ok v) = (m : StoredMessage) × Numbered ms n m × (codec.parse m.payload ≡ some v)
  Parsed n (err e) = Blames codec ms e

  parse_found :
      (n : ℕ) (side : Side) (m : StoredMessage) (o : Option Value)
      → Numbered ms n m
      → codec.parse m.payload ≡ o
      → Parsed n (elim o as (λ _. Result MockSessionError Value) [
        | none ↦ err (invalid_payload n side)
        | some v ↦ ok v
      ])
  parse_found n side m none i e = (m, i, e)
  parse_found n side m (some v) i e = (m, i, e)

  parse_at-Parsed :
      (n : ℕ) (side : Side) (o : Option StoredMessage)
      → Present n
      → Found ms n o
      → Parsed n (parse_at codec n side o)
  parse_at-Parsed n side none (m, p) h = absurd (h m p.0 p.1)
  parse_at-Parsed n side (some m) p h = parse_found n side m (codec.parse m.payload) h refl

  abbrev Excuses : {A : Type 0} → Result MockSessionError A → Type 0
  Excuses (ok a) = Unit
  Excuses (err e) = Blames codec ms e

  recorded_exchange-Excuses :
      (q r : ℕ) (request response : Value)
      → Parsed q (ok request)
      → Excuses (recorded_exchange codec q r request response)
  unfolding recorded_exchange
  recorded_exchange-Excuses q r request response (m, i, p) =
      elim (Option-cases (as_str? (get request "method"))) [
        | inl e ↦ rw (e, recorded_exchange) (m, i, (request, p, e))
        | inr (s, e) ↦ rw (e, recorded_exchange) tt
      ]

  chain-Excuses :
      (q r : ℕ) (a b : Result MockSessionError Value)
      → Parsed q a
      → Parsed r b
      → Excuses (a >>= λ request. b >>= λ response. recorded_exchange codec q r request response)
  chain-Excuses q r (err e) b h k = h
  chain-Excuses q r (ok v) (err e) h k = k
  chain-Excuses q r (ok v) (ok w) h k = recorded_exchange-Excuses q r v w h

  record_pair-Excuses : (q r : ℕ) → Present q → Present r → Excuses (record_pair codec ms (q, r))
  unfolding record_pair
  record_pair-Excuses q r h k =
      chain-Excuses q r _ _ (parse_at-Parsed q request_side (by_seq q ms) h (by_seq-Found ms q))
        (parse_at-Parsed r response_side (by_seq r ms) k (by_seq-Found ms r))

  answered_pair-seq :
      (e : Exchange) (a r : ℕ)
      → answered_pair e ≡ some (a, r)
      → (e.request_seq ≡ some a) × (e.response_seq ≡ some r)
  unfolding answered_pair
  answered_pair-seq e a r h = ground arith

  Present-request : (e : Exchange) (n : ℕ) → e.request_seq ≡ some n → FromRequest ms e → Present n
  Present-request e n h (inl (t, s)) = absurd (cc h)
  Present-request e n h (inr (m, i, r)) = (m, (i, some-injective _ _ (sym r.seq ∙ h)))

  Present-response :
      (e : Exchange) (n : ℕ) → e.response_seq ≡ some n → FromResponse ms e → Present n
  Present-response e n h (inl (t, s)) = absurd (cc h)
  Present-response e n h (inr (m, i, r)) = (m, (i, some-injective _ _ (sym r.seq ∙ h)))

  then-Excuses :
      (m : Result MockSessionError RecordedExchange)
      (r : Result MockSessionError (List RecordedExchange))
      → Excuses m
      → Excuses r
      → Excuses (m >>= λ c. r >>= λ cs. ok (c ∷ cs))
  then-Excuses (err e) r h k = h
  then-Excuses (ok c) (err e) h k = k
  then-Excuses (ok c) (ok cs) h k = tt

  extended-Excuses :
      (e : Exchange) (r : Result MockSessionError (List RecordedExchange)) (o : Option (ℕ × ℕ))
      → answered_pair e ≡ o
      → IsSound ms e
      → Excuses r
      → Excuses (elim o as (λ _. Result MockSessionError (List RecordedExchange)) [
        | none ↦ r
        | some pair ↦ record_pair codec ms pair >>= λ c. r >>= λ cs. ok (c ∷ cs)
      ])
  extended-Excuses e r none q s h = h
  extended-Excuses e r (some (a, b)) q s h =
      let (x, y) = answered_pair-seq e a b q in
      then-Excuses (record_pair codec ms (a, b)) r
        (record_pair-Excuses a b (Present-request e a x s.request)
          (Present-response e b y s.response))
        h

  record_all-Excuses : (es : List Exchange) → All (IsSound ms) es → Excuses (record_all codec ms es)
  unfolding record_all
  record_all-Excuses [] s = tt
  record_all-Excuses (e ∷ es) (s, ss) =
      extended-Excuses e (record_all codec ms es) (answered_pair e) refl s
        (record_all-Excuses es ss)

  built-Excuses :
      (r : Result MockSessionError (List RecordedExchange)) (strategy : MatchStrategy)
      (e : MockSessionError)
      → Excuses r
      → ◌>>=◌ {B = MockSession} r (λ cs. ok (record { exchanges = cs; strategy = strategy }))
        ≡ err e
      → Blames codec ms e
  built-Excuses (ok cs) strategy e h k = absurd (cc k)
  built-Excuses (err x) strategy e h k = subst (Blames codec ms) (cc k) h

-- A mock server is built from every session but one with a bad message, and the error names it: a
-- recorded message of that number whose payload is no JSON, or is a JSON value without a string as
-- its method. The lookup of the messages of an exchange never fails.
pub from_messages_with_strategy-Blames :
    (codec : Codec) (ranks : Ranks) (messages : List StoredMessage) (strategy : MatchStrategy)
    (e : MockSessionError)
    → from_messages_with_strategy codec ranks messages strategy ≡ err e
    → Blames codec messages e
unfolding from_messages_with_strategy
from_messages_with_strategy-Blames codec ranks messages strategy e h =
    built-Excuses codec messages
      (record_all codec messages (correlate codec ranks messages).exchanges) strategy e
      (record_all-Excuses codec messages _ (correlate-IsSound codec ranks messages)) h
