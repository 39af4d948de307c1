-- ===== src/Model/Serve/OneShot.antt =====
-- No recorded answer is given twice.
use mcptracer.Common.{
  ℕ, ◌+◌, ◌≤◌, Bool, true, false, ◌≡◌, refl, ap, Option, none, some, List, [], ◌∷◌, keep, count,
  ◌==◌, arith, if◌then◌else◌, Result, ok, ◌>>=◌, ok_behind, ok_injective, subst,
}
use mcptracer.Json.{Codec, Value, get, as_str?}
use mcptracer.Model.Session.{StoredMessage, Exchange}
use mcptracer.Model.Stats.{Ranks}
use mcptracer.Model.Correlate.{correlate}
use mcptracer.Model.Correlate.Counts.{response_at, recorded_response}
use mcptracer.Model.Correlate.View.{correlate-counts}
use mcptracer.Model.Serve.Remaining.{
  remaining, take_first, choose_remaining, taken, serve_remaining, match_request-Refines,
}
use mcptracer.Model.Serve.{
  MatchStrategy, exact, method, method_and_params, subset, sequential, RecordedExchange,
  MockSession, MockResponse, Live, MockSessionError, unused, or_else, answer, live, match_request,
  serve_all, answered_pair, parse_at, request_side, response_side, by_seq, record_pair, record_all,
  recorded_exchange, from_messages_with_strategy,
}

abbrev from_answer : (MockResponse → Bool) → RecordedExchange → Bool
from_answer q c = q (answer c)

abbrev counted : (MockResponse → Bool) → Option MockResponse → ℕ
counted q none = 0
counted q (some a) = if q a then 1 else 0

module _ (q : MockResponse → Bool) where
  -- An entry and the others make up the entries.
  abbrev Splits : List RecordedExchange → Option (RecordedExchange × List RecordedExchange) → Type 0
  Splits cs none = Unit
  Splits cs (some (c, rest)) =
      (if from_answer q c then 1 else 0) + count (from_answer q) rest ≡ count (from_answer q) cs

  put_back-Splits :
      (x : RecordedExchange) (xs : List RecordedExchange) (b : Bool)
      (t : Option (RecordedExchange × List RecordedExchange))
      → Splits xs t
      → Splits (x ∷ xs) (
          if b
          then some (x, xs)
          else elim t as (λ _. Option (RecordedExchange × List RecordedExchange)) [
            | none ↦ none
            | some (c, rest) ↦ some (c, x ∷ rest)
          ])
  put_back-Splits x xs true t h = refl
  put_back-Splits x xs false none h = tt
  put_back-Splits x xs false (some (c, rest)) h = omega arith

  take_first-Splits :
      (p : RecordedExchange → Bool) (cs : List RecordedExchange) → Splits cs (take_first p cs)
  take_first-Splits p [] = tt
  take_first-Splits p (x ∷ xs) = put_back-Splits x xs (p x) _ (take_first-Splits p xs)

  or_else-Splits :
      (cs : List RecordedExchange) (t u : Option (RecordedExchange × List RecordedExchange))
      → Splits cs t
      → Splits cs u
      → Splits cs (or_else t u)
  or_else-Splits cs none u h k = k
  or_else-Splits cs (some t) u h k = h

module _ (codec : Codec) (value_eq : Value → Value → Bool) (q : MockResponse → Bool) where
  choose_remaining-Splits :
      (strategy : MatchStrategy) (l : Live) (cs : List RecordedExchange)
      → Splits q cs (choose_remaining codec value_eq strategy l cs)
  unfolding choose_remaining
  choose_remaining-Splits sequential l cs = take_first-Splits q (λ c. true) cs
  choose_remaining-Splits method l cs = take_first-Splits q _ cs
  choose_remaining-Splits exact l cs = take_first-Splits q _ cs
  choose_remaining-Splits method_and_params l cs =
      or_else-Splits q cs _ _ (take_first-Splits q _ cs) (take_first-Splits q _ cs)
  choose_remaining-Splits subset l cs = take_first-Splits q _ cs

  taken-counts :
      (cs : List RecordedExchange) (t : Option (RecordedExchange × List RecordedExchange))
      → Splits q cs t
      → counted q (taken codec value_eq cs t).0
          + count (from_answer q) (taken codec value_eq cs t).1
        ≡ count (from_answer q) cs
  taken-counts cs none h = omega arith
  taken-counts cs (some (c, rest)) h = h

  on_method-counts :
      (strategy : MatchStrategy) (cs : List RecordedExchange) (request : Value)
      → counted q (serve_remaining codec value_eq strategy cs request).0
          + count (from_answer q) (serve_remaining codec value_eq strategy cs request).1
        ≡ count (from_answer q) cs
  unfolding serve_remaining
  on_method-counts strategy cs request =
      elim (as_str? (get request "method"))
        as (λ o.
          counted q
              (elim o as (λ _. Option MockResponse × List RecordedExchange) [
                | none ↦ (none, cs)
                | some m ↦
                    taken codec value_eq cs
                      (choose_remaining codec value_eq strategy (live codec value_eq m request) cs)
              ]).0
            + count (from_answer q)
                (elim o as (λ _. Option MockResponse × List RecordedExchange) [
                  | none ↦ (none, cs)
                  | some m ↦
                      taken codec value_eq cs (
                        choose_remaining codec value_eq strategy (live codec value_eq m request) cs)
                ]).1
          ≡ count (from_answer q) cs) [
            | none ↦ omega arith
            | some m ↦
                taken-counts cs _
                  (choose_remaining-Splits strategy (live codec value_eq m request) cs)
          ]

  abbrev left : MockSession → ℕ
  left s = count (from_answer q) (remaining s.exchanges)

  match_request-counts :
      (s : MockSession) (request : Value)
      → counted q (match_request codec value_eq s request).0
          + left (match_request codec value_eq s request).1
        ≡ left s
  match_request-counts s request =
      let r = match_request-Refines codec value_eq s request in
      rw (r.response, r.state) (on_method-counts s.strategy (remaining s.exchanges) request)

  count-counted :
      (o : Option MockResponse) (out : List MockResponse)
      → count q (elim o as (λ _. List MockResponse) [ none ↦ out | some a ↦ a ∷ out ])
        ≡ counted q o + count q out
  count-counted none out = omega arith
  count-counted (some a) out = refl

  serve_all-counts :
      (s : MockSession) (rs : List Value)
      → count q (serve_all codec value_eq s rs).0 + left (serve_all codec value_eq s rs).1 ≡ left s
  unfolding serve_all
  serve_all-counts s [] = omega arith
  serve_all-counts s (r ∷ rs) = omega (
    arith,
    count-counted (match_request codec value_eq s r).0
        (serve_all codec value_eq (match_request codec value_eq s r).1 rs).0,
    match_request-counts s r,
    serve_all-counts (match_request codec value_eq s r).1 rs,
  )

-- The answer that the recording has under this number.
abbrev pub answers : ℕ → MockResponse → Bool
answers n a = a.source_response_seq == n

module _ (codec : Codec) (n : ℕ) where
  recorded_exchange-seq :
      (a r : ℕ) (request response : Value) (c : RecordedExchange)
      → recorded_exchange codec a r request response ≡ ok c
      → (c.source_request_seq ≡ a) × (c.source_response_seq ≡ r)
  unfolding recorded_exchange
  recorded_exchange-seq a r request response c h = ground arith

  pub record_pair-seq :
      (messages : List StoredMessage) (a r : ℕ) (c : RecordedExchange)
      → record_pair codec messages (a, r) ≡ ok c
      → (c.source_request_seq ≡ a) × (c.source_response_seq ≡ r)
  unfolding record_pair
  record_pair-seq messages a r c h =
      let (request, _, h2) =
        ok_behind (parse_at codec a request_side (by_seq a messages))
          (λ request. parse_at codec r response_side (by_seq r messages) >>= λ response.
            recorded_exchange codec a r request response)
          h in
      let (response, _, h3) =
        ok_behind (parse_at codec r response_side (by_seq r messages))
          (λ response. recorded_exchange codec a r request response) h2 in
      recorded_exchange-seq a r request response c h3

  answered_pair-seq :
      (e : Exchange) (a r : ℕ)
      → answered_pair e ≡ some (a, r)
      → (e.request_seq ≡ some a) × (e.response_seq ≡ some r)
  unfolding answered_pair
  answered_pair-seq e a r h = ground arith

  -- An entry is for the response of its exchange.
  entry_weight :
      (messages : List StoredMessage) (e : Exchange) (pair : ℕ × ℕ) (c : RecordedExchange)
      → answered_pair e ≡ some pair
      → record_pair codec messages pair ≡ ok c
      → from_answer (answers n) c ≡ response_at n e
  entry_weight messages e (a, r) c h k =
      rw ((answered_pair-seq e a r h).1, (record_pair-seq messages a r c k).1) refl

  extended-le :
      (messages : List StoredMessage) (e : Exchange) (es : List Exchange)
      (cs : List RecordedExchange) (r : Result MockSessionError (List RecordedExchange))
      (o : Option (ℕ × ℕ))
      → answered_pair e ≡ o
      → ((rest : List RecordedExchange)
          → r ≡ ok rest
          → count (from_answer (answers n)) rest ≤ count (response_at n) es)
      → elim o as (λ _. Result MockSessionError (List RecordedExchange)) [
        | none ↦ r
        | some pair ↦ record_pair codec messages pair >>= λ c. r >>= λ rest. ok (c ∷ rest)
      ]
        ≡ ok cs
      → count (from_answer (answers n)) cs ≤ count (response_at n) (e ∷ es)
  extended-le messages e es cs r none q ih k = omega (arith, ih cs k)
  extended-le messages e es cs r (some pair) q ih k =
      let (c, kc, k2) =
        ok_behind (record_pair codec messages pair) (λ c. r >>= λ rest. ok (c ∷ rest)) k in
      let (rest, kr, k3) = ok_behind r (λ rest. ok (c ∷ rest)) k2 in
      subst (λ l. count (from_answer (answers n)) l ≤ count (response_at n) (e ∷ es))
        (ok_injective k3) (rw (entry_weight messages e pair c q kc) (omega (arith, ih rest kr)))

  record_all-le :
      (messages : List StoredMessage) (es : List Exchange) (cs : List RecordedExchange)
      → record_all codec messages es ≡ ok cs
      → count (from_answer (answers n)) cs ≤ count (response_at n) es
  unfolding record_all
  record_all-le messages [] cs h =
      subst (λ l. count (from_answer (answers n)) l ≤ 0) (ok_injective h) (omega arith)
  record_all-le messages (e ∷ es) cs h =
      extended-le messages e es cs (record_all codec messages es) (answered_pair e) refl
        (record_all-le messages es) h

count-keep-le :
    (p q : RecordedExchange → Bool) (cs : List RecordedExchange) → count p (keep q cs) ≤ count p cs
count-keep-le p q [] = omega arith
count-keep-le p q (c ∷ cs) = ground (arith, count-keep-le p q cs)

-- A mock server built from a session gives each recorded response at most once, whatever requests a
-- client sends, in whatever order, under every strategy: among its answers there are at most as many
-- from a response number as the session records responses with it.
pub serve_all-one_shot :
    (codec : Codec) (value_eq : Value → Value → Bool) (ranks : Ranks)
    (messages : List StoredMessage) (strategy : MatchStrategy) (s : MockSession)
    (requests : List Value) (n : ℕ)
    → from_messages_with_strategy codec ranks messages strategy ≡ ok s
    → count (answers n) (serve_all codec value_eq s requests).0
      ≤ count (recorded_response n) messages
unfolding from_messages_with_strategy
serve_all-one_shot codec value_eq ranks messages strategy s requests n h =
    let (cs, hc, hs) =
      ok_behind (record_all codec messages (correlate codec ranks messages).exchanges)
        (λ cs. ok (record { exchanges = cs; strategy = strategy })) h in
    omega (
      arith,
      serve_all-counts codec value_eq (answers n) s requests,
      count-keep-le (from_answer (answers n)) unused s.exchanges,
      ap (λ (t : MockSession). count (from_answer (answers n)) t.exchanges) (ok_injective hs),
      record_all-le codec n messages (correlate codec ranks messages).exchanges cs hc,
      (correlate-counts codec ranks messages n).1,
    )
