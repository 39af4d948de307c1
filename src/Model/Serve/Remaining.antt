-- ===== src/Model/Serve/Remaining.antt =====
-- The mock server as a list of answers that shrinks: the marks and indices are a representation of it.
use mcptracer.Common.{
  ℕ, suc, String, Bool, true, false, ◌&&◌, ◌≡◌, refl, ap, Option, none, some, List, [], ◌∷◌, keep,
  str_eq, get_elem?, set, arith, if◌then◌else◌, fun_ext, subst,
}
use mcptracer.Json.{Codec, Value, get, as_str?}
use mcptracer.Model.Serve.{
  MatchStrategy, exact, method, method_and_params, subset, sequential, RecordedExchange,
  MockSession, MockResponse, Live, same_tool, same_call, unused, or_else, choose, use_up, answer,
  take_chosen, live, match_request, params_subset, position,
}

abbrev pub remaining : List RecordedExchange → List RecordedExchange
remaining cs = keep unused cs

abbrev Taken : Type 0
Taken = Option (RecordedExchange × List RecordedExchange)

abbrev put_back : RecordedExchange → Taken → Taken
put_back x none = none
put_back x (some (c, rest)) = some (c, x ∷ rest)

-- The first entry that a predicate accepts, and the others.
abbrev pub take_first :
    (RecordedExchange → Bool)
    → List RecordedExchange
    → Option (RecordedExchange × List RecordedExchange)
take_first p [] = none
take_first p (x ∷ xs) = let rest = take_first p xs in if p x then some (x, xs) else put_back x rest

-- An index into the entries with their marks, and an entry taken from those that remain.
abbrev Tracks : List RecordedExchange → Option ℕ → Taken → Type 0
Tracks cs none none = Unit
Tracks cs (some i) (some (c, rest)) =
    (get_elem? cs i ≡ some c) × (remaining (set cs i (use_up c)) ≡ rest)
Tracks cs _ _ = ⊥

abbrev shift : Option ℕ → Option ℕ
shift none = none
shift (some i) = some (suc i)

module _ (x : RecordedExchange) (xs : List RecordedExchange) where
  shift-used :
      (o : Option ℕ) (t : Taken) → unused x ≡ false → Tracks xs o t → Tracks (x ∷ xs) (shift o) t
  shift-used none none u h = tt
  shift-used (some i) (some (c, rest)) u h = (h.0, rw u h.1)
  shift-used none (some t) u h = h
  shift-used (some i) none u h = h

  shift-unused :
      (o : Option ℕ) (t : Taken)
      → unused x ≡ true
      → Tracks xs o t
      → Tracks (x ∷ xs) (shift o) (put_back x t)
  shift-unused none none u h = tt
  shift-unused (some i) (some (c, rest)) u h =
      (h.0, rw u (ap (λ (l : List RecordedExchange). x ∷ l) h.1))
  shift-unused none (some t) u h = h
  shift-unused (some i) none u h = h

  Tracks-cons :
      (p : RecordedExchange → Bool) (b q : Bool)
      → unused x ≡ b
      → p x ≡ q
      → Tracks xs (position (λ c. unused c && p c) xs) (take_first p (remaining xs))
      → Tracks
          (x ∷ xs)
          (if b && q then some 0 else shift (position (λ c. unused c && p c) xs))
          (take_first p (if b then x ∷ remaining xs else remaining xs))
  Tracks-cons p false q u e h = shift-used _ _ u h
  Tracks-cons p true true u e h = rw e (refl, refl)
  Tracks-cons p true false u e h = rw e (shift-unused _ _ u h)

position-Tracks :
    (p : RecordedExchange → Bool) (cs : List RecordedExchange)
    → Tracks cs (position (λ c. unused c && p c) cs) (take_first p (remaining cs))
position-Tracks p [] = tt
position-Tracks p (x ∷ xs) = Tracks-cons x xs p (unused x) (p x) refl refl (position-Tracks p xs)

and_true : (b : Bool) → (b && true) ≡ b
and_true b = ground arith

any-Tracks :
    (cs : List RecordedExchange)
    → Tracks cs (position unused cs) (take_first (λ c. true) (remaining cs))
any-Tracks cs =
    subst
      (λ (p : RecordedExchange → Bool).
        Tracks cs (position p cs) (take_first (λ c. true) (remaining cs)))
      (fun_ext (λ c. and_true (unused c))) (position-Tracks (λ c. true) cs)

or_else-Tracks :
    (cs : List RecordedExchange) (o q : Option ℕ) (t u : Taken)
    → Tracks cs o t
    → Tracks cs q u
    → Tracks cs (or_else o q) (or_else t u)
or_else-Tracks cs none q none u h k = k
or_else-Tracks cs (some i) q (some t) u h k = h
or_else-Tracks cs none q (some t) u h k = elim h [ ]
or_else-Tracks cs (some i) q none u h k = elim h [ ]

module _ (codec : Codec) (value_eq : Value → Value → Bool) where
  -- The strategies over the answers that remain.
  unfoldable pub choose_remaining :
      MatchStrategy
      → Live
      → List RecordedExchange
      → Option (RecordedExchange × List RecordedExchange)
  choose_remaining sequential l cs = take_first (λ c. true) cs
  choose_remaining method l cs = take_first (λ c. str_eq c.method l.method) cs
  choose_remaining exact l cs = take_first (same_call l) cs
  choose_remaining method_and_params l cs =
      or_else (take_first (same_call l) cs) (take_first (same_tool l) cs)
  choose_remaining subset l cs =
      take_first (λ c. same_tool l c && params_subset value_eq c.params l.params) cs

  abbrev pub taken :
      List RecordedExchange
      → Option (RecordedExchange × List RecordedExchange)
      → Option MockResponse × List RecordedExchange
  taken cs none = (none, cs)
  taken cs (some (c, rest)) = (some (answer c), rest)

  unfoldable pub serve_remaining :
      MatchStrategy → List RecordedExchange → Value → Option MockResponse × List RecordedExchange
  serve_remaining strategy cs request = elim (as_str? (get request "method")) [
    | none ↦ (none, cs)
    | some m ↦ taken cs (choose_remaining strategy (live codec value_eq m request) cs)
  ]

  choose-Tracks :
      (strategy : MatchStrategy) (l : Live) (cs : List RecordedExchange)
      → Tracks cs (choose value_eq strategy l cs) (choose_remaining strategy l (remaining cs))
  unfolding choose choose_remaining
  choose-Tracks sequential l cs = any-Tracks cs
  choose-Tracks method l cs = position-Tracks _ cs
  choose-Tracks exact l cs = position-Tracks _ cs
  choose-Tracks method_and_params l cs =
      or_else-Tracks cs _ _ _ _ (position-Tracks (same_call l) cs)
        (position-Tracks (same_tool l) cs)
  choose-Tracks subset l cs = position-Tracks _ cs

  -- What one request does, seen from the answers that remain.
  pub record Refines (o : Option MockResponse × MockSession)
      (a : Option MockResponse × List RecordedExchange) : Type 0 where
    pub response : o.0 ≡ a.0
    pub state : remaining o.1.exchanges ≡ a.1

  take_chosen-Refines :
      (s : MockSession) (o : Option ℕ) (t : Taken)
      → Tracks s.exchanges o t
      → Refines (take_chosen s o) (taken (remaining s.exchanges) t)
  take_chosen-Refines s none none h = record { response = refl; state = refl }
  take_chosen-Refines s (some i) (some (c, rest)) h =
      rw h.0 (record { response = refl; state = h.1 })
  take_chosen-Refines s none (some t) h = elim h [ ]
  take_chosen-Refines s (some i) none h = elim h [ ]

  on_method-Refines :
      (s : MockSession) (request : Value) (o : Option String)
      → Refines
          (elim o as (λ _. Option MockResponse × MockSession) [
            | none ↦ (none, s)
            | some m ↦
                take_chosen s
                  (choose value_eq s.strategy (live codec value_eq m request) s.exchanges)
          ])
          (elim o as (λ _. Option MockResponse × List RecordedExchange) [
            | none ↦ (none, remaining s.exchanges)
            | some m ↦ taken (remaining s.exchanges) (
                choose_remaining s.strategy (live codec value_eq m request) (remaining s.exchanges))
          ])
  on_method-Refines s request none = record { response = refl; state = refl }
  on_method-Refines s request (some m) =
      take_chosen-Refines s _ _
        (choose-Tracks s.strategy (live codec value_eq m request) s.exchanges)

  -- The mock server does what a list of recorded answers does from which each request takes the
  -- first that its strategy accepts, and leaves the others in their order: the answer is the same, the
  -- unused entries are that list afterwards.
  pub match_request-Refines :
      (s : MockSession) (request : Value)
      → Refines
          (match_request codec value_eq s request)
          (serve_remaining s.strategy (remaining s.exchanges) request)
  unfolding match_request serve_remaining
  match_request-Refines s request = on_method-Refines s request (as_str? (get request "method"))

  pub match_request-strategy :
      (s : MockSession) (request : Value)
      → (match_request codec value_eq s request).1.strategy ≡ s.strategy
  unfolding match_request
  match_request-strategy s request = ground arith
