-- ===== src/Model/Correlate/Links.antt =====
-- The pending map of `correlate` stays linked to the exchanges, whatever changes in them.
use mcptracer.Common.{
  ℕ, String, true, false, ◌&&◌, ◌≡◌, ◌≢◌, refl, sym, ap, ◌∙◌, inl, inr, some, List, [], ◌∷◌, ◌++◌,
  arith, get_elem?, set, All, get_elem?-append, get_elem?-set_self, get_elem?-set_ne, Bool-cases,
  is_text, ◌==◌, ==_iff,
}
use mathlib.Core.Option.{some-injective}
use mcptracer.Protocol.Message.{Direction, client_to_server, dir_eq, opposite}
use mcptracer.Model.Session.{StoredMessage, subscribed, Exchange}
use mcptracer.Model.Pending.{Key, Pending, find, remove, key_eq, key_eq_iff, key_eq_refl}
use mcptracer.Model.Correlate.Sound.{sides, IsSound, Waits, same_request, same_response}
use mcptracer.Model.Correlate.{cancel, acknowledge}

-- What holds of every entry of a map holds of the entry found.
pub find-All :
    (P : Key × ℕ → Type 0) (k : Key) (p : Pending) {i : ℕ} → find k p ≡ some i → All P p → P (k, i)
unfolding find
find-All P k [] e h = absurd (cc e)
find-All P (d, s) (((c, t), j) ∷ p) {i} e h = elim (Bool-cases (key_eq (c, t) (d, s))) [
  | inl q ↦
      let (x, y) = key_eq_iff c d t s q in
      let z = some-injective _ _ (rw q at e) in rw (← x, ← y, ← z) h.0
  | inr q ↦ find-All P (d, s) p (rw q at e) h.1
]

pub remove-All : (P : Key × ℕ → Type 0) (k : Key) (p : Pending) → All P p → All P (remove k p)
unfolding remove
remove-All P k [] h = tt
remove-All P k ((j, i) ∷ p) h =
    let rest = remove-All P k p h.1 in
    elim (Bool-cases (key_eq j k)) [ inl q ↦ rw q rest | inr q ↦ rw q (h.0, rest) ]

-- No entry of the removed key is left.
pub remove-ne : (k : Key) (p : Pending) → All (λ (e : Key × ℕ). key_eq e.0 k ≡ false) (remove k p)
unfolding remove
remove-ne k [] = tt
remove-ne k ((j, i) ∷ p) =
    let rest = remove-ne k p in
    elim (Bool-cases (key_eq j k)) [ inl q ↦ rw q rest | inr q ↦ rw q (q, rest) ]

module _ (recorded : List StoredMessage) where
  pub cancel-IsSound :
      (e : Exchange)
      → sides e.status ≡ (true, false)
      → IsSound recorded e
      → IsSound recorded (cancel e)
  cancel-IsSound e s h = record {
    request = same_request recorded e (cancel e) refl refl refl refl refl refl h.request;
    response = same_response recorded e (cancel e) refl refl refl refl refl h.response;
    has_sides = h.has_sides ∙ s;
    latency = h.latency;
  }

  pub acknowledge-IsSound :
      (e : Exchange)
      → sides e.status ≡ (true, false)
      → IsSound recorded e
      → IsSound recorded (acknowledge e)
  acknowledge-IsSound e s h =
      elim (Bool-cases
        (dir_eq e.origin client_to_server && is_text e.method "subscriptions/listen")) [
          | inl q ↦ rw q (record {
            request =
                same_request recorded e (record e { status = subscribed }) refl refl refl refl refl
                  refl h.request;
            response =
                same_response recorded e (record e { status = subscribed }) refl refl refl refl refl
                  h.response;
            has_sides = h.has_sides ∙ s;
            latency = h.latency;
          })
          | inr q ↦ rw q h
        ]

  -- Two keys wait for two exchanges.
  pub Waits-ne :
      (es : List Exchange) (d c : Direction) (s t : String) (idx idx' : ℕ)
      → Waits recorded es (d, s) idx
      → Waits recorded es (c, t) idx'
      → key_eq (c, t) (d, s) ≡ false
      → idx ≢ idx'
  Waits-ne es d c s t idx idx' w w' ne q =
      let x = some-injective _ _ (sym w.at ∙ ap (λ i. get_elem? es i) q ∙ w'.at) in
      let y = sym w.reply ∙ ap (λ (e : Exchange). opposite e.origin) x ∙ w'.reply in
      let z = some-injective _ _ (sym w.id ∙ ap (λ (e : Exchange). e.rpc_id) x ∙ w'.id) in
      let u : key_eq (c, t) (d, s) ≡ true = rw (y, z) (key_eq_refl (c, t)) in cc (u, ne)

  -- The exchange at `idx` changes, and the entries of other keys still wait.
  pub update-Waits :
      (es : List Exchange) (k : Key) (idx : ℕ) (v : Exchange)
      → Waits recorded es k idx
      → (k' : Key) (idx' : ℕ) → key_eq k' k ≡ false
      → Waits recorded es k' idx'
      → Waits recorded (set es idx v) k' idx'
  update-Waits es (d, s) idx v w (c, t) idx' ne w' = record {
    exchange = w'.exchange;
    at = get_elem?-set_ne es v (Waits-ne es d c s t idx idx' w w' ne) ∙ w'.at;
    id = w'.id;
    reply = w'.reply;
    unreplied = w'.unreplied;
  }

  pub append-Waits :
      (es fs : List Exchange) (k : Key) (idx : ℕ)
      → Waits recorded es k idx
      → Waits recorded (es ++ fs) k idx
  append-Waits es fs k idx w = record {
    exchange = w.exchange;
    at = get_elem?-append es fs idx w.at;
    id = w.id;
    reply = w.reply;
    unreplied = w.unreplied;
  }

  -- An update that leaves the key and the sides of the exchange leaves every entry waiting.
  pub keep-Waits :
      (es : List Exchange) (idx : ℕ) (e v : Exchange)
      → get_elem? es idx ≡ some e
      → v.rpc_id ≡ e.rpc_id
      → v.origin ≡ e.origin
      → sides v.status ≡ sides e.status
      → (k : Key) (idx' : ℕ) → Waits recorded es k idx'
      → Waits recorded (set es idx v) k idx'
  keep-Waits es idx e v at r o s k idx' w = elim (Bool-cases (idx == idx')) [
    | inl q ↦
        let q' = (==_iff idx idx').0 q in
        let x = some-injective _ _ (sym at ∙ ap (λ i. get_elem? es i) q' ∙ w.at) in
        record {
          exchange = v;
          at = rw (← q') (get_elem?-set_self es idx v at);
          id = r ∙ ap (λ (e : Exchange). e.rpc_id) x ∙ w.id;
          reply = ap opposite o ∙ ap (λ (e : Exchange). opposite e.origin) x ∙ w.reply;
          unreplied = s ∙ ap (λ (e : Exchange). sides e.status) x ∙ w.unreplied;
        }
    | inr q ↦ record {
      exchange = w.exchange;
      at = get_elem?-set_ne es v (ground arith) ∙ w.at;
      id = w.id;
      reply = w.reply;
      unreplied = w.unreplied;
    }
  ]
