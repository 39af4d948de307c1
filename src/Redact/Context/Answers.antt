-- ===== src/Redact/Context/Answers.antt =====
-- The schema exception is granted to answers of tools/list requests only, and the tracker is bounded.
use mcptracer.Common.{
  ℕ, ◌≤◌, ◌≡◌, refl, sym, ◌∙◌, String, Bool, true, false, not, ◌&&◌, ◌||◌, Option, none, some, List,
  [], ◌∷◌, any, length, ltb, if◌then◌else◌, str_eq, All, All-map, arith, ◌⊎◌, inl, inr, Bool-cases,
  length-keep, eq_iff, and-true, subst,
}
use mcptracer.Json.{Value, get, is_string, is_number, is_some}
use mcptracer.Redact.Walk.{tool_list_response}
use mcptracer.Redact.Context.{
  Texts, Key, key_eq, bool_eq, Tracker, default, max_pending_list_requests, is_gap, after_gap,
  responder_of, is_list_request, too_long, remove, observe_request, observe_response, observe,
}

-- A stored message, as the tracker sees it.
pub record Seen : Type 0 where
  pub seq : ℕ
  pub direction : String
  pub payload : Value

-- The number of the last message of a history, the newest first.
abbrev pub last_seq : List Seen → Option ℕ
last_seq [] = none
last_seq (m ∷ ms) = some m.seq

-- The tracker after a history.
abbrev pub track : Texts → List Seen → Tracker
track texts [] = default
track texts (m ∷ ms) = (observe texts (track texts ms) m.seq m.direction m.payload).1

-- The message is a tools/list request to that side, with an id of that text.
pub record IsListRequest (texts : Texts) (m : Seen) (k : Key) : Type 0 where
  pub request_id : Value
  pub to_side : responder_of m.direction ≡ some (not k.responder)
  pub lists : is_list_request m.payload ≡ true
  pub has_id : get m.payload "id" ≡ some request_id
  pub id_text : texts.to_string request_id ≡ k.encoded

-- The message uses that id toward that side, as a request or as the answer.
unfoldable pub uses : Texts → Seen → Key → Bool
uses texts m k = elim (responder_of m.direction) [
  | none ↦ false
  | some responder ↦ elim (get m.payload "id") [
    | none ↦ false
    | some i ↦
        (is_string i || is_number i)
        && (not (too_long texts i)
            && key_eq
                (record {
                  responder = if is_some (get m.payload "method") then not responder else responder;
                  encoded = texts.to_string i;
                })
                k)
  ]
]

-- The history holds a tools/list request, after which the numbers have no gap and no message uses
-- that id.
abbrev pub Requested : Texts → List Seen → Key → Type 0
Requested texts [] k = ⊥
Requested texts (m ∷ ms) k =
    IsListRequest texts m k
    ⊎ ((is_gap (last_seq ms) m.seq ≡ false) × (uses texts m k ≡ false) × Requested texts ms k)

All-keep :
    (P : Key → Type 0) (k : Key) (ks : List Key)
    → All P ks
    → All (λ j. P j × (key_eq k j ≡ false)) (remove k ks)
All-keep P k [] h = tt
All-keep P k (j ∷ js) h =
    let rest = All-keep P k js h.1 in
    elim (Bool-cases (key_eq k j)) [ inl e ↦ rw e rest | inr e ↦ rw e ((h.0, e), rest) ]

key_eq_sound : (j k : Key) → key_eq j k ≡ true → j ≡ k
key_eq_sound j k h =
    let (a, b) = and-true (bool_eq j.responder k.responder) (str_eq j.encoded k.encoded) h in
    let e = eq_iff j.encoded k.encoded in ground (arith, e)

All-any : (P : Key → Type 0) (k : Key) (ks : List Key) → All P ks → any (key_eq k) ks ≡ true → P k
All-any P k [] h e = absurd (cc e)
All-any P k (j ∷ js) h e =
    let rest = All-any P k js h.1 in
    elim (Bool-cases (key_eq k j)) [
      | inl f ↦ subst P (sym (key_eq_sound k j f)) h.0
      | inr f ↦ rest (rw f at e)
    ]

-- What holds of the tracker after a history.
pub record IsTracked (texts : Texts) (history : List Seen) (t : Tracker) : Type 0 where
  pub previous : t.previous_seq ≡ last_seq history
  pub sources : All (Requested texts history) t.pending
  pub bounded : length t.pending ≤ max_pending_list_requests

length-remove :
    (k : Key) (ks : List Key)
    → length ks ≤ max_pending_list_requests
    → length (remove k ks) ≤ max_pending_list_requests
length-remove k ks h = omega (arith, h, length-keep (λ j. not (key_eq k j)) ks)

pub not-not : (b : Bool) → not (not b) ≡ b
not-not b = ground arith

module _ (texts : Texts) (m : Seen) (ms : List Seen) where
  abbrev pub Kept : Key → Type 0
  Kept k = (is_gap (last_seq ms) m.seq ≡ false) × Requested texts ms k

  pub Kept-after_gap :
      (t : Tracker)
      → t.previous_seq ≡ last_seq ms
      → All (Requested texts ms) t.pending
      → All Kept (after_gap t m.seq).pending
  unfolding after_gap
  Kept-after_gap t p h = elim (Bool-cases (is_gap t.previous_seq m.seq)) [
    | inl e ↦ rw e tt
    | inr e ↦ rw e (All-map (Requested texts ms) Kept (λ k r. (rw p at e, r)) t.pending h)
  ]

  -- Where the message uses no id, all keys stay.
  pub unused :
      (ks : List Key)
      → ((k : Key) → uses texts m k ≡ false)
      → All Kept ks
      → All (Requested texts (m ∷ ms)) ks
  unused ks u h = All-map Kept (Requested texts (m ∷ ms)) (λ k r. inr (r.0, u k, r.1)) ks h

  -- Where it uses one, the others stay.
  pub used :
      (key : Key) (ks : List Key)
      → ((k : Key) → uses texts m k ≡ key_eq key k)
      → All Kept ks
      → All (Requested texts (m ∷ ms)) (remove key ks)
  used key ks u h =
      All-map (λ k. Kept k × (key_eq key k ≡ false)) (Requested texts (m ∷ ms))
        (λ k r. inr (r.0.0, u k ∙ r.1, r.0.1)) (remove key ks) (All-keep Kept key ks h)

  pub request-IsTracked :
      (u : Tracker) (key : Key) (lists : Bool)
      → u.previous_seq ≡ some m.seq
      → length u.pending ≤ max_pending_list_requests
      → All (Requested texts (m ∷ ms)) (remove key u.pending)
      → (lists ≡ true → IsListRequest texts m key)
      → IsTracked texts (m ∷ ms) (observe_request u key lists)
  unfolding observe_request
  request-IsTracked u key false p b h r = record {
    previous = p;
    sources = h;
    bounded = length-remove key u.pending b;
  }
  request-IsTracked u key true p b h r =
      elim (Bool-cases (ltb (length (remove key u.pending)) max_pending_list_requests)) [
        | inl e ↦
            rw e (record { previous = p; sources = (inl (r refl), h); bounded = ground arith })
        | inr e ↦
            rw e (record { previous = p; sources = h; bounded = length-remove key u.pending b })
      ]

  pub response-IsTracked :
      (u : Tracker) (key : Key)
      → u.previous_seq ≡ some m.seq
      → length u.pending ≤ max_pending_list_requests
      → All (Requested texts (m ∷ ms)) (remove key u.pending)
      → IsTracked texts (m ∷ ms) (observe_response u key m.payload).1
  unfolding observe_response
  response-IsTracked u key p b h = record {
    previous = p;
    sources = h;
    bounded = length-remove key u.pending b;
  }

  -- What an answer that the tracker grants the exception says.
  pub record IsAnswer : Type 0 where
    pub responder : Bool
    pub answer_id : Value
    pub from_side : responder_of m.direction ≡ some responder
    pub has_id : get m.payload "id" ≡ some answer_id
    pub no_method : is_some (get m.payload "method") ≡ false
    pub has_result : is_some (get m.payload "result") ≡ true
    pub no_error : is_some (get m.payload "error") ≡ false
    pub no_gap : is_gap (last_seq ms) m.seq ≡ false
    pub requested :
        Requested texts ms (record { responder = responder; encoded = texts.to_string answer_id })

  pub response-IsAnswer :
      (u : Tracker) (responder : Bool) (i : Value)
      → responder_of m.direction ≡ some responder
      → get m.payload "id" ≡ some i
      → is_some (get m.payload "method") ≡ false
      → All Kept u.pending
      → (observe_response u
          (record { responder = responder; encoded = texts.to_string i })
          m.payload).0
        ≡ tool_list_response
      → IsAnswer
  unfolding observe_response
  response-IsAnswer u responder i d e k h g =
      let key : Key = record { responder = responder; encoded = texts.to_string i } in
      let f : any (key_eq key) u.pending ≡ true = ground arith in
      let (a, b) = All-any Kept key u.pending h f in
      record {
        responder = responder;
        answer_id = i;
        from_side = d;
        has_id = e;
        no_method = k;
        has_result = ground arith;
        no_error = ground arith;
        no_gap = a;
        requested = b;
      }
