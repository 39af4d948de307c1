-- ===== src/Model/Correlate/Sound.antt =====
-- Every exchange of the correlated view comes from the recorded messages.
use mcptracer.Common.{
  ℕ, ℤ, ◌-ℤ◌, sub_i64, sub_i64_lem, fits_i64, wrap_i64, if◌then◌else◌, String, Bool, true, false,
  ◌≡◌, refl, sym, ap, ◌∙◌, ◌⊎◌, inl, inr, Option, none, some, List, [], ◌∷◌, arith, get_elem?, All,
}
use mcptracer.Json.{Codec, is_some}
use mcptracer.Protocol.Message.{Direction, from_db_str, opposite, opposite-opposite}
use mcptracer.Model.Session.{
  StoredMessage, ExchangeStatus, ok, error, tool_error, subscribed, cancelled, unanswered,
  orphan_response, Exchange, is_request_kind, is_response_kind,
}
use mcptracer.Model.Pending.{Key}
use mcptracer.Model.Correlate.{Correlation, opened, orphan, answer_status, answered}

abbrev pub In : StoredMessage → List StoredMessage → Type 0
In m [] = ⊥
In m (x ∷ xs) = (x ≡ m) ⊎ In m xs

-- `m` is the request, or the response, that the exchange names.
pub record IsRequestOf (e : Exchange) (m : StoredMessage) : Type 0 where
  pub seq : e.request_seq ≡ some m.seq
  pub kind : is_request_kind m.message_kind ≡ true
  pub direction : from_db_str m.direction ≡ some e.origin
  pub rpc_id : m.rpc_id ≡ e.rpc_id
  pub method : m.method ≡ e.method
  pub tool_name : m.tool_name ≡ e.tool_name
  pub ts_ns : e.request_ts_ns ≡ some m.ts_ns

pub record IsResponseOf (e : Exchange) (m : StoredMessage) : Type 0 where
  pub seq : e.response_seq ≡ some m.seq
  pub kind : is_response_kind m.message_kind ≡ true
  pub direction : from_db_str m.direction ≡ some (opposite e.origin)
  pub rpc_id : m.rpc_id ≡ e.rpc_id
  pub error_code : m.error_code ≡ e.error_code
  pub ts_ns : e.response_ts_ns ≡ some m.ts_ns

-- The sides that an exchange of a status has: its request and its response.
abbrev pub sides : ExchangeStatus → Bool × Bool
sides ok = (true, true)
sides error = (true, true)
sides tool_error = (true, true)
sides subscribed = (true, false)
sides cancelled = (true, false)
sides unanswered = (true, false)
sides orphan_response = (false, true)

-- The time between two stamps where it fits in 64 bits, and else its remainder.
abbrev pub time_between : Option ℤ → Option ℤ → Option ℤ
time_between (some t) (some u) = some (if fits_i64 (u -ℤ t) then u -ℤ t else wrap_i64 (u -ℤ t))
time_between _ _ = none

module _ (recorded : List StoredMessage) where
  abbrev pub FromRequest : Exchange → Type 0
  FromRequest e =
      (e.request_ts_ns ≡ none) × (e.request_seq ≡ none)
      ⊎ ((m : StoredMessage) × In m recorded × IsRequestOf e m)

  abbrev pub FromResponse : Exchange → Type 0
  FromResponse e =
      (e.response_ts_ns ≡ none) × (e.response_seq ≡ none)
      ⊎ ((m : StoredMessage) × In m recorded × IsResponseOf e m)

  pub record IsSound (e : Exchange) : Type 0 where
    pub request : FromRequest e
    pub response : FromResponse e
    pub has_sides : (is_some e.request_seq, is_some e.response_seq) ≡ sides e.status
    pub latency : e.latency_ns ≡ time_between e.request_ts_ns e.response_ts_ns

  -- A key of the map waits for the exchange at its index.
  pub record Waits (es : List Exchange) (k : Key) (idx : ℕ) : Type 0 where
    pub exchange : Exchange
    pub at : get_elem? es idx ≡ some exchange
    pub id : exchange.rpc_id ≡ some k.1
    pub reply : opposite exchange.origin ≡ k.0
    pub unreplied : sides exchange.status ≡ (true, false)

  abbrev pub WaitsAt : List Exchange → Key × ℕ → Type 0
  WaitsAt es (k, idx) = Waits es k idx

  pub record Inv (c : Correlation) : Type 0 where
    pub sound : All IsSound c.exchanges
    pub waits : All (WaitsAt c.exchanges) c.pending

  pub same_request :
      (e f : Exchange)
      → f.request_seq ≡ e.request_seq
      → f.origin ≡ e.origin
      → f.rpc_id ≡ e.rpc_id
      → f.method ≡ e.method
      → f.tool_name ≡ e.tool_name
      → f.request_ts_ns ≡ e.request_ts_ns
      → FromRequest e
      → FromRequest f
  same_request e f p o i n t u (inl (a, b)) = inl (u ∙ a, p ∙ b)
  same_request e f p o i n t u (inr (m, r, h)) = inr (
    m,
    r,
    record {
      seq = p ∙ h.seq;
      kind = h.kind;
      direction = h.direction ∙ ap some (sym o);
      rpc_id = h.rpc_id ∙ sym i;
      method = h.method ∙ sym n;
      tool_name = h.tool_name ∙ sym t;
      ts_ns = u ∙ h.ts_ns;
    },
  )

  pub same_response :
      (e f : Exchange)
      → f.response_seq ≡ e.response_seq
      → f.origin ≡ e.origin
      → f.rpc_id ≡ e.rpc_id
      → f.error_code ≡ e.error_code
      → f.response_ts_ns ≡ e.response_ts_ns
      → FromResponse e
      → FromResponse f
  same_response e f p o i c u (inl (a, b)) = inl (u ∙ a, p ∙ b)
  same_response e f p o i c u (inr (m, r, h)) = inr (
    m,
    r,
    record {
      seq = p ∙ h.seq;
      kind = h.kind;
      direction = h.direction ∙ ap (λ x. some (opposite x)) (sym o);
      rpc_id = h.rpc_id ∙ sym i;
      error_code = h.error_code ∙ sym c;
      ts_ns = u ∙ h.ts_ns;
    },
  )

  pub opened-IsSound :
      (dir : Direction) (m : StoredMessage)
      → In m recorded
      → from_db_str m.direction ≡ some dir
      → is_request_kind m.message_kind ≡ true
      → IsSound (opened dir m)
  opened-IsSound dir m i d k = record {
    request = inr (
      m,
      i,
      record {
        seq = refl;
        kind = k;
        direction = d;
        rpc_id = refl;
        method = refl;
        tool_name = refl;
        ts_ns = refl;
      },
    );
    response = inl (refl, refl);
    has_sides = refl;
    latency = refl;
  }

  pub orphan-IsSound :
      (dir : Direction) (m : StoredMessage)
      → In m recorded
      → from_db_str m.direction ≡ some dir
      → is_response_kind m.message_kind ≡ true
      → IsSound (orphan dir m)
  orphan-IsSound dir m i d k = record {
    request = inl (refl, refl);
    response = inr (
      m,
      i,
      record {
        seq = refl;
        kind = k;
        direction = rw opposite-opposite d;
        rpc_id = refl;
        error_code = refl;
        ts_ns = refl;
      },
    );
    has_sides = refl;
    latency = refl;
  }

  since_lem :
      (o old r : Option ℤ) (u : ℤ)
      → old ≡ time_between o r
      → elim o as (λ _. Option ℤ) [ none ↦ old | some t ↦ some (sub_i64 u t) ]
        ≡ time_between o (some u)
  since_lem none old r u h = ground (arith, h)
  since_lem (some t) old r u h = ap some (sub_i64_lem u t)

  answer_status-sides :
      (codec : Codec) (e : Exchange) (m : StoredMessage)
      → sides (answer_status codec e m) ≡ (true, true)
  unfolding answer_status
  answer_status-sides codec e m = ground arith

  pub answered-IsSound :
      (codec : Codec) (dir : Direction) (e : Exchange) (m : StoredMessage) (id : String)
      → In m recorded
      → from_db_str m.direction ≡ some dir
      → is_response_kind m.message_kind ≡ true
      → m.rpc_id ≡ some id
      → e.rpc_id ≡ some id
      → opposite e.origin ≡ dir
      → sides e.status ≡ (true, false)
      → IsSound e
      → IsSound (answered codec e m)
  unfolding answered
  answered-IsSound codec dir e m id i d k mi ei o s h = record {
    request = same_request e (answered codec e m) refl refl refl refl refl refl h.request;
    response = inr (
      m,
      i,
      record {
        seq = refl;
        kind = k;
        direction = d ∙ ap some (sym o);
        rpc_id = mi ∙ sym ei;
        error_code = refl;
        ts_ns = refl;
      },
    );
    has_sides = ground (arith, answer_status-sides codec e m, h.has_sides, s);
    latency = since_lem e.request_ts_ns e.latency_ns e.response_ts_ns m.ts_ns h.latency;
  }
