-- ===== src/Storage/Vcr/Numbered.antt =====
-- What the messages of a cassette are.
use mcptracer.Common.{
  ℕ, ◌+◌, String, Bool, true, ◌≡◌, refl, ap, Option, none, some, List, [], ◌∷◌, ◌++◌, map, all,
  and-true, Result, ok, ◌>>=◌,
}
use mcptracer.Json.{Codec, Value, get, as_str?, is_some}
use mcptracer.Protocol.Message.{McpMessage, Direction, client_to_server, server_to_client}
use mcptracer.Storage.Vcr.{
  VcrInteraction, VcrCassette, VcrError, request_message, response_messages, messages_from,
  cassette_to_messages,
}

abbrev pub has_method : VcrInteraction → Bool
has_method i = is_some (as_str? (get i.request "method"))

-- The numbers go up by one.
abbrev pub Consecutive : ℕ → List McpMessage → Type 0
Consecutive n [] = Unit
Consecutive n (m ∷ ms) = (m.seq ≡ n) × Consecutive (n + 1) ms

-- The payloads of an interaction with the side each comes from, and those of a cassette in its order.
abbrev pub sides : VcrInteraction → List (Direction × Value)
sides i =
    (client_to_server, i.request)
    ∷ elim i.response [ none ↦ [] | some r ↦ (server_to_client, r) ∷ [] ]

abbrev pub all_sides : List VcrInteraction → List (Direction × Value)
all_sides [] = []
all_sides (i ∷ is) = sides i ++ all_sides is

abbrev pub side : McpMessage → Direction × Value
side m = (m.direction, m.payload)

module _ (codec : Codec) (len : String → ℕ) where
  record Made (n : ℕ) (is : List VcrInteraction) (r : Result VcrError (List McpMessage))
      : Type 0 where
    messages : List McpMessage
    returned : r ≡ ok messages
    numbers : Consecutive n messages
    payloads : map side messages ≡ all_sides is

  extended-Made :
      (index seq : ℕ) (request : Value) (o : Option Value) (is : List VcrInteraction)
      (r : Result VcrError (List McpMessage))
      → Made (response_messages codec len index (seq + 1) o).1 is r
      → Made seq (record { request = request; response = o } ∷ is) (
          r >>= λ ms. ok (
            request_message codec len index seq request
            ∷ ((response_messages codec len index (seq + 1) o).0 ++ ms)))
  extended-Made index seq request none is r m = record {
    messages = request_message codec len index seq request ∷ m.messages;
    returned = rw m.returned refl;
    numbers = (refl, m.numbers);
    payloads = ap (λ (l : List (Direction × Value)). (client_to_server, request) ∷ l) m.payloads;
  }
  extended-Made index seq request (some v) is r m = record {
    messages =
        request_message codec len index seq request
        ∷ ((response_messages codec len index (seq + 1) (some v)).0 ++ m.messages);
    returned = rw m.returned refl;
    numbers = (refl, (refl, m.numbers));
    payloads =
        ap
          (λ (l : List (Direction × Value)).
            (client_to_server, request) ∷ ((server_to_client, v) ∷ l))
          m.payloads;
  }

  messages_from-Made :
      (index seq : ℕ) (is : List VcrInteraction)
      → all has_method is ≡ true
      → Made seq is (messages_from codec len index seq is)
  unfolding messages_from
  messages_from-Made index seq [] h = record {
    messages = [];
    returned = refl;
    numbers = tt;
    payloads = refl;
  }
  messages_from-Made index seq (i ∷ is) h =
      let (a, b) = and-true (has_method i) _ h in
      rw a (
        extended-Made index seq i.request i.response is _ (
          messages_from-Made (index + 1) (response_messages codec len index (seq + 1) i.response).1
            is b))

  -- A cassette of which every request has a string as its method is imported: its messages are the
  -- requests and the responses that it has, in its order and each from its side, numbered from zero
  -- without a gap.
  pub cassette_to_messages-Made :
      (c : VcrCassette)
      → all has_method c.interactions ≡ true
      → (ms : List McpMessage) × (cassette_to_messages codec len c ≡ ok ms)
        × Consecutive 0 ms
        × (map side ms ≡ all_sides c.interactions)
  unfolding cassette_to_messages
  cassette_to_messages-Made c h =
      let m = messages_from-Made 0 0 c.interactions h in
      (m.messages, m.returned, m.numbers, m.payloads)
