-- ===== src/Storage/Vcr.antt =====
-- crates/mcptracer-storage/src/vcr.rs: cassettes of another recorder. Reading the file and parsing its
-- JSON are library calls; what `read_file` does with the two parses is `accepted`. The length in bytes
-- of a printed value is `len`. The numbers of the messages fit 64 bits, as the two limits on a cassette
-- bound them.
pub mod Numbered
use mcptracer.Common.{
  ℕ, ℤ, pos, suc, ◌+◌, ◌*◌, String, Bool, true, false, Option, none, some, List, [], ◌∷◌, ◌++◌,
  length, leb, ◌==◌, str_eq, if◌then◌else◌, Result, ok, err, ◌>>=◌,
}
use mcptracer.Json.{Codec, Value, get, as_str?, is_some}
use mcptracer.Protocol.Message.{McpMessage, client_to_server, server_to_client}

pub record VcrInteraction : Type 0 where
  pub request : Value
  pub response : Option Value

pub record VcrCassette : Type 0 where
  pub version : ℕ
  pub interactions : List VcrInteraction

pub record AgentVcrCassette : Type 0 where
  pub format_version : String
  pub initialize_request : Option Value
  pub initialize_response : Option Value
  pub interactions : List VcrInteraction

pub data VcrError : Type 0 where
  invalid_json too_many_interactions : VcrError
  unsupported_format : String → VcrError
  unsupported_version no_method : ℕ → VcrError

abbrev pub supported_version : ℕ
supported_version = 1

abbrev pub max_interactions : ℕ
max_interactions = 500000

unfoldable pub validate_cassette : VcrCassette → Result VcrError (Unit {0})
validate_cassette c =
    if c.version == supported_version
    then (if leb (length c.interactions) max_interactions then ok tt else err too_many_interactions)
    else err (unsupported_version c.version)

-- The first interaction of the other format, if it has both of its sides.
abbrev pub with_initialize : Option Value → Option Value → List VcrInteraction → List VcrInteraction
with_initialize (some q) (some r) is = record { request = q; response = some r } ∷ is
with_initialize _ _ is = is

abbrev pub from_agent : Option AgentVcrCassette → Result VcrError VcrCassette
from_agent none = err invalid_json
from_agent (some a) =
    if str_eq a.format_version "1.0.0"
    then ok (record {
      version = supported_version;
      interactions = with_initialize a.initialize_request a.initialize_response a.interactions;
    })
    else err (unsupported_format a.format_version)

-- `read_file` behind the two parses.
unfoldable pub accepted : Option VcrCassette → Option AgentVcrCassette → Result VcrError VcrCassette
accepted native agent =
    elim native as (λ _. Result VcrError VcrCassette) [ some c ↦ ok c | none ↦ from_agent agent ]
    >>= λ c. validate_cassette c >>= λ _. ok c

module _ (codec : Codec) (len : String → ℕ) where
  abbrev pub request_message : ℕ → ℕ → Value → McpMessage
  request_message index seq request = record {
    seq = seq;
    timestamp_ns = pos (index * 2000000);
    direction = client_to_server;
    payload = request;
    payload_bytes = len (codec.print request);
  }

  -- The messages of a response, and the number behind them.
  abbrev pub response_messages : ℕ → ℕ → Option Value → List McpMessage × ℕ
  response_messages index seq none = ([], seq)
  response_messages index seq (some response) = (
    record {
      seq = seq;
      timestamp_ns = pos (index * 2000000 + 1000000);
      direction = server_to_client;
      payload = response;
      payload_bytes = len (codec.print response);
    }
        ∷ [],
    seq + 1,
  )

  -- The loop, from an interaction and a message number on.
  unfoldable pub messages_from : ℕ → ℕ → List VcrInteraction → Result VcrError (List McpMessage)
  messages_from index seq [] = ok []
  messages_from index seq (i ∷ is) =
      let (responses, next) = response_messages index (seq + 1) i.response in
      let rest = messages_from (index + 1) next is in
      if is_some (as_str? (get i.request "method"))
      then (rest >>= λ ms. ok (request_message index seq i.request ∷ (responses ++ ms)))
      else err (no_method index)

  unfoldable pub cassette_to_messages : VcrCassette → Result VcrError (List McpMessage)
  cassette_to_messages c = messages_from 0 0 c.interactions
