-- ===== src/Storage/Import.antt =====
-- crates/mcptracer-storage/src/lib.rs: `import_mtrace_document`, up to the transaction. It gives the
-- rows that are inserted; the database and the new id of the session are not modelled.
pub mod Rows
use mcptracer.Common.{
  ℕ, ◌^◌, String, Bool, true, false, List, [], ◌∷◌, ltb, if◌then◌else◌, Result, ok, err, ◌>>=◌,
}
use mcptracer.Json.{Codec}
use mcptracer.Model.Session.{StoredMessage}
use mcptracer.Storage.Mtrace.{MtraceMessage, MtraceDocument, MtraceError, validate}

pub data ImportError : Type 0 where
  invalid : MtraceError → ImportError
  sequence_exceeds_i64 payload_size_exceeds_i64 : ImportError

abbrev pub map_err : Result MtraceError (Unit {0}) → Result ImportError (Unit {0})
map_err (ok u) = ok u
map_err (err e) = err (invalid e)

abbrev pub imported : Codec → MtraceMessage → StoredMessage
imported codec m = record {
  seq = m.seq;
  ts_ns = m.ts_ns;
  direction = m.direction;
  message_kind = m.message_kind;
  rpc_id = m.rpc_id;
  method = m.method;
  tool_name = m.tool_name;
  payload = codec.print m.payload;
  payload_bytes = m.payload_bytes;
  is_error = m.is_error;
  error_code = m.error_code;
}

unfoldable pub import_row : Codec → MtraceMessage → Result ImportError StoredMessage
import_row codec m =
    if ltb m.seq (2 ^ 63)
    then (if ltb m.payload_bytes (2 ^ 63)
        then ok (imported codec m)
        else err payload_size_exceeds_i64)
    else err sequence_exceeds_i64

unfoldable pub import_rows : Codec → List MtraceMessage → Result ImportError (List StoredMessage)
import_rows codec [] = ok []
import_rows codec (m ∷ ms) = import_row codec m >>= λ r. import_rows codec ms >>= λ rs. ok (r ∷ rs)

unfoldable pub import_mtrace_document :
    Codec → (String → ℕ) → MtraceDocument → Result ImportError (List StoredMessage)
import_mtrace_document codec len d =
    map_err (validate codec len d) >>= λ _. import_rows codec d.messages
