-- ===== src/Model/Eval.antt =====
-- crates/mcptracer-model/src/eval.rs: expected and forbidden tool calls against a recorded session. A
-- specification comes with its required arguments as JSON values. The accuracy, a quotient of floats,
-- is left as the two counts it divides; the equality of two JSON values is the parameter `value_eq`.
pub mod Matches
use mcptracer.Common.{
  ℕ, zero, suc, ◌+◌, String, Bool, true, false, not, ◌&&◌, ◌||◌, Option, none, some, List, [], ◌∷◌,
  ◌++◌, map, any, keep, count, length, set, leb, ltb, ◌==◌, str_eq, is_text, if◌then◌else◌,
}
use mcptracer.Json.{
  Codec, Value, null, bool, number, string, array, object, Items, Fields, end, field, get, get?,
  lookup, is_some,
}
use mcptracer.Model.Session.{StoredMessage, Exchange}
use mcptracer.Model.Stats.{Ranks}
use mcptracer.Model.Correlate.{correlate}
use mcptracer.Model.Serve.{or_null, all_present}

pub record ExpectedCall : Type 0 where
  pub tool : String
  pub required_arguments : Option Value

pub record EvalSpec : Type 0 where
  pub ordered : Bool
  pub expected : List ExpectedCall
  pub forbidden : List String

-- The sentences of a result are left out.
pub record ExpectationResult : Type 0 where
  pub tool : String
  pub satisfied : Bool

pub record Call : Type 0 where
  pub exchange : Exchange
  pub arguments : Value

-- A call, and whether an expectation has used it.
pub record Slot : Type 0 where
  pub call : Call
  pub used : Bool

-- `payloads_by_seq`, searched from its last entry: the payload of a number, of the messages that parse.
unfoldable pub payload_at : Codec → ℕ → List StoredMessage → Option Value
payload_at codec n [] = none
payload_at codec n (m ∷ ms) = elim (payload_at codec n ms) [
  | some later ↦ some later
  | none ↦ if m.seq == n then codec.parse m.payload else none
]

abbrev pub payload_of : Codec → List StoredMessage → Option ℕ → Option Value
payload_of codec ms none = none
payload_of codec ms (some n) = payload_at codec n ms

abbrev pub call_of : Codec → List StoredMessage → Exchange → Call
call_of codec ms e = record {
  exchange = e;
  arguments = or_null (get? (get? (payload_of codec ms e.request_seq) "params") "arguments");
}

unfoldable pub tool_calls : Codec → Ranks → List StoredMessage → List Call
tool_calls codec ranks ms =
    map (call_of codec ms) (keep (λ e. is_some e.tool_name) (correlate codec ranks ms).exchanges)

unfoldable pub arguments_subset : (Value → Value → Bool) → Value → Value → Bool
arguments_subset value_eq (object required) (object actual) = all_present value_eq required actual
arguments_subset value_eq (object required) actual = false
arguments_subset value_eq other actual = value_eq other actual

abbrev pub has_arguments : (Value → Value → Bool) → Option Value → Value → Bool
has_arguments value_eq none actual = true
has_arguments value_eq (some required) actual = arguments_subset value_eq required actual

-- `if spec.ordered { if let Some(last) … position <= last … }`
abbrev pub behind : Bool → Option ℕ → ℕ → Bool
behind false last position = true
behind true none position = true
behind true (some last) position = ltb last position

module _ (value_eq : Value → Value → Bool) where
  abbrev pub accepts : ExpectedCall → Call → Bool
  accepts e c =
      is_text c.exchange.tool_name e.tool && has_arguments value_eq e.required_arguments c.arguments

  -- The loop over the calls, from a position on: the first that is taken.
  unfoldable pub find_call : Bool → Option ℕ → ExpectedCall → ℕ → List Slot → Option ℕ
  find_call ordered last e position [] = none
  find_call ordered last e position (s ∷ ss) =
      let rest = find_call ordered last e (position + 1) ss in
      if not s.used && (behind ordered last position && accepts e s.call)
      then some position
      else rest

  -- `used[position] = true`
  unfoldable pub use_slot : ℕ → List Slot → List Slot
  use_slot n [] = []
  use_slot zero (s ∷ ss) = record s { used = true } ∷ ss
  use_slot (suc n) (s ∷ ss) = s ∷ use_slot n ss

  -- The loop over the expectations: the position that each one found.
  unfoldable pub match_all : Bool → Option ℕ → List Slot → List ExpectedCall → List (Option ℕ)
  match_all ordered last slots [] = []
  match_all ordered last slots (e ∷ es) = elim (find_call ordered last e 0 slots) [
    | none ↦ none ∷ match_all ordered last slots es
    | some position ↦ some position ∷ match_all ordered (some position) (use_slot position slots) es
  ]

  abbrev pub fresh : List Call → List Slot
  fresh = map (λ c. record { call = c; used = false })

  abbrev pub expected_results : List ExpectedCall → List (Option ℕ) → List ExpectationResult
  expected_results (e ∷ es) (found ∷ rest) =
      record { tool = e.tool; satisfied = is_some found } ∷ expected_results es rest
  expected_results _ _ = []

  abbrev pub forbidden_result : List Call → String → ExpectationResult
  forbidden_result calls tool = record {
    tool = tool;
    satisfied = not (any (λ c. is_text c.exchange.tool_name tool) calls);
  }

  unfoldable pub evaluate : Codec → Ranks → EvalSpec → List StoredMessage → List ExpectationResult
  evaluate codec ranks spec ms =
      let calls = tool_calls codec ranks ms in
      expected_results spec.expected (match_all spec.ordered none (fresh calls) spec.expected)
      ++ map (forbidden_result calls) spec.forbidden

-- The two sides of the quotient `accuracy`.
abbrev pub satisfied_of : List ExpectationResult → ℕ × ℕ
satisfied_of results = (count (λ r. r.satisfied) results, length results)
