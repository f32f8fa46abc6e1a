-- ===== src/Reliability/Errors.antt =====
-- src/reliability/errors.ts. `Thrown` is what a `catch` can receive: the four classes of the file,
-- any other `Error`, an object that is no `Error`, and a primitive value. A foreign value carries
-- what `String(value)` gives for it; a numeric `code` is kept as the text of the number.
use mcp_conductor.Base.{
  ℕ, zero, suc, ◌+◌, ◌/◌, ◌%◌, Bool, true, false, Option, none, some, List, [], ◌∷◌, ◌++◌, Text,
  codes, includes, lower, ltb, any, if◌then◌else◌,
}

-- The values of a field `code`.
pub data Code : Type 0 where
  string number : Text → Code

pub data Thrown : Type 0 where
  mcp_tool_error : (code server tool : Text) → Thrown → Thrown
  timeout_error : (server tool : Text) (timeout_ms attempts : ℕ) → Thrown
  retry_exhausted_error : (server tool : Text) (attempts : ℕ) → Thrown → Thrown
  circuit_open_error : (server tool : Text) (attempts : ℕ) → Thrown
  error : (message : Text) → Option Code → Thrown
  object : (as_text : Text) → Option Code → Thrown
  primitive : (as_text : Text) → Thrown

-- The way a call ends.
pub data Outcome {ℓ} (A : Type ℓ) : Type ℓ where
  returned : A → Outcome A
  threw : Thrown → Outcome A

-- The decimal digits of a number, as a template string writes them. The fuel bounds their count.
decimal_from : ℕ → ℕ → Text → Text
decimal_from zero n rest = rest
decimal_from (suc fuel) n rest =
    let digit = 48 + n % 10 in
    let more = decimal_from fuel (n / 10) (digit ∷ rest) in if ltb n 10 then digit ∷ rest else more

unfoldable pub decimal : ℕ → Text
unfolding decimal_from
decimal n = decimal_from (suc n) n []

-- `[${server}.${tool}] `
unfoldable pub prefix : Text → Text → Text
prefix server tool = codes "[" ++ (server ++ (codes "." ++ (tool ++ codes "] ")))

-- The field `message` of an `Error`, and `String(value)` of anything else.
unfoldable pub message : Thrown → Text
unfolding prefix decimal
message (mcp_tool_error code server tool upstream) = prefix server tool ++ code
message (timeout_error server tool timeout_ms attempts) =
    prefix server tool
    ++ (codes "timed out after "
        ++ (decimal timeout_ms ++ (codes "ms (attempt " ++ (decimal attempts ++ codes ")"))))
message (retry_exhausted_error server tool attempts last_error) =
    prefix server tool
    ++ (codes "exhausted " ++ (decimal attempts ++ (codes " attempt(s): " ++ message last_error)))
message (circuit_open_error server tool attempts) =
    prefix server tool ++ codes "circuit open — failing fast"
message (error m code) = m
message (object m code) = m
message (primitive m) = m

-- The `code` that an object carries, or what is left to try.
unfoldable pub code_or : Option Code → Text → Text
code_or (some (string c)) rest = c
code_or (some (number c)) rest = c
code_or none rest = rest

-- `m || d`
unfoldable pub or_text : Text → Text → Text
or_text [] d = d
or_text (c ∷ cs) d = c ∷ cs

unfoldable pub extract_error_code : Thrown → Text
unfolding code_or or_text
extract_error_code (mcp_tool_error code server tool upstream) = code
extract_error_code (timeout_error server tool timeout_ms attempts) = codes "TIMEOUT"
extract_error_code (circuit_open_error server tool attempts) = codes "CIRCUIT_OPEN"
extract_error_code (retry_exhausted_error server tool attempts last_error) = codes "RETRY_EXHAUSTED"
extract_error_code (error m code) = code_or code (or_text m (codes "ERROR"))
extract_error_code (object m code) = code_or code (codes "UNKNOWN")
extract_error_code (primitive m) = codes "UNKNOWN"

abbrev pub network_words : List Text
network_words =
    codes "network"
    ∷ codes "econnreset"
    ∷ codes "enotfound"
    ∷ codes "etimedout"
    ∷ codes "socket"
    ∷ codes "timeout"
    ∷ codes "econnrefused"
    ∷ []

-- The test of a generic error's message.
unfoldable pub is_network_message : Text → Bool
unfolding any includes lower
is_network_message m = any (includes (lower m)) network_words

unfoldable pub is_retryable : Thrown → Bool
unfolding is_network_message message
is_retryable (circuit_open_error server tool attempts) = false
is_retryable (mcp_tool_error code server tool upstream) = false
is_retryable (timeout_error server tool timeout_ms attempts) = true
is_retryable (retry_exhausted_error server tool attempts last_error) =
    is_network_message (message (retry_exhausted_error server tool attempts last_error))
is_retryable (error m code) = is_network_message m
is_retryable (object m code) = false
is_retryable (primitive m) = false

unfoldable pub is_timeout : Thrown → Bool
is_timeout (timeout_error server tool timeout_ms attempts) = true
is_timeout _ = false

-- `err instanceof Error`
unfoldable pub is_error : Thrown → Bool
is_error (object m code) = false
is_error (primitive m) = false
is_error _ = true
