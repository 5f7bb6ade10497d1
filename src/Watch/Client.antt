-- ===== src/Watch/Client.antt =====
-- The reading side: `request` and `get_payload` of src/java_codebase_rag/watch/client.py, with the fallback to the
-- cold payload functions. The socket, and how payloads are rebuilt from JSON values, are arguments.
pub mod Transparent
use jrag.Base.{
  ℕ, Bool, true, false, Option, none, some, List, [], ◌∷◌, ◌++◌, ◌==◌, ◌||◌, if◌then◌else◌, Text,
}
use jrag.Watch.Protocol.{
  Value, null, Json, Request, Response, ErrorShape, Raised, protocol_mismatch, value_error, other,
  Decoded, ok, raised, encode_request, decode_response, protocol_version,
}

-- `is_daemon_alive`, and what the socket does with the bytes of a request: the chunks received until the peer
-- closes, or `none` for an OSError.
pub record Link : Type 0 where
  pub alive : Bool
  pub exchange : List ℕ → Option (List (List ℕ))

unfoldable pub has_newline : List ℕ → Bool
has_newline [] = false
has_newline (c ∷ cs) = c == 10 || has_newline cs

-- `_readline`, from what was received
unfoldable pub read_line : List ℕ → List (List ℕ) → List ℕ
read_line buf [] = buf
read_line buf (chunk ∷ chunks) =
    let later = read_line (buf ++ chunk) chunks in if has_newline buf then buf else later

-- How `request` ends: with a result, `DaemonUnavailable`, `DaemonError`, or an exception that it does not catch.
pub data Reply : Type 0 where
  result_of : Value → Reply
  unavailable escaped : Reply
  daemon_error : Option ErrorShape → Reply

abbrev pub reply_of : Decoded Response → Reply
reply_of (ok r) = if r.is_ok then result_of r.result else daemon_error r.error
reply_of (raised other) = escaped
reply_of (raised _) = unavailable

abbrev pub received : Json → Option (List (List ℕ)) → Reply
received json none = unavailable
received json (some chunks) = reply_of (decode_response json (read_line [] chunks))

unfoldable pub request : Json → Link → Text → Value → Reply
request json link cmd args =
    if link.alive
    then received json (
        link.exchange
          (encode_request json (record { v = protocol_version; cmd = cmd; args = args })))
    else unavailable

-- `LAST_SERVED_BY`
pub data ServedBy : Type 0 where
  daemon cold : ServedBy

abbrev pub payload_of : {P : Type 0} → (Value → P) → P → Reply → Option (P × ServedBy)
payload_of rebuild core (result_of x) = some (rebuild x, daemon)
payload_of rebuild core unavailable = some (core, cold)
payload_of rebuild core (daemon_error e) = some (core, cold)
payload_of rebuild core escaped = none

-- `get_payload`; `rebuild` is `_reconstruct` and `core` is what the cold function gives. `none`: it raises.
unfoldable pub get_payload :
    {P : Type 0} → Json → Link → (Text → Value → P) → P → Text → Value → Option (P × ServedBy)
unfolding request
get_payload json link rebuild core cmd args =
    payload_of (rebuild cmd) core (request json link cmd args)
