-- ===== src/Watch/Server.antt =====
-- The daemon's side of a connection: `WatchServer._handle`, `_respond_to_line` and `dispatch` of
-- src/java_codebase_rag/watch/server.py. The payload functions, and how their results become JSON values, are
-- arguments.
pub mod Stream
use jrag.Base.{
  one_of, ℕ, zero, suc, Bool, true, false, Option, none, some, List, [], ◌∷◌, ◌++◌, ◌≡◌,
  if◌then◌else◌, length, Text, text_of, split_line,
}
use jrag.Watch.Protocol.{
  Value, null, bool, num, text, list, object, Fields, object, Json, Request, Response, ErrorShape,
  Raised, protocol_mismatch, value_error, other, Decoded, ok, raised, decode_request,
  encode_response, protocol_version, valid_cmds,
}

-- How a payload function ends, the graph included that it is given: with a payload, `_IndexStale`,
-- `ProtocolMismatch` or `ValueError`, or another exception; an exception with its text.
pub data Outcome (P : Type 0) : Type 0 where
  returned : P → Outcome P
  index_stale bad_args backend_error : Text → Outcome P

-- The server's surroundings: JSON, `<cmd>_payload(args, cfg, graph)`, `serialize`, and the texts of what
-- decoding raises.
pub record Host (P : Type 0) : Type 0 where
  pub json : Json
  pub payload : Text → Value → Outcome P
  pub serialize : P → Value
  pub raised_text : Raised → Text

abbrev pub failure : Text → Text → Response
failure kind message = record {
  v = protocol_version;
  is_ok = false;
  result = null;
  error = some (record { kind = text kind; message = text message });
}

module _ {P : Type 0} (host : Host P) where
  abbrev pub respond_outcome : Outcome P → Response
  respond_outcome (returned p) = record {
    v = protocol_version;
    is_ok = true;
    result = host.serialize p;
    error = none;
  }
  respond_outcome (index_stale t) = failure (text_of "stale_index") t
  respond_outcome (bad_args t) = failure (text_of "bad_args") t
  respond_outcome (backend_error t) = failure (text_of "backend_error") t

  -- `argparse.Namespace(**req.args)`, which takes a dict only and stands outside of the `try`
  abbrev pub run_payload : Text → Value → Decoded Response
  run_payload cmd (object fs) = ok (respond_outcome (host.payload cmd (object fs)))
  run_payload cmd _ = raised other

  -- `dispatch`; what it raises leaves the connection
  unfoldable pub dispatch : Request → Decoded Response
  dispatch req =
      if one_of req.cmd valid_cmds
      then run_payload req.cmd req.args
      else ok (failure (text_of "unknown_command") (text_of "Unknown command: " ++ req.cmd))

  abbrev respond : Decoded Request → Decoded Response
  respond (ok req) = dispatch req
  respond (raised other) = raised other
  respond (raised protocol_mismatch) =
      ok (failure (text_of "bad_args") (host.raised_text protocol_mismatch))
  respond (raised value_error) = ok (failure (text_of "bad_args") (host.raised_text value_error))

  -- `_respond_to_line`
  unfoldable pub respond_to_line : List ℕ → Decoded Response
  respond_to_line line = respond (decode_request host.json line)

-- Why a connection is left: the peer closed it, a send failed, or an exception that only `serve` catches.
pub data End : Type 0 where
  closed peer_gone crashed : End

-- The lines sent, how many more sends go through, and how the connection ended.
pub record Service : Type 0 where
  pub sent : List (List ℕ)
  pub room : ℕ
  pub ended : Option End

-- A connection, with the bytes not yet answered.
pub record Connection : Type 0 where
  pub buffer : List ℕ
  pub service : Service

abbrev pub without_newline : List ℕ → List ℕ
without_newline [] = []
without_newline (c ∷ []) = []
without_newline (c ∷ d ∷ l) = c ∷ without_newline (d ∷ l)

module _ {P : Type 0} (host : Host P) where
  abbrev pub send : Service → Response → ℕ → Service
  send k r zero = record k { ended = some peer_gone }
  send k r (suc n) = record k { sent = k.sent ++ (encode_response host.json r ∷ []); room = n }

  abbrev pub answer : Service → Decoded Response → Service
  answer k (raised e) = record k { ended = some crashed }
  answer k (ok r) = send k r k.room

  -- One turn of the inner loop, on the line; a connection that has ended is left as it is.
  unfoldable pub answer_line : Service → List ℕ → Service
  answer_line k line = elim (k.ended) [
    | some e ↦ k
    | none ↦ answer k (respond_to_line host (without_newline line))
  ]

  -- `while b"\n" in buffer`, on fuel
  unfoldable pub answer_lines : ℕ → List ℕ → Service → Connection
  answer_lines zero buffer k = record { buffer = buffer; service = k }
  answer_lines (suc n) buffer k = elim (split_line buffer) [
    | none ↦ record { buffer = buffer; service = k }
    | some (line, later) ↦ answer_lines n later (answer_line k line)
  ]

  unfoldable pub receive : Connection → List ℕ → Connection
  receive k chunk = answer_lines (length (k.buffer ++ chunk)) (k.buffer ++ chunk) k.service

  abbrev pub receive_all : List (List ℕ) → Connection → Connection
  receive_all [] k = k
  receive_all (c ∷ chunks) k = receive_all chunks (receive k c)

  abbrev pub close : Service → Option End → Service
  close k none = record k { ended = some closed }
  close k (some e) = k

  abbrev pub fresh : ℕ → Service
  fresh room = record { sent = []; room = room; ended = none }

  -- `_handle`, on the chunks that the peer sends before it closes or the read fails
  unfoldable pub handle : ℕ → List (List ℕ) → Service
  unfolding receive
  handle room chunks =
      let k = receive_all chunks (record { buffer = []; service = fresh room }) in
      close k.service k.service.ended
