-- ===== src/Watch/Protocol/Roundtrip.antt =====
-- Requests and responses that are encoded are decoded to themselves: src/java_codebase_rag/watch/protocol.py.
use jrag.Base.{
  one_of, ℕ, true, false, Option, none, some, List, [], ◌∷◌, ◌++◌, ◌≡◌, refl, arith, Text,
  same_text,
}
use jrag.Watch.Protocol.{
  command, request_of, read_error, error_value, error_shape, parse, request_value, read_request,
  read_response, Value, Json, Request, Response, ErrorShape, ok, encode_response, decode_request,
  decode_response, is_blank, valid_cmds, protocol_version, response_value, text,
}

-- What the codec relies on of the JSON library: it reads what it printed, with and without a newline behind, and
-- prints no blank text.
pub record JsonLaws (json : Json) : Type 0 where
  pub reads : (x : Value) → json.loads (json.dumps x) ≡ some x
  pub reads_line : (x : Value) → json.loads (json.dumps x ++ (10 ∷ [])) ≡ some x
  pub is_text : (x : Value) → is_blank (json.dumps x) ≡ false

pub blank-append : (l m : List ℕ) → is_blank l ≡ false → is_blank (l ++ m) ≡ false
unfolding is_blank
blank-append [] m h = ground arith
blank-append (c ∷ l) m h = ground (arith, blank-append l m)

command-text : (c : Text) → one_of c valid_cmds ≡ true → command (text c) ≡ ok c
unfolding command
command-text c m = rw m refl

request_of-value :
    (r : Request) → r.v ≡ protocol_version → request_of r.cmd (request_value r) ≡ ok r
unfolding request_of same_text
request_of-value r h = ground arith

read_request-value :
    (r : Request)
    → r.v ≡ protocol_version
    → one_of r.cmd valid_cmds ≡ true
    → read_request (request_value r) ≡ ok r
unfolding read_request same_text
read_request-value r h m = ground (arith, command-text r.cmd m, request_of-value r h)

read_error-value : (e : Option ErrorShape) → read_error (error_value e) ≡ ok e
unfolding error_shape same_text
read_error-value none = refl
read_error-value (some e) = refl

read_response-value :
    (r : Response) → r.v ≡ protocol_version → read_response (response_value r) ≡ ok r
unfolding read_response same_text
read_response-value r h = ground (arith, read_error-value r.error)

module _ (json : Json) (laws : JsonLaws json) where
  parse-dumps : (x : Value) → parse json (json.dumps x) ≡ ok x
  parse-dumps x = rw (laws.is_text x, laws.reads x) refl

  parse-line : (x : Value) → parse json (json.dumps x ++ (10 ∷ [])) ≡ ok x
  parse-line x = rw (blank-append (json.dumps x) (10 ∷ []) (laws.is_text x), laws.reads_line x) refl

  pub decode-encode_request :
      (r : Request)
      → r.v ≡ protocol_version
      → one_of r.cmd valid_cmds ≡ true
      → decode_request json (json.dumps (request_value r)) ≡ ok r
  unfolding decode_request
  decode-encode_request r h m = rw (parse-dumps (request_value r)) (read_request-value r h m)

  -- A response of the protocol's version, with an error or without, is decoded from its line to itself.
  pub decode-encode_response :
      (r : Response) → r.v ≡ protocol_version → decode_response json (encode_response json r) ≡ ok r
  unfolding decode_response encode_response
  decode-encode_response r h = rw (parse-line (response_value r)) (read_response-value r h)
