-- ===== src/Watch/Protocol.antt =====
-- The requests and responses of the watch daemon and their codec: src/java_codebase_rag/watch/protocol.py.
-- The JSON library is an argument: how a value is printed, and what is read from a line (`none`: a ValueError).
pub mod Roundtrip
pub use jrag.Base.Values.{
  Value, null, bool, num, text, list, object, Items, nil, item, Fields, end, field, truthy, Json,
}
unfoldable pub use jrag.Base.Values.{find_field}
use jrag.Base.{
  one_of, ℕ, zero, suc, Bool, true, false, not, Option, none, some, List, [], ◌∷◌, ◌++◌, ◌==◌,
  if◌then◌else◌, ◌&&◌, ◌||◌, ◌≡◌, Text, text_of, same_text, leb,
}

-- `PROTOCOL_VERSION`
abbrev pub protocol_version : ℕ
protocol_version = 1

-- `VALID_CMDS`
abbrev pub valid_cmds : List Text
valid_cmds =
    text_of "search"
    ∷ text_of "find"
    ∷ text_of "inspect"
    ∷ text_of "callers"
    ∷ text_of "callees"
    ∷ text_of "flow"
    ∷ []

-- What decoding raises: `ProtocolMismatch`, `ValueError`, or another exception (KeyError, TypeError).
pub data Raised : Type 0 where
  protocol_mismatch value_error other : Raised

pub data Decoded (A : Type 0) : Type 0 where
  ok : A → Decoded A
  raised : Raised → Decoded A

infixl 5 ◌>>=◌ ◌>>◌
abbrev pub ◌>>=◌ : {A B : Type 0} → Decoded A → (A → Decoded B) → Decoded B
ok a >>= f = f a
raised e >>= f = raised e

abbrev pub ◌>>◌ : {B : Type 0} → Decoded (Unit {0}) → Decoded B → Decoded B
m >> k = m >>= λ _. k

abbrev pub check : Bool → Raised → Decoded (Unit {0})
check true e = ok tt
check false e = raised e

pub record Request : Type 0 where
  pub v : ℕ
  pub cmd : Text
  pub args : Value

pub record ErrorShape : Type 0 where
  pub kind : Value
  pub message : Value

-- `ok` of a response that was read is whether its value counts as true, which is all that is asked of it.
pub record Response : Type 0 where
  pub v : ℕ
  pub is_ok : Bool
  pub result : Value
  pub error : Option ErrorShape

abbrev pub newline : ℕ
newline = 10

abbrev pub request_value : Request → Value
request_value r = object (
    field (text_of "v") (num r.v)
      (field (text_of "cmd") (text r.cmd) (field (text_of "args") r.args end)))

unfoldable pub encode_request : Json → Request → List ℕ
encode_request json r = json.dumps (request_value r) ++ (newline ∷ [])

abbrev pub error_value : Option ErrorShape → Value
error_value none = null
error_value (some e) =
    object (field (text_of "kind") e.kind (field (text_of "message") e.message end))

abbrev pub response_value : Response → Value
response_value r = object (
    field (text_of "v") (num r.v) (
      field (text_of "ok") (bool r.is_ok)
        (field (text_of "result") r.result (field (text_of "error") (error_value r.error) end))))

unfoldable pub encode_response : Json → Response → List ℕ
encode_response json r = json.dumps (response_value r) ++ (newline ∷ [])

-- `not line or line.strip() == b""`, by the white space of bytes
unfoldable pub is_blank : List ℕ → Bool
is_blank [] = true
is_blank (c ∷ cs) = ((leb 9 c && leb c 13) || c == 32) && is_blank cs

abbrev found : Option Value → Decoded Value
found none = raised other
found (some x) = ok x

-- `parsed[k]`
pub at_key : Text → Value → Decoded Value
unfolding find_field
at_key k (object fs) = found (find_field k fs)
at_key k _ = raised other

abbrev found_or_null : Option Value → Value
found_or_null none = null
found_or_null (some x) = x

-- `parsed.get(k)`
pub get_key : Text → Value → Decoded Value
unfolding find_field
get_key k (object fs) = ok (found_or_null (find_field k fs))
get_key k _ = raised other

-- `x == PROTOCOL_VERSION`, where `True == 1`
abbrev pub is_version : Value → Bool
is_version (num n) = n == protocol_version
is_version (bool b) = b
is_version _ = false

-- `parsed["cmd"] not in VALID_CMDS`; a list or a dict cannot be hashed
pub command : Value → Decoded Text
unfolding one_of
command (text t) = if one_of t valid_cmds then ok t else raised value_error
command (list xs) = raised other
command (object fs) = raised other
command _ = raised value_error

pub only_keys : List Text → Fields → Bool
unfolding one_of
only_keys ks end = true
only_keys ks (field j x fs) = one_of j ks && only_keys ks fs

abbrev request_keys : List Text
request_keys = text_of "v" ∷ text_of "cmd" ∷ text_of "args" ∷ []

-- `Request(**parsed)`
pub request_of : Text → Value → Decoded Request
unfolding only_keys at_key
request_of cmd (object fs) = do
  check (only_keys request_keys fs) other
  args ← at_key (text_of "args") (object fs)
  ok (record { v = protocol_version; cmd = cmd; args = args })
request_of cmd _ = raised other

abbrev pub parse : Json → List ℕ → Decoded Value
parse json line =
    if is_blank line
    then raised value_error
    else elim (json.loads line) [ none ↦ raised value_error | some x ↦ ok x ]

unfoldable pub read_request : Value → Decoded Request
unfolding at_key
read_request parsed = do
  v ← at_key (text_of "v") parsed
  check (is_version v) protocol_mismatch
  c ← at_key (text_of "cmd") parsed
  cmd ← command c
  request_of cmd parsed

unfoldable pub decode_request : Json → List ℕ → Decoded Request
decode_request json line = parse json line >>= read_request

abbrev error_keys : List Text
error_keys = text_of "kind" ∷ text_of "message" ∷ []

-- `ErrorShape(**parsed["error"])`
pub error_shape : Value → Decoded ErrorShape
unfolding only_keys at_key
error_shape (object fs) = do
  check (only_keys error_keys fs) other
  kind ← at_key (text_of "kind") (object fs)
  message ← at_key (text_of "message") (object fs)
  ok (record { kind = kind; message = message })
error_shape _ = raised other

abbrev some_error : Decoded ErrorShape → Decoded (Option ErrorShape)
some_error (ok e) = ok (some e)
some_error (raised e) = raised e

abbrev pub read_error : Value → Decoded (Option ErrorShape)
read_error x = if truthy x then some_error (error_shape x) else ok none

unfoldable pub read_response : Value → Decoded Response
unfolding at_key get_key
read_response parsed = do
  v ← at_key (text_of "v") parsed
  check (is_version v) protocol_mismatch
  e ← get_key (text_of "error") parsed
  error ← read_error e
  is_ok ← at_key (text_of "ok") parsed
  result ← get_key (text_of "result") parsed
  ok (record { v = protocol_version; is_ok = truthy is_ok; result = result; error = error })

unfoldable pub decode_response : Json → List ℕ → Decoded Response
decode_response json line = parse json line >>= read_response
