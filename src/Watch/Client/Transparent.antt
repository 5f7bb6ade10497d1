-- ===== src/Watch/Client/Transparent.antt =====
-- A client over a daemon: src/java_codebase_rag/watch/client.py with src/java_codebase_rag/watch/server.py.
use jrag.Base.{
  one_of, ℕ, suc, true, false, Option, some, List, [], ◌∷◌, ◌++◌, ◌≡◌, refl, sym, ap, ◌∙◌, arith,
  Bool-cases, inl, inr, append-nil, append_assoc, Text, cut, join,
}
use jrag.Watch.Protocol.{
  Value, object, Fields, Json, Request, Response, ok, encode_request, encode_response,
  decode_response, request_value, response_value, protocol_version, valid_cmds,
}
use jrag.Watch.Protocol.Roundtrip.{JsonLaws, decode-encode_request, decode-encode_response}
use jrag.Watch.Server.{
  Host, Outcome, returned, index_stale, bad_args, backend_error, respond_outcome, respond_to_line,
  dispatch, handle, without_newline,
}
use jrag.Watch.Server.Stream.{reply, replies, handle-replies}
use jrag.Watch.Client.{
  Link, has_newline, read_line, reply_of, get_payload, payload_of, ServedBy, daemon, cold,
}

-- The texts that are printed hold no newline.
abbrev pub PrintsLines : Json → Type 0
PrintsLines json = (x : Value) → has_newline (json.dumps x) ≡ false

cut-line : (l : List ℕ) → has_newline l ≡ false → cut (l ++ (10 ∷ [])) ≡ ((l ++ (10 ∷ [])) ∷ [], [])
unfolding cut has_newline
cut-line [] h = refl
cut-line (c ∷ l) h = ground (arith, cut-line l)

without_newline-append : (l : List ℕ) → without_newline (l ++ (10 ∷ [])) ≡ l
without_newline-append [] = refl
without_newline-append (c ∷ []) = refl
without_newline-append (c ∷ d ∷ l) = ap (λ t. c ∷ t) (without_newline-append (d ∷ l))

newline_last :
    (b d x : List ℕ)
    → has_newline b ≡ true
    → has_newline x ≡ false
    → b ++ d ≡ x ++ (10 ∷ [])
    → b ≡ x ++ (10 ∷ [])
unfolding has_newline
newline_last [] d x h k e = ground arith
newline_last (c ∷ []) d [] h k e = ground arith
newline_last (c ∷ a ∷ b) d [] h k e = ground arith
newline_last (c ∷ b) d (y ∷ x) h k e = ground (arith, newline_last b d x)

-- Reading a line that arrives in any chunks.
read_line_all :
    (buf : List ℕ) (chunks : List (List ℕ)) (x : List ℕ)
    → has_newline x ≡ false
    → buf ++ join chunks ≡ x ++ (10 ∷ [])
    → read_line buf chunks ≡ x ++ (10 ∷ [])
unfolding read_line
read_line_all buf [] x h e = sym (append-nil buf) ∙ e
read_line_all buf (c ∷ cs) x h e = elim (Bool-cases (has_newline buf)) [
  | inl n ↦ rw n (newline_last buf (c ++ join cs) x n h e)
  | inr n ↦ rw n (read_line_all (buf ++ c) cs x h (append_assoc buf c (join cs) ∙ e))
]

module _ {P : Type 0} (host : Host P) (laws : JsonLaws host.json)
    (lines : PrintsLines host.json) where
  abbrev request_for : Text → Fields → Request
  request_for cmd fs = record { v = protocol_version; cmd = cmd; args = object fs }

  -- The line of a request is answered by the payload function's outcome.
  responds :
      (cmd : Text) (fs : Fields)
      → one_of cmd valid_cmds ≡ true
      → respond_to_line host (host.json.dumps (request_value (request_for cmd fs)))
        ≡ ok (respond_outcome host (host.payload cmd (object fs)))
  unfolding respond_to_line dispatch
  responds cmd fs m =
      rw (decode-encode_request host.json laws (request_for cmd fs) refl m) (rw m refl)

  sends_response :
      (cmd : Text) (fs : Fields) (room : ℕ) (chunks : List (List ℕ))
      → one_of cmd valid_cmds ≡ true
      → join chunks ≡ encode_request host.json (request_for cmd fs)
      → (handle host (suc room) chunks).sent
        ≡ encode_response host.json (respond_outcome host (host.payload cmd (object fs))) ∷ []
  unfolding encode_request
  sends_response cmd fs room chunks m e =
      let v = request_value (request_for cmd fs) in
      let d = host.json.dumps v in
      (handle-replies host (suc room) chunks).0
      ∙ ap (λ c. (replies host c.0 (suc room)).0) (ap cut e ∙ cut-line d (lines v))
      ∙ ap (λ r. (reply host r (suc room) (replies host [])).0)
          (ap (respond_to_line host) (without_newline-append d) ∙ responds cmd fs m)

  -- What comes back over a link is decoded to that response.
  receives :
      (x : Response) (answer : List (List ℕ))
      → x.v ≡ protocol_version
      → join answer ≡ encode_response host.json x ++ []
      → decode_response host.json (read_line [] answer) ≡ ok x
  unfolding encode_response
  receives x answer h e =
      ap (decode_response host.json) (
        read_line_all [] answer (host.json.dumps (response_value x)) (lines (response_value x))
          (e ∙ append-nil _))
      ∙ decode-encode_response host.json laws x h

  abbrev pub expected : Outcome P → (Value → P) → P → Option (P × ServedBy)
  expected (returned p) rebuild core = some (rebuild (host.serialize p), daemon)
  expected _ rebuild core = some (core, cold)

  expected_reply :
      (o : Outcome P) (rebuild : Value → P) (core : P)
      → payload_of rebuild core (reply_of (ok (respond_outcome host o))) ≡ expected o rebuild core
  expected_reply (returned p) rebuild core = refl
  expected_reply (index_stale t) rebuild core = refl
  expected_reply (bad_args t) rebuild core = refl
  expected_reply (backend_error t) rebuild core = refl

  version_of : (o : Outcome P) → (respond_outcome host o).v ≡ protocol_version
  version_of (returned p) = refl
  version_of (index_stale t) = refl
  version_of (bad_args t) = refl
  version_of (backend_error t) = refl

  -- Where JSON texts are read back and hold no newline, and a daemon is alive whose server receives the request of
  -- one of the commands in any chunks and can send one response, which comes back in any chunks: if the daemon's
  -- payload function returns a payload, the client has it, rebuilt from its JSON value; however else it ends, the
  -- client has the payload of the cold function. Nothing else is raised.
  pub get_payload-daemon :
      (link : Link) (rebuild : Text → Value → P) (core : P) (cmd : Text) (fs : Fields) (room : ℕ)
      (chunks answer : List (List ℕ))
      → one_of cmd valid_cmds ≡ true
      → link.alive ≡ true
      → join chunks ≡ encode_request host.json (request_for cmd fs)
      → link.exchange (encode_request host.json (request_for cmd fs)) ≡ some answer
      → join answer ≡ join (handle host (suc room) chunks).sent
      → get_payload host.json link rebuild core cmd (object fs)
        ≡ expected (host.payload cmd (object fs)) (rebuild cmd) core
  unfolding get_payload
  get_payload-daemon link rebuild core cmd fs room chunks answer m a e x b =
      let o = host.payload cmd (object fs) in
      let got =
        receives (respond_outcome host o) answer (version_of o)
          (b ∙ ap join (sends_response cmd fs room chunks m e)) in
      rw (a, x)
        (ap (λ r. payload_of (rebuild cmd) core (reply_of r)) got
          ∙ expected_reply o (rebuild cmd) core)
