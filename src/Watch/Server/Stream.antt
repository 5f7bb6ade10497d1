-- ===== src/Watch/Server/Stream.antt =====
-- The lines that a connection answers: `WatchServer._handle` of src/java_codebase_rag/watch/server.py.
use jrag.Base.{
  false, text_of, ℕ, zero, suc, ◌≤◌, ◌<◌, Option, none, some, List, [], ◌∷◌, ◌++◌, ◌≡◌, refl, sym,
  ap, ◌∙◌, arith, length, subst, append_assoc, append-nil, split_line, cut, join, Agrees,
  split_line-cut, cut-append,
}
use jrag.Watch.Protocol.{
  other, Fields, object, is_blank, find_field, decode_request, read_request, Response, Decoded, ok,
  raised, encode_response,
}
use jrag.Watch.Server.{
  Host, Service, Connection, End, closed, peer_gone, crashed, respond_to_line, without_newline,
  send, answer, answer_line, answer_lines, receive, receive_all, close, fresh, handle,
}

-- The replies from a response on, to a peer that takes so many more, with the later replies as a function of that.
abbrev pub reply :
    {P : Type 0} → Host P → Decoded Response → ℕ → (ℕ → List (List ℕ) × End) → List (List ℕ) × End
reply host (raised e) room later = ([], crashed)
reply host (ok r) zero later = ([], peer_gone)
reply host (ok r) (suc n) later = (encode_response host.json r ∷ (later n).0, (later n).1)

module _ {P : Type 0} (host : Host P) where
  -- The replies to lines in order: none from the first line on whose answer raises.
  abbrev pub replies : List (List ℕ) → ℕ → List (List ℕ) × End
  replies [] room = ([], closed)
  replies (l ∷ ls) room = reply host (respond_to_line host (without_newline l)) room (replies ls)

  answer_all : Service → List (List ℕ) → Service
  answer_all k [] = k
  answer_all k (l ∷ ls) = answer_all (answer_line host k l) ls

  answer_all-append :
      (k : Service) (l m : List (List ℕ)) → answer_all k (l ++ m) ≡ answer_all (answer_all k l) m
  unfolding answer_all
  answer_all-append k [] m = refl
  answer_all-append k (x ∷ l) m = answer_all-append (answer_line host k x) l m

  answered : Service → List ℕ → Connection
  answered k b = record { buffer = (cut b).1; service = answer_all k (cut b).0 }

  answer_lines-step :
      (n : ℕ) (k : Service) (b : List ℕ) (o : Option (List ℕ × List ℕ))
      → Agrees b o
      → ((j : Service) (t : List ℕ) → length t < length b → answer_lines host n t j ≡ answered j t)
      → elim o [
        | none ↦ record { buffer = b; service = k }
        | some (l, t) ↦ answer_lines host n t (answer_line host k l)
      ]
        ≡ answered k b
  unfolding answered answer_all
  answer_lines-step n k b none a ih = ground arith
  answer_lines-step n k b (some (l, t)) a ih = ih (answer_line host k l) t a.1 ∙ ground arith

  answer_lines-cut :
      (n : ℕ) (k : Service) (b : List ℕ) → length b ≤ n → answer_lines host n b k ≡ answered k b
  unfolding answer_lines answered answer_all cut
  answer_lines-cut zero k [] h = refl
  answer_lines-cut zero k (c ∷ b) h = ground arith
  answer_lines-cut (suc n) k b h =
      answer_lines-step n k b (split_line b) (split_line-cut b)
        (λ j t lt. answer_lines-cut n j t (omega arith))

  receive-answered :
      (k : Service) (b c : List ℕ) → receive host (answered k b) c ≡ answered k (b ++ c)
  unfolding receive answered
  receive-answered k b c =
      answer_lines-cut (length ((cut b).1 ++ c)) (answer_all k (cut b).0) ((cut b).1 ++ c)
        (omega arith)
      ∙ ground (arith, cut-append b c, answer_all-append k (cut b).0 (cut ((cut b).1 ++ c)).0)

  receive_all-answered :
      (k : Service) (b : List ℕ) (chunks : List (List ℕ))
      → receive_all host chunks (answered k b) ≡ answered k (b ++ join chunks)
  receive_all-answered k b [] = ap (answered k) (sym (append-nil b))
  receive_all-answered k b (c ∷ cs) =
      ap (receive_all host cs) (receive-answered k b c)
      ∙ receive_all-answered k (b ++ c) cs
      ∙ ap (answered k) (append_assoc b c (join cs))

  answer_line_ended :
      (k : Service) (e : End) (l : List ℕ) → k.ended ≡ some e → answer_line host k l ≡ k
  unfolding answer_line
  answer_line_ended k e l h = rw h refl

  answer_line_open :
      (k : Service) (l : List ℕ)
      → k.ended ≡ none
      → answer_line host k l ≡ answer host k (respond_to_line host (without_newline l))
  unfolding answer_line
  answer_line_open k l h = rw h refl

  -- A connection that has ended answers nothing more.
  answer_all_ended :
      (k : Service) (e : End) (ls : List (List ℕ)) → k.ended ≡ some e → answer_all k ls ≡ k
  unfolding answer_all
  answer_all_ended k e [] h = refl
  answer_all_ended k e (l ∷ ls) h =
      ap (λ j. answer_all j ls) (answer_line_ended k e l h) ∙ answer_all_ended k e ls h

  abbrev Served : Service → Service → List (List ℕ) × End → Type 0
  Served k j (ls, e) = (j.sent ≡ k.sent ++ ls) × (j.ended ≡ some e)

  abbrev done : Service → Service
  done k = close host k k.ended

  Served-ended :
      (k j : Service) (e : End) (ls : List (List ℕ))
      → j.sent ≡ k.sent
      → j.ended ≡ some e
      → Served k (done (answer_all j ls)) ([], e)
  Served-ended k j e ls s h =
      subst (λ x. Served k (done x) ([], e)) (sym (answer_all_ended j e ls h))
        (subst (λ o. Served k (close host j o) ([], e)) (sym h) (s ∙ sym (append-nil k.sent), h))

  Served-answer :
      (k : Service) (d : Decoded Response) (n : ℕ) (ls : List (List ℕ))
      → k.ended ≡ none
      → k.room ≡ n
      → ((j : Service) → j.ended ≡ none → Served j (done (answer_all j ls)) (replies ls j.room))
      → Served k (done (answer_all (answer host k d) ls)) (reply host d n (replies ls))
  Served-answer k (raised e) n ls h r ih =
      Served-ended k (answer host k (raised e)) crashed ls refl refl
  Served-answer k (ok x) zero ls h r ih =
      subst (λ m. Served k (done (answer_all (send host k x m) ls)) ([], peer_gone)) (sym r)
        (Served-ended k (send host k x 0) peer_gone ls refl refl)
  Served-answer k (ok x) (suc n) ls h r ih =
      let j = send host k x (suc n) in
      subst
        (λ m.
          Served k (done (answer_all (send host k x m) ls))
            (reply host (ok x) (suc n) (replies ls)))
        (sym r)
        (
          (ih j h).0 ∙ append_assoc k.sent (encode_response host.json x ∷ []) (replies ls n).0,
          (ih j h).1,
        )

  answer_all-replies :
      (k : Service) (ls : List (List ℕ))
      → k.ended ≡ none
      → Served k (done (answer_all k ls)) (replies ls k.room)
  unfolding answer_all
  answer_all-replies k [] h =
      subst (λ o. Served k (close host k o) ([], closed)) (sym h) (sym (append-nil k.sent), refl)
  answer_all-replies k (l ∷ ls) h =
      subst (λ j. Served k (done (answer_all j ls)) (replies (l ∷ ls) k.room))
        (sym (answer_line_open k l h))
        (Served-answer k (respond_to_line host (without_newline l)) k.room ls h refl
          (λ j g. answer_all-replies j ls g))

  -- However the bytes of a connection are cut into chunks, what is sent are the responses to the complete lines in
  -- order, up to the first line whose answer raises an exception that only the accept loop catches, and no more than
  -- the peer takes; a partial line at the end is dropped.
  pub handle-replies :
      (room : ℕ) (chunks : List (List ℕ))
      → ((handle host room chunks).sent ≡ (replies (cut (join chunks)).0 room).0)
        × ((handle host room chunks).ended ≡ some (replies (cut (join chunks)).0 room).1)
  unfolding handle answered cut answer_all
  handle-replies room chunks =
      rw (receive_all-answered (fresh host room) [] chunks)
        (answer_all-replies (fresh host room) (cut (join chunks)).0 refl)

  unversioned_raises :
      (l : List ℕ) (fs : Fields)
      → is_blank l ≡ false
      → host.json.loads l ≡ some (object fs)
      → find_field (text_of "v") fs ≡ none
      → respond_to_line host l ≡ raised other
  unfolding respond_to_line decode_request read_request
  unversioned_raises l fs b j v = rw (b, j) (rw v refl)

  -- A request without the key v, as the first line of a connection, is not answered, and neither is any line after
  -- it: reading it raises an exception that only the accept loop catches, which leaves the connection.
  pub unversioned_crashes :
      (room : ℕ) (chunks : List (List ℕ)) (l : List ℕ) (ls : List (List ℕ)) (t : List ℕ)
      (fs : Fields)
      → cut (join chunks) ≡ (l ∷ ls, t)
      → is_blank (without_newline l) ≡ false
      → host.json.loads (without_newline l) ≡ some (object fs)
      → find_field (text_of "v") fs ≡ none
      → ((handle host room chunks).sent ≡ []) × ((handle host room chunks).ended ≡ some crashed)
  unversioned_crashes room chunks l ls t fs e b j v =
      let raises = unversioned_raises (without_newline l) fs b j v in
      let first = ap (λ c. replies c.0 room) e ∙ ap (λ d. reply host d room (replies ls)) raises in
      (
        (handle-replies room chunks).0 ∙ ap (λ r. r.0) first,
        (handle-replies room chunks).1 ∙ ap (λ r. some r.1) first,
      )
