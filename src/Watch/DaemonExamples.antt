-- ===== src/Watch/DaemonExamples.antt =====
-- The properties of the daemon's protocol, server, client and collector at concrete inputs.
pub mod Printed
use jrag.Base.{
  one_of, ℕ, Bool, true, false, Option, none, some, List, [], ◌∷◌, ◌++◌, ◌≡◌, ◌≢◌, refl, sym, ap,
  ◌∙◌, arith, append-nil, ◌||◌, String, Text, text_of, same_text, cut, join,
}
use jrag.Watch.Protocol.{
  Value, null, bool, num, text, object, Fields, end, field, Request, Response, ErrorShape, Decoded,
  ok, encode_request, encode_response, decode_response, is_blank, find_field, protocol_version,
}
use jrag.Watch.Server.{Host, Outcome, returned, index_stale, End, crashed, handle, without_newline}
use jrag.Watch.Server.Stream.{replies, handle-replies, unversioned_crashes}
use jrag.Watch.Client.{Link, get_payload, ServedBy, daemon, cold}
use jrag.Watch.Client.Transparent.{expected, get_payload-daemon}
use jrag.Watch.Debounce.{
  Collector, Label, schedule, observer_sets, stop_called, stopper_sets, worker_runs, Setter, idle,
  run, step, fresh,
}
use jrag.Watch.Reindex
use jrag.Watch.Debounce.Kept
use jrag.Watch.Debounce.Prompt
use jrag.Watch.DaemonExamples.Printed.{json, json_laws, json_lines}

abbrev stale : Response
stale = record {
  v = 1;
  is_ok = false;
  result = null;
  error = some (record { kind = text (text_of "stale_index"); message = text [] });
}

-- A server whose payload is the arguments, and which has no index for `find`.
abbrev payload : Text → Value → Outcome Value
payload (b ∷ t) args = returned args
payload [] args = index_stale []

abbrev host : Host Value
host = record { json = json; payload = payload; serialize = λ p. p; raised_text = λ e. [] }

abbrev arguments : Fields
arguments = field (text_of "query") (text (text_of "a")) end

abbrev sent : List ℕ
sent = encode_request json (record { v = 1; cmd = text_of "search"; args = object arguments })

abbrev answer : List (List ℕ)
answer = (handle host 1 (sent ∷ [])).sent

abbrev link : Link
link = record { alive = true; exchange = λ bytes. some answer }

get_payload-daemon_example :
    get_payload json link (λ cmd v. v) null (text_of "search") (object arguments)
    ≡ some (object arguments, daemon)
unfolding one_of same_text
get_payload-daemon_example =
    get_payload-daemon host json_laws json_lines link (λ cmd v. v) null (text_of "search") arguments
      0 (sent ∷ []) answer refl refl (append-nil sent) refl refl

handle-replies_example :
    ((handle host 2 (sent ∷ (116 ∷ []) ∷ [])).sent
      ≡ (replies host (cut (join (sent ∷ (116 ∷ []) ∷ []))).0 2).0)
    × ((handle host 2 (sent ∷ (116 ∷ []) ∷ [])).ended
        ≡ some (replies host (cut (join (sent ∷ (116 ∷ []) ∷ []))).0 2).1)
handle-replies_example = handle-replies host 2 (sent ∷ (116 ∷ []) ∷ [])

-- An empty JSON object, and then a proper request.
abbrev empty_object : List ℕ
empty_object = 112 ∷ 114 ∷ 10 ∷ []

unversioned_crashes_example :
    ((handle host 2 (empty_object ∷ sent ∷ [])).sent ≡ [])
    × ((handle host 2 (empty_object ∷ sent ∷ [])).ended ≡ some crashed)
unfolding cut json encode_request is_blank find_field
unversioned_crashes_example =
    unversioned_crashes host 2 (empty_object ∷ sent ∷ []) empty_object (sent ∷ []) [] end refl refl
      refl refl

abbrev labels : List Label
labels =
    schedule ("java" ∷ [])
    ∷ worker_runs
    ∷ observer_sets
    ∷ worker_runs
    ∷ worker_runs
    ∷ schedule ("kotlin" ∷ [])
    ∷ []

run-keeps_example :
    (Reindex.member "java" (run labels fresh).pending
      || Reindex.member "java" (Kept.joined (run labels fresh).batches))
    ≡ Reindex.member "java" (Kept.asked labels fresh)
run-keeps_example = Kept.run-keeps "java" labels

run_prompt_example :
    ((run (Prompt.worker_steps 9) (run (labels ++ (observer_sets ∷ [])) fresh)).batches
      ≡ (run (labels ++ (observer_sets ∷ [])) fresh).batches
        ++ ((run (labels ++ (observer_sets ∷ [])) fresh).pending ∷ []))
    × ((run (Prompt.worker_steps 9) (run (labels ++ (observer_sets ∷ [])) fresh)).pending ≡ [])
unfolding step Reindex.member
run_prompt_example =
    Prompt.run_prompt (labels ++ (observer_sets ∷ [])) refl refl
      (λ h. let e : false ≡ true = ap Prompt.is_empty h in cc e)
