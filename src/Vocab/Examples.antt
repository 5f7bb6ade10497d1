-- ===== src/Vocab/Examples.antt =====
-- The properties of the vocabulary index at concrete inputs.
use jrag.Base.{
  Bool, true, false, none, some, List, [], ◌∷◌, ◌≡◌, refl, map, Text, text_of, same_text,
}
use jrag.Vocab.{
  find_posting, post, Row, build, lookup, is_external, has_external_prefix, Reason, normalize_name,
  row_to_symbol_record,
}
use jrag.Vocab.Lookup
use jrag.Vocab.Cache
use jrag.Watch.DaemonExamples.Printed.{json, json_laws}

abbrev lower : Text → Text
lower t = t

abbrev row : Text → Text → Text → Bool → Row
row id fqn name resolved = record {
  id = some id;
  fqn = some fqn;
  name = some name;
  kind = none;
  owner = none;
  microservice = none;
  role = none;
  resolved = some resolved;
}

abbrev rows : List Row
rows =
    row (text_of "1") (text_of "a.save") (text_of "save") true
    ∷ row (text_of "2") (text_of "b.save") (text_of "save") true
    ∷ row (text_of "3") (text_of "c.Bar") (text_of "Bar") false
    ∷ []

lookup-build_example :
    lookup lower (build lower rows 3) (text_of "save") 1
    ≡ some (
        map (row_to_symbol_record lower) (
          row (text_of "1") (text_of "a.save") (text_of "save") true
          ∷ row (text_of "2") (text_of "b.save") (text_of "save") true
          ∷ []))
unfolding row_to_symbol_record same_text
lookup-build_example = Lookup.lookup-build lower rows 3 (text_of "save") 1

-- A phantom is found by its simple name.
phantom_by_name :
    is_external lower (build lower rows 3) (text_of "Bar") ≡ some (true, some Reason.phantom)
unfolding is_external build has_external_prefix find_posting post same_text row_to_symbol_record
    normalize_name
phantom_by_name = refl

abbrev host : Cache.Host
host = record {
  can_write = λ p. true;
  sidecar_path = λ p. p;
  ontology = 7;
  now = 5;
  json = json;
  lower = lower;
}

abbrev empty : Cache.Store
empty = record { cache = []; sidecars = λ p. none }

get_vocabulary_index-reset_example :
    (Cache.get_vocabulary_index host
      (text_of "g")
      []
      3
      (Cache.reset_cache (Cache.get_vocabulary_index host (text_of "g") rows 3 empty).1)).0
    ≡ (Cache.get_vocabulary_index host (text_of "g") rows 3 empty).0
unfolding Cache.cached
get_vocabulary_index-reset_example =
    Cache.get_vocabulary_index-reset host (text_of "g") rows [] 3 3 empty json_laws.reads refl refl
