-- ===== src/Vocab/Cache.antt =====
-- The sidecar and the process-wide cache of the vocabulary index: `save`, `load`, `get_vocabulary_index` and
-- `reset_cache` of src/java_codebase_rag/absence/absence_vocab.py. The JSON library is an argument; a missing or
-- unreadable file is `none`.
use jrag.Base.{
  ℕ, Bool, true, Option, none, some, List, [], ◌∷◌, ◌≡◌, refl, ap, arith, if◌then◌else◌, Text,
  same_text, same_text_refl,
}
use jrag.Base.Values.{Value, Json}
use jrag.Vocab.Sidecar.{◌>>=◌, sidecar_value, read_sidecar, read_sidecar_value}
use jrag.Vocab.{Row, VocabularyIndex, build}

-- `_vocab_cache`, and the sidecar files by their path.
pub record Store : Type 0 where
  pub cache : List (Text × VocabularyIndex)
  pub sidecars : Text → Option (List ℕ)

-- What the file system answers, and the versions in force: whether a file can be written, the sidecar's path beside
-- the database's, the ontology version of the code, `time.time()` in seconds, the JSON library and `str.lower`.
pub record Host : Type 0 where
  pub can_write : Text → Bool
  pub sidecar_path : Text → Text
  pub ontology : ℕ
  pub now : ℕ
  pub json : Json
  pub lower : Text → Text

unfoldable pub save : Host → VocabularyIndex → Text → Store → Store
unfolding sidecar_value
save host v path s =
    if host.can_write path
    then record {
      cache = s.cache;
      sidecars = λ p.
          if same_text path p
          then some (host.json.dumps (sidecar_value host.now host.ontology v))
          else s.sidecars p;
    }
    else s

-- `load`, from the bytes of the file; `none` where it raises
unfoldable pub load : Host → Option (List ℕ) → Option VocabularyIndex
unfolding read_sidecar
load host file = file >>= host.json.loads >>= read_sidecar host.ontology

unfoldable pub cached : Text → List (Text × VocabularyIndex) → Option VocabularyIndex
cached path [] = none
cached path ((p, v) ∷ d) = let later = cached path d in if same_text p path then some v else later

abbrev keep : Text → VocabularyIndex → Store → Store
keep path v s = record { cache = (path, v) ∷ s.cache; sidecars = s.sidecars }

abbrev load_or_build :
    Host → Text → List Row → ℕ → Store → Option VocabularyIndex → VocabularyIndex × Store
load_or_build host path rows q s (some v) = (v, keep path v s)
load_or_build host path rows q s none =
    let v = build host.lower rows q in (v, keep path v (save host v (host.sidecar_path path) s))

abbrev get_cached :
    Host → Text → List Row → ℕ → Store → Option VocabularyIndex → VocabularyIndex × Store
get_cached host path rows q s (some v) = (v, s)
get_cached host path rows q s none =
    load_or_build host path rows q s (load host (s.sidecars (host.sidecar_path path)))

-- The rows are those of the graph at the time of the call.
unfoldable pub get_vocabulary_index : Host → Text → List Row → ℕ → Store → VocabularyIndex × Store
unfolding cached load save
get_vocabulary_index host path rows q s = get_cached host path rows q s (cached path s.cache)

unfoldable pub reset_cache : Store → Store
reset_cache s = record { cache = []; sidecars = s.sidecars }

-- After a call its index is in the cache.
load_or_build-cached :
    (host : Host) (path : Text) (rows : List Row) (q : ℕ) (s : Store) (o : Option VocabularyIndex)
    → cached path (load_or_build host path rows q s o).1.cache
      ≡ some (load_or_build host path rows q s o).0
unfolding cached
load_or_build-cached host path rows q s none = ground (arith, same_text_refl path)
load_or_build-cached host path rows q s (some v) = ground (arith, same_text_refl path)

get_cached-cached :
    (host : Host) (path : Text) (rows : List Row) (q : ℕ) (s : Store) (o : Option VocabularyIndex)
    → cached path s.cache ≡ o
    → cached path (get_cached host path rows q s o).1.cache
      ≡ some (get_cached host path rows q s o).0
get_cached-cached host path rows q s none h =
    load_or_build-cached host path rows q s (load host (s.sidecars (host.sidecar_path path)))
get_cached-cached host path rows q s (some v) h = h

load-save :
    (host : Host) (rows : List Row) (q : ℕ) (p : Text) (s : Store)
    → ((x : Value) → host.json.loads (host.json.dumps x) ≡ some x)
    → host.can_write p ≡ true
    → load host ((save host (build host.lower rows q) p s).sidecars p)
      ≡ some (build host.lower rows q)
unfolding load save build
load-save host rows q p s reads w =
    let v = build host.lower rows q in
    rw w (
      rw (same_text_refl p) (
        rw (reads (sidecar_value host.now host.ontology v))
          (read_sidecar_value host.now host.ontology v.records v.ngram_index v.q)))

-- After a call that was not answered by the cache, the sidecar holds its index.
load_or_build-load :
    (host : Host) (path : Text) (rows : List Row) (q : ℕ) (s : Store) (o : Option VocabularyIndex)
    → ((x : Value) → host.json.loads (host.json.dumps x) ≡ some x)
    → load host (s.sidecars (host.sidecar_path path)) ≡ o
    → host.can_write (host.sidecar_path path) ≡ true
    → load host ((load_or_build host path rows q s o).1.sidecars (host.sidecar_path path))
      ≡ some (load_or_build host path rows q s o).0
load_or_build-load host path rows q s none reads h w =
    load-save host rows q (host.sidecar_path path) s reads w
load_or_build-load host path rows q s (some v) reads h w = h

-- What one call returns, a later call on the same database returns again, from whatever rows the graph then has.
pub get_vocabulary_index-again :
    (host : Host) (path : Text) (rows later : List Row) (q r : ℕ) (s : Store)
    → (get_vocabulary_index host path later r (get_vocabulary_index host path rows q s).1).0
      ≡ (get_vocabulary_index host path rows q s).0
unfolding get_vocabulary_index cached
get_vocabulary_index-again host path rows later q r s =
    let t = (get_vocabulary_index host path rows q s).1 in
    ap (λ o. (get_cached host path later r t o).0)
      (get_cached-cached host path rows q s (cached path s.cache) refl)

-- Where the JSON library reads back what it has printed, the database is not in the cache and its sidecar can be
-- written, a call after the cache has been reset, from
-- whatever rows the graph then has, returns the index of the first call: the sidecar keeps all of it.
pub get_vocabulary_index-reset :
    (host : Host) (path : Text) (rows later : List Row) (q r : ℕ) (s : Store)
    → ((x : Value) → host.json.loads (host.json.dumps x) ≡ some x)
    → cached path s.cache ≡ none
    → host.can_write (host.sidecar_path path) ≡ true
    → (get_vocabulary_index host path later r
        (reset_cache (get_vocabulary_index host path rows q s).1)).0
      ≡ (get_vocabulary_index host path rows q s).0
unfolding get_vocabulary_index reset_cache cached
get_vocabulary_index-reset host path rows later q r s reads h w =
    let l = load host (s.sidecars (host.sidecar_path path)) in
    rw h (
      ap
        (λ o.
          (load_or_build host path later r (reset_cache (load_or_build host path rows q s l).1)
            o).0)
        (load_or_build-load host path rows q s l reads refl w))
