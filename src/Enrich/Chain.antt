-- ===== src/Enrich/Chain.antt =====
-- `_build_meta_chain` of src/java_codebase_rag/graph/graph_enrich.py: the built-in annotations that the annotations of
-- annotations lead to. A declaration is added to the chain in place, so that later ones of a round see it.
pub mod Leads
pub mod Sound
pub mod Complete
use jrag.Base.{
  ℕ, zero, suc, Bool, true, false, not, Option, none, some, List, [], ◌∷◌, ◌++◌, map, if◌then◌else◌,
  ◌&&◌, ◌||◌, Text, text_of, same_text, one_of,
}
use jrag.Base.Order.{sort}
use jrag.Base.Tables.{Table, get}
use jrag.Enrich.{role_annotations, method_ann_to_capability, type_ann_to_capability}
use jrag.Enrich.Sets.{each, add, text_leb}
use jrag.Enrich.Resolve.{get_all}

pub record AnnotationDecl : Type 0 where
  pub fqn : Text
  pub simple : Text
  pub meta_annotations : List Text

-- `chain: {b: {b} for b in builtins}`
unfoldable pub seeds : List Text → Table (List Text)
seeds [] = []
seeds (b ∷ builtins) = (b, b ∷ []) ∷ seeds builtins

-- `s |= more`
unfoldable pub union_of : List Text → List Text → List Text
unfolding each add
union_of s more = each add more s

-- `s.issubset(t)`
unfoldable pub is_subset : List Text → List Text → Bool
unfolding one_of
is_subset [] t = true
is_subset (x ∷ s) t = one_of x t && is_subset s t

-- `chain.setdefault(k, set()).update(more)`
unfoldable pub update : Text → List Text → Table (List Text) → Table (List Text)
unfolding same_text union_of
update k more [] = (k, union_of [] more) ∷ []
update k more ((j, s) ∷ chain) =
    let later = update k more chain in
    if same_text j k then (j, union_of s more) ∷ chain else (j, s) ∷ later

-- The built-in annotations that the meta annotations of a declaration lead to.
unfoldable pub reach_of : Table (List Text) → List Text → List Text
unfolding each union_of get_all
reach_of chain parents = each (λ parent reach. union_of reach (get_all chain parent)) parents []

abbrev is_empty : List Text → Bool
is_empty [] = true
is_empty (x ∷ xs) = false

-- `reach and not reach.issubset(known)`
abbrev pub is_new : List Text → List Text → Bool
is_new reach known = not (is_empty reach) && not (is_subset reach known)

-- One declaration in a round, with what changed.
unfoldable pub grow : AnnotationDecl → Table (List Text) × Bool → Table (List Text) × Bool
unfolding reach_of is_subset get_all update
grow decl (chain, changed) =
    let reach = reach_of chain decl.meta_annotations in
    if is_new reach (get_all chain decl.simple)
    then (update decl.simple reach chain, true)
    else (chain, changed)

-- The rounds, until one changes nothing.
unfoldable pub rounds : ℕ → List AnnotationDecl → Table (List Text) → Table (List Text)
unfolding each grow
rounds zero decls chain = chain
rounds (suc depth) decls chain =
    let (next, changed) = each grow decls (chain, false) in
    let later = rounds depth decls next in if changed then later else next

abbrev pub key_leb : Text × AnnotationDecl → Text × AnnotationDecl → Bool
key_leb (j, d) (k, e) = text_leb j k

-- `{k: frozenset(chain.get(k, set())) for k in decls}`
unfoldable pub for_keys : Table AnnotationDecl → Table (List Text) → Table (List Text)
unfolding get_all
for_keys [] chain = []
for_keys ((k, decl) ∷ decls) chain = (k, get_all chain k) ∷ for_keys decls chain

unfoldable pub build_meta_chain :
    (decls : Table AnnotationDecl) → (builtins : List Text) → (max_depth : ℕ) → Table (List Text)
unfolding rounds seeds for_keys sort text_leb
build_meta_chain decls builtins max_depth =
    for_keys decls (rounds max_depth (map (λ e. e.1) (sort key_leb decls)) (seeds builtins))

unfoldable pub route_http_mapping_names : List Text
route_http_mapping_names =
    text_of "RequestMapping"
    ∷ text_of "GetMapping"
    ∷ text_of "PostMapping"
    ∷ text_of "PutMapping"
    ∷ text_of "DeleteMapping"
    ∷ text_of "PatchMapping"
    ∷ []

unfoldable pub route_meta_annotation_names : List Text
unfolding route_http_mapping_names
route_meta_annotation_names =
    route_http_mapping_names
    ++ text_of "KafkaListener"
      ∷ text_of "RabbitListener"
      ∷ text_of "JmsListener"
      ∷ text_of "StreamListener"
      ∷ []

unfoldable pub codebase_http_client_annotations : List Text
codebase_http_client_annotations = text_of "CodebaseHttpClient" ∷ text_of "CodebaseHttpClients" ∷ []

unfoldable pub codebase_producer_annotations : List Text
codebase_producer_annotations = text_of "CodebaseProducer" ∷ text_of "CodebaseProducers" ∷ []

abbrev keys : Table Text → List Text
keys = map (λ (e : Text × Text). e.0)

-- `_meta_builtins`: a union of sets
unfoldable pub meta_builtins : List Text
unfolding union_of role_annotations method_ann_to_capability type_ann_to_capability
    route_meta_annotation_names codebase_http_client_annotations codebase_producer_annotations
meta_builtins =
    union_of
      (union_of
        (union_of
          (union_of (union_of (keys role_annotations) (keys method_ann_to_capability))
            (keys type_ann_to_capability))
          route_meta_annotation_names)
        codebase_http_client_annotations)
      codebase_producer_annotations

-- `_META_PATH_DEPTH_CAP`
abbrev pub meta_path_depth_cap : ℕ
meta_path_depth_cap = 4
