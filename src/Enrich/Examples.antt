-- ===== src/Enrich/Examples.antt =====
-- Runs of the resolver of roles and of the chain of annotations, src/java_codebase_rag/graph/graph_enrich.py.
use mathlib.Core.List.{Memᴰ}
use jrag.Base.{
  ℕ, ◌≤◌, true, false, Option, some, List, [], ◌∷◌, ◌≡◌, ◌↔◌, refl, arith, subst, Text, text_of,
  same_text, same_text_eq, one_of,
}
use jrag.Base.Tables.{Table, get, has}
use jrag.Enrich.{AnnotationRef, TypeDecl, values, valid_roles, valid_capabilities, role_annotations}
use jrag.Enrich.Roles.{other, or_else}
use jrag.Enrich.Roles.Mapped.{get-values}
use jrag.Enrich.Resolve.{Overrides, get_all, resolve_role_and_capabilities, source_role_of}
use jrag.Enrich.Resolve.Config.{IsValid}
use jrag.Enrich.Resolve.Role.{last_given, first_settled, guesses, resolve_role_and_capabilities_lem}
use jrag.Enrich.Resolve.Capabilities.{Gives}
use jrag.Enrich.Resolve.Capabilities.Given.{resolve_role_and_capabilities_iff}
use jrag.Enrich.Resolve.Capabilities.Valid.{resolve_role_and_capabilities-IsValid}
use jrag.Enrich.Chain.{AnnotationDecl, build_meta_chain}
use jrag.Enrich.Chain.Leads.{Leads, built_in, through, gives}
use jrag.Enrich.Chain.Complete.Found.{declared, build_meta_chain_only, build_meta_chain_all}

abbrev plain : Text → AnnotationRef
plain name = record {
  name = name;
  arguments = [];
  argument_kinds = [];
  container_capabilities = [];
}

-- `@AcmeService` stands for `@Service`, and `@AcmeTop` for `@AcmeService`.
abbrev decls : Table AnnotationDecl
decls =
    (
      text_of "AcmeTop",
      record {
        fqn = text_of "a.AcmeTop";
        simple = text_of "AcmeTop";
        meta_annotations = text_of "AcmeService" ∷ [];
      },
    )
    ∷ (
      text_of "AcmeService",
      record {
        fqn = text_of "a.AcmeService";
        simple = text_of "AcmeService";
        meta_annotations = text_of "Documented" ∷ text_of "Service" ∷ [];
      },
    )
    ∷ []

abbrev built_ins : List Text
built_ins = text_of "Service" ∷ text_of "KafkaListener" ∷ []

-- A type with a wrapped annotation, a listener and a producer.
abbrev orders : TypeDecl
orders = record {
  name = text_of "Orders";
  kind = text_of "class";
  fqn = text_of "a.Orders";
  annotations = plain (text_of "AcmeTop") ∷ [];
  extends = [];
  implements = text_of "Job" ∷ [];
  fields = [];
  methods =
      record {
        is_constructor = false;
        parameters = [];
        annotations = plain (text_of "KafkaListener") ∷ [];
      }
      ∷ [];
}

abbrev overrides : Overrides
overrides = record {
  annotation_to_role = [];
  annotation_to_capabilities = [];
  fqn_role = (text_of "a.Plain", text_of "SERVICE") ∷ [];
  fqn_capabilities = [];
}

chain : Option (Table (List Text))
chain = some (build_meta_chain decls built_ins 4)

run :
    resolve_role_and_capabilities overrides chain orders
    ≡ (text_of "SERVICE", text_of "MESSAGE_LISTENER" ∷ text_of "SCHEDULED_TASK" ∷ [])
unfolding resolve_role_and_capabilities build_meta_chain chain
run = refl

resolve_role_and_capabilities_lem_example :
    (resolve_role_and_capabilities overrides chain orders).0
    ≡ or_else (get (text_of "a.Orders") overrides.fqn_role) (
        or_else
          (last_given source_role_of orders.annotations)
          (first_settled (guesses overrides chain orders)))
resolve_role_and_capabilities_lem_example = resolve_role_and_capabilities_lem overrides chain orders

resolve_role_and_capabilities_iff_example :
    (one_of (text_of "SCHEDULED_TASK") ((resolve_role_and_capabilities overrides chain orders).1)
      ≡ true)
    ↔ Gives overrides chain orders (text_of "SCHEDULED_TASK")
resolve_role_and_capabilities_iff_example =
    resolve_role_and_capabilities_iff overrides chain orders (text_of "SCHEDULED_TASK")

service_valid : one_of (text_of "SERVICE") valid_roles ≡ true
unfolding one_of valid_roles role_annotations values same_text
service_valid = refl

overrides-IsValid : IsValid overrides
unfolding get get_all one_of values
overrides-IsValid = record {
  annotation_roles = λ n r h. cc h;
  fqn_roles = λ n r h.
      let found = get-values n r overrides.fqn_role h in
      let same = same_text_eq (text_of "SERVICE") r (ground (arith, found)) in
      subst (λ u. one_of u valid_roles ≡ true) same service_valid;
  annotation_capabilities = λ n c h. ground (arith, h);
  fqn_capabilities_valid = λ n c h. ground (arith, h);
}

resolve_role_and_capabilities-IsValid_example :
    (one_of ((resolve_role_and_capabilities overrides chain orders).0) (other ∷ valid_roles) ≡ true)
    × ((c : Text)
        → one_of c ((resolve_role_and_capabilities overrides chain orders).1) ≡ true
        → one_of c valid_capabilities ≡ true)
resolve_role_and_capabilities-IsValid_example =
    resolve_role_and_capabilities-IsValid overrides chain orders overrides-IsValid

top_found :
    gives (build_meta_chain decls built_ins 4) (text_of "AcmeTop") (text_of "Service") ≡ true
unfolding build_meta_chain get_all get one_of same_text
top_found = refl

build_meta_chain_only_example :
    (hops : ℕ) × Leads (declared decls) built_ins hops (text_of "AcmeTop") (text_of "Service")
build_meta_chain_only_example =
    build_meta_chain_only decls built_ins 4 (text_of "AcmeTop") (text_of "Service") top_found

top_known : has (text_of "AcmeTop") decls ≡ true
unfolding has same_text
top_known = refl

top_reached : Leads (declared decls) built_ins 2 (text_of "AcmeTop") (text_of "Service")
unfolding one_of same_text
top_reached =
    through _ (Memᴰ.head refl) (Memᴰ.head refl)
      (through _ (Memᴰ.tail (Memᴰ.head refl)) (Memᴰ.tail (Memᴰ.head refl)) (built_in refl))

two_within : 2 ≤ 4
two_within = omega arith

build_meta_chain_all_example :
    gives (build_meta_chain decls built_ins 4) (text_of "AcmeTop") (text_of "Service") ≡ true
build_meta_chain_all_example =
    build_meta_chain_all decls built_ins 4 (text_of "AcmeTop") (text_of "Service") 2 top_known
      two_within top_reached

-- The role of a type whose annotation leads to two roles is the one that the set gives first.
abbrev service_first : Table (List Text)
service_first = (text_of "AcmeTop", text_of "Service" ∷ text_of "Repository" ∷ []) ∷ []

abbrev repository_first : Table (List Text)
repository_first = (text_of "AcmeTop", text_of "Repository" ∷ text_of "Service" ∷ []) ∷ []

role_by_set_order :
    ((resolve_role_and_capabilities overrides (some service_first) orders).0 ≡ text_of "SERVICE")
    × ((resolve_role_and_capabilities overrides (some repository_first) orders).0
        ≡ text_of "REPOSITORY")
unfolding resolve_role_and_capabilities
role_by_set_order = (refl, refl)

abbrev wrapper : Text → Text → Text × AnnotationDecl
wrapper name parent = (name, record { fqn = name; simple = name; meta_annotations = parent ∷ [] })

-- Wrappers whose names are in the order of their depth: one round reaches all of them.
wrappers_in_one_round :
    gives
      (build_meta_chain
        (wrapper (text_of "C") (text_of "B")
          ∷ wrapper (text_of "B") (text_of "A")
          ∷ wrapper (text_of "A") (text_of "Service")
          ∷ [])
        built_ins
        1)
      (text_of "C")
      (text_of "Service")
    ≡ true
unfolding build_meta_chain get_all get one_of same_text
wrappers_in_one_round = refl
