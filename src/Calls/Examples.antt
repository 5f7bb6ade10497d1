-- ===== src/Calls/Examples.antt =====
-- The properties of call resolution at concrete inputs.
use jrag.Base.{
  ap, Bool-cases, inl, inr, same_text_eq, length, true, false, none, some, List, [], ◌∷◌, ◌≡◌, ◌↔◌,
  refl, arith, String, Text, text_of, same_text,
}
use jrag.Calls.{Table, get, has, CallSite, MethodDecl, TypeEntry, MemberEntry, Tables, FileAst}
use jrag.Calls.Names.{text_length, nested_in}
use jrag.Calls.Names.Outwards.{IsNested, Innermost, nested_in-Innermost}
use jrag.Calls.Receiver.{Receiver, resolve_receiver_type}
use jrag.Calls.Lookup.{is_strict_supertype_of}
use jrag.Calls.Lookup.Climb.{IsAbove, is_strict_supertype_of_iff}
use jrag.Calls.Emit.{pass3_calls, resolve_and_emit_call, no_output}
use jrag.Calls.Emit.Counted.{IsCounted, pass3_calls-IsCounted}
use jrag.Calls.Emit.Sited.{Writes, resolve_and_emit_call-Writes}

abbrev type_entry : String → String → TypeEntry
type_entry name id = record {
  fqn = text_of name;
  fields = [];
  file_path = text_of "f";
  microservice = [];
  package_name = text_of "p";
  outer_fqn = none;
  node_id = text_of id;
}

abbrev call : CallSite
call = record {
  callee_simple = text_of "run";
  receiver_expr = text_of "this";
  arg_count = some 0;
  is_static_call = false;
  line = 3;
  byte = 30;
}

abbrev method : String → List CallSite → MethodDecl
method name calls = record {
  name = text_of name;
  signature = text_of name;
  is_constructor = false;
  is_static = false;
  parameters = [];
  local_vars = [];
  call_sites = calls;
  start_line = 1;
  start_byte = 1;
}

abbrev member : String → String → String → List CallSite → MemberEntry
member name parent id calls = record {
  decl = method name calls;
  parent_fqn = text_of parent;
  file_path = text_of "f";
  microservice = text_of "svc";
  node_id = text_of id;
}

abbrev caller : MemberEntry
caller = member "main" "p.B" "m1" (call ∷ [])

-- B extends A, and A, by a cycle, B; the called method is A's.
abbrev tables : Tables
tables = record {
  types = (text_of "p.A", type_entry "p.A" "a") ∷ (text_of "p.B", type_entry "p.B" "b") ∷ [];
  by_simple_name = [];
  members = caller ∷ member "run" "p.A" "m2" [] ∷ [];
  extends_rows =
      record { src_id = text_of "b"; dst_fqn = text_of "p.A" }
      ∷ record { src_id = text_of "a"; dst_fqn = text_of "p.B" }
      ∷ [];
  implements_rows = [];
}

abbrev ast : FileAst
ast = record {
  explicit_imports = [];
  wildcard_imports = [];
  static_methods = [];
  static_wildcards = [];
}

abbrev same_id : Text → Text
same_id fqn = fqn

is_strict_supertype_of_iff_example :
    (is_strict_supertype_of tables (text_of "p.A") (text_of "p.B") ≡ true) ↔ (
      (same_text (text_of "p.A") (text_of "p.B") ≡ false)
      × IsAbove tables (text_of "p.B") (text_of "p.A"))
is_strict_supertype_of_iff_example =
    is_strict_supertype_of_iff tables (text_of "p.A") (text_of "p.B")

pass3_calls-IsCounted_example :
    IsCounted (pass3_calls same_id tables ((text_of "f", ast) ∷ []) no_output)
pass3_calls-IsCounted_example = pass3_calls-IsCounted same_id tables ((text_of "f", ast) ∷ [])

resolve_and_emit_call-Writes_example :
    (r : Receiver) × (resolve_receiver_type tables ast [] caller call ≡ some r)
    × Writes same_id tables ast caller call r no_output
        (resolve_and_emit_call same_id tables ast [] caller call no_output)
unfolding has same_text
resolve_and_emit_call-Writes_example =
    resolve_and_emit_call-Writes same_id tables ast [] caller call no_output refl

-- p.A.B stands in p.A, and so does p.A.C.
abbrev nested_types : Table TypeEntry
nested_types =
    (text_of "p.A.B", record (type_entry "p.A.B" "1") { outer_fqn = some (text_of "p.A") })
    ∷ (text_of "p.A.C", record (type_entry "p.A.C" "2") { outer_fqn = some (text_of "p.A") })
    ∷ (text_of "p.A", type_entry "p.A" "3")
    ∷ []

length_same : (s t : Text) → same_text s t ≡ true → length s ≡ length t
length_same s t h = ap length (same_text_eq s t h)

nested_types-IsNested : IsNested nested_types
unfolding get
nested_types-IsNested t o h = elim (Bool-cases (same_text (text_of "p.A.B") t)) [
  | inl e ↦
      let outer : some (text_of "p.A") ≡ some o = rw e at h in
      omega (arith, length_same (text_of "p.A.B") t e, ap text_length outer)
  | inr e ↦ elim (Bool-cases (same_text (text_of "p.A.C") t)) [
    | inl f ↦
        let outer : some (text_of "p.A") ≡ some o = rw (e, f) at h in
        omega (arith, length_same (text_of "p.A.C") t f, ap text_length outer)
    | inr f ↦ ground (arith, h, e, f)
  ]
]

nested_in-Innermost_example :
    Innermost nested_types
      (text_of "C")
      (some (text_of "p.A.B"))
      (nested_in nested_types (text_of "C") 6 (some (text_of "p.A.B")))
nested_in-Innermost_example =
    nested_in-Innermost nested_types (text_of "C") nested_types-IsNested 6 (some (text_of "p.A.B"))
      (omega arith)

-- C is found one type further out.
found_outside :
    nested_in nested_types (text_of "C") 6 (some (text_of "p.A.B"))
    ≡ get (text_of "p.A.C") nested_types
unfolding nested_in get same_text
found_outside = refl
