-- ===== src/Envelope/Examples.antt =====
-- The properties of the id-free output at concrete inputs.
use jrag.Base.Values.{Value, null, text, object, Fields, end, field, find_field}
use jrag.Base.{
  ℕ, zero, suc, some, [], ◌∷◌, map, ◌≡◌, refl, ap, arith, Text, text_of, same_text, one_of, strip,
  String, length,
}
use jrag.Envelope.{
  node_key, strip_graph_id_fields, get_or, id_to_key, Envelope, to_idfree_dict, unused_key,
}
use jrag.Envelope.Keys.{DistinctFrom, names, Begins, to_idfree_dict-nodes}

-- Numbers in unary in place of digits.
digits : ℕ → Text
digits zero = []
digits (suc n) = 49 ∷ digits n

length-digits : (n : ℕ) → length (digits n) ≡ n
unfolding digits
length-digits zero = refl
length-digits (suc n) = ground (arith, length-digits n)

digits_differ : (m n : ℕ) → digits m ≡ digits n → m ≡ n
digits_differ m n h = omega (arith, ap length h, length-digits m, length-digits n)

abbrev no_text : Value → Text
no_text v = []

abbrev named : String → String → Fields
named id fqn = field (text_of "id") (text (text_of id)) (
    field (text_of "fqn") (text (text_of fqn))
      (field (text_of "data") (object (field (text_of "parent_id") null end)) end))

abbrev env : Envelope
env = record {
  nodes = (text_of "s1", named "s1" "p.A") ∷ (text_of "s2", named "s2" "p.A") ∷ [];
  edges = field (text_of "other_id") (text (text_of "s2")) end ∷ [];
  root = some (text_of "s2");
  candidates = [];
}

root_key_lem : (to_idfree_dict no_text digits env).root ≡ some (text_of "p.A#11")
unfolding to_idfree_dict id_to_key get_or unused_key one_of same_text digits node_key find_field
    strip
root_key_lem = refl

edges_lem :
    (to_idfree_dict no_text digits env).edges
    ≡ field (text_of "target") (text (text_of "p.A#11")) end ∷ []
unfolding to_idfree_dict id_to_key get_or unused_key one_of same_text digits node_key find_field
    strip
edges_lem = refl

to_idfree_dict-nodes_example :
    let keys = id_to_key no_text digits [] env.nodes in
    let out = (to_idfree_dict no_text digits env).nodes in
    (out ≡ map (λ (e : Text × Fields). (get_or e.0 e.0 keys, strip_graph_id_fields e.1)) env.nodes)
    × DistinctFrom [] (names out)
    × Begins no_text (names out) env.nodes
unfolding node_key find_field same_text strip one_of
to_idfree_dict-nodes_example =
    to_idfree_dict-nodes digits digits_differ no_text env (refl, (refl, tt))
      ((text_of "p.A", refl), ((text_of "p.A", refl), tt))
