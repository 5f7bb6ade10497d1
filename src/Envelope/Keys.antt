-- ===== src/Envelope/Keys.antt =====
-- The keys of the nodes in the id-free output of src/java_codebase_rag/jrag_envelope.py.
use native.Mathlib.Nat.{le_refl}
use jrag.Base.Values.{Value, Fields}
use jrag.Base.{
  ℕ, zero, suc, ◌≤◌, ◌<◌, true, false, some, List, [], ◌∷◌, ◌++◌, map, ◌≡◌, refl, sym, ap, ◌∙◌,
  subst, arith, if◌then◌else◌, ◌||◌, Bool-cases, inl, inr, length, Text, same_text, same_text_refl,
  same_text_eq, one_of, starts_with, append-nil, append_assoc,
}
use jrag.Envelope.{
  Table, node_key, strip_graph_id_fields, get_or, put, add, suffixed, unused_key, chosen_key,
  id_to_key, rekey, Envelope, to_idfree_dict,
}

-- Without a text.
abbrev without : Text → List Text → List Text
without k [] = []
without k (x ∷ xs) = if same_text x k then without k xs else x ∷ without k xs

one_of-without :
    (j k : Text) (xs : List Text) → same_text k j ≡ false → one_of j (without k xs) ≡ one_of j xs
unfolding one_of
one_of-without j k [] h = refl
one_of-without j k (x ∷ xs) h = elim (Bool-cases (same_text x k)) [
  | inl e ↦ ground (arith, one_of-without j k xs h, ap (λ t. same_text t j) (same_text_eq x k e))
  | inr e ↦ ground (arith, one_of-without j k xs h)
]

length-without-le : (k : Text) (xs : List Text) → length (without k xs) ≤ length xs
length-without-le k [] = omega arith
length-without-le k (x ∷ xs) = ground (arith, length-without-le k xs)

length-without :
    (k : Text) (xs : List Text) → one_of k xs ≡ true → length (without k xs) < length xs
unfolding one_of
length-without k [] h = ground arith
length-without k (x ∷ xs) h = ground (arith, length-without k xs, length-without-le k xs)

abbrev drop_one : Text → Text
drop_one [] = []
drop_one (c ∷ t) = t

append-cancel : (s t u : Text) → s ++ t ≡ s ++ u → t ≡ u
append-cancel [] t u h = h
append-cancel (c ∷ s) t u h = append-cancel s t u (ground (arith, h))

starts_with_self : (s t : Text) → starts_with s (s ++ t) ≡ true
unfolding starts_with
starts_with_self [] t = refl
starts_with_self (c ∷ s) t = ground (arith, starts_with_self s t)

one_of-empty : (k : Text) (xs : List Text) → length xs ≤ 0 → one_of k xs ≡ false
unfolding one_of
one_of-empty k [] h = refl
one_of-empty k (x ∷ xs) h = ground (arith, h)

-- No key stands twice, and none among the given ones.
abbrev pub DistinctFrom : List Text → List Text → Type 0
DistinctFrom used [] = Unit
DistinctFrom used (k ∷ ks) = (one_of k used ≡ false) × DistinctFrom (k ∷ used) ks

abbrev pub names : {A : Type 0} → Table A → List Text
names d = map (λ e. e.0) d

-- The keys that the nodes are looked up under.
abbrev pub found_keys : Table Text → Table Fields → List Text
found_keys keys [] = []
found_keys keys ((id, node) ∷ nodes) = get_or id id keys ∷ found_keys keys nodes

put-new :
    {A : Type 0}
    → (k : Text) (a : A) (d : Table A) → one_of k (names d) ≡ false
    → put k a d ≡ d ++ ((k, a) ∷ [])
unfolding put one_of
put-new k a [] h = refl
put-new k a ((j, b) ∷ d) h = ground (arith, put-new k a d)

one_of-names :
    {A : Type 0}
    → (j k : Text) (a : A) (d : Table A)
    → one_of j (names (d ++ ((k, a) ∷ []))) ≡ one_of j (k ∷ names d)
unfolding one_of
one_of-names j k a [] = refl
one_of-names j k a ((l, b) ∷ d) = ground (arith, one_of-names j k a d)

DistinctFrom-same :
    (used seen ks : List Text)
    → ((j : Text) → one_of j used ≡ one_of j seen)
    → DistinctFrom used ks
    → DistinctFrom seen ks
unfolding one_of
DistinctFrom-same used seen [] h d = tt
DistinctFrom-same used seen (k ∷ ks) h d = (
  sym (h k) ∙ d.0,
  DistinctFrom-same (k ∷ used) (k ∷ seen) ks (λ j. ap (λ b. same_text k j || b) (h j)) d.1,
)

rekey-append :
    (keys : Table Text) (nodes out : Table Fields)
    → DistinctFrom (names out) (found_keys keys nodes)
    → rekey keys nodes out
      ≡ out ++ map (λ e. (get_or e.0 e.0 keys, strip_graph_id_fields e.1)) nodes
unfolding rekey
rekey-append keys [] out h = sym (append-nil out)
rekey-append keys ((id, node) ∷ nodes) out h =
    let k = get_or id id keys in
    let v = strip_graph_id_fields node in
    let more : Text × Fields → Text × Fields =
      λ e. (get_or e.0 e.0 keys, strip_graph_id_fields e.1) in
    let one : Table Fields = (k, v) ∷ [] in
    ap (λ o. rekey keys nodes o) (put-new k v out h.0)
    ∙ rekey-append keys nodes (out ++ one) (
        DistinctFrom-same (k ∷ names out) (names (out ++ one)) _ (λ j. sym (one_of-names j k v out))
          h.1)
    ∙ append_assoc out one (map more nodes)

found_keys-skip :
    (id key : Text) (keys : Table Text) (used : List Text) (nodes : Table Fields)
    → one_of id used ≡ true
    → DistinctFrom used (names nodes)
    → found_keys ((id, key) ∷ keys) nodes ≡ found_keys keys nodes
unfolding get_or one_of
found_keys-skip id key keys used [] h d = refl
found_keys-skip id key keys used ((j, node) ∷ nodes) h d =
    let other : same_text id j ≡ false = elim (Bool-cases (same_text id j)) [
      | inl e ↦ ground (arith, ap (λ t. one_of t used) (same_text_eq id j e), d.0, h)
      | inr e ↦ e
    ] in
    let rest = found_keys-skip id key keys (j ∷ used) nodes (ground (arith, h)) d.1 in
    rw other (ap (λ (l : List Text). get_or j j keys ∷ l) rest)

names-map :
    (keys : Table Text) (nodes : Table Fields)
    → names (map (λ (e : Text × Fields). (get_or e.0 e.0 keys, strip_graph_id_fields e.1)) nodes)
      ≡ found_keys keys nodes
names-map keys [] = refl
names-map keys ((id, node) ∷ nodes) =
    ap (λ (l : List Text). get_or id id keys ∷ l) (names-map keys nodes)

module _ (str : Value → Text) where
  -- Every node has a natural key.
  abbrev pub AllNamed : Table Fields → Type 0
  AllNamed [] = Unit
  AllNamed ((id, node) ∷ nodes) = ((base : Text) × (node_key str node ≡ some base)) × AllNamed nodes

  -- Each key begins with the natural key of its node.
  abbrev pub Begins : List Text → Table Fields → Type 0
  Begins (k ∷ ks) ((id, node) ∷ nodes) =
      ((base : Text) → node_key str node ≡ some base → starts_with base k ≡ true) × Begins ks nodes
  Begins [] [] = Unit
  Begins [] (e ∷ nodes) = ⊥
  Begins (k ∷ ks) [] = ⊥

module _ (digits : ℕ → Text) (digits_differ : (m n : ℕ) → digits m ≡ digits n → m ≡ n) where
  suffixed_differ :
      (base : Text) (m n : ℕ)
      → m < n
      → same_text (suffixed digits base m) (suffixed digits base n) ≡ false
  suffixed_differ base m n h =
      elim (Bool-cases (same_text (suffixed digits base m) (suffixed digits base n))) [
        | inl e ↦
            let same = append-cancel base _ _ (same_text_eq _ _ e) in
            let d = digits_differ m n (ap drop_one same) in ground (arith, d)
        | inr e ↦ e
      ]

  unused_from :
      (base : Text) (used : List Text) (fuel n : ℕ) (left : List Text)
      → ((m : ℕ)
          → n ≤ m
          → one_of (suffixed digits base m) used ≡ true
          → one_of (suffixed digits base m) left ≡ true)
      → length left ≤ fuel
      → one_of (unused_key digits fuel (suc n) (suffixed digits base n) base used) used ≡ false
  unfolding unused_key one_of
  unused_from base used zero n left h l = elim (Bool-cases (one_of (suffixed digits base n) used)) [
    | inl e ↦
        let a = h n (le_refl n) e in
        let b = one_of-empty (suffixed digits base n) left l in ground (arith, a, b)
    | inr e ↦ e
  ]
  unused_from base used (suc fuel) n left h l =
      elim (Bool-cases (one_of (suffixed digits base n) used)) [
        | inl e ↦
            let key = suffixed digits base n in
            let shorter = length-without key left (h n (le_refl n) e) in
            let rest : (m : ℕ)
                → suc n ≤ m
                → one_of (suffixed digits base m) used ≡ true
                → one_of (suffixed digits base m) (without key left) ≡ true =
              λ m g u.
                one_of-without (suffixed digits base m) key left
                  (suffixed_differ base n m (omega (arith, g)))
                ∙ h m (omega (arith, g)) u in
            rw e (
              unused_from base used fuel (suc n) (without key left) rest
                (omega (arith, shorter, l)))
        | inr e ↦ rw e e
      ]

  unused_key-new :
      (base : Text) (used : List Text)
      → one_of (unused_key digits (suc (length used)) 2 base base used) used ≡ false
  unfolding unused_key
  unused_key-new base used = elim (Bool-cases (one_of base used)) [
    | inl e ↦ rw e (unused_from base used (length used) 2 used (λ m g u. u) (omega arith))
    | inr e ↦ rw e e
  ]

  unused_key-base :
      (base key : Text) (used : List Text) (fuel n : ℕ)
      → starts_with base key ≡ true
      → starts_with base (unused_key digits fuel n key base used) ≡ true
  unfolding unused_key
  unused_key-base base key used zero n h = h
  unused_key-base base key used (suc fuel) n h = elim (Bool-cases (one_of key used)) [
    | inl e ↦ rw e (
        unused_key-base base (suffixed digits base n) used fuel (suc n)
          (starts_with_self base (b'#' ∷ digits n)))
    | inr e ↦ rw e h
  ]

  module _ (str : Value → Text) where
    id_to_key-DistinctFrom :
        (used : List Text) (nodes : Table Fields)
        → AllNamed str nodes
        → DistinctFrom used (map (λ e. e.1) (id_to_key str digits used nodes))
    unfolding id_to_key
    id_to_key-DistinctFrom used [] h = tt
    id_to_key-DistinctFrom used ((id, node) ∷ nodes) ((base, e), h) =
        let new : one_of (chosen_key str digits used id (node_key str node)) used ≡ false =
          rw e (unused_key-new base used) in
        (
          new,
          rw new (
              id_to_key-DistinctFrom (chosen_key str digits used id (node_key str node) ∷ used)
                nodes h),
        )

    id_to_key-Begins :
        (used : List Text) (nodes : Table Fields)
        → Begins str (map (λ e. e.1) (id_to_key str digits used nodes)) nodes
    unfolding id_to_key
    id_to_key-Begins used [] = tt
    id_to_key-Begins used ((id, node) ∷ nodes) = (
      λ base e. rw e (
          unused_key-base base base used (suc (length used)) 2
            (subst (λ t. starts_with base t ≡ true) (append-nil base) (starts_with_self base []))),
      id_to_key-Begins (add (chosen_key str digits used id (node_key str node)) used) nodes,
    )

    found_keys-own :
        (used seen : List Text) (nodes : Table Fields)
        → DistinctFrom seen (names nodes)
        → found_keys (id_to_key str digits used nodes) nodes
          ≡ map (λ e. e.1) (id_to_key str digits used nodes)
    unfolding id_to_key get_or one_of
    found_keys-own used seen [] d = refl
    found_keys-own used seen ((id, node) ∷ nodes) d =
        let key = chosen_key str digits used id (node_key str node) in
        let keys = id_to_key str digits (add key used) nodes in
        rw (same_text_refl id) (
          ap (λ (l : List Text). key ∷ l)
            (found_keys-skip id key keys (id ∷ seen) nodes (ground (arith, same_text_refl id)) d.1
              ∙ found_keys-own (add key used) (id ∷ seen) nodes d.1))

    -- Where different numbers have different texts, the ids of the nodes are distinct, as the keys of a dictionary are,
    -- and every node has a natural key: the output has every node, in order and without the graph ids, under the key
    -- that id_to_key has for its id; no two nodes have one key, and each key begins with the natural one.
    pub to_idfree_dict-nodes :
        (env : Envelope)
        → DistinctFrom [] (names env.nodes)
        → AllNamed str env.nodes
        → let keys = id_to_key str digits [] env.nodes in
          let out = (to_idfree_dict str digits env).nodes in
          (out
            ≡ map
                (λ (e : Text × Fields). (get_or e.0 e.0 keys, strip_graph_id_fields e.1))
                env.nodes)
          × DistinctFrom [] (names out)
          × Begins str (names out) env.nodes
    unfolding to_idfree_dict
    to_idfree_dict-nodes env d n =
        let keys = id_to_key str digits [] env.nodes in
        let own = found_keys-own [] [] env.nodes d in
        let apart = id_to_key-DistinctFrom [] env.nodes n in
        let same =
          rekey-append keys env.nodes [] (subst (λ l. DistinctFrom [] l) (sym own) apart) in
        let ks = sym (ap (λ o. names o) same ∙ names-map keys env.nodes ∙ own) in
        (
          same,
          subst (λ l. DistinctFrom [] l) ks apart,
          subst (λ l. Begins str l env.nodes) ks (id_to_key-Begins [] env.nodes),
        )
