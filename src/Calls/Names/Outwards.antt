-- ===== src/Calls/Names/Outwards.antt =====
-- The loop outwards of `_resolve_simple` in src/java_codebase_rag/graph/build_ast_graph.py.
use jrag.Base.{
  ℕ, zero, suc, ◌<◌, Option, none, some, ◌≡◌, refl, sym, subst, arith, inl, inr, Option-cases,
  length, Text,
}
use jrag.Calls.{Table, get, TypeEntry}
use jrag.Calls.Names.{dotted, or_else, outer_of, text_length, nested_in}

-- The type around a type has a shorter name.
abbrev pub IsNested : Table TypeEntry → Type 0
IsNested types = (t o : Text) → outer_of (get t types) ≡ some o → length o < length t

module _ (types : Table TypeEntry) (bare : Text) where
  -- A name is so many types outwards from another; all on the way are in the tables.
  pub data Around : Option Text → ℕ → Text → Type 0 where
    here : {o : Text} (entry : TypeEntry) → get o types ≡ some entry → Around (some o) zero o
    out :
        {o p : Text} {n : ℕ} (entry : TypeEntry)
        → get o types ≡ some entry
        → Around entry.outer_fqn n p
        → Around (some o) (suc n) p

  -- The type of a bare name that stands in the innermost of the types from one outwards, or none if it stands in no
  -- such type.
  pub data Innermost (outer : Option Text) : Option TypeEntry → Type 0 where
    found :
        (n : ℕ) (p : Text) (e : TypeEntry)
        → Around outer n p
        → get (dotted p bare) types ≡ some e
        → ((m : ℕ) (q : Text) → m < n → Around outer m q → get (dotted q bare) types ≡ none)
        → Innermost outer (some e)
    missing :
        ((n : ℕ) (p : Text) → Around outer n p → get (dotted p bare) types ≡ none)
        → Innermost outer none

  none-Around : (n : ℕ) (p : Text) → ¬ Around none n p
  none-Around n p a = elim a [ ]

  unknown-Around : (o : Text) (n : ℕ) (p : Text) → get o types ≡ none → ¬ Around (some o) n p
  unknown-Around o zero p h (here entry e) = cc (h, e)
  unknown-Around o (suc n) p h (out entry e a) = cc (h, e)

  nested_in-none : (fuel : ℕ) → nested_in types bare fuel none ≡ none
  unfolding nested_in
  nested_in-none zero = refl
  nested_in-none (suc fuel) = refl

  same_entry : (o : Text) (e f : TypeEntry) → get o types ≡ some e → get o types ≡ some f → e ≡ f
  same_entry o e f h k = cc (h, k)

  -- Where the name stands neither in a type nor in fewer types outwards from it.
  none_within :
      (o : Text) (entry : TypeEntry) (limit : ℕ)
      → get o types ≡ some entry
      → get (dotted o bare) types ≡ none
      → ((n : ℕ) (p : Text)
          → n < limit
          → Around entry.outer_fqn n p
          → get (dotted p bare) types ≡ none)
      → (n : ℕ) (p : Text) → n < suc limit
      → Around (some o) n p
      → get (dotted p bare) types ≡ none
  none_within o entry limit h k rest zero p l (here e g) = k
  none_within o entry limit h k rest (suc n) p l (out e g a) =
      rest n p (omega (arith, l))
        (subst (λ (t : TypeEntry). Around t.outer_fqn n p) (same_entry o e entry g h) a)

  -- One type further in, where the name does not stand in it.
  inwards :
      (o : Text) (entry : TypeEntry) (r : Option TypeEntry)
      → get o types ≡ some entry
      → get (dotted o bare) types ≡ none
      → Innermost entry.outer_fqn r
      → Innermost (some o) r
  inwards o entry none h k (missing all) =
      missing (λ n p a. none_within o entry n h k (λ m q l b. all m q b) n p (omega arith) a)
  inwards o entry (some f) h k (found n p e a g all) =
      found (suc n) p f (out entry h a) g (none_within o entry n h k all)

  -- One turn of the loop.
  turn :
      (o : Text) (here_found own further : Option TypeEntry)
      → get o types ≡ own
      → get (dotted o bare) types ≡ here_found
      → Innermost (outer_of own) further
      → Innermost (some o) (elim own as (λ x. Option TypeEntry) [
        | none ↦ none
        | some entry ↦ or_else here_found further
      ])
  turn o here_found none further e g i = missing (λ n p a. absurd (unknown-Around o n p e a))
  turn o none (some entry) further e g i = inwards o entry further e g i
  turn o (some f) (some entry) further e g i =
      found zero o f (here entry e) g (λ m q l a. ground (arith, l))

  -- Where the type around a type has a shorter name, and the fuel exceeds the length of the outer name: the loop
  -- returns the type of the bare name in the innermost of the types from the outer one outwards in which it stands,
  -- through types of the tables only, and none exactly if it stands in none of them.
  pub nested_in-Innermost :
      IsNested types
      → (fuel : ℕ) (outer : Option Text) → text_length outer < fuel
      → Innermost outer (nested_in types bare fuel outer)
  unfolding nested_in
  nested_in-Innermost nested zero outer h = ground (arith, h)
  nested_in-Innermost nested (suc fuel) none h = missing (λ n p a. absurd (none-Around n p a))
  nested_in-Innermost nested (suc fuel) (some o) h =
      let further : Innermost (outer_of (get o types))
          (nested_in types bare fuel (outer_of (get o types))) =
        elim (Option-cases (outer_of (get o types))) [
          | inl u ↦
              subst (λ t. Innermost t (nested_in types bare fuel t)) (sym u)
                (rw (nested_in-none fuel) (missing (λ n p a. absurd (none-Around n p a))))
          | inr (p, u) ↦
              subst (λ t. Innermost t (nested_in types bare fuel t)) (sym u)
                (nested_in-Innermost nested fuel (some p) (omega (arith, h, nested o p u)))
        ] in
      turn o (get (dotted o bare) types) (get o types) _ refl refl further
