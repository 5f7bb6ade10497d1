-- ===== src/Enrich/Sets/Added.antt =====
-- What the loops of src/java_codebase_rag/ast/ast_java.py and src/java_codebase_rag/graph/graph_enrich.py add to a set.
use mathlib.Core.List.{Memᴰ}
use mathlib.Core.List.Memᴰ
use jrag.Base.{
  Bool, true, false, Option, none, some, List, [], ◌∷◌, ◌≡◌, ◌⊎◌, ◌||◌, if◌then◌else◌, refl, sym,
  ap, subst, arith, Bool-cases, inl, inr, Text, same_text, same_text_refl, same_text_eq, one_of,
  one_of_same,
}
use jrag.Base.Tables.{Table, get}
use jrag.Enrich.Sets.{each, add, is_blank_text, add_given, add_mapped}

-- A list without repetitions.
abbrev pub IsDistinct : List Text → Type 0
unfolding one_of
IsDistinct [] = Unit
IsDistinct (x ∷ xs) = (one_of x xs ≡ false) × IsDistinct xs

-- A set stays a set, and what it gains is exactly what a predicate holds of.
pub record Adds (P : Text → Type 0) (before after : List Text) : Type 0 where
  pub gained : (c : Text) → one_of c after ≡ true → (one_of c before ≡ true) ⊎ P c
  pub kept : (c : Text) → one_of c before ≡ true → one_of c after ≡ true
  pub gets : (c : Text) → P c → one_of c after ≡ true
  pub distinct : IsDistinct before → IsDistinct after

pub record Mapped (table : Table Text) (name c : Text) : Type 0 where
  pub found : get name table ≡ some c
  pub given : is_blank_text c ≡ false

pub record Some {A : Type 0} (P : A → Text → Type 0) (xs : List A) (c : Text) : Type 0 where
  pub element : A
  pub member : Memᴰ element xs
  pub holds : P element c

pub one_of-add :
    (c d : Text) (caps : List Text) → one_of c (add d caps) ≡ (one_of c caps || same_text d c)
unfolding add one_of
one_of-add c d caps = elim (Bool-cases (one_of d caps)) [
  | inl h ↦ elim (Bool-cases (same_text d c)) [
    | inl e ↦ ground (arith, h, e, one_of_same d c caps e)
    | inr e ↦ ground (arith, h, e)
  ]
  | inr h ↦ ground (arith, h)
]

add-IsDistinct : (d : Text) (caps : List Text) → IsDistinct caps → IsDistinct (add d caps)
unfolding add one_of
add-IsDistinct d caps h = elim (Bool-cases (one_of d caps)) [ inl e ↦ rw e h | inr e ↦ rw e (e, h) ]

pub add-Adds : (d : Text) (caps : List Text) → Adds (λ c. d ≡ c) caps (add d caps)
add-Adds d caps = record {
  gained = λ c h. elim (Bool-cases (one_of c caps)) [
    | inl e ↦ inl e
    | inr e ↦ inr (same_text_eq d c (ground (arith, one_of-add c d caps, h, e)))
  ];
  kept = λ c e. ground (arith, one_of-add c d caps, e);
  gets = λ c e.
      ground (arith, one_of-add c d caps, ap (λ (u : Text). same_text d u) e, same_text_refl d);
  distinct = add-IsDistinct d caps;
}

pub same-Adds : {P : Text → Type 0} → ((c : Text) → ¬ P c) → (caps : List Text) → Adds P caps caps
same-Adds nothing caps = record {
  gained = λ c h. inl h;
  kept = λ c h. h;
  gets = λ c p. absurd (nothing c p);
  distinct = λ h. h;
}

add_given-Adds :
    (o : Option Text) (caps : List Text)
    → Adds (λ c. (o ≡ some c) × (is_blank_text c ≡ false)) caps (add_given o caps)
unfolding add_given
add_given-Adds none caps = same-Adds (λ c p. cc (p.0)) caps
add_given-Adds (some d) caps = elim (Bool-cases (is_blank_text d)) [
  | inl e ↦ rw e (same-Adds (λ c p. ground (arith, e, p.0, p.1)) caps)
  | inr e ↦
      let a = add-Adds d caps in
      rw e (record {
        gained =
            λ c h. elim (a.gained c h) [ inl k ↦ inl k | inr k ↦ inr (ap some k, rw (sym k) e) ];
        kept = a.kept;
        gets = λ c p. a.gets c (cc (p.0));
        distinct = a.distinct;
      })
]

pub add_mapped-Adds :
    (table : Table Text) (name : Text) (caps : List Text)
    → Adds (Mapped table name) caps (add_mapped table name caps)
unfolding add_mapped
add_mapped-Adds table name caps =
    let a = add_given-Adds (get name table) caps in
    record {
      gained = λ c h. elim (a.gained c h) [
        | inl k ↦ inl k
        | inr k ↦ inr (record { found = k.0; given = k.1 })
      ];
      kept = a.kept;
      gets = λ c p. a.gets c (p.found, p.given);
      distinct = a.distinct;
    }

pub seq-Adds :
    {P Q : Text → Type 0} {a b d : List Text} → Adds P a b → Adds Q b d → Adds (λ c. P c ⊎ Q c) a d
seq-Adds p q = record {
  gained = λ c h. elim (q.gained c h) [
    | inl k ↦ elim (p.gained c k) [ inl l ↦ inl l | inr l ↦ inr (inl l) ]
    | inr k ↦ inr (inr k)
  ];
  kept = λ c h. q.kept c (p.kept c h);
  gets = λ c h. elim h [ inl k ↦ q.kept c (p.gets c k) | inr k ↦ q.gets c k ];
  distinct = λ h. q.distinct (p.distinct h);
}

pub each-Adds :
    {A : Type 0} {P : A → Text → Type 0} {f : A → List Text → List Text}
    → ((a : A) (caps : List Text) → Adds (P a) caps (f a caps))
    → (xs : List A) (caps : List Text) → Adds (Some P xs) caps (each f xs caps)
unfolding each
each-Adds h [] caps = same-Adds (λ c s. Memᴰ.not-nil s.member) caps
each-Adds {P = P} {f = f} h (x ∷ xs) caps =
    let one = h x caps in
    let rest = each-Adds h xs (f x caps) in
    record {
      gained = λ c e. elim (rest.gained c e) [
        | inl k ↦ elim (one.gained c k) [
          | inl l ↦ inl l
          | inr l ↦ inr (record { element = x; member = Memᴰ.head refl; holds = l })
        ]
        | inr s ↦ inr (record { element = s.element; member = Memᴰ.tail s.member; holds = s.holds })
      ];
      kept = λ c e. rest.kept c (one.kept c e);
      gets = λ c s. elim (Memᴰ.cases_cons s.member) [
        | inl e ↦ rest.kept c (one.gets c (subst (λ a. P a c) e s.holds))
        | inr m ↦ rest.gets c (record { element = s.element; member = m; holds = s.holds })
      ];
      distinct = λ d. rest.distinct (one.distinct d);
    }

pub all-Adds : (cs caps : List Text) → Adds (λ c. one_of c cs ≡ true) caps (each add cs caps)
unfolding each one_of
all-Adds [] caps = same-Adds (λ c h. ground (arith, h)) caps
all-Adds (d ∷ cs) caps =
    let one = add-Adds d caps in
    let rest = all-Adds cs (add d caps) in
    record {
      gained = λ c h. elim (rest.gained c h) [
        | inl k ↦ elim (one.gained c k) [
          | inl l ↦ inl l
          | inr e ↦ inr (ground (arith, ap (λ (u : Text). same_text d u) e, same_text_refl d))
        ]
        | inr k ↦ inr (ground (arith, k))
      ];
      kept = λ c h. rest.kept c (one.kept c h);
      gets = λ c h. elim (Bool-cases (same_text d c)) [
        | inl e ↦ rest.kept c (one.gets c (same_text_eq d c e))
        | inr e ↦ rest.gets c (ground (arith, h, e))
      ];
      distinct = λ d. rest.distinct (one.distinct d);
    }

pub when-Adds :
    {P : Text → Type 0} (b : Bool) (before after : List Text)
    → Adds P before after
    → Adds (λ c. (b ≡ true) × P c) before (if b then after else before)
when-Adds true before after a = record {
  gained = λ c h. elim (a.gained c h) [ inl k ↦ inl k | inr k ↦ inr (refl, k) ];
  kept = a.kept;
  gets = λ c p. a.gets c p.1;
  distinct = a.distinct;
}
when-Adds false before after a = same-Adds (λ c p. ground (arith, p.0)) before
