-- ===== src/Paths/Winner.antt =====
-- The rule that `diagnose_dict` blames: `_winning_row` of src/java_codebase_rag/graph/path_filtering.py.
use mathlib.Core.List.{map-append}
use jrag.Base.{
  Bool, true, false, not, Option, none, some, List, [], ◌∷◌, ◌++◌, ◌≡◌, refl, sym, ap, ◌∙◌, subst,
  if◌then◌else◌, Bool-cases, inl, inr, append_assoc, append-nil, Text,
}
use jrag.Paths.{
  Parts, Files, Rules, Meta, Config, Cache, lines_of, posix, mega, decide, diagnose_rules,
  is_ignored, winning_loop, winning_row, diagnose,
}

-- The lines hit, and still do after each of the lines to come.
abbrev pub Stays : (List Text → Bool) → List Text → List Text → Type 0
Stays hit lines [] = hit lines ≡ true
Stays hit lines (t ∷ ts) = (hit lines ≡ true) × Stays hit (lines ++ (t ∷ [])) ts

-- The row of a rule before which the rules do not hit, and from which on they do.
abbrev pub Turns : (List Text → Bool) → Rules → Meta → Type 0
Turns hit rules m =
    (before : Rules) × (t : Text) × (after : Rules) × (rules ≡ before ++ ((t, m) ∷ after))
    × (hit (lines_of before) ≡ false)
    × Stays hit (lines_of before ++ (t ∷ [])) (lines_of after)

abbrev pub Explains : Config → Rules → Parts → Bool → Option Meta → Type 0
Explains cfg rules rel false none = Unit
Explains cfg rules rel false (some m) = ⊥
Explains cfg rules rel true none = ⊥
Explains cfg rules rel true (some m) = Turns (λ lines. cfg.ignores lines (posix rel)) rules m

module _ (hit : List Text → Bool) where
  Stays-snoc :
      (b a : List Text) (t : Text)
      → Stays hit b a
      → hit ((b ++ a) ++ (t ∷ [])) ≡ true
      → Stays hit b (a ++ (t ∷ []))
  Stays-snoc b [] t h k = (h, subst (λ l. hit (l ++ (t ∷ [])) ≡ true) (append-nil b) k)
  Stays-snoc b (x ∷ a) t h k = (
    h.0,
    Stays-snoc (b ++ (x ∷ [])) a t h.1
        (subst (λ l. hit (l ++ (t ∷ [])) ≡ true) (sym (append_assoc b (x ∷ []) a)) k),
  )

  lines_of-snoc :
      (done : Rules) (r : Text × Meta) → lines_of (done ++ (r ∷ [])) ≡ lines_of done ++ (r.0 ∷ [])
  lines_of-snoc done r = map-append (λ (x : Text × Meta). x.0) done (r ∷ [])

  -- What the loop knows: where the rules read hit, the last row is where they turned.
  abbrev Known : Rules → Meta → Bool → Type 0
  Known done last false = Unit
  Known done last true = Turns hit done last

  Turns-new :
      (done : Rules) (r : Text × Meta)
      → hit (lines_of done) ≡ false
      → hit (lines_of done ++ (r.0 ∷ [])) ≡ true
      → Turns hit (done ++ (r ∷ [])) r.1
  Turns-new done (t, m) h k = (done, t, [], refl, h, k)

  Turns-old :
      (done : Rules) (r : Text × Meta) (m : Meta)
      → Turns hit done m
      → hit (lines_of done ++ (r.0 ∷ [])) ≡ true
      → Turns hit (done ++ (r ∷ [])) m
  Turns-old done r m (before, t, after, e, h, k) n =
      let q =
        ap lines_of e
        ∙ map-append (λ (x : Text × Meta). x.0) before ((t, m) ∷ after)
        ∙ sym (append_assoc (lines_of before) (t ∷ []) (lines_of after)) in
      (
        before,
        t,
        after ++ (r ∷ []),
        ap (λ l. l ++ (r ∷ [])) e ∙ append_assoc before ((t, m) ∷ after) (r ∷ []),
        h,
        subst (Stays hit (lines_of before ++ (t ∷ []))) (sym (lines_of-snoc after r)) (
            Stays-snoc (lines_of before ++ (t ∷ [])) (lines_of after) r.0 k
              (subst (λ l. hit (l ++ (r.0 ∷ [])) ≡ true) q n)),
      )

  Known-step :
      (done : Rules) (r : Text × Meta) (last : Meta) (s n : Bool)
      → hit (lines_of done) ≡ s
      → hit (lines_of done ++ (r.0 ∷ [])) ≡ n
      → Known done last s
      → Known (done ++ (r ∷ [])) (if (if s then not n else n) then r.1 else last) n
  Known-step done r last s false h k w = tt
  Known-step done r last false true h k w = Turns-new done r h k
  Known-step done r last true true h k w = Turns-old done r last w k

  loop-Turns :
      (done rules : Rules) (last : Meta) (lines : List Text)
      → lines_of done ≡ lines
      → Known done last (hit lines)
      → hit (lines_of (done ++ rules)) ≡ true
      → Turns hit (done ++ rules) (winning_loop hit lines (hit lines) last rules)
  unfolding winning_loop
  loop-Turns done [] last lines e w h =
      let k = sym (ap hit e) ∙ ap (λ l. hit (lines_of l)) (sym (append-nil done)) ∙ h in
      subst (λ l. Turns hit l last) (sym (append-nil done)) (subst (Known done last) k w)
  loop-Turns done (r ∷ rules) last lines e w h =
      subst (λ l. Turns hit l (winning_loop hit lines (hit lines) last (r ∷ rules)))
        (append_assoc done (r ∷ []) rules)
        (loop-Turns (done ++ (r ∷ [])) rules _ (lines ++ (r.0 ∷ []))
          (lines_of-snoc done r ∙ ap (λ l. l ++ (r.0 ∷ [])) e)
          (Known-step done r last (hit lines) (hit (lines ++ (r.0 ∷ []))) (ap hit e)
            (ap (λ l. hit (l ++ (r.0 ∷ []))) e) w)
          (ap (λ l. hit (lines_of l)) (append_assoc done (r ∷ []) rules) ∙ h))

Explains-rules :
    (cfg : Config) (rules : Rules) (rel : Parts)
    → cfg.ignores [] (posix rel) ≡ false
    → Explains cfg rules rel (decide cfg rules rel) (diagnose_rules cfg rules rel)
unfolding winning_row
Explains-rules cfg [] rel h = tt
Explains-rules cfg (r ∷ rules) rel h =
    let hit = λ (lines : List Text). cfg.ignores lines (posix rel) in
    elim (Bool-cases (hit (lines_of (r ∷ rules)))) [
      | inl e ↦ rw e (
          subst (λ b. Turns hit (r ∷ rules) (winning_loop hit [] b r.1 (r ∷ rules))) h
            (loop-Turns hit [] (r ∷ rules) r.1 [] refl (subst (Known hit [] r.1) (sym h) tt) e))
      | inr e ↦ rw e tt
    ]

-- Where no rules ignore nothing: a path inside the project that is ignored is explained by the row of a rule before
-- which the rules do not ignore it and from which on they do, however many of the later ones are read; one that is
-- not ignored has no explanation.
pub diagnose-is_ignored :
    (cfg : Config) (files : Files) (rel : Parts) (cache : Cache)
    → cfg.ignores [] (posix rel) ≡ false
    → Explains cfg
        (mega cfg files rel cache).0
        rel
        (is_ignored cfg files (some rel) cache).0
        (diagnose cfg files (some rel) cache).0
unfolding is_ignored diagnose
diagnose-is_ignored cfg files rel cache h = Explains-rules cfg (mega cfg files rel cache).0 rel h
