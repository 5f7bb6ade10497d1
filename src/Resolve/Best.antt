-- ===== src/Resolve/Best.antt =====
-- `_resolve_dedupe_candidates` keeps the best match of each node.
use text.Mathlib.Text.{◌==◌ as str_eq}
use text.Mathlib.TextEquality.{eq_iff}
use jrag.Base.{
  ◌<◌, ◌≤◌, ◌≡◌, ◌≢◌, refl, true, false, Option, none, some, List, [], ◌∷◌, String, arith, All,
  if◌then◌else◌, Bool-cases, inl, inr, ◌⊎◌, ◌∙◌, ap,
}
use jrag.Resolve.{Match, priority, improves, keep_best, dedupe_from, dedupe}

-- The match that stands for a node, if there is one.
abbrev pub find : String → List Match → Option Match
find id [] = none
find id (p ∷ ps) = if str_eq p.node.id id then some p else find id ps

-- The better of a match and the best so far; of equals, the earlier.
abbrev pub better : Match → Option Match → Match
better m none = m
better m (some p) = if improves m p then m else p

-- The best match of a node among `ms`, going on from `acc`.
abbrev pub best_from : String → Option Match → List Match → Option Match
best_from id acc [] = acc
best_from id acc (m ∷ ms) =
    best_from id (if str_eq m.node.id id then some (better m acc) else acc) ms

abbrev pub HasNoId : String → List Match → Type 0
HasNoId id ps = All (λ p. str_eq p.node.id id ≡ false) ps

abbrev pub HasUniqueIds : List Match → Type 0
HasUniqueIds [] = Unit
HasUniqueIds (p ∷ ps) = HasNoId p.node.id ps × HasUniqueIds ps

find-keep_best :
    (id : String) (m : Match) (ps : List Match)
    → find id (keep_best m ps)
      ≡ (if str_eq m.node.id id then some (better m (find id ps)) else find id ps)
unfolding keep_best
find-keep_best id m [] = ground arith
find-keep_best id m (p ∷ ps) = ground (
  arith,
  find-keep_best id m ps,
  eq_iff m.node.id p.node.id,
  eq_iff m.node.id id,
  eq_iff p.node.id id,
)

keep_best-HasNoId :
    (id : String) (m : Match) (ps : List Match)
    → str_eq m.node.id id ≡ false
    → HasNoId id ps
    → HasNoId id (keep_best m ps)
unfolding keep_best
keep_best-HasNoId id m [] h k = (h, tt)
keep_best-HasNoId id m (p ∷ ps) h k = elim (Bool-cases (str_eq m.node.id p.node.id)) [
  | inl same ↦ rw same (elim (Bool-cases (improves m p)) [ inl b ↦ rw b (h, k.1) | inr b ↦ rw b k ])
  | inr other ↦ rw other (k.0, keep_best-HasNoId id m ps h k.1)
]

HasNoId-eq : (a b : String) (ps : List Match) → str_eq a b ≡ true → HasNoId b ps → HasNoId a ps
HasNoId-eq a b ps e h = rw ((eq_iff a b).0 e) h

keep_best-HasUniqueIds :
    (m : Match) (ps : List Match) → HasUniqueIds ps → HasUniqueIds (keep_best m ps)
unfolding keep_best
keep_best-HasUniqueIds m [] h = (tt, tt)
keep_best-HasUniqueIds m (p ∷ ps) h = elim (Bool-cases (str_eq m.node.id p.node.id)) [
  | inl same ↦ rw same (elim (Bool-cases (improves m p)) [
    | inl b ↦ rw b (HasNoId-eq m.node.id p.node.id ps same h.0, h.1)
    | inr b ↦ rw b h
  ])
  | inr other ↦
      rw other (keep_best-HasNoId p.node.id m ps other h.0, keep_best-HasUniqueIds m ps h.1)
]

find-dedupe_from :
    (id : String) (best ms : List Match)
    → find id (dedupe_from best ms) ≡ best_from id (find id best) ms
unfolding dedupe_from
find-dedupe_from id best [] = refl
find-dedupe_from id best (m ∷ ms) =
    find-dedupe_from id (keep_best m best) ms
    ∙ ap (λ o. best_from id o ms) (find-keep_best id m best)

dedupe_from-HasUniqueIds :
    (best ms : List Match) → HasUniqueIds best → HasUniqueIds (dedupe_from best ms)
unfolding dedupe_from
dedupe_from-HasUniqueIds best [] h = h
dedupe_from-HasUniqueIds best (m ∷ ms) h =
    dedupe_from-HasUniqueIds (keep_best m best) ms (keep_best-HasUniqueIds m best h)

improves_below : (m p b : Match) → improves m p ≡ true → improves m b ≡ false → improves p b ≡ false
unfolding improves
improves_below m p b h k = ground arith

not_improves_trans :
    (a b c : Match) → improves a b ≡ false → improves b c ≡ false → improves a c ≡ false
unfolding improves
not_improves_trans a b c h k = ground arith

abbrev Occurs : Match → List Match → Type 0
Occurs b [] = ⊥
Occurs b (m ∷ ms) = (m ≡ b) ⊎ Occurs b ms

-- `b` has a smaller priority than `m`, or the same and a specificity that is not smaller.
abbrev pub IsAtLeast : Match → Match → Type 0
IsAtLeast b m =
    (priority b.reason < priority m.reason)
    ⊎ ((priority b.reason ≡ priority m.reason) × (m.specificity ≤ b.specificity))

-- The match `b` is one of `ms`, is of the node `id`, and no match of that node is better.
pub record IsBest (id : String) (b : Match) (ms : List Match) : Type 0 where
  pub occurs : Occurs b ms
  pub same_node : b.node.id ≡ id
  pub beats : All (λ m. m.node.id ≡ id → IsAtLeast b m) ms

abbrev pub Describes : String → List Match → Option Match → Type 0
Describes id ms none = All (λ p. p.node.id ≢ id) ms
Describes id ms (some b) = IsBest id b ms

-- The same by the tests of the code, of matches that come behind a best so far.
abbrev Continues : String → Option Match → List Match → Option Match → Type 0
Continues id none ms none = HasNoId id ms
Continues id none ms (some b) =
    Occurs b ms
    × (str_eq b.node.id id ≡ true)
    × All (λ m. str_eq m.node.id id ≡ true → improves m b ≡ false) ms
Continues id (some p) ms none = ⊥
Continues id (some p) ms (some b) =
    ((p ≡ b) ⊎ Occurs b ms)
    × (str_eq b.node.id id ≡ true)
    × (improves p b ≡ false)
    × All (λ m. str_eq m.node.id id ≡ true → improves m b ≡ false) ms

improves_irrefl : (b : Match) → improves b b ≡ false
unfolding improves
improves_irrefl b = ground arith

-- One more match in front, of another node or of this one.
skip_other :
    (id : String) (m : Match) (acc : Option Match) (ms : List Match) (o : Option Match)
    → str_eq m.node.id id ≡ false
    → Continues id acc ms o
    → Continues id acc (m ∷ ms) o
skip_other id m none ms none e h = (e, h)
skip_other id m none ms (some b) e (w, s, a) = (inr w, s, (λ k. cc, a))
skip_other id m (some p) ms none e h = h
skip_other id m (some p) ms (some b) e (o, s, i, a) = (widen o, s, i, (λ k. cc, a))
  where
    widen : (p ≡ b) ⊎ Occurs b ms → (p ≡ b) ⊎ Occurs b (m ∷ ms)
    widen (inl q) = inl q
    widen (inr q) = inr (inr q)

take_same :
    (id : String) (m : Match) (acc : Option Match) (ms : List Match) (o : Option Match)
    → str_eq m.node.id id ≡ true
    → Continues id (some (better m acc)) ms o
    → Continues id acc (m ∷ ms) o
take_same id m none ms none e h = elim h [ ]
take_same id m (some p) ms none e h = elim h [ ]
take_same id m none ms (some b) e (w, s, i, a) = (w, s, (λ k. i, a))
take_same id m (some p) ms (some b) e h = elim (Bool-cases (improves m p)) [
  | inl up ↦
      let (w, s, i, a) : Continues id (some m) ms (some b) = rw up at h in
      (lift w, s, improves_below m p b up i, (λ k. i, a))
  | inr down ↦
      let (w, s, i, a) : Continues id (some p) ms (some b) = rw down at h in
      (widen w, s, i, (λ k. not_improves_trans m p b down i, a))
]
  where
    widen : (p ≡ b) ⊎ Occurs b ms → (p ≡ b) ⊎ Occurs b (m ∷ ms)
    widen (inl q) = inl q
    widen (inr q) = inr (inr q)

    lift : (m ≡ b) ⊎ Occurs b ms → (p ≡ b) ⊎ Occurs b (m ∷ ms)
    lift w = inr w

abbrev HasId : String → Option Match → Type 0
HasId id none = Unit
HasId id (some p) = str_eq p.node.id id ≡ true

better-HasId :
    (id : String) (m : Match) (acc : Option Match)
    → str_eq m.node.id id ≡ true
    → HasId id acc
    → str_eq (better m acc).node.id id ≡ true
better-HasId id m none e h = e
better-HasId id m (some p) e h = ground arith

best_from-Continues :
    (id : String) (acc : Option Match) (ms : List Match)
    → HasId id acc
    → Continues id acc ms (best_from id acc ms)
best_from-Continues id none [] h = tt
best_from-Continues id (some p) [] h = (inl refl, h, improves_irrefl p, tt)
best_from-Continues id acc (m ∷ ms) h = elim (Bool-cases (str_eq m.node.id id)) [
  | inl same ↦ rw same (
      take_same id m acc ms _ same
        (best_from-Continues id (some (better m acc)) ms (better-HasId id m acc same h)))
  | inr other ↦ rw other (skip_other id m acc ms _ other (best_from-Continues id acc ms h))
]

not-improves-IsAtLeast : (m b : Match) → improves m b ≡ false → IsAtLeast b m
unfolding improves
not-improves-IsAtLeast m b h = ground arith

All-IsAtLeast :
    (id : String) (b : Match) (ms : List Match)
    → All (λ m. str_eq m.node.id id ≡ true → improves m b ≡ false) ms
    → All (λ m. m.node.id ≡ id → IsAtLeast b m) ms
All-IsAtLeast id b [] h = tt
All-IsAtLeast id b (m ∷ ms) h =
    (λ e. not-improves-IsAtLeast m b (h.0 ((eq_iff m.node.id id).1 e)), All-IsAtLeast id b ms h.1)

All-ne : (id : String) (ms : List Match) → HasNoId id ms → All (λ p. p.node.id ≢ id) ms
All-ne id [] h = tt
All-ne id (m ∷ ms) h = (λ e. cc ((eq_iff m.node.id id).1 e), All-ne id ms h.1)

Continues-Describes :
    (id : String) (ms : List Match) (o : Option Match) → Continues id none ms o → Describes id ms o
Continues-Describes id ms none h = All-ne id ms h
Continues-Describes id ms (some b) (w, s, a) = record {
  occurs = w;
  same_node = (eq_iff b.node.id id).0 s;
  beats = All-IsAtLeast id b ms a;
}

-- Of any raw candidates `_resolve_dedupe_candidates` returns one for each node id: no two have the same id, an
-- id that no raw candidate has is absent, and the one returned for an id is a raw candidate of that id such
-- that no raw candidate of the id has a smaller priority, or the same priority and a greater specificity.
pub dedupe-best :
    (raw : List Match)
    → HasUniqueIds (dedupe raw) × ((id : String) → Describes id raw (find id (dedupe raw)))
unfolding dedupe
dedupe-best raw = (
  dedupe_from-HasUniqueIds [] raw tt,
  λ id.
      rw (find-dedupe_from id [] raw)
        (Continues-Describes id raw _ (best_from-Continues id none raw tt)),
)
