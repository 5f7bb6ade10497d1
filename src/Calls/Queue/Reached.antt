-- ===== src/Calls/Queue/Reached.antt =====
-- The loops over a queue of types in pass 3 of src/java_codebase_rag/graph/build_ast_graph.py end, and they visit the
-- types that can be reached.
use jrag.Base.{
  ℕ, zero, suc, ◌+◌, ◌≤◌, Bool, true, false, not, List, [], ◌∷◌, ◌≡◌, ◌↔◌, refl, ap, subst, arith,
  if◌then◌else◌, ◌&&◌, ◌||◌, Bool-cases, inl, inr, length, length-append, Text, same_text,
  same_text_refl, same_text_eq, one_of, one_of-append, one_of_same,
}
use jrag.Calls.{Table, has, keep, TypeEntry}
use jrag.Calls.Queue.{visits, all_next, enough, append_unseen, extend_back, extend_front}

-- What joins a queue is what is new, where it was not visited.
pub record IsJoin (join : List Text → List Text → List Text → List Text) : Type 0 where
  pub keeps :
      (u : Text) (seen queue new : List Text)
      → (one_of u queue || (one_of u new && not (one_of u seen))) ≡ true
      → one_of u (join seen queue new) ≡ true
  pub only :
      (u : Text) (seen queue new : List Text)
      → one_of u (join seen queue new) ≡ true
      → (one_of u queue || one_of u new) ≡ true
  pub size : (seen queue new : List Text) → length (join seen queue new) ≤ length queue + length new

one_of-keep :
    (u : Text) (seen ts : List Text)
    → one_of u (keep (λ t. not (one_of t seen)) ts) ≡ (one_of u ts && not (one_of u seen))
unfolding one_of keep
one_of-keep u seen [] = refl
one_of-keep u seen (t ∷ ts) = ground (arith, one_of-keep u seen ts, one_of_same t u seen)

length-keep : (test : Text → Bool) (ts : List Text) → length (keep test ts) ≤ length ts
unfolding keep
length-keep test [] = omega arith
length-keep test (t ∷ ts) = ground (arith, length-keep test ts)

pub append_unseen-IsJoin : IsJoin append_unseen
unfolding append_unseen
append_unseen-IsJoin =
    let new_part = λ (seen new : List Text). keep (λ t. not (one_of t seen)) new in
    record {
      keeps = λ u seen queue new h.
          ground (arith, one_of-append u queue (new_part seen new), one_of-keep u seen new);
      only = λ u seen queue new h.
          ground (arith, one_of-append u queue (new_part seen new), one_of-keep u seen new);
      size = λ seen queue new. omega (
        arith,
        length-append queue (new_part seen new),
        length-keep (λ t. not (one_of t seen)) new,
      );
    }

pub extend_back-IsJoin : IsJoin extend_back
extend_back-IsJoin = record {
  keeps = λ u seen queue new h. ground (arith, one_of-append u queue new);
  only = λ u seen queue new h. ground (arith, one_of-append u queue new);
  size = λ seen queue new. omega (arith, length-append queue new);
}

one_of-extend_front :
    (u : Text) (seen queue new : List Text)
    → one_of u (extend_front seen queue new) ≡ (one_of u queue || one_of u new)
unfolding extend_front one_of
one_of-extend_front u seen queue [] = ground arith
one_of-extend_front u seen queue (t ∷ ts) =
    ground (arith, one_of-extend_front u seen (t ∷ queue) ts)

length-extend_front :
    (seen queue new : List Text) → length (extend_front seen queue new) ≡ length queue + length new
unfolding extend_front
length-extend_front seen queue [] = omega arith
length-extend_front seen queue (t ∷ ts) = omega (arith, length-extend_front seen (t ∷ queue) ts)

pub extend_front-IsJoin : IsJoin extend_front
extend_front-IsJoin = record {
  keeps = λ u seen queue new h. ground (arith, one_of-extend_front u seen queue new);
  only = λ u seen queue new h. ground (arith, one_of-extend_front u seen queue new);
  size = λ seen queue new. omega (arith, length-extend_front seen queue new);
}

module _ (types : Table TypeEntry) (next : Text → List Text)
    (join : List Text → List Text → List Text → List Text) (j : IsJoin join) where
  -- What can be reached from the types of a queue, in the tables.
  pub data Reach (queue : List Text) : Text → Type 0 where
    here : {t : Text} → one_of t queue ≡ true → has t types ≡ true → Reach queue t
    step :
        {t u : Text} → Reach queue t → one_of u (next t) ≡ true → has u types ≡ true → Reach queue u

  -- What the types that are not visited can still put into the queue.
  abbrev left : Table TypeEntry → List Text → ℕ
  left [] visited = 0
  left ((t, entry) ∷ table) visited =
      (if one_of t visited then 0 else length (next t)) + left table visited

  left-le :
      (t : Text) (table : Table TypeEntry) (visited : List Text)
      → left table (t ∷ visited) ≤ left table visited
  unfolding one_of
  left-le t [] visited = omega arith
  left-le t ((k, entry) ∷ table) visited = ground (arith, left-le t table visited)

  left-visit :
      (t : Text) (table : Table TypeEntry) (visited : List Text)
      → has t table ≡ true
      → one_of t visited ≡ false
      → left table (t ∷ visited) + length (next t) ≤ left table visited
  unfolding one_of has
  left-visit t [] visited h v = ground arith
  left-visit t ((k, entry) ∷ table) visited h v = elim (Bool-cases (same_text k t)) [
    | inl e ↦
        let n = ap (λ u. length (next u)) (same_text_eq k t e) in
        ground (
          arith,
          n,
          left-le t table visited,
          one_of_same k t visited e,
          same_text_refl t,
          ap (λ u. same_text t u) (same_text_eq k t e),
        )
    | inr e ↦ ground (arith, left-visit t table visited, left-le t table visited)
  ]

  left-empty : (table : Table TypeEntry) → left table [] ≡ all_next next table
  unfolding one_of
  left-empty [] = refl
  left-empty ((t, entry) ∷ table) = ground (arith, left-empty table)

  visits-Reach :
      (queue0 : List Text) (fuel : ℕ) (visited queue : List Text)
      → ((t : Text) → one_of t queue ≡ true → has t types ≡ true → Reach queue0 t)
      → (u : Text) → one_of u (visits types next join fuel visited queue) ≡ true
      → Reach queue0 u
  unfolding visits one_of
  visits-Reach queue0 zero visited queue h u m = ground arith
  visits-Reach queue0 (suc fuel) visited [] h u m = ground arith
  visits-Reach queue0 (suc fuel) visited (t ∷ queue) h u m =
      elim (Bool-cases (one_of t visited || not (has t types))) [
        | inl e ↦
            visits-Reach queue0 fuel visited queue (λ v q k. h v (ground (arith, q)) k) u
              (ground (arith, m, e))
        | inr e ↦
            let more = join (t ∷ visited) queue (next t) in
            let r = h t (ground (arith, same_text_refl t)) (ground (arith, e)) in
            elim (Bool-cases (same_text t u)) [
              | inl s ↦ subst (λ w. Reach queue0 w) (same_text_eq t u s) r
              | inr s ↦
                  visits-Reach queue0 fuel (t ∷ visited) more
                    (λ v q k. elim (Bool-cases (one_of v queue)) [
                      | inl a ↦ h v (ground (arith, a)) k
                      | inr a ↦
                          step r (ground (arith, a, j.only v (t ∷ visited) queue (next t) q)) k
                    ])
                    u (ground (arith, m, e))
            ]
      ]

  visits-Closed :
      (fuel : ℕ) (visited queue : List Text)
      → length queue + left types visited ≤ fuel
      → ((t : Text)
          → one_of t queue ≡ true
          → has t types ≡ true
          → (one_of t (visits types next join fuel visited queue) || one_of t visited) ≡ true)
        × ((t u : Text)
            → one_of t (visits types next join fuel visited queue) ≡ true
            → one_of u (next t) ≡ true
            → has u types ≡ true
            → (one_of u (visits types next join fuel visited queue) || one_of u visited) ≡ true)
  unfolding visits one_of
  visits-Closed zero visited [] n = (λ t m k. ground arith, λ t u m k l. ground arith)
  visits-Closed zero visited (t ∷ queue) n = ground arith
  visits-Closed (suc fuel) visited [] n = (λ t m k. ground arith, λ t u m k l. ground arith)
  visits-Closed (suc fuel) visited (t ∷ queue) n =
      elim (Bool-cases (one_of t visited || not (has t types))) [
        | inl e ↦
            let (covers, closed) = visits-Closed fuel visited queue (omega (arith, n)) in
            (
              λ u m k. elim (Bool-cases (same_text t u)) [
                | inl s ↦ ground (
                  arith,
                  e,
                  one_of_same t u visited s,
                  ap (λ w. has w types) (same_text_eq t u s),
                )
                | inr s ↦ ground (arith, e, covers u)
              ],
              λ v u m l k. ground (arith, e, closed v u),
            )
        | inr e ↦
            let more = join (t ∷ visited) queue (next t) in
            let known : has t types ≡ true = ground (arith, e) in
            let fresh : one_of t visited ≡ false = ground (arith, e) in
            let size = left-visit t types visited known fresh in
            let (covers, closed) =
              visits-Closed fuel (t ∷ visited) more
                (omega (arith, n, size, j.size (t ∷ visited) queue (next t))) in
            (
              λ u m k. ground (arith, e, covers u, j.keeps u (t ∷ visited) queue (next t)),
              λ v u m l k. elim (Bool-cases (same_text t v)) [
                | inl s ↦ ground (
                  arith,
                  e,
                  covers u,
                  j.keeps u (t ∷ visited) queue (next t),
                  ap (λ w. one_of u (next w)) (same_text_eq t v s),
                )
                | inr s ↦ ground (arith, e, closed v u)
              ],
            )
      ]

  Reach-visits :
      (queue : List Text) (u : Text)
      → Reach queue u
      → one_of u (visits types next join (enough next types queue) [] queue) ≡ true
  unfolding one_of
  Reach-visits queue u (here m k) = ground (
    arith,
    (visits-Closed (enough next types queue) [] queue (omega (arith, left-empty types))).0 u,
  )
  Reach-visits queue u (step {t} r m k) = ground (
    arith,
    Reach-visits queue t r,
    (visits-Closed (enough next types queue) [] queue (omega (arith, left-empty types))).1 t u,
  )

  -- The loop visits exactly the types that can be reached from the queue.
  pub visits_iff :
      (queue : List Text) (u : Text)
      → (one_of u (visits types next join (enough next types queue) [] queue) ≡ true)
        ↔ Reach queue u
  visits_iff queue u = (
    visits-Reach queue (enough next types queue) [] queue (λ t m k. here m k) u,
    Reach-visits queue u,
  )
