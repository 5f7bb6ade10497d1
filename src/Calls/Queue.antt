-- ===== src/Calls/Queue.antt =====
-- The loops over a queue of types in pass 3 of src/java_codebase_rag/graph/build_ast_graph.py: a type is taken from
-- the queue, skipped if it was visited or is not in the tables, and else visited, and the types next to it join the
-- queue. The loop runs on fuel; each turn takes a type, and Reached shows how many may come.
pub mod Reached
use jrag.Base.{
  ℕ, zero, suc, ◌+◌, Bool, true, false, not, List, [], ◌∷◌, ◌++◌, if◌then◌else◌, ◌||◌, length, Text,
  one_of,
}
use jrag.Calls.{Table, has, keep, TypeEntry}

module _ (types : Table TypeEntry) (next : Text → List Text)
    (join : List Text → List Text → List Text → List Text) where
  -- The types visited, in order, from the visited ones and the queue. `join` has the visited types, the queue and
  -- what joins it.
  unfoldable pub visits : ℕ → List Text → List Text → List Text
  unfolding has one_of
  visits zero visited queue = []
  visits (suc fuel) visited [] = []
  visits (suc fuel) visited (t ∷ queue) =
      let skipped = visits fuel visited queue in
      let visiting = t ∷ visits fuel (t ∷ visited) (join (t ∷ visited) queue (next t)) in
      if one_of t visited || not (has t types) then skipped else visiting

module _ (next : Text → List Text) where
  -- No more than all types next to any type join the queue.
  abbrev pub all_next : Table TypeEntry → ℕ
  all_next [] = 0
  all_next ((t, entry) ∷ types) = length (next t) + all_next types

-- Enough fuel for a queue.
abbrev pub enough : (Text → List Text) → Table TypeEntry → List Text → ℕ
enough next types queue = length queue + all_next next types

-- `for sup in …: if sup not in visited: queue.append(sup)`, with the queue taken from its front
unfoldable pub append_unseen : List Text → List Text → List Text → List Text
unfolding keep one_of
append_unseen seen queue new = queue ++ keep (λ t. not (one_of t seen)) new

-- `queue.extend(…)`, with the queue taken from its front
abbrev pub extend_back : List Text → List Text → List Text → List Text
extend_back seen queue new = queue ++ new

-- `queue.extend(…)`, with the queue taken from its end: its last type stands first
unfoldable pub extend_front : List Text → List Text → List Text → List Text
extend_front seen queue [] = queue
extend_front seen queue (t ∷ ts) = extend_front seen (t ∷ queue) ts
