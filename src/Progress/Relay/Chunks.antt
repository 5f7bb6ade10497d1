-- ===== src/Progress/Relay/Chunks.antt =====
-- How `ProgressRelay` cuts its bytes into lines: src/java_codebase_rag/progress.py, `feed` and `flush`.
use jrag.Base.{
  ℕ, zero, suc, ◌≤◌, ◌<◌, Option, none, some, List, [], ◌∷◌, ◌++◌, ◌≡◌, refl, sym, ap, ◌∙◌, length,
  split_line, cut, join, Agrees, split_line-cut, cut-append, append_assoc, append-nil, arith,
}
use jrag.Progress.Relay.{Setup, Memory, Relay, route_line, drain, feed, flush}

abbrev pub route_lines : Setup → Memory → List (List ℕ) → Memory
route_lines cfg m [] = m
route_lines cfg m (l ∷ ls) = route_lines cfg (route_line cfg m l) ls

abbrev pub feed_all : Setup → Relay → List (List ℕ) → Relay
feed_all cfg s [] = s
feed_all cfg s (c ∷ cs) = feed_all cfg (feed cfg s c) cs

-- All lines, with the last one that has no newline.
abbrev last_line : List ℕ → List (List ℕ)
last_line [] = []
last_line (c ∷ cs) = (c ∷ cs) ∷ []

abbrev pub all_lines : List ℕ → List (List ℕ)
all_lines b = (cut b).0 ++ last_line (cut b).1

route_lines-append :
    (cfg : Setup) (m : Memory) (k l : List (List ℕ))
    → route_lines cfg m (k ++ l) ≡ route_lines cfg (route_lines cfg m k) l
route_lines-append cfg m [] l = refl
route_lines-append cfg m (x ∷ k) l = route_lines-append cfg (route_line cfg m x) k l

drained : Setup → Memory → List ℕ → Relay
drained cfg m b = record { buf = (cut b).1; memory = route_lines cfg m (cut b).0 }

drain-step :
    (n : ℕ) (cfg : Setup) (m : Memory) (b : List ℕ) (o : Option (List ℕ × List ℕ))
    → Agrees b o
    → ((k : Memory) (t : List ℕ) → length t < length b → drain n cfg k t ≡ drained cfg k t)
    → elim o [
      | none ↦ record { buf = b; memory = m }
      | some (l, t) ↦ drain n cfg (route_line cfg m l) t
    ]
      ≡ drained cfg m b
unfolding drained
drain-step n cfg m b none a ih = ground arith
drain-step n cfg m b (some (l, t)) a ih = ih (route_line cfg m l) t a.1 ∙ ground arith

drain-cut :
    (n : ℕ) (cfg : Setup) (m : Memory) (b : List ℕ)
    → length b ≤ n
    → drain n cfg m b ≡ drained cfg m b
unfolding drain drained cut
drain-cut zero cfg m [] h = refl
drain-cut zero cfg m (c ∷ cs) h = ground arith
drain-cut (suc n) cfg m b h =
    drain-step n cfg m b (split_line b) (split_line-cut b)
      (λ k t lt. drain-cut n cfg k t (omega arith))

feed_lem :
    (cfg : Setup) (s : Relay) (chunk : List ℕ)
    → feed cfg s chunk ≡ drained cfg s.memory (s.buf ++ chunk)
unfolding feed
feed_lem cfg s chunk =
    drain-cut (length (s.buf ++ chunk)) cfg s.memory (s.buf ++ chunk) (omega arith)

feed-drained :
    (cfg : Setup) (m : Memory) (b c : List ℕ)
    → feed cfg (drained cfg m b) c ≡ drained cfg m (b ++ c)
unfolding drained
feed-drained cfg m b c =
    feed_lem cfg (drained cfg m b) c
    ∙ ground (arith, cut-append b c, route_lines-append cfg m (cut b).0 (cut ((cut b).1 ++ c)).0)

feed_all-drained :
    (cfg : Setup) (m : Memory) (b : List ℕ) (chunks : List (List ℕ))
    → feed_all cfg (drained cfg m b) chunks ≡ drained cfg m (b ++ join chunks)
feed_all-drained cfg m b [] = ap (drained cfg m) (sym (append-nil b))
feed_all-drained cfg m b (c ∷ cs) =
    ap (λ s. feed_all cfg s cs) (feed-drained cfg m b c)
    ∙ feed_all-drained cfg m (b ++ c) cs
    ∙ ap (drained cfg m) (append_assoc b c (join cs))

flush-tail :
    (cfg : Setup) (m : Memory) (ls : List (List ℕ)) (t : List ℕ)
    → flush cfg (record { buf = t; memory = route_lines cfg m ls })
      ≡ record { buf = []; memory = route_lines cfg m (ls ++ last_line t) }
unfolding flush
flush-tail cfg m ls [] = ground (arith, append-nil ls)
flush-tail cfg m ls (c ∷ cs) = ground (arith, route_lines-append cfg m ls ((c ∷ cs) ∷ []))

-- However the bytes of a stream are cut into chunks, a relay that starts empty, is fed them and is flushed has
-- routed exactly the lines of the stream, in order, and last what stands behind its last newline, if anything; its
-- buffer is then empty.
pub feed_all-flush :
    (cfg : Setup) (m : Memory) (chunks : List (List ℕ))
    → flush cfg (feed_all cfg (record { buf = []; memory = m }) chunks)
      ≡ record { buf = []; memory = route_lines cfg m (all_lines (join chunks)) }
unfolding flush drained cut
feed_all-flush cfg m chunks =
    ap (flush cfg) (feed_all-drained cfg m [] chunks)
    ∙ flush-tail cfg m (cut (join chunks)).0 (cut (join chunks)).1
