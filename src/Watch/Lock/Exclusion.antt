-- ===== src/Watch/Lock/Exclusion.antt =====
-- `ProjectLock` under every interleaving of system calls.
use jrag.Base.{ℕ, ◌≡◌, ◌≢◌, ◌⊎◌, inl, refl, some, List, [], ◌∷◌, arith}
use jrag.Watch.Lock.{
  Process, System, Call, acquire_call, release_call, Point, rest, missing, refused, closed, matched,
  opened, locked, step_at, step, run, start,
}

-- An open handle of a process on the inode `i` with the flock: `_fh`, or the local of `acquire`.
abbrev Holds : Process → ℕ → Type 0
Holds p i = (p.fh ≡ some i) ⊎ (p.point ≡ locked i)

-- A process that has a handle with the flock is the owner of that inode, and its two handles are on
-- different inodes.
pub record IsSound (s : System) : Type 0 where
  pub owned : (n i : ℕ) → Holds (s.process n) i → s.world.owner i ≡ some n
  pub apart : (n i : ℕ) → (s.process n).fh ≡ some i → (s.process n).point ≢ locked i

pub start-IsSound : IsSound start
start-IsSound = record { owned = λ n i h. ground arith; apart = λ n i h. ground arith }

step_owned :
    (me : ℕ) (c : Call) (s : System) (p : Point)
    → (s.process me).point ≡ p
    → IsSound s
    → (n i : ℕ) → Holds ((step_at me c s (s.process me).fh p).process n) i
    → (step_at me c s (s.process me).fh p).world.owner i ≡ some n
unfolding step_at
step_owned me acquire_call s (rest o) e v n i h = grind (arith, v.owned)
step_owned me release_call s (rest o) e v n i h = ground (arith, v.owned n i, v.owned me i)
step_owned me c s missing e v n i h = grind (arith, v.owned)
step_owned me c s refused e v n i h = grind (arith, v.owned)
step_owned me c s closed e v n i h = grind (arith, v.owned)
step_owned me c s matched e v n i h = grind (arith, v.owned)
step_owned me c s (opened j) e v n i h = ground (arith, v.owned n i, v.owned me i)
step_owned me c s (locked j) e v n i h =
    ground (arith, v.owned n i, v.owned me i, v.owned me j, v.apart me i, v.apart me j)

step_apart :
    (me : ℕ) (c : Call) (s : System) (p : Point)
    → (s.process me).point ≡ p
    → IsSound s
    → (n i : ℕ) → ((step_at me c s (s.process me).fh p).process n).fh ≡ some i
    → ((step_at me c s (s.process me).fh p).process n).point ≢ locked i
unfolding step_at
step_apart me acquire_call s (rest o) e v n i h = ground (arith, v.apart n i)
step_apart me release_call s (rest o) e v n i h = ground (arith, v.apart n i)
step_apart me c s (opened j) e v n i h = ground (arith, v.apart n i, v.owned me i)
step_apart me c s _ e v n i h = ground (arith, v.apart n i)

pub step-IsSound : (me : ℕ) (c : Call) (s : System) → IsSound s → IsSound (step me c s)
unfolding step
step-IsSound me c s v = record {
  owned = step_owned me c s (s.process me).point refl v;
  apart = step_apart me c s (s.process me).point refl v;
}

run-IsSound : (schedule : List (ℕ × Call)) (s : System) → IsSound s → IsSound (run schedule s)
unfolding run
run-IsSound [] s v = v
run-IsSound ((me, c) ∷ schedule) s v = run-IsSound schedule (step me c s) (step-IsSound me c s v)

-- After any interleaving of the system calls of any number of processes that start with no pid file,
-- two processes whose `_fh` is a handle on the same pid file (inode) are one process.
pub run_exclusive :
    (schedule : List (ℕ × Call)) (n m i : ℕ)
    → ((run schedule start).process n).fh ≡ some i
    → ((run schedule start).process m).fh ≡ some i
    → n ≡ m
run_exclusive schedule n m i h k =
    let v = run-IsSound schedule start start-IsSound in
    ground (arith, v.owned n i (inl h), v.owned m i (inl k))
