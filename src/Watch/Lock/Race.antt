-- ===== src/Watch/Lock/Race.antt =====
-- What interleaved calls of `ProjectLock` do that whole calls do not.
use jrag.Base.{ℕ, ◌≡◌, ◌≢◌, some, List, [], ◌∷◌, arith, none, false}
use jrag.Watch.Lock.{
  Call, acquire_call, release_call, step, step_at, run, start, is_holder, read_holder, Signal,
}

abbrev a_step : ℕ → ℕ × Call
a_step n = (n, acquire_call)

-- `a` acquires; `a` releases as far as having read its own pid, while `b` has opened the file and gets the
-- flock; `a` unlinks the file that `b` has locked; `b` records its pid, and `c` acquires a new file.
abbrev pub stale_unlink : ℕ → ℕ → ℕ → List (ℕ × Call)
stale_unlink a b c =
    a_step a
    ∷ a_step a
    ∷ a_step a
    ∷ a_step a
    ∷ (a, release_call)
    ∷ a_step b
    ∷ (a, release_call)
    ∷ a_step b
    ∷ (a, release_call)
    ∷ a_step b
    ∷ a_step c
    ∷ a_step c
    ∷ a_step c
    ∷ a_step c
    ∷ []

-- For any three processes there is an interleaving after which two of them hold the project lock,
-- each with the flock of a file of its own: `release` of the first unlinks the file that the second has locked.
pub stale_unlink_two_holders :
    (a b c : ℕ)
    → a ≢ b
    → a ≢ c
    → b ≢ c
    → (((run (stale_unlink a b c) start).process b).fh ≡ some 0)
      × (((run (stale_unlink a b c) start).process c).fh ≡ some 1)
unfolding run step step_at
stale_unlink_two_holders a b c h k l = ground arith

-- `b` finds no file; `a` acquires; `b` goes on with the "w+" that it fell back to.
abbrev pub late_creation : ℕ → ℕ → List (ℕ × Call)
late_creation a b = a_step b ∷ a_step a ∷ a_step a ∷ a_step a ∷ a_step a ∷ a_step b ∷ []

-- For any two processes there is an interleaving after which one holds the project lock and the pid
-- file is empty, so that `is_holder` is false for the holder and `read_holder` gives `none`, whoever is alive:
-- the other found no file, and its fallback to "w+" empties the one that was made since.
pub late_creation_hides_holder :
    (a b : ℕ) (kill : ℕ → Signal)
    → a ≢ b
    → (((run (late_creation a b) start).process a).fh ≡ some 0)
      × (is_holder a (run (late_creation a b) start).world ≡ false)
      × (read_holder kill (run (late_creation a b) start).world ≡ none)
unfolding run step step_at is_holder read_holder
late_creation_hides_holder a b kill h = ground arith
