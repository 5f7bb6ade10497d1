-- ===== src/Watch/Lock/Uninterrupted.antt =====
-- The system calls of a method, made with no other process in between, are the whole call.
use jrag.Base.{
  ℕ, zero, suc, ◌≡◌, refl, some, none, List, [], ◌∷◌, arith, Option, Option-cases, inl, inr, Bool,
  true, false,
}
use jrag.Watch.Lock.{
  System, Call, acquire_call, release_call, Outcome, rest, step, step_at, run, acquire, release,
  is_pid, unlock, read_pid_file,
}

-- Equal file systems, and every process the same.
pub record Same (s t : System) : Type 0 where
  pub name : s.world.name ≡ t.world.name
  pub next : s.world.next ≡ t.world.next
  pub text : (i : ℕ) → s.world.text i ≡ t.world.text i
  pub owner : (i : ℕ) → s.world.owner i ≡ t.world.owner i
  pub process : (k : ℕ) → s.process k ≡ t.process k

abbrev pub times : ℕ → ℕ → Call → List (ℕ × Call)
times zero me c = []
times (suc n) me c = (me, c) ∷ times n me c

-- How many system calls `acquire` makes: one more where it has to create the file.
abbrev pub acquire_count : Option ℕ → ℕ
acquire_count none = 4
acquire_count (some _) = 3

-- And `release`: one more where it unlinks the file.
abbrev pub release_count : Bool → ℕ
release_count true = 3
release_count false = 2

module _ (me : ℕ) (s : System) (o : Outcome) (at_rest : (s.process me).point ≡ rest o) where
  acquire_any :
      (name : Option ℕ)
      → s.world.name ≡ name
      → Same (run (times (acquire_count name) me acquire_call) s) (acquire me s)
  unfolding run step step_at acquire
  acquire_any none e = elim (Option-cases (s.world.owner s.world.next)) [
    | inl free ↦ ground arith
    | inr (m, held) ↦ ground arith
  ]
  acquire_any (some j) e = elim (Option-cases (s.world.owner j)) [
    | inl free ↦ ground arith
    | inr (m, held) ↦ ground arith
  ]

  release_any :
      (b : Bool)
      → is_pid me (read_pid_file (unlock s.world (s.process me).fh)) ≡ b
      → Same (run (times (release_count b) me release_call) s) (release me s)
  unfolding run step step_at release
  release_any true e = ground arith
  release_any false e = ground arith

  -- For a process at rest, the system calls of `acquire` made in a row (four where the file is missing,
  -- three where it is there) leave the system as the whole call does; and so do those of `release` (three
  -- where the file names the process after its handle is closed, two where it does not).
  pub run_alone :
      Same (run (times (acquire_count s.world.name) me acquire_call) s) (acquire me s)
      × Same
          (run
            (times
              (release_count (is_pid me (read_pid_file (unlock s.world (s.process me).fh))))
              me
              release_call)
            s)
          (release me s)
  run_alone = (acquire_any s.world.name refl, release_any _ refl)
