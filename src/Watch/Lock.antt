-- ===== src/Watch/Lock.antt =====
-- `ProjectLock` of src/java_codebase_rag/watch/lock.py: a pid file and an advisory `flock` on it.
-- Each method is the sequence of its system calls. A process is named by its pid and has one lock
-- object; `step` makes one system call of the method that it is in, so that a schedule of steps is
-- an interleaving. The four calls that record the pid (seek, truncate, write, flush) are one step.
pub mod Exclusion
pub mod Sequential
pub mod Race
pub mod Uninterrupted
use jrag.Base.{
  ℕ, suc, ◌+◌, Bool, true, false, Option, none, some, List, [], ◌∷◌, ◌==◌, if◌then◌else◌,
}

-- What the text of a pid file reads as, stripped: nothing, not a number, or a number.
pub data Contents : Type 0 where
  blank junk : Contents
  number : ℕ → Contents

-- The file system as far as the lock sees it. `name` is the inode at `pid_path`, `owner` the process
-- whose open handle has the exclusive flock of an inode, and inodes from `next` on are unused.
pub record World : Type 0 where
  pub name : Option ℕ
  pub next : ℕ
  pub text : ℕ → Contents
  pub owner : ℕ → Option ℕ

abbrev pub update {ℓ} : {A : Type ℓ} → (ℕ → A) → ℕ → A → ℕ → A
update f k v j = if k == j then v else f j

abbrev parse : Contents → Option ℕ
parse blank = none
parse junk = none
parse (number n) = some n

abbrev read_at : (ℕ → Contents) → Option ℕ → Option ℕ
read_at text none = none
read_at text (some i) = parse (text i)

-- `_read_pid_file`: the pid on disk; `none` for a missing, an empty and an unreadable file.
pub read_pid_file : World → Option ℕ
read_pid_file w = read_at w.text w.name

-- How a call of `acquire` or `release` ended: it returned, or it raised `LockHeldError(pid)`.
pub data Outcome : Type 0 where
  returned : Outcome
  raised : Option ℕ → Outcome

-- Where a process stands in a method. `missing`: `open(…, "r+")` found no file. `opened`: it has a
-- handle on the inode. `refused`: the flock blocked. `locked`: the flock is granted.
-- `closed`: `release` has closed the handle. `matched`: it has read its own pid.
pub data Point : Type 0 where
  rest : Outcome → Point
  missing refused closed matched : Point
  opened locked : ℕ → Point

-- One process: `self._fh`, as the inode that the handle is open on, and the point.
pub record Process : Type 0 where
  pub fh : Option ℕ
  pub point : Point

pub record System : Type 0 where
  pub world : World
  pub process : ℕ → Process

abbrev pub set_process : System → ℕ → Process → System
set_process s me p = record s { process = update s.process me p }

abbrev pub set_both : World → System → ℕ → Process → System
set_both w s me p = record { world = w; process = update s.process me p }

abbrev pub unlock : World → Option ℕ → World
unlock w none = w
unlock w (some i) = record w { owner = update w.owner i none }

-- `open(self.pid_path, "w+")`: creates the file, or empties the one that is there by now.
abbrev open_truncating : World → Option ℕ → ℕ × World
open_truncating w none =
    (w.next, record w { name = some w.next; next = suc w.next; text = update w.text w.next blank })
open_truncating w (some i) = (i, record w { text = update w.text i blank })

-- `fcntl.flock(…, LOCK_EX | LOCK_NB)`.
abbrev flock : ℕ → World → ℕ → Option ℕ → Point × World
flock me w i none = (locked i, record w { owner = update w.owner i (some me) })
flock me w i (some _) = (refused, w)

-- Records the pid. The handle that `self._fh` had before is dropped, and so is its flock.
abbrev record_pid : ℕ → World → Option ℕ → ℕ → World
record_pid me w old i = let w' = unlock w old in record w' { text = update w'.text i (number me) }

abbrev pub is_pid : ℕ → Option ℕ → Bool
is_pid me none = false
is_pid me (some n) = n == me

-- What a process at rest calls next.
pub data Call : Type 0 where
  acquire_call release_call : Call

abbrev open_existing : Option ℕ → Point
open_existing none = missing
open_existing (some i) = opened i

-- One system call of the process `me`, whose `_fh` and point are given.
unfoldable pub step_at : ℕ → Call → System → Option ℕ → Point → System
unfolding read_pid_file
step_at me acquire_call s fh (rest o) =
    set_process s me (record { fh = fh; point = open_existing s.world.name })
step_at me c s fh missing =
    let (i, w) = open_truncating s.world s.world.name in
    set_both w s me (record { fh = fh; point = opened i })
step_at me c s fh (opened i) =
    let (p, w) = flock me s.world i (s.world.owner i) in
    set_both w s me (record { fh = fh; point = p })
step_at me c s fh refused =
    set_process s me (record { fh = fh; point = rest (raised (read_pid_file s.world)) })
step_at me c s fh (locked i) =
    set_both (record_pid me s.world fh i) s me (record { fh = some i; point = rest returned })
step_at me release_call s fh (rest o) =
    set_both (unlock s.world fh) s me (record { fh = none; point = closed })
step_at me c s fh closed = set_process s me (record {
  fh = fh;
  point = if is_pid me (read_pid_file s.world) then matched else rest returned;
})
step_at me c s fh matched =
    set_both (record s.world { name = none }) s me (record { fh = fh; point = rest returned })

unfoldable pub step : ℕ → Call → System → System
step me c s = step_at me c s (s.process me).fh (s.process me).point

-- An interleaving: who makes the next system call, and which method it calls if it is at rest.
unfoldable pub run : List (ℕ × Call) → System → System
run [] s = s
run ((me, c) ∷ schedule) s = run schedule (step me c s)

-- No pid file, no lock, every process at rest.
abbrev pub start : System
start = record {
  world = record { name = none; next = 0; text = λ _. blank; owner = λ _. none };
  process = λ _. record { fh = none; point = rest returned };
}

-- `acquire` with no other process in between.
pub acquire : ℕ → System → System
unfolding read_pid_file
acquire me s =
    let fh = (s.process me).fh in
    let (i, w) : ℕ × World = elim s.world.name [
      | none ↦ open_truncating s.world none
      | some i ↦ (i, s.world)
    ] in
    let (p, w') = flock me w i (w.owner i) in
    elim p [
      | locked i ↦
          set_both (record_pid me w' fh i) s me (record { fh = some i; point = rest returned })
      | _ ↦ set_both w' s me (record { fh = fh; point = rest (raised (read_pid_file w')) })
    ]

-- `release` with no other process in between.
pub release : ℕ → System → System
unfolding read_pid_file
release me s =
    let w = unlock s.world (s.process me).fh in
    let p : Process = record { fh = none; point = rest returned } in
    if is_pid me (read_pid_file w)
    then set_both (record w { name = none }) s me p
    else set_both w s me p

abbrev blocked : Option ℕ → Bool
blocked none = false
blocked (some _) = true

abbrev probe : (ℕ → Option ℕ) → Option ℕ → Bool
probe owner none = false
probe owner (some i) = blocked (owner i)

-- `is_holder`: a probe handle on the file is refused the flock, and the file names us. The flock
-- that an unhindered probe gets is given back at once.
pub is_holder : ℕ → World → Bool
unfolding read_pid_file
is_holder me w = if probe w.owner w.name then is_pid me (read_pid_file w) else false

-- What `os.kill(pid, 0)` says of a pid.
pub data Signal : Type 0 where
  sent no_process no_permission : Signal

abbrev if_alive : ℕ → Signal → Option ℕ
if_alive n sent = some n
if_alive n no_process = none
if_alive n no_permission = some n

abbrev holder_at : (ℕ → Signal) → Option ℕ → Option ℕ
holder_at kill none = none
holder_at kill (some n) = if_alive n (kill n)

-- `read_holder`, over the answers of `os.kill`.
pub read_holder : (ℕ → Signal) → World → Option ℕ
unfolding read_pid_file
read_holder kill w = holder_at kill (read_pid_file w)
