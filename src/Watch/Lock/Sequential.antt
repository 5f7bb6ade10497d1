-- ===== src/Watch/Lock/Sequential.antt =====
-- `ProjectLock` where the calls of its methods do not overlap: it is a mutex with the holder's name.
use jrag.Base.{
  ℕ, ◌≡◌, refl, ◌≢◌, Bool, true, false, Option, none, some, List, [], ◌∷◌, arith, ◌==◌, Bool-cases,
  inl, inr, ==_iff, if◌then◌else◌,
}
use mathlib.Core.Path.{ap₂}
use jrag.Watch.Lock.{
  number, System, Call, acquire_call, release_call, Outcome, returned, raised, rest, Point, acquire,
  release, is_holder, start, Signal, no_process, read_holder,
}

abbrev at_rest : Point → Bool
at_rest (rest o) = true
at_rest _ = false

-- How the last call of a process ended.
abbrev outcome_at : Point → Option Outcome
outcome_at (rest o) = some o
outcome_at _ = none

abbrev pub outcome : System → ℕ → Option Outcome
outcome s n = outcome_at (s.process n).point

-- Nobody holds the lock and there is no pid file.
pub record IsFree (s : System) : Type 0 where
  pub resting : (k : ℕ) → at_rest (s.process k).point ≡ true
  pub no_file : s.world.name ≡ none
  pub no_handle : (k : ℕ) → (s.process k).fh ≡ none
  pub no_owner : (j : ℕ) → s.world.owner j ≡ none

-- `n` holds the lock, by a handle on the inode `i`, and the file names it.
pub record IsHeld (n i : ℕ) (s : System) : Type 0 where
  pub resting : (k : ℕ) → at_rest (s.process k).point ≡ true
  pub file : s.world.name ≡ some i
  pub pid : s.world.text i ≡ number n
  pub handle : (s.process n).fh ≡ some i
  pub no_handle : (k : ℕ) → k ≢ n → (s.process k).fh ≡ none
  pub owner : s.world.owner i ≡ some n
  pub no_owner : (j : ℕ) → j ≢ i → s.world.owner j ≡ none

start-IsFree : IsFree start
start-IsFree = record {
  resting = λ k. refl;
  no_file = refl;
  no_handle = λ k. refl;
  no_owner = λ j. refl;
}

acquire-IsHeld_new : (n : ℕ) (s : System) → IsFree s → IsHeld n s.world.next (acquire n s)
unfolding acquire
acquire-IsHeld_new n s v =
    let e = v.no_file in
    let u = v.no_owner s.world.next in
    record {
      resting = λ k. ground (arith, v.resting k);
      file = ground arith;
      pid = ground (arith, v.no_handle n);
      handle = ground arith;
      no_handle = λ k h. ground (arith, v.no_handle k);
      owner = ground (arith, v.no_handle n);
      no_owner = λ j h. ground (arith, v.no_handle n, v.no_owner j);
    }

acquire-IsHeld : (n m i : ℕ) (s : System) → IsHeld m i s → IsHeld m i (acquire n s)
unfolding acquire
acquire-IsHeld n m i s v =
    let e = v.file in
    let u = v.owner in
    record {
      resting = λ k. ground (arith, v.resting k);
      file = ground arith;
      pid = ground (arith, v.pid);
      handle = ground (arith, v.handle);
      no_handle = λ k h. ground (arith, v.no_handle k);
      owner = ground arith;
      no_owner = λ j h. ground (arith, v.no_owner j);
    }

release-IsFree : (n : ℕ) (s : System) → IsFree s → IsFree (release n s)
unfolding release
release-IsFree n s v =
    let e = v.no_file in
    let u = v.no_handle n in
    record {
      resting = λ k. ground (arith, v.resting k);
      no_file = ground arith;
      no_handle = λ k. ground (arith, v.no_handle k);
      no_owner = λ j. ground (arith, v.no_owner j);
    }

release-IsFree_holder : (n i : ℕ) (s : System) → IsHeld n i s → IsFree (release n s)
unfolding release
release-IsFree_holder n i s v =
    let e = v.file in
    let u = v.handle in
    let t = v.pid in
    record {
      resting = λ k. ground (arith, v.resting k);
      no_file = ground arith;
      no_handle = λ k. ground (arith, v.no_handle k);
      no_owner = λ j. ground (arith, v.no_owner j);
    }

release-IsHeld : (n m i : ℕ) (s : System) → n ≢ m → IsHeld m i s → IsHeld m i (release n s)
unfolding release
release-IsHeld n m i s ne v =
    let e = v.file in
    let u = v.no_handle n ne in
    let t = v.pid in
    record {
      resting = λ k. ground (arith, v.resting k);
      file = ground arith;
      pid = ground arith;
      handle = ground (arith, v.handle);
      no_handle = λ k h. ground (arith, v.no_handle k);
      owner = ground (arith, v.owner);
      no_owner = λ j h. ground (arith, v.no_owner j);
    }

-- What the methods promise: a mutex that knows its holder.
abbrev pub mutex_step : ℕ → Call → Option ℕ → Option ℕ
mutex_step n acquire_call none = some n
mutex_step n acquire_call (some m) = some m
mutex_step n release_call none = none
mutex_step n release_call (some m) = if n == m then none else some m

abbrev pub mutex_outcome : Call → Option ℕ → Outcome
mutex_outcome acquire_call (some m) = raised (some m)
mutex_outcome _ _ = returned

abbrev pub call : ℕ → Call → System → System
call n acquire_call s = acquire n s
call n release_call s = release n s

-- The state of the mutex that a system stands for.
abbrev pub Shows : Option ℕ → System → Type 0
Shows none s = IsFree s
Shows (some m) s = (i : ℕ) × IsHeld m i s

call-Shows :
    (n : ℕ) (c : Call) (h : Option ℕ) (s : System)
    → Shows h s
    → Shows (mutex_step n c h) (call n c s)
call-Shows n acquire_call none s v = (s.world.next, acquire-IsHeld_new n s v)
call-Shows n acquire_call (some m) s (i, v) = (i, acquire-IsHeld n m i s v)
call-Shows n release_call none s v = release-IsFree n s v
call-Shows n release_call (some m) s (i, v) = elim (Bool-cases (n == m)) [
  | inl same ↦ rw same (rw ((==_iff n m).0 same) (release-IsFree_holder m i s v))
  | inr other ↦ rw other (i, release-IsHeld n m i s (λ e. ground arith) v)
]

outcome-call :
    (n : ℕ) (c : Call) (h : Option ℕ) (s : System)
    → Shows h s
    → outcome (call n c s) n ≡ some (mutex_outcome c h)
unfolding acquire release
outcome-call n acquire_call none s v = ground (arith, v.no_file, v.no_owner s.world.next)
outcome-call n acquire_call (some m) s (i, v) = ground (arith, v.file, v.pid, v.owner)
outcome-call n release_call h s v = ground arith

-- What the queries answer of a mutex.
abbrev pub is_holder_of : ℕ → Option ℕ → Bool
is_holder_of n none = false
is_holder_of n (some m) = m == n

abbrev pub alive_holder : (ℕ → Signal) → Option ℕ → Option ℕ
alive_holder kill none = none
alive_holder kill (some m) = elim (kill m) [ no_process ↦ none | _ ↦ some m ]

-- A sequence of whole calls, with how each of them ended.
pub calls : List (ℕ × Call) → System → List (Option Outcome) × System
calls [] s = ([], s)
calls ((n, c) ∷ cs) s =
    let s' = call n c s in let (outcomes, t) = calls cs s' in (outcome s' n ∷ outcomes, t)

abbrev pub mutex_calls : List (ℕ × Call) → Option ℕ → List (Option Outcome) × Option ℕ
mutex_calls [] h = ([], h)
mutex_calls ((n, c) ∷ cs) h =
    let (outcomes, k) = mutex_calls cs (mutex_step n c h) in
    (some (mutex_outcome c h) ∷ outcomes, k)

calls_refine :
    (cs : List (ℕ × Call)) (h : Option ℕ) (s : System)
    → Shows h s
    → ((calls cs s).0 ≡ (mutex_calls cs h).0) × Shows (mutex_calls cs h).1 (calls cs s).1
unfolding calls
calls_refine [] h s v = (refl, v)
calls_refine ((n, c) ∷ cs) h s v =
    let ih = calls_refine cs (mutex_step n c h) (call n c s) (call-Shows n c h s v) in
    (ap₂ ◌∷◌ (outcome-call n c h s v) ih.0, ih.1)

-- Where the calls of `acquire` and `release` by any processes do not overlap, from a start with no pid
-- file, each call returns, or raises with the pid of the holder, as a mutex does; and in the end the lock and the
-- pid file are as the mutex says: free and gone, or held by one process that the file names.
pub calls-refine-mutex :
    (cs : List (ℕ × Call))
    → ((calls cs start).0 ≡ (mutex_calls cs none).0)
      × Shows (mutex_calls cs none).1 (calls cs start).1
calls-refine-mutex cs = calls_refine cs none start start-IsFree

-- While `m` holds the lock, `is_holder` answers true to `m` and to nobody else, and `read_holder`
-- gives `m` if its process exists (also where it may not be signalled) and `none` if it does not. While
-- nobody does, `is_holder` is false and `read_holder` gives `none`.
pub queries_agree :
    (h : Option ℕ) (s : System) (n : ℕ) (kill : ℕ → Signal)
    → Shows h s
    → (is_holder n s.world ≡ is_holder_of n h) × (read_holder kill s.world ≡ alive_holder kill h)
unfolding is_holder read_holder
queries_agree none s n kill v = ground (arith, v.no_file)
queries_agree (some m) s n kill (i, v) = ground (arith, v.file, v.owner, v.pid)
