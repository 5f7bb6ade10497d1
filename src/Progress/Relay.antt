-- ===== src/Progress/Relay.antt =====
-- The relay between a subprocess's stderr and the renderer: `ProgressRelay` of
-- src/java_codebase_rag/progress.py and `is_noise_line` of src/java_codebase_rag/cli_format.py.
pub mod Chunks
use jrag.Base.{
  ℕ, zero, suc, Bool, true, false, Option, none, some, List, [], ◌∷◌, ◌++◌, ◌==◌, if◌then◌else◌,
  ◌&&◌, ◌||◌, length, split_line, Text, text_of, contains,
}
use jrag.Progress.{Readings, ProgressEvent, after_prefix, parse_progress_line}

-- `_NOISE_CONTAINS`
abbrev pub noise_contains : List Text
noise_contains =
    text_of "lance::"
    ∷ text_of "FutureWarning"
    ∷ text_of "Loading weights:"
    ∷ text_of "\"event\": \"brownfield-"
    ∷ text_of "unknown producer source strategy"
    ∷ text_of "unknown client source strategy"
    ∷ text_of "[graph] pass "
    ∷ text_of "[graph] scoped write "
    ∷ text_of "[graph] writing "
    ∷ text_of "[graph] done "
    ∷ text_of "[increment] "
    ∷ []

any_in : List Text → List ℕ → Bool
unfolding contains
any_in [] line = false
any_in (p ∷ ps) line = contains p line || any_in ps line

unfoldable pub is_noise_line : List ℕ → Bool
unfolding any_in
is_noise_line line = any_in noise_contains line

-- What reaches the renderer, its console, and the real stderr.
pub data Action : Type 0 where
  apply : ProgressEvent → Action
  show : Text → Action
  echo : List ℕ → Action

-- A renderer is attached or not; verbose or not.
pub record Setup : Type 0 where
  pub readings : Readings
  pub attached : Bool
  pub verbose : Bool

-- `_suppress_next`, and the actions taken, in order.
pub record Memory : Type 0 where
  pub suppress_next : Bool
  pub sent : List Action

pub record Relay : Type 0 where
  pub buf : List ℕ
  pub memory : Memory

abbrev is_indented : List ℕ → Bool
is_indented [] = false
is_indented (c ∷ cs) = c == 32 || c == 9

abbrev pass_on : Setup → Memory → List ℕ → Memory
pass_on cfg m line =
    if cfg.attached
    then record { suppress_next = false; sent = m.sent ++ (show (cfg.readings.decode line) ∷ []) }
    else if cfg.verbose
    then record { suppress_next = false; sent = m.sent ++ (echo line ∷ []) }
    else record { suppress_next = false; sent = m.sent }

abbrev route_text : Setup → Memory → List ℕ → Memory
route_text cfg m line =
    if is_noise_line line
    then record { suppress_next = true; sent = m.sent }
    else if m.suppress_next && is_indented line
    then m
    else pass_on cfg m line

abbrev route_event : Setup → Memory → List ℕ → Option ProgressEvent → Memory
route_event cfg m line none = route_text cfg m line
route_event cfg m line (some ev) =
    if cfg.attached
    then record { suppress_next = false; sent = m.sent ++ (apply ev ∷ []) }
    else record { suppress_next = false; sent = m.sent }

-- `_route_line`
unfoldable pub route_line : Setup → Memory → List ℕ → Memory
route_line cfg m line = route_event cfg m line (parse_progress_line cfg.readings line)

-- `while b"\n" in self._buf`, on fuel
unfoldable pub drain : ℕ → Setup → Memory → List ℕ → Relay
drain zero cfg m buf = record { buf = buf; memory = m }
drain (suc n) cfg m buf = elim (split_line buf) [
  | none ↦ record { buf = buf; memory = m }
  | some (l, t) ↦ drain n cfg (route_line cfg m l) t
]

unfoldable pub feed : Setup → Relay → List ℕ → Relay
feed cfg s chunk = drain (length (s.buf ++ chunk)) cfg s.memory (s.buf ++ chunk)

unfoldable pub flush : Setup → Relay → Relay
flush cfg s = elim (s.buf) [
  | [] ↦ s
  | c ∷ cs ↦ record { buf = []; memory = route_line cfg s.memory (c ∷ cs) }
]
