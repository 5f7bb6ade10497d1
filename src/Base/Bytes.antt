-- ===== src/Base/Bytes.antt =====
-- Byte streams cut into lines, as the buffering loops of progress.py and watch/server.py do.
use Prim.Native.Nat.{ℕ, ◌<◌}
use mathlib.Core.Path.{◌≡◌, refl}
use mathlib.Core.Option.{Option, none, some}
use mathlib.Core.List.{List, [], ◌∷◌, ◌++◌}
use native.Mathlib.Omega.{arith}
use jrag.Base.Tests.{◌==◌, if◌then◌else◌}
use jrag.Base.Lists.{length}

abbrev push_byte : ℕ → Option (List ℕ × List ℕ) → Option (List ℕ × List ℕ)
push_byte c none = none
push_byte c (some (l, t)) = some (c ∷ l, t)

-- `buf.split(b"\n", 1)` with the newline put back on the line
unfoldable pub split_line : List ℕ → Option (List ℕ × List ℕ)
split_line [] = none
split_line (c ∷ cs) =
    let later = push_byte c (split_line cs) in if c == 10 then some (c ∷ [], cs) else later

abbrev push : ℕ → List (List ℕ) × List ℕ → List (List ℕ) × List ℕ
push c ([], t) = ([], c ∷ t)
push c (l ∷ ls, t) = ((c ∷ l) ∷ ls, t)

-- The lines of a text, each with its newline, and what stands behind the last of them.
unfoldable pub cut : List ℕ → List (List ℕ) × List ℕ
cut [] = ([], [])
cut (c ∷ cs) = let later = cut cs in if c == 10 then ((c ∷ []) ∷ later.0, later.1) else push c later

abbrev pub join : List (List ℕ) → List ℕ
join [] = []
join (c ∷ cs) = c ++ join cs

-- Cutting agrees with splitting off the first line.
abbrev pub Agrees : List ℕ → Option (List ℕ × List ℕ) → Type 0
Agrees b none = cut b ≡ ([], b)
Agrees b (some (l, t)) = (cut b ≡ (l ∷ (cut t).0, (cut t).1)) × (length t < length b)

pub split_line-cut : (b : List ℕ) → Agrees b (split_line b)
unfolding cut split_line
split_line-cut [] = refl
split_line-cut (c ∷ cs) = ground (arith, split_line-cut cs)

pub cut-append :
    (b d : List ℕ)
    → cut (b ++ d) ≡ ((cut b).0 ++ (cut ((cut b).1 ++ d)).0, (cut ((cut b).1 ++ d)).1)
unfolding cut
cut-append [] d = refl
cut-append (c ∷ cs) d = ground (arith, cut-append cs d)

pub cut_end : (b : List ℕ) → cut (cut b).1 ≡ ([], (cut b).1)
unfolding cut
cut_end [] = refl
cut_end (c ∷ cs) = ground (arith, cut_end cs)
