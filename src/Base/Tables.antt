-- ===== src/Base/Tables.antt =====
-- Dictionaries with text keys, in insertion order, and searches in lists.
use mathlib.Core.Bool.{Bool, true, false}
use mathlib.Core.Option.{Option, none, some}
use mathlib.Core.List.{List, [], ◌∷◌}
use jrag.Base.Tests.{if◌then◌else◌}
use jrag.Base.Texts.{Text, same_text}

abbrev pub Table : Type 0 → Type 0
Table A = List (Text × A)

-- `d.get(k)`
unfoldable pub get : {A : Type 0} → Text → Table A → Option A
get k [] = none
get k ((j, a) ∷ d) = if same_text j k then some a else get k d

-- `k in d`
unfoldable pub has : {A : Type 0} → Text → Table A → Bool
has k [] = false
has k ((j, a) ∷ d) = if same_text j k then true else has k d

-- The first element that a test finds.
unfoldable pub first : {A : Type 0} → (A → Bool) → List A → Option A
first test [] = none
first test (a ∷ as_) = if test a then some a else first test as_

unfoldable pub keep : {A : Type 0} → (A → Bool) → List A → List A
keep test [] = []
keep test (a ∷ rest) = let kept = keep test rest in if test a then a ∷ kept else kept
