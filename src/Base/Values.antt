-- ===== src/Base/Values.antt =====
-- The values that Python's json reads and prints, and dictionaries with text keys.
use Prim.Native.Nat.{ℕ}
use mathlib.Core.Bool.{Bool, true, false, not}
use mathlib.Core.Option.{Option, none, some}
use mathlib.Core.List.{List, [], ◌∷◌}
use jrag.Base.Tests.{◌==◌, if◌then◌else◌}
use jrag.Base.Texts.{Text, same_text}

-- With numbers that are not negative integers left out.
mutual
  pub data Value : Type 0 where
    null : Value
    bool : Bool → Value
    num : ℕ → Value
    text : Text → Value
    list : Items → Value
    object : Fields → Value

  pub data Items : Type 0 where
    nil : Items
    item : Value → Items → Items

  pub data Fields : Type 0 where
    end : Fields
    field : Text → Value → Fields → Fields

-- The JSON library: how a value is printed, and what is read from a text (`none`: a ValueError).
pub record Json : Type 0 where
  pub dumps : Value → List ℕ
  pub loads : List ℕ → Option Value

-- `d.get(k)`
unfoldable pub find_field : Text → Fields → Option Value
find_field k end = none
find_field k (field j x fs) = if same_text j k then some x else find_field k fs

-- Whether a value counts as true.
abbrev pub truthy : Value → Bool
truthy null = false
truthy (bool b) = b
truthy (num n) = not (n == 0)
truthy (text []) = false
truthy (text (c ∷ cs)) = true
truthy (list nil) = false
truthy (list (item x xs)) = true
truthy (object end) = false
truthy (object (field k x fs)) = true
