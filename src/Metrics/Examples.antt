-- ===== src/Metrics/Examples.antt =====
-- A run of eval/metrics.py.
use jrag.Base.{List, [], ◌∷◌, ◌≡◌, refl, Text, text_of, same_text}
use jrag.Metrics.{reciprocal_rank}

abbrev retrieved : List Text
retrieved = text_of "a" ∷ text_of "b" ∷ text_of "b" ∷ text_of "c" ∷ []

abbrev relevant : List Text
relevant = text_of "b" ∷ text_of "d" ∷ []

-- The first relevant id stands second.
run :
    ((reciprocal_rank retrieved relevant).top ≡ 1)
    × ((reciprocal_rank retrieved relevant).bottom ≡ 2)
unfolding reciprocal_rank same_text
run = (refl, refl)
