-- ===== src/Base/Texts.antt =====
-- Texts as lists of character codes, and Python's tests on them.
use Prim.Native.Nat.{ℕ}
use Prim.Native.Char.{code}
use Prim.Native.String.{String}
use mathlib.Core.Bool.{Bool, true, false, ◌&&◌, ◌||◌}
use mathlib.Core.List.{List, [], ◌∷◌, ◌++◌}
use mathlib.Core.Path.{◌≡◌, refl, ap}
use native.Mathlib.Omega.{arith}
use jrag.Base.Tests.{◌==◌, leb, if◌then◌else◌}

abbrev pub Text : Type 0
Text = List ℕ

abbrev pub text_of : String → Text
text_of String.[] = []
text_of (String.◌∷◌ c s) = code c ∷ text_of s

unfoldable pub same_text : Text → Text → Bool
same_text [] [] = true
same_text (a ∷ xs) (b ∷ ys) = a == b && same_text xs ys
same_text _ _ = false

-- `t.startswith(p)`
unfoldable pub starts_with : Text → Text → Bool
starts_with [] t = true
starts_with (p ∷ ps) [] = false
starts_with (p ∷ ps) (c ∷ cs) = p == c && starts_with ps cs

-- Whether a text is in a list or a set of texts.
unfoldable pub one_of : Text → List Text → Bool
unfolding same_text
one_of t [] = false
one_of t (x ∷ xs) = same_text x t || one_of t xs

-- `t.endswith(p)`
unfoldable pub ends_with : Text → Text → Bool
ends_with p [] = same_text p []
ends_with p (c ∷ cs) = same_text p (c ∷ cs) || ends_with p cs

-- `p in t`
unfoldable pub contains : Text → Text → Bool
unfolding starts_with
contains p [] = starts_with p []
contains p (c ∷ cs) = starts_with p (c ∷ cs) || contains p cs

pub same_text_refl : (t : Text) → same_text t t ≡ true
unfolding same_text
same_text_refl [] = refl
same_text_refl (c ∷ cs) = ground (arith, same_text_refl cs)

pub same_text_eq : (s t : Text) → same_text s t ≡ true → s ≡ t
unfolding same_text
same_text_eq [] [] h = refl
same_text_eq [] (b ∷ ys) h = ground arith
same_text_eq (a ∷ xs) [] h = ground arith
same_text_eq (a ∷ xs) (b ∷ ys) h = ground (arith, same_text_eq xs ys)

-- Python's white space, as `str.strip` and `str.split` see it.
unfoldable pub is_space : ℕ → Bool
is_space c =
    (leb 9 c && leb c 13)
    || ((leb 28 c && leb c 32)
        || (c == 133
            || (c == 160
                || (c == 5760
                    || ((leb 8192 c && leb c 8202)
                        || (c == 8232
                            || (c == 8233 || (c == 8239 || (c == 8287 || c == 12288)))))))))

-- `t.lstrip()` and `t.rstrip()` of the characters that a test finds.
unfoldable pub lstrip : (ℕ → Bool) → Text → Text
lstrip p [] = []
lstrip p (c ∷ cs) = let later = lstrip p cs in if p c then later else c ∷ cs

abbrev end_with : (ℕ → Bool) → ℕ → Text → Text
end_with p c [] = if p c then [] else c ∷ []
end_with p c (d ∷ t) = c ∷ d ∷ t

unfoldable pub rstrip : (ℕ → Bool) → Text → Text
rstrip p [] = []
rstrip p (c ∷ cs) = end_with p c (rstrip p cs)

unfoldable pub strip : Text → Text
unfolding is_space lstrip rstrip
strip t = rstrip is_space (lstrip is_space t)

pub one_of-append :
    (t : Text) (xs ys : List Text) → one_of t (xs ++ ys) ≡ (one_of t xs || one_of t ys)
unfolding one_of
one_of-append t [] ys = refl
one_of-append t (x ∷ xs) ys = ground (arith, one_of-append t xs ys)

pub one_of_same : (s t : Text) (xs : List Text) → same_text s t ≡ true → one_of s xs ≡ one_of t xs
one_of_same s t xs h = ap (λ u. one_of u xs) (same_text_eq s t h)
