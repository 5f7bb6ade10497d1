-- ===== src/Search/Predicates/Exact.antt =====
-- What the path predicate of src/java_codebase_rag/search/search_lancedb.py matches, by the SQL reading of a text
-- literal and of `LIKE … ESCAPE`.
use jrag.Base.{
  ℕ, Bool, true, false, Option, none, some, List, [], ◌∷◌, ◌++◌, map, ◌==◌, ◌≡◌, refl, sym, ap, ◌∙◌,
  arith, if◌then◌else◌, ◌||◌, ◌&&◌, Bool-cases, inl, inr, Text, text_of, starts_with, contains,
  append_assoc,
}
use jrag.Search.Predicates.{
  quote, backslash, escape_sql_str, escape_sql_like_pattern, build_path_predicate,
}

abbrev push : ℕ → Option (Text × Text) → Option (Text × Text)
push c none = none
push c (some (s, t)) = some (c ∷ s, t)

-- A text literal from behind its opening quote on, and what stands behind its closing one; two quotes are one in it.
-- The flag says that a quote stands just before.
pub literal : Bool → Text → Option (Text × Text)
literal false [] = none
literal true [] = some ([], [])
literal false (c ∷ cs) =
    let plain = push c (literal false cs) in
    let closing = literal true cs in if c == quote then closing else plain
literal true (c ∷ cs) =
    let doubled = push quote (literal false cs) in if c == quote then doubled else some ([], c ∷ cs)

-- A pattern of LIKE.
pub data Token : Type 0 where
  any one : Token
  char : ℕ → Token

abbrev plain_token : ℕ → Token
plain_token c = if c == b'%' then any else if c == b'_' then one else char c

-- With the backslash as the escape character, which the flag says stands just before.
pub tokens : Bool → Text → List Token
tokens false [] = []
tokens true [] = char backslash ∷ []
tokens false (c ∷ cs) =
    let escaped = tokens true cs in
    let unescaped = plain_token c ∷ tokens false cs in if c == backslash then escaped else unescaped
tokens true (c ∷ cs) = char c ∷ tokens false cs

pub like : List Token → Text → Bool
like [] [] = true
like [] (x ∷ xs) = false
like (any ∷ ts) [] = like ts []
like (any ∷ ts) (x ∷ xs) = like ts (x ∷ xs) || like (any ∷ ts) xs
like (one ∷ ts) [] = false
like (one ∷ ts) (x ∷ xs) = like ts xs
like (char c ∷ ts) [] = false
like (char c ∷ ts) (x ∷ xs) = c == x && like ts xs

abbrev NotQuote : Text → Type 0
NotQuote [] = Unit
NotQuote (c ∷ cs) = (c == quote) ≡ false

literal-escape :
    (s t : Text) → NotQuote t → literal false (escape_sql_str s ++ (quote ∷ t)) ≡ some (s, t)
unfolding literal escape_sql_str
literal-escape [] [] h = refl
literal-escape [] (c ∷ t) h = rw h refl
literal-escape (c ∷ s) t h = elim (Bool-cases (c == quote)) [
  | inl e ↦ ground (arith, literal-escape s t h)
  | inr e ↦ ground (arith, literal-escape s t h)
]

escape_sql_str-append :
    (s t : Text) → escape_sql_str (s ++ t) ≡ escape_sql_str s ++ escape_sql_str t
unfolding escape_sql_str
escape_sql_str-append [] t = refl
escape_sql_str-append (c ∷ s) t = ground (arith, escape_sql_str-append s t)

tokens-escape :
    (s t : Text) → tokens false (escape_sql_like_pattern s ++ t) ≡ map char s ++ tokens false t
unfolding tokens escape_sql_like_pattern
tokens-escape [] t = refl
tokens-escape (c ∷ s) t = ground (arith, tokens-escape s t)

like-any : (x : Text) → like (any ∷ []) x ≡ true
unfolding like
like-any [] = refl
like-any (c ∷ x) = like-any x

like-chars : (s x : Text) → like (map char s ++ (any ∷ [])) x ≡ starts_with s x
unfolding like starts_with
like-chars [] x = like-any x
like-chars (c ∷ s) [] = refl
like-chars (c ∷ s) (d ∷ x) = ground (arith, like-chars s x)

like-contains : (s x : Text) → like (any ∷ (map char s ++ (any ∷ []))) x ≡ contains s x
unfolding like contains
like-contains s [] = like-chars s []
like-contains s (d ∷ x) = ground (arith, like-chars s (d ∷ x), like-contains s x)

moved :
    (e end : Text)
    → escape_sql_str e ++ (b'%' ∷ quote ∷ end) ≡ escape_sql_str (e ++ (b'%' ∷ [])) ++ (quote ∷ end)
unfolding escape_sql_str
moved e end = sym (
    ap (λ t. t ++ (quote ∷ end)) (escape_sql_str-append e (b'%' ∷ []))
    ∙ append_assoc (escape_sql_str e) (b'%' ∷ []) (quote ∷ end))

-- For any substring: the path predicate is a LIKE on the column filename whose pattern is one SQL literal with the
-- backslash as escape, whatever quotes and wildcards the substring holds, and its pattern matches exactly the file
-- names that contain the substring.
pub path_predicate_exact :
    (path : Text)
    → (pattern : Text) × (rest : Text) × (build_path_predicate path
        ≡ text_of "filename LIKE '" ++ rest)
      × (literal false rest ≡ some (pattern, text_of " ESCAPE '\\'"))
      × ((file : Text) → like (tokens false pattern) file ≡ contains path file)
unfolding build_path_predicate escape_sql_str tokens
path_predicate_exact path =
    let e = escape_sql_like_pattern path in
    let pattern = b'%' ∷ (e ++ (b'%' ∷ [])) in
    let end = text_of " ESCAPE '\\'" in
    (
      pattern,
      escape_sql_str pattern ++ (quote ∷ end),
      ap (λ t. text_of "filename LIKE '%" ++ t) (moved e end),
      literal-escape pattern end refl,
      λ file.
          ap (λ ts. like (any ∷ ts) file) (tokens-escape path (b'%' ∷ []))
          ∙ like-contains path file,
    )
