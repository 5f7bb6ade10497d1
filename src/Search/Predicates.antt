-- ===== src/Search/Predicates.antt =====
-- The SQL predicates of a vector search: src/java_codebase_rag/search/search_lancedb.py.
pub mod Exact
use jrag.Base.{
  one_of, ℕ, Bool, true, false, Option, none, some, List, [], ◌∷◌, ◌++◌, map, ◌==◌, ◌≡◌,
  if◌then◌else◌, ◌||◌, ◌&&◌, Text, text_of, same_text,
}

abbrev pub quote : ℕ
quote = 39

abbrev pub backslash : ℕ
backslash = 92

-- `_escape_sql_str` and `_escape_like_fragment`: `s.replace("'", "''")`
unfoldable pub escape_sql_str : Text → Text
escape_sql_str [] = []
escape_sql_str (c ∷ cs) =
    if c == quote then quote ∷ quote ∷ escape_sql_str cs else c ∷ escape_sql_str cs

abbrev pub is_special : ℕ → Bool
is_special c = c == backslash || (c == b'%' || c == b'_')

unfoldable pub escape_sql_like_pattern : Text → Text
escape_sql_like_pattern [] = []
escape_sql_like_pattern (c ∷ cs) =
    if is_special c
    then backslash ∷ c ∷ escape_sql_like_pattern cs
    else c ∷ escape_sql_like_pattern cs

unfoldable pub build_path_predicate : Text → Text
build_path_predicate path =
    text_of "filename LIKE '%"
    ++ (escape_sql_str (escape_sql_like_pattern path) ++ text_of "%' ESCAPE '\\'")

-- The filters of a query, empty texts and lists as absent.
pub record Filters : Type 0 where
  pub role : Text
  pub module_name : Text
  pub microservice : Text
  pub package_prefix : Text
  pub capability : Text
  pub fqn_in : List Text
  pub role_in : List Text
  pub exclude_roles : List Text
  pub capability_in : List Text
  pub generated_only : Bool
  pub exclude_generated : Bool

abbrev pub quoted : Text → Text
quoted s = quote ∷ (escape_sql_str s ++ (quote ∷ []))

abbrev pub joined_by : Text → List Text → Text
joined_by sep [] = []
joined_by sep (t ∷ []) = t
joined_by sep (t ∷ u ∷ ts) = t ++ (sep ++ joined_by sep (u ∷ ts))

abbrev values : List Text → Text
values vs = joined_by (text_of ", ") (map quoted vs)

abbrev pub when : Bool → Text → List Text
when true t = t ∷ []
when false t = []

abbrev is_text : Text → Bool
is_text [] = false
is_text (c ∷ cs) = true

abbrev is_list : List Text → Bool
is_list [] = false
is_list (t ∷ ts) = true

abbrev bracketed : Text → Text
bracketed t = b'(' ∷ (t ++ text_of ")")

-- A role filter and a capability filter together are alternatives.
abbrev role_or_capability : List Text → List Text → List Text
role_or_capability (r ∷ rs) (c ∷ cs) = bracketed (r ++ (text_of " OR " ++ c)) ∷ []
role_or_capability (r ∷ rs) [] = r ∷ []
role_or_capability [] (c ∷ cs) = c ∷ []
role_or_capability [] [] = []

abbrev has_capability : Text → Text
has_capability c = text_of "array_has(capabilities, " ++ (quoted c ++ text_of ")")

unfoldable pub build_extra_predicates : List Text → Filters → List Text
unfolding one_of
build_extra_predicates columns f =
    let has = λ (c : Text). one_of c columns in
    when (is_text f.role && has (text_of "role")) (text_of "role = " ++ quoted f.role)
    ++ (role_or_capability
          (when (is_list f.role_in && has (text_of "role"))
            (text_of "role IN " ++ bracketed (values f.role_in)))
          (when (is_list f.capability_in && has (text_of "capabilities"))
            (bracketed (joined_by (text_of " OR ") (map has_capability f.capability_in))))
        ++ (when (is_list f.exclude_roles && has (text_of "role")) (
              text_of "(role IS NULL OR role NOT IN "
              ++ (bracketed (values f.exclude_roles) ++ text_of ")"))
            ++ (when (f.generated_only && has (text_of "generated")) (text_of "generated = true")
                ++ (when (f.exclude_generated && has (text_of "generated"))
                      (text_of "(generated IS NULL OR generated = false)")
                    ++ (when (is_text f.module_name && has (text_of "module"))
                          (text_of "module = " ++ quoted f.module_name)
                        ++ (when (is_text f.microservice && has (text_of "microservice"))
                              (text_of "microservice = " ++ quoted f.microservice)
                            ++ (when (is_text f.package_prefix && has (text_of "package")) (
                                  text_of "(package = "
                                  ++ (quoted f.package_prefix
                                      ++ (text_of " OR package LIKE '"
                                          ++ (escape_sql_str f.package_prefix ++ text_of ".%')"))))
                                ++ (when (is_list f.fqn_in && has (text_of "primary_type_fqn")) (
                                      text_of "primary_type_fqn IN " ++ bracketed (values f.fqn_in))
                                    ++ when (is_text f.capability && has (text_of "capabilities"))
                                        (has_capability f.capability)))))))))

abbrev keep_texts : List Text → List Text
keep_texts [] = []
keep_texts ([] ∷ ts) = keep_texts ts
keep_texts ((c ∷ cs) ∷ ts) = (c ∷ cs) ∷ keep_texts ts

abbrev combine_clean : List Text → Option Text
combine_clean [] = none
combine_clean (t ∷ []) = some t
combine_clean (t ∷ u ∷ ts) = some (joined_by (text_of " AND ") (map bracketed (t ∷ u ∷ ts)))

-- `_combine_predicates`, an absent part as an empty text
unfoldable pub combine_predicates : List Text → Option Text
combine_predicates parts = combine_clean (keep_texts parts)
