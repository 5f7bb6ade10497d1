-- ===== src/Calls/Emit/Part.antt =====
-- The candidates that pass 3 of src/java_codebase_rag/graph/build_ast_graph.py keeps: those of the caller's
-- microservice, and one of several that overlap along the supertypes.
use mathlib.Core.List.{Memᴰ}
use mathlib.Core.List.Memᴰ
use jrag.Base.{
  ℕ, ◌≤◌, Bool, true, false, List, [], ◌∷◌, ◌≡◌, refl, sym, ap, ◌∙◌, subst, arith, ◌==◌, ◌&&◌,
  length, Bool-cases, inl, inr, Text, same_text,
}
use jrag.Calls.{keep, CallSite, MemberEntry, Tables}
use jrag.Calls.Receiver.{Strategy, overload_ambiguous}
use jrag.Calls.Lookup.{
  collapse_supertype_duplicates, matches_call, is_duplicate, all_allowed, ids_of, collapse_to,
  collapse_on,
}
use jrag.Calls.Lookup.Found.{mem-keep, keep-mem}
use jrag.Calls.Emit.{same_strategy, same_service, own_service, collapsed, narrow, is_text}

length-keep-le : {A : Type 0} → (test : A → Bool) (xs : List A) → length (keep test xs) ≤ length xs
unfolding keep
length-keep-le test [] = omega arith
length-keep-le test (x ∷ xs) = ground (arith, length-keep-le test xs)

true_not_false : true ≡ false → ⊥
true_not_false h = cc

-- Where nothing is left out, all pass the test.
keep-full :
    {A : Type 0}
    → (test : A → Bool) (xs : List A) → length (keep test xs) ≡ length xs
    → (a : A) → Memᴰ a xs
    → test a ≡ true
unfolding keep
keep-full test [] n a m = absurd (Memᴰ.not-nil m)
keep-full test (x ∷ xs) n a m = elim (Bool-cases (test x)) [
  | inl e ↦ elim (Memᴰ.cases_cons m) [
    | inl h ↦ ap test h ∙ e
    | inr k ↦ keep-full test xs (ground (arith, n, e)) a k
  ]
  | inr e ↦ ground (arith, n, e, length-keep-le test xs)
]

abbrev pub HasService : MemberEntry → Type 0
HasService m = (c : ℕ) × (cs : Text) × (m.microservice ≡ c ∷ cs)

-- Of a caller with a microservice: the one that is chosen is in it, if any of them is.
abbrev pub IsLocal : MemberEntry → List MemberEntry → MemberEntry → Type 0
IsLocal m all c =
    HasService m
    → (d : MemberEntry) → Memᴰ d all
    → same_service m d ≡ true
    → same_service m c ≡ true

-- Some of a list, as many as one at least.
pub record IsPart (P : MemberEntry → Type 0) (all part : List MemberEntry) : Type 0 where
  pub fits : (c : MemberEntry) → Memᴰ c part → Memᴰ c all × P c
  pub some_left : 1 ≤ length all → 1 ≤ length part

whole :
    (m : MemberEntry) (all : List MemberEntry)
    → ((c : MemberEntry) → Memᴰ c all → IsLocal m all c)
    → IsPart (IsLocal m all) all all
whole m all h = record { fits = λ c k. (k, h c k); some_left = λ n. n }

narrow-IsPart :
    (m : MemberEntry) (all kept : List MemberEntry)
    → keep (same_service m) all ≡ kept
    → IsPart (IsLocal m all) all (narrow m kept all).0
narrow-IsPart m all [] e = whole m all (λ c k hs d n s.
    absurd (Memᴰ.not-nil (subst (λ l. Memᴰ d l) e (keep-mem (same_service m) d all n s))))
narrow-IsPart m all (x ∷ kept) e = elim (Bool-cases (length (x ∷ kept) == length all)) [
  | inl n ↦ rw n (
      whole m all
        (λ c k hs d l s. keep-full (same_service m) all (ap length e ∙ ground (arith, n)) c k))
  | inr n ↦ rw n (record {
    fits = λ c k.
        let (l, s) =
          mem-keep (same_service m) c all
            (subst (λ (xs : List MemberEntry). Memᴰ c xs) (sym e) k) in
        (l, λ hs d md sd. s);
    some_left = λ k. omega arith;
  })
]

pub own_service-IsPart :
    (m : MemberEntry) (all : List MemberEntry) → IsPart (IsLocal m all) all (own_service m all).0
unfolding own_service
own_service-IsPart m all = elim (Bool-cases (is_text m.microservice)) [
  | inl e ↦ rw e (narrow-IsPart m all (keep (same_service m) all) refl)
  | inr e ↦
      rw e (whole m all (λ c k (x, xs, h) d n s. absurd (true_not_false (ap is_text (sym h) ∙ e))))
]

abbrev pub Some : MemberEntry → Type 0
Some c = Unit {0}

all_of : (cs : List MemberEntry) → IsPart Some cs cs
all_of cs = record { fits = λ c k. (k, tt); some_left = λ n. n }

collapse_to-IsPart :
    (c : MemberEntry) (ss cs : List MemberEntry) → Memᴰ c cs → IsPart Some cs (collapse_to c ss cs)
collapse_to-IsPart c [] cs k = all_of cs
collapse_to-IsPart c (s ∷ ss) cs k =
    elim (Bool-cases (all_allowed (c.node_id ∷ ids_of (s ∷ ss)) cs)) [
      | inl e ↦ rw e (record {
        fits = λ d l. (Memᴰ.cast (Memᴰ.eq_of_singleton l) k, tt);
        some_left = λ n. omega arith;
      })
      | inr e ↦ rw e (all_of cs)
    ]

collapse_on-IsPart :
    (tables : Tables) (recv : Text) (own cs : List MemberEntry)
    → ((c : MemberEntry) → Memᴰ c own → Memᴰ c cs)
    → IsPart Some cs (collapse_on tables recv own cs)
collapse_on-IsPart tables recv [] cs h = all_of cs
collapse_on-IsPart tables recv (c ∷ []) cs h =
    collapse_to-IsPart c (keep (is_duplicate tables recv c) cs) cs (h c (Memᴰ.head refl))
collapse_on-IsPart tables recv (c ∷ d ∷ ds) cs h = all_of cs

collapse_duplicates-IsPart :
    (tables : Tables) (recv : Text) (call : CallSite) (cs : List MemberEntry)
    → IsPart Some cs (collapse_supertype_duplicates tables recv call cs)
unfolding collapse_supertype_duplicates
collapse_duplicates-IsPart tables recv call [] = all_of []
collapse_duplicates-IsPart tables recv call (c ∷ []) = all_of (c ∷ [])
collapse_duplicates-IsPart tables recv call (c ∷ d ∷ cs) =
    let test = λ (m : MemberEntry). same_text m.parent_fqn recv && matches_call m call in
    collapse_on-IsPart tables recv (keep test (c ∷ d ∷ cs)) (c ∷ d ∷ cs)
      (λ x k. (mem-keep test x (c ∷ d ∷ cs) k).0)

pub collapsed-IsPart :
    (tables : Tables) (recv : Text) (call : CallSite) (s : Strategy) (cs : List MemberEntry)
    → IsPart Some cs (collapsed tables recv call s cs)
collapsed-IsPart tables recv call s cs = elim (Bool-cases (same_strategy s overload_ambiguous)) [
  | inl e ↦ rw e (all_of cs)
  | inr e ↦ rw e (collapse_duplicates-IsPart tables recv call cs)
]
