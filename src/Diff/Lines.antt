-- ===== src/Diff/Lines.antt =====
-- Lines of hunks: ranges and sorted sets.
use jrag.Base.{
  ℕ, zero, suc, ◌+◌, ◌-◌, ◌<◌, ◌≡◌, refl, Bool, false, List, [], ◌∷◌, ◌++◌, arith, All, ◌==◌, ◌||◌,
  ltb, leb, ◌&&◌, Bool-cases, inl, inr,
}
use jrag.Diff.{insert_line, sorted_set, positive, lines_between, count_up, RawHunk, hunk_ranges}

abbrev pub member : ℕ → List ℕ → Bool
member n [] = false
member n (m ∷ ms) = n == m || member n ms

-- Each line is smaller than the next ones.
abbrev pub IsIncreasing : List ℕ → Type 0
IsIncreasing [] = Unit
IsIncreasing (n ∷ ns) = All (λ m. n < m) ns × IsIncreasing ns

member-insert_line : (k n : ℕ) (ms : List ℕ) → member k (insert_line n ms) ≡ (k == n || member k ms)
unfolding insert_line
member-insert_line k n [] = refl
member-insert_line k n (m ∷ ms) = ground (arith, member-insert_line k n ms)

pub member-sorted_set : (k : ℕ) (ns : List ℕ) → member k (sorted_set ns) ≡ member k ns
unfolding sorted_set
member-sorted_set k [] = refl
member-sorted_set k (n ∷ ns) =
    ground (arith, member-insert_line k n (sorted_set ns), member-sorted_set k ns)

All-lt : (n m : ℕ) (ms : List ℕ) → n < m → All (λ k. m < k) ms → All (λ k. n < k) ms
All-lt n m [] h a = tt
All-lt n m (k ∷ ks) h a = (omega arith, All-lt n m ks h a.1)

All-insert_line :
    (l n : ℕ) (ms : List ℕ) → l < n → All (λ k. l < k) ms → All (λ k. l < k) (insert_line n ms)
unfolding insert_line
All-insert_line l n [] h a = (h, tt)
All-insert_line l n (m ∷ ms) h a = elim (Bool-cases (ltb n m)) [
  | inl below ↦ rw below (h, a)
  | inr above ↦ rw above (elim (Bool-cases (n == m)) [
    | inl same ↦ rw same a
    | inr other ↦ rw other (a.0, All-insert_line l n ms h a.1)
  ])
]

insert_line-IsIncreasing : (n : ℕ) (ms : List ℕ) → IsIncreasing ms → IsIncreasing (insert_line n ms)
unfolding insert_line
insert_line-IsIncreasing n [] h = (tt, tt)
insert_line-IsIncreasing n (m ∷ ms) h = elim (Bool-cases (ltb n m)) [
  | inl below ↦ rw below ((ground arith, All-lt n m ms (ground arith) h.0), h)
  | inr above ↦ rw above (elim (Bool-cases (n == m)) [
    | inl same ↦ rw same h
    | inr other ↦
        rw other (All-insert_line m n ms (ground arith) h.0, insert_line-IsIncreasing n ms h.1)
  ])
]

pub sorted_set-IsIncreasing : (ns : List ℕ) → IsIncreasing (sorted_set ns)
unfolding sorted_set
sorted_set-IsIncreasing [] = tt
sorted_set-IsIncreasing (n ∷ ns) =
    insert_line-IsIncreasing n (sorted_set ns) (sorted_set-IsIncreasing ns)

pub member-append : (n : ℕ) (xs ys : List ℕ) → member n (xs ++ ys) ≡ (member n xs || member n ys)
member-append n [] ys = refl
member-append n (x ∷ xs) ys = ground (arith, member-append n xs ys)

pub member-positive : (n : ℕ) (ms : List ℕ) → member n (positive ms) ≡ (ltb 0 n && member n ms)
unfolding positive
member-positive n [] = ground arith
member-positive n (m ∷ ms) = ground (arith, member-positive n ms)

member-count_up : (n k s : ℕ) → member n (count_up k s) ≡ (leb s n && ltb n (s + k))
member-count_up n zero s = ground arith
member-count_up n (suc k) s = ground (arith, member-count_up n k (suc s))

pub member-lines_between : (n lo hi : ℕ) → member n (lines_between lo hi) ≡ (leb lo n && leb n hi)
unfolding lines_between
member-lines_between n lo hi = ground (arith, member-count_up n (suc hi - lo) lo)

-- For each side of a hunk as the diff library gives it: a line is one of its `length` lines from `start` on exactly
-- if the length is not 0 and the line lies in the range of `_hunk_ranges`.
pub hunk_ranges_lem :
    (h : RawHunk) (n : ℕ)
    → (member n (count_up h.source_length h.source_start)
        ≡ (ltb 0 h.source_length && (leb (hunk_ranges h).0.0 n && leb n (hunk_ranges h).0.1)))
      × (member n (count_up h.target_length h.target_start)
          ≡ (ltb 0 h.target_length && (leb (hunk_ranges h).1.0 n && leb n (hunk_ranges h).1.1)))
unfolding hunk_ranges
hunk_ranges_lem h n = (
  ground (arith, member-count_up n h.source_length h.source_start),
  ground (arith, member-count_up n h.target_length h.target_start),
)
