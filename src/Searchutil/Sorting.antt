-- ===== src/Searchutil/Sorting.antt =====
-- A sort by descending score, as an instance of what internal/searchutil/searchutil.go asks of one.
use qmdsr.Prelude.{
  ◌≡◌, refl, inl, inr, Bool, true, false, List, [], ◌∷◌, arith, Bool-cases, pick_true, pick_false,
  All, count,
}
use qmdsr.Prelude.Int.{ℤ, ◌≤ℤ◌, leb_ℤ}
use qmdsr.Types.{SearchResult}
use qmdsr.Searchutil.Dedup.{IsRanked, IsSort}

unfoldable pub insert : SearchResult → List SearchResult → List SearchResult
insert x [] = x ∷ []
insert x (y ∷ ys) = elim (leb_ℤ y.score x.score) [ true ↦ x ∷ y ∷ ys | false ↦ y ∷ insert x ys ]

unfoldable pub insertion_sort : List SearchResult → List SearchResult
insertion_sort [] = []
insertion_sort (x ∷ xs) = insert x (insertion_sort xs)

insert_here :
    (x y : SearchResult) (ys : List SearchResult)
    → leb_ℤ y.score x.score ≡ true
    → insert x (y ∷ ys) ≡ x ∷ y ∷ ys
unfolding insert
insert_here x y ys q = pick_true (leb_ℤ y.score x.score) (x ∷ y ∷ ys) (y ∷ insert x ys) q

insert_later :
    (x y : SearchResult) (ys : List SearchResult)
    → leb_ℤ y.score x.score ≡ false
    → insert x (y ∷ ys) ≡ y ∷ insert x ys
unfolding insert
insert_later x y ys q = pick_false (leb_ℤ y.score x.score) (x ∷ y ∷ ys) (y ∷ insert x ys) q

count-insert :
    (p : SearchResult → Bool) (x : SearchResult) (ys : List SearchResult)
    → count p (insert x ys) ≡ count p (x ∷ ys)
count-insert p x [] = unfold insert in refl
count-insert p x (y ∷ ys) = elim (Bool-cases (leb_ℤ y.score x.score)) [
  | inl q ↦ rw (insert_here x y ys q)
  | inr q ↦ rw (insert_later x y ys q) (ground (arith, count-insert p x ys))
]

All-weaken :
    (a b : ℤ) (rs : List SearchResult)
    → a ≤ℤ b
    → All (λ r. r.score ≤ℤ a) rs
    → All (λ r. r.score ≤ℤ b) rs
All-weaken a b [] le h = tt
All-weaken a b (r ∷ rs) le h = (omega (arith, h.0, le), All-weaken a b rs le h.1)

All-insert :
    (P : SearchResult → Type 0) (x : SearchResult) (ys : List SearchResult)
    → P x
    → All P ys
    → All P (insert x ys)
All-insert P x [] px h = unfold insert in (px, tt)
All-insert P x (y ∷ ys) px h =
    let rest = All-insert P x ys px h.1 in
    elim (Bool-cases (leb_ℤ y.score x.score)) [
      | inl q ↦ rw (insert_here x y ys q) (px, h)
      | inr q ↦ rw (insert_later x y ys q) (h.0, rest)
    ]

insert-IsRanked : (x : SearchResult) (ys : List SearchResult) → IsRanked ys → IsRanked (insert x ys)
unfolding IsRanked
insert-IsRanked x [] h = unfold insert in (tt, tt)
insert-IsRanked x (y ∷ ys) h =
    let rest = insert-IsRanked x ys h.1 in
    elim (Bool-cases (leb_ℤ y.score x.score)) [
      | inl q ↦
          let le : y.score ≤ℤ x.score = ground (arith, q) in
          rw (insert_here x y ys q) ((le, All-weaken y.score x.score ys le h.0), h)
      | inr q ↦
          let le : x.score ≤ℤ y.score = ground (arith, q) in
          rw (insert_later x y ys q) (All-insert (λ r. r.score ≤ℤ y.score) x ys le h.0, rest)
    ]

insertion_sort-IsRanked : (rs : List SearchResult) → IsRanked (insertion_sort rs)
unfolding insertion_sort IsRanked
insertion_sort-IsRanked [] = tt
insertion_sort-IsRanked (r ∷ rs) =
    insert-IsRanked r (insertion_sort rs) (insertion_sort-IsRanked rs)

count-insertion_sort :
    (p : SearchResult → Bool) (rs : List SearchResult) → count p (insertion_sort rs) ≡ count p rs
unfolding insertion_sort
count-insertion_sort p [] = refl
count-insertion_sort p (r ∷ rs) =
    ground (arith, count-insert p r (insertion_sort rs), count-insertion_sort p rs)

pub insertion_sort-IsSort : IsSort insertion_sort
insertion_sort-IsSort = record { same = count-insertion_sort; ranked = insertion_sort-IsRanked }
