-- ===== src/Searchutil/Dedup.antt =====
-- internal/searchutil/searchutil.go: the loop that drops the hits of a key seen before.
use Prim.Native.String.{String}
use text.Mathlib.Text.{◌==◌ as str_eq}
use text.Mathlib.TextEquality.{eq_iff}
use qmdsr.Prelude.{
  ◌≡◌, refl, inl, inr, Bool, true, false, List, [], ◌∷◌, arith, if◌then◌else◌, Bool-cases,
  pick_true, pick_false, exists, All, count, count_hit, count_miss,
}
use qmdsr.Prelude.Int.{◌≤ℤ◌}
use qmdsr.Types.{SearchResult}
use qmdsr.Searchutil.{Tools, key_of, dedup}

-- The best score first.
unfoldable pub IsRanked : List SearchResult → Type 0
IsRanked [] = Unit
IsRanked (r ∷ rs) = All (λ x. x.score ≤ℤ r.score) rs × IsRanked rs

-- What `sort.Slice` is documented to do: the same elements, in order.
pub record IsSort (sort_desc : List SearchResult → List SearchResult) : Type 0 where
  pub same :
      (p : SearchResult → Bool) (rs : List SearchResult) → count p (sort_desc rs) ≡ count p rs
  pub ranked : (rs : List SearchResult) → IsRanked (sort_desc rs)

module _ (t : Tools) where
  abbrev pub has_key : String → SearchResult → Bool
  has_key key r = str_eq key (key_of t r)

  abbrev pub in_file : String → SearchResult → Bool
  in_file file r = str_eq (t.trim r.file) file

  dedup_again :
      (seen : List String) (r : SearchResult) (rs : List SearchResult)
      → exists (str_eq (key_of t r)) seen ≡ true
      → dedup t seen (r ∷ rs) ≡ dedup t seen rs
  unfolding dedup
  dedup_again seen r rs q = pick_true (exists (str_eq (key_of t r)) seen) _ _ q

  dedup_first :
      (seen : List String) (r : SearchResult) (rs : List SearchResult)
      → exists (str_eq (key_of t r)) seen ≡ false
      → dedup t seen (r ∷ rs) ≡ r ∷ dedup t (key_of t r ∷ seen) rs
  unfolding dedup
  dedup_first seen r rs q = pick_false (exists (str_eq (key_of t r)) seen) _ _ q

  pub dedup_seen :
      (seen : List String) (rs : List SearchResult) (key : String)
      → exists (str_eq key) seen ≡ true
      → count (has_key key) (dedup t seen rs) ≡ 0
  dedup_seen seen [] key h = unfold dedup in refl
  dedup_seen seen (r ∷ rs) key h = elim (Bool-cases (exists (str_eq (key_of t r)) seen)) [
    | inl q ↦ rw (dedup_again seen r rs q) (dedup_seen seen rs key h)
    | inr q ↦
        let again : count (has_key key) (dedup t (key_of t r ∷ seen) rs) ≡ 0 =
          dedup_seen (key_of t r ∷ seen) rs key (ground arith) in
        let other : str_eq key (key_of t r) ≡ false = ground (arith, eq_iff key (key_of t r)) in
        rw
          (
            dedup_first seen r rs q,
            count_miss (has_key key) r (dedup t (key_of t r ∷ seen) rs) other,
          )
          again
  ]

  -- Of each key that is not seen yet, one hit is kept if there is any.
  pub count-dedup :
      (seen : List String) (rs : List SearchResult) (key : String)
      → exists (str_eq key) seen ≡ false
      → count (has_key key) (dedup t seen rs) ≡ (if exists (has_key key) rs then 1 else 0)
  count-dedup seen [] key h = unfold dedup in refl
  count-dedup seen (r ∷ rs) key h = elim (Bool-cases (exists (str_eq (key_of t r)) seen)) [
    | inl q ↦
        let other : str_eq key (key_of t r) ≡ false = ground (arith, eq_iff key (key_of t r)) in
        rw (dedup_again seen r rs q, other) (count-dedup seen rs key h)
    | inr q ↦ rw (dedup_first seen r rs q) (elim (Bool-cases (str_eq key (key_of t r))) [
      | inl same ↦
          let rest : count (has_key key) (dedup t (key_of t r ∷ seen) rs) ≡ 0 =
            dedup_seen (key_of t r ∷ seen) rs key (ground arith) in
          rw (count_hit (has_key key) r (dedup t (key_of t r ∷ seen) rs) same, rest, same)
      | inr other ↦
          let rest : count (has_key key) (dedup t (key_of t r ∷ seen) rs)
              ≡ (if exists (has_key key) rs then 1 else 0) =
            count-dedup (key_of t r ∷ seen) rs key (ground arith) in
          rw (count_miss (has_key key) r (dedup t (key_of t r ∷ seen) rs) other, other) rest
    ])
  ]
