-- ===== src/Searchutil/Diversity.antt =====
-- internal/searchutil/searchutil.go: the loop that limits the hits, and those of one file.
use Prim.Native.String.{String}
use text.Mathlib.TextEquality.{eq_iff}
use qmdsr.Prelude.{
  ℕ, zero, suc, ◌+◌, ◌≤◌, ◌<◌, max, ◌≡◌, ◌≢◌, inl, inr, Bool, true, false, List, [], ◌∷◌, arith,
  Bool-cases, pick_true, pick_false, length, All, count, count_hit, count_miss,
}
use qmdsr.Prelude.Int.{ℤ, ◌≤ℤ◌}
use qmdsr.Types.{SearchResult}
use qmdsr.Searchutil.{Tools, is_crowded, count_file, diversify}
use qmdsr.Searchutil.Dedup.{IsRanked, in_file}

module _ (t : Tools) where
  diversify_crowded :
      (n : ℕ) (c : String → ℕ) (r : SearchResult) (rs : List SearchResult)
      → is_crowded t c r ≡ true
      → diversify t n c (r ∷ rs) ≡ diversify t n c rs
  unfolding diversify
  diversify_crowded n c r rs q = pick_true (is_crowded t c r) _ _ q

  diversify_last :
      (c : String → ℕ) (r : SearchResult) (rs : List SearchResult)
      → is_crowded t c r ≡ false
      → diversify t 0 c (r ∷ rs) ≡ r ∷ []
  unfolding diversify
  diversify_last c r rs q = pick_false (is_crowded t c r) _ _ q

  diversify_more :
      (n : ℕ) (c : String → ℕ) (r : SearchResult) (rs : List SearchResult)
      → is_crowded t c r ≡ false
      → diversify t (suc n) c (r ∷ rs) ≡ r ∷ diversify t n (count_file t c r) rs
  unfolding diversify
  diversify_more n c r rs q = pick_false (is_crowded t c r) _ _ q

  -- A property that the limited list has if it passes from the rest of the hits to all of them.
  diversify_induction :
      (P : ℕ → (String → ℕ) → List SearchResult → List SearchResult → Type 0)
      → ((n : ℕ) (c : String → ℕ) → P n c [] [])
      → ((n : ℕ) (c : String → ℕ) (r : SearchResult) (rs out : List SearchResult)
          → P n c rs out
          → P n c (r ∷ rs) out)
      → ((c : String → ℕ) (r : SearchResult) (rs : List SearchResult)
          → is_crowded t c r ≡ false
          → P 0 c (r ∷ rs) (r ∷ []))
      → ((n : ℕ) (c : String → ℕ) (r : SearchResult) (rs out : List SearchResult)
          → is_crowded t c r ≡ false
          → P n (count_file t c r) rs out
          → P (suc n) c (r ∷ rs) (r ∷ out))
      → (n : ℕ) (c : String → ℕ) (rs : List SearchResult) → P n c rs (diversify t n c rs)
  diversify_induction P done skip last more n c [] = unfold diversify in done n c
  diversify_induction P done skip last more zero c (r ∷ rs) =
      let rest = diversify_induction P done skip last more zero c rs in
      elim (Bool-cases (is_crowded t c r)) [
        | inl q ↦ rw (diversify_crowded 0 c r rs q) (skip 0 c r rs (diversify t 0 c rs) rest)
        | inr q ↦ rw (diversify_last c r rs q) (last c r rs q)
      ]
  diversify_induction P done skip last more (suc n) c (r ∷ rs) =
      let c' = count_file t c r in
      let rest = diversify_induction P done skip last more (suc n) c rs in
      let rest' = diversify_induction P done skip last more n c' rs in
      elim (Bool-cases (is_crowded t c r)) [
        | inl q ↦
            rw (diversify_crowded (suc n) c r rs q)
              (skip (suc n) c r rs (diversify t (suc n) c rs) rest)
        | inr q ↦ rw (diversify_more n c r rs q) (more n c r rs (diversify t n c' rs) q rest')
      ]

  -- Room is kept for at most `n + 1` hits, each hit is one of those given, and no file passes two.
  pub record Limited (n : ℕ) (c : String → ℕ) (rs out : List SearchResult) : Type 0 where
    pub short : length out ≤ suc n
    pub given : (p : SearchResult → Bool) → count p out ≤ count p rs
    pub sparse : (file : String) → file ≢ "" → count (in_file t file) out + c file ≤ max 2 (c file)

  crowd_of :
      (c : String → ℕ) (r : SearchResult) (f : String)
      → is_crowded t c r ≡ false
      → f ≢ ""
      → in_file t f r ≡ true
      → (c f < 2) × (count_file t c r f ≡ c f + 1)
  unfolding is_crowded count_file
  crowd_of c r f q ne same =
      let e : t.trim r.file ≡ f = (eq_iff (t.trim r.file) f).0 same in
      ground (arith, eq_iff (t.trim r.file) f, eq_iff (t.trim r.file) "", e)

  crowd_other :
      (c : String → ℕ) (r : SearchResult) (f : String)
      → in_file t f r ≡ false
      → count_file t c r f ≡ c f
  unfolding count_file
  crowd_other c r f other = ground arith

  sparse_more :
      (c : String → ℕ) (r : SearchResult) (out : List SearchResult)
      → is_crowded t c r ≡ false
      → (f : String) → f ≢ ""
      → count (in_file t f) out + count_file t c r f ≤ max 2 (count_file t c r f)
      → count (in_file t f) (r ∷ out) + c f ≤ max 2 (c f)
  sparse_more c r out q f ne h = elim (Bool-cases (in_file t f r)) [
    | inl same ↦
        let (few, e) = crowd_of c r f q ne same in
        rw (count_hit (in_file t f) r out same) (omega (arith, few, e, h))
    | inr other ↦
        rw (count_miss (in_file t f) r out other) (omega (arith, crowd_other c r f other, h))
  ]

  sparse_last :
      (c : String → ℕ) (r : SearchResult)
      → is_crowded t c r ≡ false
      → (f : String) → f ≢ ""
      → count (in_file t f) (r ∷ []) + c f ≤ max 2 (c f)
  sparse_last c r q f ne = sparse_more c r [] q f ne (omega arith)

  pub diversify-Limited :
      (n : ℕ) (c : String → ℕ) (rs : List SearchResult) → Limited n c rs (diversify t n c rs)
  diversify-Limited =
      diversify_induction Limited
        (λ n c. record {
          short = omega arith;
          given = λ p. omega arith;
          sparse = λ f h. omega arith;
        })
        (λ n c r rs out h. record {
          short = h.short;
          given = λ p. ground (arith, h.given p);
          sparse = h.sparse;
        })
        (λ c r rs q. record {
          short = omega arith;
          given = λ p. ground arith;
          sparse = λ f h. sparse_last c r q f h;
        })
        (λ n c r rs out q h. record {
          short = omega (arith, h.short);
          given = λ p. ground (arith, h.given p);
          sparse = λ f g. sparse_more c r out q f g (h.sparse f g);
        })

  pub diversify-IsRanked :
      (n : ℕ) (c : String → ℕ) (rs : List SearchResult)
      → IsRanked rs
      → IsRanked (diversify t n c rs)
  unfolding IsRanked
  diversify-IsRanked n c rs g =
      (diversify_induction
        (λ n c rs out.
          IsRanked rs
          → IsRanked out × ((s : ℤ) → All (λ x. x.score ≤ℤ s) rs → All (λ x. x.score ≤ℤ s) out))
        (λ n c h. (tt, λ s h. tt)) (λ n c r rs out h g. ((h g.1).0, λ s a. (h g.1).1 s a.1))
        (λ c r rs q g. ((tt, tt), λ s a. (a.0, tt)))
        (λ n c r rs out q h g. (((h g.1).1 r.score g.0, (h g.1).0), λ s a. (a.0, (h g.1).1 s a.1)))
        n c rs g).0
