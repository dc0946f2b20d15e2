-- ===== src/Orchestrator/Negative/Skips.antt =====
-- orchestrator/orchestrator.go: when a deep query is skipped.
use Prim.Native.String.{String}
use text.Mathlib.Text.{◌==◌ as str_eq}
use text.Mathlib.TextEquality.{eq_iff}
use qmdsr.Prelude.{
  ℕ, ◌≡◌, refl, sym, inl, inr, Bool, true, false, not, ◌&&◌, ◌||◌, Option, none, some, arith, ltb,
  Bool-cases, Option-cases,
}
use qmdsr.Prelude.Int.{is_nonpos}
use qmdsr.Config.{RuntimeConfig}
use qmdsr.Orchestrator.Negative.{
  Texts, DeepNeg, assign, exact_key, scope_cooldown_key, skip_scope, should_skip,
}

pub assign_same : {A : Type 0} (key : String) (a : A) (m : String → A) → assign key a m key ≡ a
unfolding assign
assign_same key a m = rw ((eq_iff key key).1 refl)

pub assign_other :
    {A : Type 0} (key k : String) (a : A) (m : String → A)
    → str_eq key k ≡ false
    → assign key a m k ≡ m k
unfolding assign
assign_other key k a m h = rw h

-- A key is held at a time if it is in the map and has not passed.
unfoldable pub held : ℕ → Option ℕ → Bool
held now none = false
held now (some expiry) = not (ltb expiry now)

module _ (t : Texts) (r : RuntimeConfig) where
  -- A deep query is skipped exactly while negative answers are kept and its own key or, where deep
  -- queries are allowed, that of its scope is in the map and has not passed.
  unfoldable pub skips : String → String → ℕ → DeepNeg → Bool
  skips query scope now s =
      not (is_nonpos r.deep_negative_ttl)
      && (held now (s.expiries (exact_key t query scope))
          || r.allow_cpu_deep_query && held now (s.expiries (scope_cooldown_key t scope)))

  skip_scope_lem :
      (scope : String) (now : ℕ) (s : DeepNeg)
      → (skip_scope t r scope now s).1
        ≡ (r.allow_cpu_deep_query && held now (s.expiries (scope_cooldown_key t scope)))
  unfolding skip_scope held
  skip_scope_lem scope now s = elim (Option-cases (s.expiries (scope_cooldown_key t scope))) [
    | inl q ↦ rw (q, skip_scope) (ground arith)
    | inr (e, q) ↦ rw (q, skip_scope) (ground arith)
  ]

  held-assign :
      (now e : ℕ) (key k : String) (m : String → Option ℕ)
      → m key ≡ some e
      → ltb e now ≡ true
      → held now (assign key none m k) ≡ held now (m k)
  unfolding held
  held-assign now e key k m q past = elim (Bool-cases (str_eq key k)) [
    | inl same ↦
        let q' : m k ≡ some e = rw (sym ((eq_iff key k).0 same)) q in
        rw (sym ((eq_iff key k).0 same), assign_same key none m, q, past) refl
    | inr other ↦ rw (assign_other key k none m other) refl
  ]

  should_skip-none :
      (query scope : String) (now : ℕ) (s : DeepNeg)
      → is_nonpos r.deep_negative_ttl ≡ false
      → s.expiries (exact_key t query scope) ≡ none
      → should_skip t r query scope now s ≡ skip_scope t r scope now s
  unfolding should_skip
  should_skip-none query scope now s on q = rw (on, q, should_skip) refl

  should_skip_past :
      (query scope : String) (now e : ℕ) (s : DeepNeg)
      → is_nonpos r.deep_negative_ttl ≡ false
      → s.expiries (exact_key t query scope) ≡ some e
      → ltb e now ≡ true
      → should_skip t r query scope now s
        ≡ skip_scope t r scope now
            (record s { expiries = assign (exact_key t query scope) none s.expiries })
  unfolding should_skip
  should_skip_past query scope now e s on q past = rw (on, q, past, should_skip) refl

  should_skip_exact :
      (query scope : String) (now e : ℕ) (s : DeepNeg)
      → is_nonpos r.deep_negative_ttl ≡ false
      → s.expiries (exact_key t query scope) ≡ some e
      → ltb e now ≡ false
      → (should_skip t r query scope now s).1 ≡ true
  unfolding should_skip
  should_skip_exact query scope now e s on q young = rw (on, q, young, should_skip) refl

  should_skip_off :
      (query scope : String) (now : ℕ) (s : DeepNeg)
      → is_nonpos r.deep_negative_ttl ≡ true
      → (should_skip t r query scope now s).1 ≡ false
  unfolding should_skip
  should_skip_off query scope now s off = rw (off, should_skip) refl

  -- A deep query is skipped exactly while negative answers are kept and an answer is held for its own
  -- key or, where deep queries are allowed, for its scope: what is deleted on the way had passed.
  pub should_skip_iff :
      (query scope : String) (now : ℕ) (s : DeepNeg)
      → (should_skip t r query scope now s).1 ≡ skips query scope now s
  unfolding skips
  should_skip_iff query scope now s = elim (Bool-cases (is_nonpos r.deep_negative_ttl)) [
    | inl off ↦ rw (should_skip_off query scope now s off, off) refl
    | inr on ↦ elim (Option-cases (s.expiries (exact_key t query scope))) [
      | inl q ↦
          rw (should_skip-none query scope now s on q, skip_scope_lem scope now s, on, q)
            (unfold held in refl)
      | inr (e, q) ↦ elim (Bool-cases (ltb e now)) [
        | inl past ↦
            let s' = record s { expiries = assign (exact_key t query scope) none s.expiries } in
            rw
              (
                should_skip_past query scope now e s on q past,
                skip_scope_lem scope now s',
                held-assign now e (exact_key t query scope) (scope_cooldown_key t scope) s.expiries
                    q past,
                on,
                q,
              )
              (unfold held in rw past refl)
        | inr young ↦
            rw (should_skip_exact query scope now e s on q young, on, q)
              (unfold held in rw young refl)
      ]
    ]
  ]
