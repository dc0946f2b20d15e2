-- ===== src/Orchestrator/Routing/Modes.antt =====
-- orchestrator/orchestrator.go: a mode is served only where it can be and may be.
use Prim.Native.String.{String}
use text.Mathlib.Text.{◌==◌ as str_eq}
use text.Mathlib.TextEquality.{eq_iff}
use qmdsr.Prelude.{
  ◌≡◌, refl, sym, ◌∙◌, ◌≢◌, ◌⊎◌, inl, inr, Bool, true, false, not, ◌&&◌, arith, Bool-cases,
}
use qmdsr.Config.{RuntimeConfig}
use qmdsr.Router.{Strings}
use qmdsr.Orchestrator.Routing.{allow_auto_deep_query, is_auto, wanted_mode, resolve_mode}

apart : (a b : String) → str_eq a b ≡ false → a ≢ b
apart a b h e = not_both (str_eq a b) ((eq_iff a b).1 e) h
  where
    not_both : (x : Bool) → x ≡ true → x ≡ false → ⊥
    not_both x h g = ground (arith, h, g)

-- The mode is that of a plain search, or the wanted one where nothing speaks against it.
kept_or_search :
    (t : Strings) (r : RuntimeConfig) (has_capability : String → Bool) (overloaded : Bool)
    (requested query : String)
    → let mode = resolve_mode t r has_capability overloaded requested query in
      let w = wanted_mode t has_capability requested query in
      (mode ≡ "search")
      ⊎ ((mode ≡ w)
          × (overloaded ≡ true → w ≡ "search")
          × (str_eq w "query" ≡ true
              → (has_capability "deep_query" ≡ true)
                × (is_auto requested ≡ true → allow_auto_deep_query t r query ≡ true))
          × (str_eq w "vsearch" ≡ true → has_capability "vector" ≡ true))
unfolding resolve_mode
kept_or_search t r has_capability overloaded requested query =
    let w = wanted_mode t has_capability requested query in
    let calm : overloaded && not (str_eq w "search") ≡ false → overloaded ≡ true → w ≡ "search" =
      λ h on. (eq_iff w "search").0 (ground (arith, h, on)) in
    let deep = has_capability "deep_query" in
    let vector = has_capability "vector" in
    elim (Bool-cases (overloaded && not (str_eq w "search"))) [
      | inl shed ↦ rw shed (inl refl)
      | inr open_ ↦ elim (Bool-cases (str_eq w "query")) [
        | inl q ↦ elim (Bool-cases deep) [
          | inr none_ ↦ rw (open_, q, none_) (inl refl)
          | inl has ↦
              elim (Bool-cases (is_auto requested && not (allow_auto_deep_query t r query))) [
                | inl over ↦ rw (open_, q, has, over) (inl refl)
                | inr fits ↦ inr (
                  rw (open_, q, has, fits) refl,
                  calm open_,
                  λ _. (has, λ auto. ground (arith, fits, auto)),
                  λ v. absurd (
                      apart "query" "vsearch" refl
                        (sym ((eq_iff w "query").0 q) ∙ (eq_iff w "vsearch").0 v)),
                )
              ]
        ]
        | inr q ↦ elim (Bool-cases (str_eq w "vsearch")) [
          | inl v ↦ elim (Bool-cases vector) [
            | inr none_ ↦ rw (open_, q, v, none_) (inl refl)
            | inl has ↦ inr (
              rw (open_, q, v, has) refl,
              calm open_,
              λ q'. absurd (ground (arith, q, q')),
              λ _. has,
            )
          ]
          | inr v ↦ inr (
            rw (open_, q, v) refl,
            calm open_,
            λ q'. absurd (ground (arith, q, q')),
            λ v'. absurd (ground (arith, v, v')),
          )
        ]
      ]
    ]

-- Under overload every query is served by a plain search. A deep query is served only if the backend
-- has it and, where the mode was left open, the runtime's budget allows it; a vector search only if
-- the backend has it. A mode that is none of the three is passed on as it was asked for.
pub resolve_mode_lem :
    (t : Strings) (r : RuntimeConfig) (has_capability : String → Bool) (overloaded : Bool)
    (requested query : String)
    → let mode = resolve_mode t r has_capability overloaded requested query in
      (overloaded ≡ true → mode ≡ "search")
      × (mode ≡ "query"
          → (has_capability "deep_query" ≡ true)
            × (is_auto requested ≡ true → allow_auto_deep_query t r query ≡ true))
      × (mode ≡ "vsearch" → has_capability "vector" ≡ true)
      × (mode ≡ "search" ⊎ (mode ≡ wanted_mode t has_capability requested query))
resolve_mode_lem t r has_capability overloaded requested query =
    let w = wanted_mode t has_capability requested query in
    let search_is : (m : String) → str_eq "search" m ≡ false → "search" ≢ m =
      λ m h. apart "search" m h in
    elim (kept_or_search t r has_capability overloaded requested query) [
      | inl e ↦ (
        λ _. e,
        λ q. absurd (search_is "query" refl (sym e ∙ q)),
        λ v. absurd (search_is "vsearch" refl (sym e ∙ v)),
        inl e,
      )
      | inr (e, calm, deep, vector) ↦ (
        λ on. e ∙ calm on,
        λ q. deep ((eq_iff w "query").1 (sym e ∙ q)),
        λ v. vector ((eq_iff w "vsearch").1 (sym e ∙ v)),
        inr e,
      )
    ]
