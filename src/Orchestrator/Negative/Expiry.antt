-- ===== src/Orchestrator/Negative/Expiry.antt =====
-- orchestrator/orchestrator.go: what the cleanup of the deep-negative cache drops.
use Prim.Native.String.{String}
use text.Mathlib.Text.{◌==◌ as str_eq}
use text.Mathlib.TextEquality.{eq_iff}
use qmdsr.Prelude.{
  ℕ, ◌+◌, ◌≤◌, ◌≡◌, refl, sym, ap, ◌∙◌, ◌≢◌, inl, inr, true, false, ◌&&◌, Option, none, List, [],
  ◌∷◌, arith, if◌then◌else◌, Bool-cases, Option-cases, exists,
}
use mathlib.Core.Option.{none-ne-some}
use qmdsr.Config.{RuntimeConfig}
use qmdsr.Orchestrator.Negative.{
  Texts, DeepNeg, is_past, assign, exact_key, scope_cooldown_key, should_skip, cleanup_expiries,
  cleanup_deep_negative,
}
use qmdsr.Orchestrator.Negative.Skips.{assign_same, assign_other, held, skips, should_skip_iff}

-- How many of the keys are past.
unfoldable pub past_count : ℕ → (String → Option ℕ) → List String → ℕ
past_count now m [] = 0
past_count now m (k ∷ ks) =
    if is_past now (m k) then past_count now m ks + 1 else past_count now m ks

-- Each key once.
unfoldable pub IsDistinct : List String → Type 0
IsDistinct [] = Unit
IsDistinct (k ∷ ks) = (exists (str_eq k) ks ≡ false) × IsDistinct ks

past_count-assign :
    (now : ℕ) (m : String → Option ℕ) (key : String) (ks : List String)
    → exists (str_eq key) ks ≡ false
    → past_count now (assign key none m) ks ≡ past_count now m ks
unfolding past_count
past_count-assign now m key [] h = refl
past_count-assign now m key (k ∷ ks) h =
    let other : str_eq key k ≡ false = ground arith in
    let rest = past_count-assign now m key ks (ground arith) in
    rw (assign_other key k none m other, rest) refl

-- What the loop leaves of a key: nothing, if it comes to it and it has passed.
abbrev left : List String → ℕ → (String → Option ℕ) → String → Option ℕ
left ks now m k = if exists (str_eq k) ks && is_past now (m k) then none else m k

left_gone :
    (j : String) (ks : List String) (now : ℕ) (m : String → Option ℕ) (k : String)
    → is_past now (m j) ≡ true
    → left ks now (assign j none m) k ≡ left (j ∷ ks) now m k
left_gone j ks now m k gone = elim (Bool-cases (str_eq j k)) [
  | inl same ↦
      let e : j ≡ k = (eq_iff j k).0 same in
      let none_k : assign j none m k ≡ none = rw (sym e) (assign_same j none m) in
      let gone_k : is_past now (m k) ≡ true = rw (sym e) gone in
      let same' : str_eq k j ≡ true = (eq_iff k j).1 (sym e) in
      rw (none_k, gone_k, same') (ground arith)
  | inr other ↦
      let other' : str_eq k j ≡ false = ground (arith, eq_iff k j, eq_iff j k) in
      rw (assign_other j k none m other, other') refl
]

left_kept :
    (j : String) (ks : List String) (now : ℕ) (m : String → Option ℕ) (k : String)
    → is_past now (m j) ≡ false
    → left ks now m k ≡ left (j ∷ ks) now m k
left_kept j ks now m k kept = elim (Bool-cases (str_eq j k)) [
  | inl same ↦
      let e : j ≡ k = (eq_iff j k).0 same in
      let kept_k : is_past now (m k) ≡ false = rw (sym e) kept in rw kept_k (ground arith)
  | inr other ↦
      let other' : str_eq k j ≡ false = ground (arith, eq_iff k j, eq_iff j k) in rw other' refl
]

-- The loop deletes the keys that have passed and that it comes to, leaves the others, and counts
-- those that it deletes.
expiries_after :
    (ks : List String) (now : ℕ) (m : String → Option ℕ) (k : String)
    → (cleanup_expiries ks now m).0 k ≡ left ks now m k
unfolding cleanup_expiries
expiries_after [] now m k = ground arith
expiries_after (j ∷ ks) now m k =
    let skip : (cleanup_expiries ks now m).0 k ≡ left ks now m k = expiries_after ks now m k in
    let drop : (cleanup_expiries ks now (assign j none m)).0 k ≡ left ks now (assign j none m) k =
      expiries_after ks now (assign j none m) k in
    elim (Bool-cases (is_past now (m j))) [
      | inl gone ↦ rw gone (drop ∙ left_gone j ks now m k gone)
      | inr kept ↦ rw kept (skip ∙ left_kept j ks now m k kept)
    ]

removed_after :
    (ks : List String) (now : ℕ) (m : String → Option ℕ)
    → IsDistinct ks
    → (cleanup_expiries ks now m).1 ≡ past_count now m ks
unfolding cleanup_expiries past_count IsDistinct
removed_after [] now m d = refl
removed_after (j ∷ ks) now m d =
    let skip : (cleanup_expiries ks now m).1 ≡ past_count now m ks = removed_after ks now m d.1 in
    let drop : (cleanup_expiries ks now (assign j none m)).1 ≡ past_count now (assign j none m) ks =
      removed_after ks now (assign j none m) d.1 in
    elim (Bool-cases (is_past now (m j))) [
      | inl gone ↦ rw gone (ap (λ n. n + 1) (drop ∙ past_count-assign now m j ks d.0))
      | inr kept ↦ rw kept skip
    ]

held-left :
    (ks : List String) (now later : ℕ) (m : String → Option ℕ) (k : String)
    → now ≤ later
    → held later (left ks now m k) ≡ held later (m k)
unfolding held
held-left ks now later m k le = elim (Option-cases (m k)) [
  | inl q ↦ rw q (ground arith)
  | inr (e, q) ↦ rw q (ground arith)
]

-- A cleanup over the keys of the map, each once and in any order, returns the number of those that
-- have passed, and afterwards none that has passed is left. At no later time does it change whether
-- a deep query is skipped.
pub cleanup_deep_negative_lem :
    (t : Texts) (r : RuntimeConfig) (keys scopes : List String) (now : ℕ) (s : DeepNeg)
    → IsDistinct keys
    → ((k : String) → s.expiries k ≢ none → exists (str_eq k) keys ≡ true)
    → let (s', removed) = cleanup_deep_negative keys scopes now s in
      (removed ≡ past_count now s.expiries keys)
      × ((k : String) → is_past now (s'.expiries k) ≡ false)
      × ((query scope : String) (later : ℕ)
          → now ≤ later
          → (should_skip t r query scope later s').1 ≡ (should_skip t r query scope later s).1)
unfolding cleanup_deep_negative
cleanup_deep_negative_lem t r keys scopes now s d all = (
  removed_after keys now s.expiries d,
  λ k. rw (expiries_after keys now s.expiries k) (none_past k),
  λ query scope later le.
      let s' = (cleanup_deep_negative keys scopes now s).0 in
      let own : (k : String) → held later (s'.expiries k) ≡ held later (s.expiries k) =
        λ k. rw (expiries_after keys now s.expiries k) (held-left keys now later s.expiries k le) in
      rw (should_skip_iff t r query scope later s', should_skip_iff t r query scope later s)
        (unfold skips in rw (own (exact_key t query scope), own (scope_cooldown_key t scope)) refl),
)
  where
    none_past : (k : String) → is_past now (left keys now s.expiries k) ≡ false
    none_past k = elim (Option-cases (s.expiries k)) [
      | inl q ↦ rw q (ground arith)
      | inr (e, q) ↦ rw (q, all k (λ n. none-ne-some e (sym n ∙ q))) (ground arith)
    ]
