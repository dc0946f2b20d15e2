-- ===== src/Orchestrator/Negative.antt =====
-- orchestrator/orchestrator.go: the deep-negative cache, which keeps a deep query that failed from
-- being tried again, and after three failures in five minutes every deep query of its scope.
pub mod Skips
pub mod Cooldown
pub mod Expiry
mod Examples
use Prim.Native.String.{String}
use text.Mathlib.Text.{◌==◌ as str_eq}
use text.Mathlib.TextEquality.{eq_iff}
use qmdsr.Prelude.{
  ℕ, zero, suc, ◌+◌, ◌-◌, ◌*◌, ◌/◌, ◌%◌, ◌^◌, ◌≤◌, ◌<◌, min, max, ◌≡◌, refl, sym, ap, ◌∙◌, ◌≢◌, ◌↔◌,
  ◌⊎◌, inl, inr, Bool, true, false, not, ◌&&◌, ◌||◌, Option, none, some, List, [], ◌∷◌, ◌++◌, map,
  arith, ltb, leb, ◌==◌, if◌then◌else◌, ltb→lt, lt→ltb, leb→le, Bool-cases, pick_true, pick_false,
  Option-cases, length, take, replicate, select, exists, All, count, count_hit, count_miss,
  length-append, length-take, length-select-le, All-append, All-take,
}
use qmdsr.Prelude.Int.{
  ℤ, pos, negsuc, pos_part, neg_part, sub_ℕ, ◌≤ℤ◌, ltb_ℤ, leb_ℤ, is_zero, is_nonpos, is_pos,
}
use Prim.Native.String.{◌++◌ as str_append}
use qmdsr.Prelude.Text.{rune_count, take_runes}
use qmdsr.Config.{RuntimeConfig}
use qmdsr.Config.Defaults.{minute}

-- `strings.TrimSpace`, `ToLower` and `Fields`, and the hexadecimal SHA-1 sum.
pub record Texts : Type 0 where
  pub trim : String → String
  pub lower : String → String
  pub fields : String → List String
  pub sha1_hex : String → String

-- `deepNeg`, `deepNegScopeFails` (a scope that is missing has no times), and the counters.
pub record DeepNeg : Type 0 where
  pub expiries : String → Option ℕ
  pub scope_fails : String → List ℕ
  pub mark_count : ℕ
  pub exact_hits : ℕ
  pub scope_hits : ℕ

abbrev pub scope_fail_threshold : ℕ
scope_fail_threshold = 3

abbrev pub scope_fail_window : ℕ
scope_fail_window = 5 * minute

unfoldable pub empty : DeepNeg
empty = record {
  expiries = λ k. none;
  scope_fails = λ s. [];
  mark_count = 0;
  exact_hits = 0;
  scope_hits = 0;
}

-- An assignment to a map.
unfoldable pub assign : {A : Type 0} → String → A → (String → A) → String → A
assign key a m k = if str_eq key k then a else m k

-- `now.Sub(ts) <= deepNegativeScopeFailWindow`.
abbrev pub is_recent : ℕ → ℕ → Bool
is_recent now ts = leb now (ts + scope_fail_window)

-- `strings.Join`.
unfoldable pub join : String → List String → String
join sep [] = ""
join sep (s ∷ []) = s
join sep (s ∷ t ∷ ss) = str_append s (str_append sep (join sep (t ∷ ss)))

module _ (t : Texts) where
  unfoldable pub exact_key : String → String → String
  exact_key query scope =
      let q = join " " (t.fields (t.lower (t.trim query))) in
      let q = if ltb 64 (rune_count q) then take_runes 64 q else q in
      t.sha1_hex (str_append scope (str_append "|" q))

  unfoldable pub scope_of : String → String
  scope_of scope = if str_eq (t.trim scope) "" then "all" else t.trim scope

  unfoldable pub scope_cooldown_key : String → String
  scope_cooldown_key scope = t.sha1_hex (str_append "scope_cooldown|" (scope_of scope))

  -- The second half of `shouldSkipDeepByNegativeCache`.
  unfoldable pub skip_scope : RuntimeConfig → String → ℕ → DeepNeg → DeepNeg × Bool × String
  skip_scope r scope now s =
      let key = scope_cooldown_key scope in
      if not r.allow_cpu_deep_query then (s, false, "") else elim (s.expiries key) [
        | none ↦ (s, false, "")
        | some expiry ↦
            if ltb expiry now
            then (record s { expiries = assign key none s.expiries }, false, "")
            else (record s { scope_hits = s.scope_hits + 1 }, true, "deep_negative_scope_cooldown")
      ]

  unfoldable pub should_skip :
      RuntimeConfig → String → String → ℕ → DeepNeg → DeepNeg × Bool × String
  should_skip r query scope now s =
      let key = exact_key query scope in
      if is_nonpos r.deep_negative_ttl then (s, false, "") else elim (s.expiries key) [
        | none ↦ skip_scope r scope now s
        | some expiry ↦
            if ltb expiry now
            then skip_scope r scope now (record s { expiries = assign key none s.expiries })
            else (
              record s { exact_hits = s.exact_hits + 1 },
              true,
              "deep_negative_cached_fallback_broad",
            )
      ]

  unfoldable pub mark_scope_cooldown : RuntimeConfig → String → ℕ → DeepNeg → DeepNeg
  mark_scope_cooldown r scope now s =
      let scope = scope_of scope in
      let fails = select (is_recent now) (s.scope_fails scope) ++ now ∷ [] in
      if is_nonpos r.deep_negative_scope_cooldown
      then s
      else if ltb (length fails) scope_fail_threshold
      then record s { scope_fails = assign scope fails s.scope_fails }
      else record s {
        expiries =
            assign (scope_cooldown_key scope) (some (now + pos_part r.deep_negative_scope_cooldown))
              s.expiries;
        scope_fails = assign scope [] s.scope_fails;
      }

  unfoldable pub mark : RuntimeConfig → String → String → ℕ → DeepNeg → DeepNeg
  mark r query scope now s =
      let marked = record s {
        expiries =
            assign (exact_key query scope) (some (now + pos_part r.deep_negative_ttl)) s.expiries;
        mark_count = s.mark_count + 1;
      } in
      if is_nonpos r.deep_negative_ttl
      then s
      else if r.allow_cpu_deep_query
      then mark_scope_cooldown r scope now marked
      else marked

-- `now.After(expiry)`, of a key that is there.
abbrev pub is_past : ℕ → Option ℕ → Bool
is_past now none = false
is_past now (some expiry) = ltb expiry now

-- The loops of `CleanupDeepNegativeCache`, over the keys in the order in which the maps yield them.
unfoldable pub cleanup_expiries : List String → ℕ → (String → Option ℕ) → (String → Option ℕ) × ℕ
cleanup_expiries [] now m = (m, 0)
cleanup_expiries (k ∷ ks) now m =
    let gone = is_past now (m k) in
    let rest = cleanup_expiries ks now (if gone then assign k none m else m) in
    (rest.0, if gone then rest.1 + 1 else rest.1)

unfoldable pub cleanup_fails : List String → ℕ → (String → List ℕ) → String → List ℕ
cleanup_fails [] now m = m
cleanup_fails (k ∷ ks) now m = cleanup_fails ks now (assign k (select (is_recent now) (m k)) m)

unfoldable pub cleanup_deep_negative : List String → List String → ℕ → DeepNeg → DeepNeg × ℕ
cleanup_deep_negative keys scopes now s =
    let (expiries, removed) = cleanup_expiries keys now s.expiries in
    (
      record s { expiries = expiries; scope_fails = cleanup_fails scopes now s.scope_fails },
      removed,
    )
