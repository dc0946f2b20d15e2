-- ===== src/Orchestrator/Negative/Cooldown.antt =====
-- orchestrator/orchestrator.go: what a failed deep query keeps from being tried, and for how long.
use Prim.Native.String.{String}
use text.Mathlib.Text.{◌==◌ as str_eq}
use qmdsr.Prelude.{
  ℕ, ◌+◌, ◌≤◌, ◌≡◌, refl, sym, ap, ◌∙◌, inl, inr, true, false, some, List, [], ◌∷◌, ◌++◌, arith,
  ltb, Bool-cases, length, select,
}
use qmdsr.Prelude.Int.{pos_part, is_nonpos}
use Prim.Native.String.{◌++◌ as str_append}
use qmdsr.Config.{RuntimeConfig}
use qmdsr.Orchestrator.Negative.{
  Texts, DeepNeg, scope_fail_window, is_recent, assign, exact_key, scope_of, scope_cooldown_key,
  should_skip, mark_scope_cooldown, mark,
}
use qmdsr.Orchestrator.Negative.Skips.{assign_same, assign_other, held, skips, should_skip_iff}

module _ (t : Texts) (r : RuntimeConfig) where
  -- The failures of the scope that count at a mark: the recent ones, and the new one.
  abbrev recent : String → ℕ → DeepNeg → List ℕ
  recent scope now s = select (is_recent now) (s.scope_fails (scope_of t scope)) ++ now ∷ []

  -- Trimming a scope again changes nothing.
  abbrev IsStable : String → Type 0
  IsStable scope = scope_of t (scope_of t scope) ≡ scope_of t scope

  key_stable :
      (scope : String)
      → IsStable scope
      → scope_cooldown_key t (scope_of t scope) ≡ scope_cooldown_key t scope
  unfolding scope_cooldown_key
  key_stable scope h = ap (λ s. t.sha1_hex (str_append "scope_cooldown|" s)) h

  mark_off :
      (query scope : String) (now : ℕ) (s : DeepNeg)
      → is_nonpos r.deep_negative_ttl ≡ true
      → mark t r query scope now s ≡ s
  unfolding mark
  mark_off query scope now s off = rw off refl

  mark_few :
      (query scope : String) (now : ℕ) (s : DeepNeg)
      → is_nonpos r.deep_negative_ttl ≡ false
      → r.allow_cpu_deep_query ≡ true
      → is_nonpos r.deep_negative_scope_cooldown ≡ false
      → ltb (length (recent scope now s)) 3 ≡ true
      → (mark t r query scope now s).scope_fails
        ≡ assign (scope_of t scope) (recent scope now s) s.scope_fails
  unfolding mark mark_scope_cooldown
  mark_few query scope now s on deep cool few = rw (on, deep, cool, few) refl

  mark_full :
      (query scope : String) (now : ℕ) (s : DeepNeg)
      → is_nonpos r.deep_negative_ttl ≡ false
      → r.allow_cpu_deep_query ≡ true
      → is_nonpos r.deep_negative_scope_cooldown ≡ false
      → ltb (length (recent scope now s)) 3 ≡ false
      → let s' = mark t r query scope now s in
        (s'.expiries (scope_cooldown_key t (scope_of t scope))
          ≡ some (now + pos_part r.deep_negative_scope_cooldown))
        × (s'.scope_fails ≡ assign (scope_of t scope) [] s.scope_fails)
  unfolding mark mark_scope_cooldown
  mark_full query scope now s on deep cool full =
      rw (on, deep, cool, full) (assign_same (scope_cooldown_key t (scope_of t scope)) _ _, refl)

  -- The own key of a query is in the map after its mark, unless the scope's key is the same.
  expiries-mark :
      (query scope : String) (now : ℕ) (s : DeepNeg)
      → is_nonpos r.deep_negative_ttl ≡ false
      → str_eq (scope_cooldown_key t (scope_of t scope)) (exact_key t query scope) ≡ false
      → (mark t r query scope now s).expiries (exact_key t query scope)
        ≡ some (now + pos_part r.deep_negative_ttl)
  unfolding mark mark_scope_cooldown
  expiries-mark query scope now s on apart =
      let key = exact_key t query scope in
      let own = assign_same key (some (now + pos_part r.deep_negative_ttl)) s.expiries in
      elim (Bool-cases r.allow_cpu_deep_query) [
        | inr shallow ↦ rw (on, shallow) own
        | inl deep ↦ elim (Bool-cases (is_nonpos r.deep_negative_scope_cooldown)) [
          | inl hot ↦ rw (on, deep, hot) own
          | inr cool ↦ elim (Bool-cases (ltb (length (recent scope now s)) 3)) [
            | inl few ↦ rw (on, deep, cool, few) own
            | inr full ↦
                rw (on, deep, cool, full)
                  (assign_other (scope_cooldown_key t (scope_of t scope)) key
                      (some (now + pos_part r.deep_negative_scope_cooldown))
                      (assign key (some (now + pos_part r.deep_negative_ttl)) s.expiries) apart
                    ∙ own)
          ]
        ]
      ]

  -- If negative answers are kept: after a deep query fails at `now`, it is skipped until the time to
  -- live has passed, whatever the state before, provided that its key and that of its scope's cooldown
  -- differ.
  pub should_skip-mark :
      (query scope : String) (now later : ℕ) (s : DeepNeg)
      → is_nonpos r.deep_negative_ttl ≡ false
      → str_eq (scope_cooldown_key t (scope_of t scope)) (exact_key t query scope) ≡ false
      → later ≤ now + pos_part r.deep_negative_ttl
      → (should_skip t r query scope later (mark t r query scope now s)).1 ≡ true
  should_skip-mark query scope now later s on apart young =
      rw (should_skip_iff t r query scope later (mark t r query scope now s)) (
        unfold skips held in
        rw (on, expiries-mark query scope now s on apart) (ground (arith, young)))

  scope_held :
      (query scope : String) (later expiry : ℕ) (s : DeepNeg)
      → is_nonpos r.deep_negative_ttl ≡ false
      → r.allow_cpu_deep_query ≡ true
      → s.expiries (scope_cooldown_key t scope) ≡ some expiry
      → later ≤ expiry
      → (should_skip t r query scope later s).1 ≡ true
  scope_held query scope later expiry s on deep q young =
      rw (should_skip_iff t r query scope later s)
        (unfold skips held in rw (on, deep, q) (ground (arith, young)))

  fails-mark :
      (query scope : String) (now : ℕ) (s : DeepNeg) (fails : List ℕ)
      → is_nonpos r.deep_negative_ttl ≡ false
      → r.allow_cpu_deep_query ≡ true
      → is_nonpos r.deep_negative_scope_cooldown ≡ false
      → recent scope now s ≡ fails
      → ltb (length fails) 3 ≡ true
      → (mark t r query scope now s).scope_fails (scope_of t scope) ≡ fails
  fails-mark query scope now s fails on deep cool q few =
      rw
        (
          mark_few query scope now s on deep cool (rw q few),
          assign_same (scope_of t scope) (recent scope now s) s.scope_fails,
        )
        q

  -- Where deep queries are allowed, negative answers are kept, the cooldown is positive, and trimming
  -- the scope again changes nothing: three deep queries that fail in a scope without recorded failures,
  -- within five minutes, keep every query of that scope from being tried until the cooldown, from
  -- the third failure, has passed.
  pub three_failures :
      (q1 q2 q3 query scope : String) (t1 t2 t3 later : ℕ) (s : DeepNeg)
      → is_nonpos r.deep_negative_ttl ≡ false
      → r.allow_cpu_deep_query ≡ true
      → is_nonpos r.deep_negative_scope_cooldown ≡ false
      → s.scope_fails (scope_of t scope) ≡ []
      → IsStable scope
      → t1 ≤ t2
      → t2 ≤ t3
      → t3 ≤ t1 + scope_fail_window
      → later ≤ t3 + pos_part r.deep_negative_scope_cooldown
      → let s1 = mark t r q1 scope t1 s in
        let s2 = mark t r q2 scope t2 s1 in
        let s3 = mark t r q3 scope t3 s2 in (should_skip t r query scope later s3).1 ≡ true
  three_failures q1 q2 q3 query scope t1 t2 t3 later s on deep cool none0 stable le1 le2 close
        young =
      let s1 = mark t r q1 scope t1 s in
      let s2 = mark t r q2 scope t2 s1 in
      let s3 = mark t r q3 scope t3 s2 in
      let f1 : s1.scope_fails (scope_of t scope) ≡ t1 ∷ [] =
        fails-mark q1 scope t1 s (t1 ∷ []) on deep cool (rw none0 refl) refl in
      let r12 : is_recent t2 t1 ≡ true = ground (arith, le2, close) in
      let f2 : s2.scope_fails (scope_of t scope) ≡ t1 ∷ t2 ∷ [] =
        fails-mark q2 scope t2 s1 (t1 ∷ t2 ∷ []) on deep cool (rw (f1, r12) refl) refl in
      let r13 : is_recent t3 t1 ≡ true = ground (arith, close) in
      let r23 : is_recent t3 t2 ≡ true = ground (arith, close, le1) in
      let full : ltb (length (recent scope t3 s2)) 3 ≡ false = rw (f2, r13, r23) refl in
      scope_held query scope later (t3 + pos_part r.deep_negative_scope_cooldown) s3 on deep
        (rw (sym (key_stable scope stable)) (mark_full q3 scope t3 s2 on deep cool full).0) young
