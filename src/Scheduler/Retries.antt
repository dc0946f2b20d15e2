-- ===== src/Scheduler/Retries.antt =====
-- scheduler/scheduler.go: how often a task is called, and what its result is.
use Prim.Native.String.{String}
use text.Mathlib.Text.{◌==◌ as str_eq}
use text.Mathlib.TextEquality.{eq_iff}
use qmdsr.Prelude.{
  ℕ, zero, suc, ◌+◌, ◌*◌, ◌<◌, ◌≡◌, refl, sym, ap, ◌∙◌, ◌≢◌, ◌⊎◌, inl, inr, true, false, not,
  Option, none, some, List, [], ◌∷◌, arith, Option-cases, select, exists,
}
use mathlib.Core.Option.{none-ne-some}
use qmdsr.Scheduler.{begin_task, end_task, retry_from, retry, attempt, run_task}

-- Ending what was begun leaves the other names.
end_begin :
    (name : String) (running : List String)
    → exists (str_eq name) running ≡ false
    → end_task name (name ∷ running) ≡ running
unfolding end_task
end_begin name running h = rw ((eq_iff name name).1 refl) (others name running h)
  where
    others :
        (name : String) (running : List String)
        → exists (str_eq name) running ≡ false
        → select (λ n. not (str_eq name n)) running ≡ running
    others name [] h = refl
    others name (n ∷ running) h = ground (arith, others name running)

module _ {S E : Type 0} (fn : S → S × Option E) where
  -- The state after `k` calls, and the error of the call after those.
  unfoldable pub after : ℕ → S → S
  after zero s = s
  after (suc k) s = after k (fn s).0

  unfoldable pub error_at : ℕ → S → Option E
  error_at zero s = (fn s).1
  error_at (suc k) s = error_at k (fn s).0

  -- `k + 1` calls were made, at most `n`: all but the last failed, the last one gave the result, and
  -- it succeeded unless all `n` are used up.
  pub record Tried (n : ℕ) (s : S) (s' : S) (err : Option E) : Type 0 where
    pub calls : ℕ
    pub within : calls < n
    pub failed : (j : ℕ) → j < calls → error_at j s ≢ none
    pub state : s' ≡ after (suc calls) s
    pub result : err ≡ error_at calls s
    pub stopped : (err ≡ none) ⊎ (suc calls ≡ n)

  Tried-ok : (n : ℕ) (s : S) → (fn s).1 ≡ none → Tried (suc n) s (fn s).0 none
  unfolding after error_at
  Tried-ok n s ok = record {
    calls = 0;
    within = omega arith;
    failed = λ j h. absurd (omega arith);
    state = refl;
    result = sym ok;
    stopped = inl refl;
  }

  failed_again :
      (s : S) (e : E) (k : ℕ)
      → (fn s).1 ≡ some e
      → ((j : ℕ) → j < k → error_at j (fn s).0 ≢ none)
      → (j : ℕ) → j < suc k
      → error_at j s ≢ none
  unfolding error_at
  failed_again s e k bad h zero lt q = none-ne-some e (sym q ∙ bad)
  failed_again s e k bad h (suc j) lt q = h j (omega arith) q

  Tried-again :
      (n : ℕ) (s s' : S) (e : E) (err : Option E)
      → (fn s).1 ≡ some e
      → Tried n (fn s).0 s' err
      → Tried (suc n) s s' err
  unfolding after error_at
  Tried-again n s s' e err bad t = record {
    calls = suc t.calls;
    within = omega (arith, t.within);
    failed = failed_again s e t.calls bad t.failed;
    state = t.state;
    result = t.result;
    stopped = elim t.stopped [ inl q ↦ inl q | inr q ↦ inr (ap suc q) ];
  }

  retry_from_ok :
      (left i : ℕ) (last : Option E) (s : S)
      → (fn s).1 ≡ none
      → retry_from fn (suc left) i last s ≡ ((fn s).0, none, (i * i) ∷ [])
  unfolding retry_from
  retry_from_ok left i last s q = rw (q, retry_from)

  retry_from_bad :
      (left i : ℕ) (last : Option E) (s : S) (e : E)
      → (fn s).1 ≡ some e
      → let rest = retry_from fn left (i + 1) (fn s).1 (fn s).0 in
        retry_from fn (suc left) i last s ≡ (rest.0, rest.1, (i * i) ∷ rest.2)
  unfolding retry_from
  retry_from_bad left i last s e q =
      let rest = retry_from fn left (i + 1) (fn s).1 (fn s).0 in
      failing ((fn s).0, none, (i * i) ∷ []) (rest.0, rest.1, (i * i) ∷ rest.2) (fn s).1 e q
    where
      failing :
          {A : Type 0} (x y : A) (err : Option E) (e : E)
          → err ≡ some e
          → (elim err [ none ↦ x | some e' ↦ y ]) ≡ y
      failing x y none e q = absurd (none-ne-some e q)
      failing x y (some e') e q = refl

  -- A loop of retries with a round left makes at least one call.
  retry_from-Tried :
      (left i : ℕ) (last : Option E) (s : S)
      → let r = retry_from fn (suc left) i last s in Tried (suc left) s r.0 r.1
  retry_from-Tried zero i last s = elim (Option-cases (fn s).1) [
    | inl q ↦ rw (retry_from_ok zero i last s q) (Tried-ok zero s q)
    | inr (e, q) ↦ rw (retry_from_bad zero i last s e q) (last_round i s e q)
  ]
    where
      last_round :
          (i : ℕ) (s : S) (e : E)
          → (fn s).1 ≡ some e
          → let r = retry_from fn zero (i + 1) (fn s).1 (fn s).0 in Tried 1 s r.0 r.1
      last_round i s e q =
          unfold retry_from after error_at in
          record {
            calls = 0;
            within = omega arith;
            failed = λ j h. absurd (omega arith);
            state = refl;
            result = refl;
            stopped = inr refl;
          }
  retry_from-Tried (suc left) i last s = elim (Option-cases (fn s).1) [
    | inl q ↦ rw (retry_from_ok (suc left) i last s q) (Tried-ok (suc left) s q)
    | inr (e, q) ↦ rw (retry_from_bad (suc left) i last s e q) (
        let r = retry_from fn (suc left) (i + 1) (fn s).1 (fn s).0 in
        Tried-again (suc left) s r.0 e r.1 q (retry_from-Tried left (i + 1) (fn s).1 (fn s).0))
  ]

  attempt_ok : (s : S) → (fn s).1 ≡ none → attempt fn s ≡ ((fn s).0, none, [])
  unfolding attempt
  attempt_ok s q = rw (q, attempt)

  attempt_bad : (s : S) (e : E) → (fn s).1 ≡ some e → attempt fn s ≡ retry_from fn 3 1 none (fn s).0
  unfolding attempt retry
  attempt_bad s e q = rw (q, attempt)

  attempt-Tried : (s : S) → let r = attempt fn s in Tried 4 s r.0 r.1
  attempt-Tried s = elim (Option-cases (fn s).1) [
    | inl q ↦ rw (attempt_ok s q) (Tried-ok 3 s q)
    | inr (e, q) ↦ rw (attempt_bad s e q) (
        let r = retry_from fn 3 1 none (fn s).0 in
        Tried-again 3 s r.0 e r.1 q (retry_from-Tried 2 1 none (fn s).0))
  ]

  run_task_busy :
      (name : String) (running : List String) (s : S)
      → exists (str_eq name) running ≡ true
      → run_task name fn (running, s) ≡ ((running, s), none)
  unfolding run_task begin_task
  run_task_busy name running s busy = rw (busy, run_task)

  run_task_free :
      (name : String) (running : List String) (s : S)
      → exists (str_eq name) running ≡ false
      → let r = attempt fn s in
        run_task name fn (running, s) ≡ ((end_task name (name ∷ running), r.0), r.1)
  unfolding run_task begin_task
  run_task_free name running s free = rw (free, run_task)

  -- A task that is not running is called until it succeeds, at most four times, and `runTask` returns
  -- the state and the result of its last call; afterwards its name is not running, and the other
  -- names are as before. A task that is running is not called, and nothing changes.
  pub run_task_lem :
      (name : String) (running : List String) (s : S)
      → let (w, err) = run_task name fn (running, s) in
        (exists (str_eq name) running ≡ true → (w ≡ (running, s)) × (err ≡ none))
        × (exists (str_eq name) running ≡ false → (w.0 ≡ running) × Tried 4 s w.1 err)
  unfolding run_task begin_task
  run_task_lem name running s = (
    λ busy. rw (run_task_busy name running s busy) (refl, refl),
    λ free. rw (run_task_free name running s free) (end_begin name running free, attempt-Tried s),
  )
