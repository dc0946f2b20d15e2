-- ===== src/CpuGuard/Windows.antt =====
-- internal/resourceguard/cpu_monitor.go: the counters of the sampling loop against the history of samples.
use qmdsr.Prelude.{
  ℕ, zero, suc, ◌≡◌, refl, ◌∙◌, Bool, true, false, not, ◌&&◌, Option, none, some, List, [], ◌∷◌,
  arith, leb, ◌==◌, if◌then◌else◌,
}
use qmdsr.CpuGuard.{
  CpuMonitorConfig, Usage, CpuMonitor, LoopState, loop_start, set_usage, at_least, at_most,
  need_above, need_below, need_critical, overload_switch, critical_switch, observe, sub_u64, tick,
}
use qmdsr.CpuGuard.Samples.{required_samples-pos}

-- The samples of a history, newest first, from the newest back to the first that fails the test.
trailing : (Usage → Bool) → List Usage → ℕ
trailing p [] = 0
trailing p (u ∷ h) = if p u then suc (trailing p h) else 0

-- The last `n` samples pass the test.
unfoldable pub run_of : (Usage → Bool) → ℕ → List Usage → Bool
run_of p zero h = true
run_of p (suc n) [] = false
run_of p (suc n) (u ∷ h) = p u && run_of p n h

run_of-trailing : (p : Usage → Bool) (n : ℕ) (h : List Usage) → run_of p n h ≡ leb n (trailing p h)
unfolding run_of trailing
run_of-trailing p zero h = ground arith
run_of-trailing p (suc n) [] = ground arith
run_of-trailing p (suc n) (u ∷ h) = ground (arith, run_of-trailing p n h)

-- The flag that a history calls for, by whole windows: on after `n` samples that pass `on`, off after
-- `k` samples that pass `off`, and else as it was.
unfoldable pub flag : (Usage → Bool) → ℕ → (Usage → Bool) → ℕ → List Usage → Bool
flag on n off k [] = false
flag on n off k (u ∷ h) =
    if run_of on n (u ∷ h) then true else if run_of off k (u ∷ h) then false else flag on n off k h

abbrev pub is_hot : CpuMonitorConfig → Usage → Bool
is_hot c u = at_least u c.overload_percent

abbrev pub is_cold : CpuMonitorConfig → Usage → Bool
is_cold c u = not (at_least u c.overload_percent) && at_most u c.recover_percent

abbrev pub is_critical : CpuMonitorConfig → Usage → Bool
is_critical c u = at_least u c.critical_percent

abbrev pub is_calm : CpuMonitorConfig → Usage → Bool
is_calm c u = not (at_least u c.critical_percent) && at_most u c.overload_percent

-- The usage that a reading gives, if it gives one.
unfoldable pub measured : LoopState → Option (ℕ × ℕ) → Option Usage
measured l none = none
measured l (some (idle, total)) =
    if sub_u64 total l.prev_total == 0
    then none
    else some (record {
      busy = sub_u64 (sub_u64 total l.prev_total) (sub_u64 idle l.prev_idle);
      total = sub_u64 total l.prev_total;
    })

-- The states that the loop reaches from a monitor, with the samples taken so far, newest first.
pub data Reach (m₀ : CpuMonitor) : LoopState → CpuMonitor → List Usage → Type 0 where
  start : (idle total : ℕ) → Reach m₀ (loop_start idle total) m₀ []
  skip :
      {l : LoopState} {m : CpuMonitor} {h : List Usage} (r : Option (ℕ × ℕ)) (now : ℕ)
      → Reach m₀ l m h
      → measured l r ≡ none
      → Reach m₀ (tick l m r now).0 (tick l m r now).1 h
  sample :
      {l : LoopState} {m : CpuMonitor} {h : List Usage} (r : Option (ℕ × ℕ)) (now : ℕ) (u : Usage)
      → Reach m₀ l m h
      → measured l r ≡ some u
      → Reach m₀ (tick l m r now).0 (tick l m r now).1 (u ∷ h)

record Follows (c : CpuMonitorConfig) (l : LoopState) (m : CpuMonitor) (h : List Usage)
    : Type 0 where
  cfg : m.cfg ≡ c
  above : l.above_count ≡ trailing (is_hot c) h
  below : l.below_count ≡ trailing (is_cold c) h
  critical_above : l.critical_above_count ≡ trailing (is_critical c) h
  critical_below : l.critical_below_count ≡ trailing (is_calm c) h
  overloaded : m.overloaded ≡ flag (is_hot c) (need_above c) (is_cold c) (need_below c) h
  critical : m.critical ≡ flag (is_critical c) (need_critical c) (is_calm c) (need_below c) h

module _ {c : CpuMonitorConfig} {l : LoopState} {m : CpuMonitor} {h : List Usage} (u : Usage)
    (now : ℕ) where
  overload_switch-Follows :
      Follows c l m h
      → let (l', m') = overload_switch l m u now in
        (m'.cfg ≡ c)
        × (l'.above_count ≡ trailing (is_hot c) (u ∷ h))
        × (l'.below_count ≡ trailing (is_cold c) (u ∷ h))
        × (m'.overloaded ≡ flag (is_hot c) (need_above c) (is_cold c) (need_below c) (u ∷ h))
        × (l'.critical_above_count ≡ l.critical_above_count)
        × (l'.critical_below_count ≡ l.critical_below_count)
        × (m'.critical ≡ m.critical)
  unfolding overload_switch trailing flag
  overload_switch-Follows f = ground (
    arith,
    run_of-trailing (is_hot c) (need_above c) (u ∷ h),
    run_of-trailing (is_cold c) (need_below c) (u ∷ h),
    required_samples-pos c.overload_sustain c.sample_interval,
    required_samples-pos c.recover_sustain c.sample_interval,
  )

module _ {c : CpuMonitorConfig} (l : LoopState) (m : CpuMonitor) (h : List Usage) (u : Usage)
    (now : ℕ) where
  critical_switch-Follows :
      m.cfg ≡ c
      → l.critical_above_count ≡ trailing (is_critical c) h
      → l.critical_below_count ≡ trailing (is_calm c) h
      → m.critical ≡ flag (is_critical c) (need_critical c) (is_calm c) (need_below c) h
      → let (l', m') = critical_switch l m u now in
        (m'.cfg ≡ c)
        × (l'.above_count ≡ l.above_count)
        × (l'.below_count ≡ l.below_count)
        × (m'.overloaded ≡ m.overloaded)
        × (l'.critical_above_count ≡ trailing (is_critical c) (u ∷ h))
        × (l'.critical_below_count ≡ trailing (is_calm c) (u ∷ h))
        × (m'.critical ≡ flag (is_critical c) (need_critical c) (is_calm c) (need_below c) (u ∷ h))
  unfolding critical_switch trailing flag
  critical_switch-Follows a b d e = ground (
    arith,
    run_of-trailing (is_critical c) (need_critical c) (u ∷ h),
    run_of-trailing (is_calm c) (need_below c) (u ∷ h),
    required_samples-pos c.critical_sustain c.sample_interval,
    required_samples-pos c.recover_sustain c.sample_interval,
  )

Follows-set_usage :
    {c : CpuMonitorConfig} {l : LoopState} {m : CpuMonitor} {h : List Usage} (u : Usage) (now : ℕ)
    → Follows c l m h
    → Follows c l (set_usage m u now) h
unfolding set_usage
Follows-set_usage u now f = assumption

Follows-observe :
    {c : CpuMonitorConfig} {l : LoopState} (m : CpuMonitor) {h : List Usage} (u : Usage) (now : ℕ)
    → Follows c l (set_usage m u now) h
    → Follows c (observe l m u now).0 (observe l m u now).1 (u ∷ h)
unfolding observe
Follows-observe {l} m {h} u now f =
    let (l', m') = overload_switch l (set_usage m u now) u now in
    let (a, b, d, e, x, y, z) = overload_switch-Follows u now f in
    let (a', b', d', e', x', y', z') =
      critical_switch-Follows l' m' h u now a (x ∙ f.critical_above) (y ∙ f.critical_below)
        (z ∙ f.critical) in
    record {
      cfg = a';
      above = b' ∙ b;
      below = d' ∙ d;
      critical_above = x';
      critical_below = y';
      overloaded = e' ∙ e;
      critical = z';
    }

-- The loop state with the reading stored.
read : LoopState → Option (ℕ × ℕ) → LoopState
read l none = l
read l (some (idle, total)) = record l { prev_idle = idle; prev_total = total }

tick_of_none :
    (l : LoopState) (m : CpuMonitor) (r : Option (ℕ × ℕ)) (now : ℕ)
    → measured l r ≡ none
    → tick l m r now ≡ (read l r, m)
unfolding tick measured read
tick_of_none l m none now e = refl
tick_of_none l m (some (idle, total)) now e = ground arith

tick_of_some :
    (l : LoopState) (m : CpuMonitor) (r : Option (ℕ × ℕ)) (now : ℕ) (u : Usage)
    → measured l r ≡ some u
    → tick l m r now ≡ observe (read l r) m u now
unfolding tick measured read
tick_of_some l m none now u e = cc
tick_of_some l m (some (idle, total)) now u e = ground arith

Follows-read :
    {c : CpuMonitorConfig} {l : LoopState} {m : CpuMonitor} {h : List Usage} (r : Option (ℕ × ℕ))
    → Follows c l m h
    → Follows c (read l r) m h
unfolding read
Follows-read none f = f
Follows-read (some (idle, total)) f = assumption

Reach-Follows :
    {m₀ : CpuMonitor} {l : LoopState} {m : CpuMonitor} {h : List Usage}
    → m₀.overloaded ≡ false
    → m₀.critical ≡ false
    → Reach m₀ l m h
    → Follows m₀.cfg l m h
unfolding loop_start trailing flag
Reach-Follows a b (start idle total) = record {
  cfg = refl;
  above = refl;
  below = refl;
  critical_above = refl;
  critical_below = refl;
  overloaded = a;
  critical = b;
}
Reach-Follows a b (skip {l} {m} r now q e) =
    rw (tick_of_none l m r now e) (Follows-read r (Reach-Follows a b q))
Reach-Follows a b (sample {l} {m} r now u q e) =
    rw (tick_of_some l m r now u e)
      (Follows-observe m u now (Follows-set_usage u now (Follows-read r (Reach-Follows a b q))))

-- In every state that the loop reaches from a monitor with both flags off, each flag is what whole
-- windows of the history call for: overload is on if the last window of `need_above` samples at or
-- above the threshold is newer than the last window of `need_below` samples at or below the
-- recovery threshold, and the critical flag likewise, recovering by the overload threshold.
pub Reach-flags :
    {m₀ : CpuMonitor} {l : LoopState} {m : CpuMonitor} {h : List Usage}
    → m₀.overloaded ≡ false
    → m₀.critical ≡ false
    → Reach m₀ l m h
    → (m.overloaded
        ≡ flag (is_hot m₀.cfg) (need_above m₀.cfg) (is_cold m₀.cfg) (need_below m₀.cfg) h)
      × (m.critical
          ≡ flag (is_critical m₀.cfg) (need_critical m₀.cfg) (is_calm m₀.cfg) (need_below m₀.cfg) h)
Reach-flags a b r = let f = Reach-Follows a b r in (f.overloaded, f.critical)
