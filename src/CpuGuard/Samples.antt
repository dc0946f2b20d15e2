-- ===== src/CpuGuard/Samples.antt =====
-- internal/resourceguard/cpu_monitor.go: how many samples a sustain window takes.
use qmdsr.Prelude.{
  ℕ, zero, suc, ◌+◌, ◌-◌, ◌*◌, ◌/◌, ◌%◌, ◌≤◌, ◌<◌, ◌≡◌, false, arith, ltb, ◌==◌, if◌then◌else◌,
}
use qmdsr.Prelude.Int.{ℤ, pos, negsuc}
use mathlib.Core.Path.{subst}
use native.Mathlib.Nat.{div-add-mod, mod-lt}
use qmdsr.CpuGuard.{required_samples}

pub required_samples-pos : (d i : ℤ) → 0 < required_samples d i
unfolding required_samples
required_samples-pos (pos (suc d)) (pos (suc i)) = ground arith
required_samples-pos (pos zero) i = omega arith
required_samples-pos (pos (suc d)) (pos zero) = omega arith
required_samples-pos (pos (suc d)) (negsuc i) = omega arith
required_samples-pos (negsuc d) i = omega arith

at_least_one : (n : ℕ) → 0 < n → (if ltb n 1 then 1 else n) ≡ n
at_least_one n h = ground arith

round_up_pos : (q r i : ℕ) → 0 < i * q + r → 0 < (if r == 0 then q else q + 1)
round_up_pos zero zero i h = absurd (omega arith)
round_up_pos zero (suc r) i h = ground arith
round_up_pos (suc q) r i h = ground arith

-- The least number of intervals `i` that cover `i * q + r`.
round_up_least :
    (q r i : ℕ)
    → r < i
    → 0 < i * q + r
    → let n = if r == 0 then q else q + 1 in (i * q + r ≤ n * i) × ((n - 1) * i < i * q + r)
round_up_least zero zero i lt p = absurd (omega arith)
round_up_least (suc q) zero i lt p =
    let e : suc q - 1 ≡ q = omega arith in (omega arith, rw e (omega arith))
round_up_least q (suc r) i lt p =
    let e : (suc r == 0) ≡ false = ground arith in
    let e' : q + 1 - 1 ≡ q = omega arith in rw e (omega arith, rw e' (omega arith))

-- For a positive window `d` and a positive interval `i`, the number of samples is the least whose
-- intervals cover the window: they last at least `d`, and one fewer would last less than `d`.
pub required_samples_least :
    (d i : ℕ)
    → 0 < d
    → 0 < i
    → (d ≤ required_samples (pos d) (pos i) * i) × ((required_samples (pos d) (pos i) - 1) * i < d)
unfolding required_samples
required_samples_least zero i p q = elim p [ ]
required_samples_least (suc d) zero p q = elim q [ ]
required_samples_least (suc d) (suc i) p q =
    let e = div-add-mod (suc d) (suc i) in
    let positive : 0 < suc i * (suc d / suc i) + suc d % suc i = rw e p in
    rw (at_least_one _ (round_up_pos (suc d / suc i) (suc d % suc i) (suc i) positive)) (
      subst
        (λ (t : ℕ).
          let n = if suc d % suc i == 0 then suc d / suc i else suc d / suc i + 1 in
          (t ≤ n * suc i) × ((n - 1) * suc i < t))
        e
        (round_up_least (suc d / suc i) (suc d % suc i) (suc i) (mod-lt (suc d) (omega arith))
          positive))
