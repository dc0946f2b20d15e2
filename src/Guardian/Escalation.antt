-- ===== src/Guardian/Escalation.antt =====
-- guardian/guardian.go: what a row of failing checks leads to.
use qmdsr.Prelude.{ℕ, zero, suc, ◌+◌, ◌-◌, ◌*◌, ◌≤◌, ◌<◌, ◌≡◌, true, false, arith, if◌then◌else◌}
use qmdsr.Prelude.Int.{ℤ, pos}
use native.Mathlib.Decide.{dec_lt}
use qmdsr.Guardian.{Guardian, check}

-- `n` failing checks in a row, at the times given by a clock, and the restarts that they spawn.
unfoldable pub failures : ℤ → (ℕ → ℕ) → ℕ → Guardian → Guardian × ℕ
failures m clock zero g = (g, 0)
failures m clock (suc n) g =
    let (g', k) = failures m clock n g in
    let (g'', spawn) = check m false (clock n) g' in (g'', if spawn then k + 1 else k)

-- A failing check that leaves retries counts itself and spawns a restart.
check_below :
    (r now : ℕ) (g : Guardian)
    → g.fail_count < r
    → ((check (pos (suc r)) false now g).0.fail_count ≡ g.fail_count + 1)
      × ((check (pos (suc r)) false now g).1 ≡ true)
unfolding check
check_below r now g h = ground arith

-- The one that uses up the retries starts the count again and spawns nothing.
check_last :
    (r now : ℕ) (g : Guardian)
    → g.fail_count ≡ r
    → ((check (pos (suc r)) false now g).0.fail_count ≡ 0)
      × ((check (pos (suc r)) false now g).1 ≡ false)
unfolding check
check_last r now g h = ground arith

-- With `r + 1` retries, `n` failing checks after `f ≤ r` counted ones leave the count at the remainder
-- of `f + n` by `r + 1`, and each spawns a restart except those that complete a full row.
pub failures_lem :
    (r : ℕ) (clock : ℕ → ℕ) (n : ℕ) (g : Guardian)
    → g.fail_count ≤ r
    → let (g', k) = failures (pos (suc r)) clock n g in
      (g'.fail_count + suc r * (n - k) ≡ g.fail_count + n) × (g'.fail_count ≤ r) × (k ≤ n)
unfolding failures
failures_lem r clock zero g h = (omega arith, h, omega arith)
failures_lem r clock (suc n) g h =
    let (a, b, c) = failures_lem r clock n g h in
    let (g', k) = failures (pos (suc r)) clock n g in
    let full : suc n - k ≡ suc (n - k) = omega arith in
    let spawned : suc n - (k + 1) ≡ n - k = omega arith in
    elim (dec_lt g'.fail_count r) [
      | yes below ↦
          let (count, again) = check_below r (clock n) g' below in
          rw (again, count, spawned) (omega arith, omega arith, omega arith)
      | no top ↦
          let (count, again) = check_last r (clock n) g' (omega arith) in
          rw (again, count, full) (omega arith, omega arith, omega arith)
    ]

check_last_cli :
    (r now : ℕ) (g : Guardian)
    → g.fail_count ≡ r
    → (check (pos (suc r)) false now g).0.cli_mode ≡ true
unfolding check
check_last_cli r now g h = ground arith

check_stays_cli :
    (m : ℤ) (now : ℕ) (g : Guardian) → g.cli_mode ≡ true → (check m false now g).0.cli_mode ≡ true
unfolding check
check_stays_cli m now g h = ground arith

-- With `r + 1` retries, as soon as the failures counted before and `n` failing checks in a row make
-- `r + 1`, the service is in CLI mode.
pub failures_reach_cli :
    (r : ℕ) (clock : ℕ → ℕ) (n : ℕ) (g : Guardian)
    → g.fail_count ≤ r
    → r < g.fail_count + n
    → (failures (pos (suc r)) clock n g).0.cli_mode ≡ true
unfolding failures
failures_reach_cli r clock zero g h reached = absurd (omega arith)
failures_reach_cli r clock (suc n) g h reached =
    let (g', k) = failures (pos (suc r)) clock n g in
    elim (dec_lt r (g.fail_count + n)) [
      | yes before ↦
          check_stays_cli (pos (suc r)) (clock n) g' (failures_reach_cli r clock n g h before)
      | no now_full ↦
          let (a, b, c) = failures_lem r clock n g h in
          let last : g'.fail_count ≡ r =
            row_ends r (n - k) g'.fail_count (g.fail_count + n) a b (omega arith) in
          check_last_cli r (clock n) g' last
    ]
  where
    row_ends : (r q f t : ℕ) → f + suc r * q ≡ t → f ≤ r → t ≡ r → f ≡ r
    row_ends r zero f t e b d = omega arith
    row_ends r (suc q) f t e b d = absurd (omega arith)
