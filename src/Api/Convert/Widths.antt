-- ===== src/Api/Convert/Widths.antt =====
-- api/convert.go and api/admin_core.go: numbers fit the 32 bits of the messages.
use qmdsr.Prelude.{◌/◌, ◌≤◌, ◌≡◌, arith}
use qmdsr.Prelude.Int.{ℤ, pos, negsuc, pos_part, ◌≤ℤ◌}
use qmdsr.Api.Convert.{
  max_int32, duration_to_int32, duration_to_int32_milliseconds, duration_to_int32_seconds,
  int_to_int32, wrap_int32,
}

-- A duration in milliseconds or seconds fits in 31 bits; while it does, nothing of it but the
-- remainder is lost, and one that is not positive is none; a longer duration never becomes a shorter
-- number. A clamped integer is within 32 bits, and is the integer itself if that is.
pub int32_lem :
    (d e : ℤ)
    → (duration_to_int32_milliseconds d ≤ max_int32)
      × (duration_to_int32_seconds d ≤ max_int32)
      × (pos_part d / 1_000_000 ≤ max_int32
          → duration_to_int32_milliseconds d ≡ pos_part d / 1_000_000)
      × (pos_part d / 1_000_000_000 ≤ max_int32
          → duration_to_int32_seconds d ≡ pos_part d / 1_000_000_000)
      × (d ≤ℤ e → duration_to_int32_milliseconds d ≤ duration_to_int32_milliseconds e)
      × (negsuc max_int32 ≤ℤ int_to_int32 d)
      × (int_to_int32 d ≤ℤ pos max_int32)
      × (negsuc max_int32 ≤ℤ d → d ≤ℤ pos max_int32 → int_to_int32 d ≡ d)
unfolding duration_to_int32 duration_to_int32_milliseconds duration_to_int32_seconds int_to_int32
int32_lem d e = (
  ground arith,
  ground arith,
  λ h. ground (arith, h),
  λ h. ground (arith, h),
  λ h. ground (arith, h),
  ground arith,
  ground arith,
  λ a b. ground (arith, a, b),
)

-- The wrapping conversion keeps what fits.
pub wrap_int32_lem : (x : ℤ) → negsuc max_int32 ≤ℤ x → x ≤ℤ pos max_int32 → wrap_int32 x ≡ x
unfolding wrap_int32
wrap_int32_lem (pos n) a b = ground (arith, a, b)
wrap_int32_lem (negsuc n) a b = ground (arith, a, b)
