-- ===== src/Textutil/Lengths.antt =====
-- internal/textutil: how long a cleaned snippet is.
use Prim.Native.String.{String}
use qmdsr.Prelude.{ℕ, zero, suc, ◌+◌, ◌-◌, ◌≤◌, min, ◌≡◌, true, arith}
use qmdsr.Prelude.Int.{ℤ, pos_part, is_pos}
use Prim.Native.String.{◌++◌ as str_append}
use text.Mathlib.TextLemmas.{cons-append, nil-append}
use qmdsr.Prelude.Text.{rune_count, take_runes}
use qmdsr.Textutil.{cut_from, cut_of, clean_snippet}

pub rune_count-append : (s t : String) → rune_count (str_append s t) ≡ rune_count s + rune_count t
rune_count-append String.[] t = rw (nil-append t) (omega arith)
rune_count-append (String.◌∷◌ c s) t = rw (cons-append c s t) (omega (arith, rune_count-append s t))

pub rune_count-take_runes :
    (n : ℕ) (s : String) → rune_count (take_runes n s) ≡ min n (rune_count s)
rune_count-take_runes zero s = omega arith
rune_count-take_runes (suc n) String.[] = omega arith
rune_count-take_runes (suc n) (String.◌∷◌ c s) = omega (arith, rune_count-take_runes n s)

cut_from-le : (s : String) (cut n i : ℕ) → i ≤ cut → cut_from s cut n i ≤ cut
unfolding cut_from
cut_from-le s cut zero i le = omega arith
cut_from-le s cut (suc n) i le = ground (arith, cut_from-le s cut n (i - 1))

-- If trimming does not lengthen, a cleaned snippet is never longer than the maximum, if there is one.
pub rune_count-clean_snippet :
    (strip trim : String → String) (s : String) (max_len : ℤ)
    → ((x : String) → rune_count (trim x) ≤ rune_count x)
    → is_pos max_len ≡ true
    → rune_count (clean_snippet strip trim s max_len) ≤ pos_part max_len
unfolding clean_snippet cut_of
rune_count-clean_snippet strip trim s max_len shorter lim =
    let t = trim (strip s) in
    let m = pos_part max_len in
    let c = cut_of t (m - 3) in
    let le : c ≤ m - 3 = cut_from-le t (m - 3) (min (m - 3) 200) (m - 3) (omega arith) in
    let body : rune_count (trim (take_runes c t)) ≤ m - 3 =
      omega (arith, shorter (take_runes c t), rune_count-take_runes c t, le) in
    let whole : rune_count (str_append (trim (take_runes c t)) "...") ≤ (m - 3) + 3 =
      rw (rune_count-append (trim (take_runes c t)) "...") (omega (arith, body)) in
    ground (arith, whole, rune_count-take_runes m t, lim)
