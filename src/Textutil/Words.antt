-- ===== src/Textutil/Words.antt =====
-- internal/textutil/textutil.go: how many words a text has.
use Prim.Native.String.{String}
use qmdsr.Prelude.{ℕ, ◌+◌, ◌*◌, ◌≡◌, inl, inr, Bool, true, false, arith, if◌then◌else◌, Bool-cases}
use Prim.Native.Char.{code}
use qmdsr.Prelude.Text.{is_space}
use qmdsr.Textutil.{is_cjk, count_cjk, words_from, count_words_mixed}

-- The runs of neither space nor CJK that a space or the end of the text closes, from whether one is
-- open: one that a CJK rune follows is not among them.
unfoldable pub runs_from : Bool → String → ℕ
runs_from in_run String.[] = if in_run then 1 else 0
runs_from in_run (String.◌∷◌ r s) =
    let shut = runs_from false s in
    let more = runs_from true s in
    if is_space (code r)
    then (if in_run then shut + 1 else shut)
    else if is_cjk (code r)
    then shut
    else more

is_space-cjk : (r : ℕ) → is_space r ≡ true → is_cjk r ≡ false
unfolding is_cjk
is_space-cjk r h = ground arith

words_from_lem : (b : Bool) (s : String) → words_from b s ≡ 2 * count_cjk s + runs_from b s
unfolding words_from count_cjk runs_from
words_from_lem b String.[] = omega arith
words_from_lem b (String.◌∷◌ r s) =
    let shut : words_from false s ≡ 2 * count_cjk s + runs_from false s = words_from_lem false s in
    let more : words_from true s ≡ 2 * count_cjk s + runs_from true s = words_from_lem true s in
    elim (Bool-cases (is_space (code r))) [
      | inl space ↦ rw (space, is_space-cjk (code r) space) (ground (arith, shut))
      | inr q ↦ elim (Bool-cases (is_cjk (code r))) [
        | inl cjk ↦ rw (q, cjk) (omega (arith, shut))
        | inr other ↦ rw (q, other) more
      ]
    ]

-- The mixed count gives two words for each CJK rune, and one for each run of other runes that a space
-- or the end of the text closes.
pub count_words_mixed_lem : (s : String) → count_words_mixed s ≡ 2 * count_cjk s + runs_from false s
unfolding count_words_mixed
count_words_mixed_lem s = words_from_lem false s
