-- ===== src/Textutil.antt =====
-- internal/textutil: words of mixed scripts, and snippets of a bounded length.
pub mod Lengths
pub mod Words
mod Examples
use Prim.Native.String.{String}
use text.Mathlib.Text.{◌==◌ as str_eq}
use text.Mathlib.TextEquality.{eq_iff}
use qmdsr.Prelude.{
  ℕ, zero, suc, ◌+◌, ◌-◌, ◌*◌, ◌/◌, ◌%◌, ◌^◌, ◌≤◌, ◌<◌, min, max, ◌≡◌, refl, sym, ap, ◌∙◌, ◌≢◌, ◌↔◌,
  ◌⊎◌, inl, inr, Bool, true, false, not, ◌&&◌, ◌||◌, Option, none, some, List, [], ◌∷◌, ◌++◌, map,
  arith, ltb, leb, ◌==◌, if◌then◌else◌, ltb→lt, lt→ltb, leb→le, Bool-cases, pick_true, pick_false,
  Option-cases, length, take, replicate, select, exists, All, count, count_hit, count_miss,
  length-append, length-take, length-select-le, All-append, All-take,
}
use qmdsr.Prelude.Int.{
  ℤ, pos, negsuc, pos_part, neg_part, sub_ℕ, ◌≤ℤ◌, ltb_ℤ, leb_ℤ, is_zero, is_nonpos, is_pos,
}
use Prim.Native.Char.{code}
use Prim.Native.String.{◌++◌ as str_append}
use qmdsr.Prelude.Text.{is_space, rune_count, take_runes}

unfoldable pub is_cjk : ℕ → Bool
is_cjk r =
    leb 0x4E00 r && leb r 0x9FFF
    || leb 0x3400 r && leb r 0x4DBF
    || leb 0x20000 r && leb r 0x2A6DF
    || leb 0xF900 r && leb r 0xFAFF

unfoldable pub count_cjk : String → ℕ
count_cjk String.[] = 0
count_cjk (String.◌∷◌ r s) = let rest = count_cjk s in if is_cjk (code r) then rest + 1 else rest

-- The loop of `CountWordsMixed`, from whether a word is open: what it adds to the count.
unfoldable pub words_from : Bool → String → ℕ
words_from in_word String.[] = if in_word then 1 else 0
words_from in_word (String.◌∷◌ r s) =
    let closed = words_from false s in
    let opened = words_from true s in
    if is_space (code r)
    then (if in_word then closed + 1 else closed)
    else if is_cjk (code r)
    then closed + 2
    else opened

unfoldable pub count_words_mixed : String → ℕ
count_words_mixed s = words_from false s

-- `CountWordsMaxFieldsOrCJK`, from the number of fields that `strings.Fields` finds.
unfoldable pub max_fields_or_cjk : (String → List String) → String → ℕ
max_fields_or_cjk fields s =
    let ascii_words = length (fields s) in
    let cjk_words = count_cjk s in if ltb ascii_words cjk_words then cjk_words else ascii_words

unfoldable pub is_sentence_end : ℕ → Bool
is_sentence_end r =
    r == 0x3002 || r == 46 || r == 0xFF1F || r == 63 || r == 0xFF01 || r == 33 || r == 10

-- `rs[i]`, for an index within the text.
unfoldable pub rune_at : ℕ → String → ℕ
rune_at i String.[] = 0
rune_at zero (String.◌∷◌ r s) = code r
rune_at (suc i) (String.◌∷◌ r s) = rune_at i s

-- The loop that looks for the end of a sentence, down from index `i - 1` over `n` indices.
unfoldable pub cut_from : String → ℕ → ℕ → ℕ → ℕ
cut_from s cut zero i = cut
cut_from s cut (suc n) i =
    let rest = cut_from s cut n (i - 1) in if is_sentence_end (rune_at (i - 1) s) then i else rest

-- The cut: the loop runs from `cut - 1` down to `cut - 200`, or to 0.
unfoldable pub cut_of : String → ℕ → ℕ
cut_of s cut = cut_from s cut (min cut 200) cut

-- `strip` is what the regular expressions leave of a text, `trim` is `strings.TrimSpace`.
unfoldable pub clean_snippet : (String → String) → (String → String) → String → ℤ → String
clean_snippet strip trim s max_len =
    let t = trim (strip s) in
    let m = pos_part max_len in
    if is_pos max_len && ltb m (rune_count t)
    then (if leb m 3
        then take_runes m t
        else str_append (trim (take_runes (cut_of t (m - 3)) t)) "...")
    else t
