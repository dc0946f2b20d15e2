-- ===== src/Textutil/Examples.antt =====
-- Texts of two scripts, and the theorems about them.
use qmdsr.Prelude.{◌+◌, ◌*◌, ◌≤◌, ◌≡◌, refl, false, arith}
use qmdsr.Prelude.Int.{pos}
use qmdsr.Prelude.Text.{rune_count}
use qmdsr.Textutil.{
  is_cjk, count_cjk, words_from, count_words_mixed, is_sentence_end, rune_at, cut_from, cut_of,
  clean_snippet,
}
use qmdsr.Textutil.Lengths.{rune_count-clean_snippet}
use qmdsr.Textutil.Words.{runs_from, count_words_mixed_lem}

program : Unit {0}
unfolding is_cjk count_cjk words_from count_words_mixed is_sentence_end rune_at cut_from cut_of
    clean_snippet runs_from
program = tt

count_words_mixed_lem_example :
    count_words_mixed "go 网络 plan" ≡ 2 * count_cjk "go 网络 plan" + runs_from false "go 网络 plan"
count_words_mixed_lem_example = count_words_mixed_lem "go 网络 plan"

-- A text of two CJK runes counts as four words.
two_runes : count_words_mixed "网络" ≡ 4
unfolding program
two_runes = refl

after_word : count_words_mixed "go网" ≡ 2
unfolding program
after_word = refl

rune_count-clean_snippet_example :
    rune_count (clean_snippet (λ s. s) (λ s. s) "One. Two three four" (pos 12)) ≤ 12
rune_count-clean_snippet_example =
    rune_count-clean_snippet (λ s. s) (λ s. s) "One. Two three four" (pos 12) (λ x. omega arith)
      refl

cut_at_sentence : clean_snippet (λ s. s) (λ s. s) "One. Two three four" (pos 12) ≡ "One...."
unfolding program
cut_at_sentence = refl
