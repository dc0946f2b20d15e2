-- ===== src/Router.antt =====
-- router/router.go: the mode that a query calls for.
use Prim.Native.String.{String}
use text.Mathlib.Text.{◌==◌ as str_eq}
use qmdsr.Prelude.{
  ℕ, ◌+◌, ◌*◌, Bool, not, ◌&&◌, ◌||◌, List, [], ◌∷◌, ltb, leb, ◌==◌, if◌then◌else◌, exists,
}
use Prim.Native.Char.{code}
use qmdsr.Prelude.Text.{is_space}
use qmdsr.Textutil.{count_words_mixed}

-- `strings.TrimSpace`, `ToLower`, `Fields`, `HasPrefix`, `Contains` (the text first), and whether the
-- pattern of a quotation matches.
pub record Strings : Type 0 where
  pub trim : String → String
  pub lower : String → String
  pub fields : String → List String
  pub has_prefix : String → String → Bool
  pub contains : String → String → Bool
  pub has_quotation : String → Bool

abbrev pub question_prefix : List String
question_prefix =
    "如何" ∷ "怎么" ∷ "怎样" ∷ "什么" ∷ "为什么" ∷ "为何" ∷ "哪些" ∷ "哪个" ∷ "哪里" ∷ "谁" ∷ "多少" ∷ "是否" ∷ "能不能" ∷ "可以"
    ∷ "应该" ∷ []

abbrev pub temporal_words : List String
temporal_words =
    "之前" ∷ "上次" ∷ "昨天" ∷ "今天" ∷ "最近" ∷ "过去" ∷ "以前" ∷ "历史" ∷ "曾经" ∷ "earlier" ∷ "previous"
    ∷ "last time" ∷ []

-- The runes below 128 and all runes, without spaces.
unfoldable pub ascii_of_total : String → ℕ × ℕ
ascii_of_total String.[] = (0, 0)
ascii_of_total (String.◌∷◌ r s) =
    let (ascii, total) = ascii_of_total s in
    if is_space (code r)
    then (ascii, total)
    else ((if ltb (code r) 128 then ascii + 1 else ascii), total + 1)

-- More than four fifths.
unfoldable pub is_predominantly_ascii : String → Bool
is_predominantly_ascii s =
    let (ascii, total) = ascii_of_total s in total == 0 || ltb (4 * total) (5 * ascii)

unfoldable pub detect_mode : Strings → String → Bool → Bool → String
detect_mode t query has_vector has_deep_query =
    let q = t.trim query in
    let words = count_words_mixed q in
    if str_eq q ""
    then "search"
    else if t.has_quotation q
    then "search"
    else if leb words 3 && is_predominantly_ascii q
    then "search"
    else if has_deep_query && exists (t.has_prefix q) question_prefix
    then "query"
    else if has_deep_query && exists (t.contains q) temporal_words
    then "query"
    else if has_deep_query && ltb 8 words
    then "query"
    else if has_vector && leb 4 words
    then "vsearch"
    else if has_vector && not (is_predominantly_ascii q) && leb 2 words
    then "vsearch"
    else if leb words 3 && is_predominantly_ascii q
    then "search"
    else "search"
