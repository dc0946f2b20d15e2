-- ===== src/Api/Format.antt =====
-- api/format.go: the text of an answer.
use Prim.Native.String.{String}
use text.Mathlib.Text.{◌==◌ as str_eq}
use qmdsr.Prelude.{
  ℕ, ◌+◌, Bool, not, List, [], ◌∷◌, ltb, ◌==◌, if◌then◌else◌, length, select, exists,
}
use qmdsr.Prelude.Int.{pos}
use Prim.Native.String.{◌++◌ as str_append}
use qmdsr.Types.{Score, SearchResult, SearchMeta, Document}

-- `strings.TrimSpace`, `Split` by line ends and `Contains` (the text first), `json.Valid`, and the
-- formats `%d` and `%.2f`.
pub record Printer : Type 0 where
  pub trim : String → String
  pub lines : String → List String
  pub contains : String → String → Bool
  pub json_valid : String → Bool
  pub show : ℕ → String
  pub show_score : Score → String

-- The texts that a `strings.Builder` is given, one after another.
unfoldable pub concat : List String → String
concat [] = ""
concat (s ∷ ss) = str_append s (concat ss)

unfoldable pub comma_separated : List String → String
comma_separated [] = ""
comma_separated (s ∷ []) = s
comma_separated (s ∷ t ∷ ss) = str_append s (str_append ", " (comma_separated (t ∷ ss)))

unfoldable pub format_scope : List String → String
format_scope collections = if length collections == 0 then "all" else comma_separated collections

module _ (p : Printer) where
  unfoldable pub preferred_hit_uri : SearchResult → String
  preferred_hit_uri r = if not (str_eq (p.trim r.file) "") then r.file else r.title

  unfoldable pub find_score_by_uri : List SearchResult → String → Score
  find_score_by_uri [] uri = pos 0
  find_score_by_uri (h ∷ hits) uri =
      if str_eq (preferred_hit_uri h) uri then h.score else find_score_by_uri hits uri

  -- `%s (%.2f)` and a line end.
  unfoldable pub hit_line : SearchResult → String
  hit_line r = concat (preferred_hit_uri r ∷ " (" ∷ p.show_score r.score ∷ ")\n" ∷ [])

  unfoldable pub hit_lines : List SearchResult → String
  hit_lines [] = ""
  hit_lines (r ∷ rs) = str_append (hit_line r) (hit_lines rs)

  unfoldable pub indented : List String → String
  indented [] = ""
  indented (l ∷ ls) = concat ("   " ∷ l ∷ "\n" ∷ indented ls ∷ [])

  -- The loop over the hits, from the index `i`.
  unfoldable pub numbered : ℕ → List SearchResult → String
  numbered i [] = ""
  numbered i (r ∷ rs) =
      let snippet = p.trim r.snippet in
      concat (
        p.show (i + 1)
        ∷ ". ["
        ∷ p.show_score r.score
        ∷ "] "
        ∷ preferred_hit_uri r
        ∷ "\n"
        ∷ (if str_eq snippet "" then "" else indented (p.lines snippet))
        ∷ "\n"
        ∷ numbered (i + 1) rs
        ∷ [])

  unfoldable pub render_formatted_text : List SearchResult → SearchMeta → Bool → String
  render_formatted_text results meta files_only =
      let hits = p.show (length results) in
      if files_only
      then p.trim (concat ("## 相关文件 (" ∷ hits ∷ " hits)\n\n" ∷ hit_lines results ∷ []))
      else p.trim (
          concat (
            "## 检索结果 ("
            ∷ format_scope meta.collections_searched
            ∷ ", "
            ∷ hits
            ∷ " hits)\n\n"
            ∷ numbered 0 results
            ∷ []))

  unfoldable pub detect_structured_language : String → String
  detect_structured_language content = if p.json_valid content then "json" else ""

  unfoldable pub fence_block : String → String → String
  fence_block content language =
      let fence = if p.contains content "```" then "````" else "```" in
      if str_eq language ""
      then concat (fence ∷ "\n" ∷ content ∷ "\n" ∷ fence ∷ [])
      else concat (fence ∷ language ∷ "\n" ∷ content ∷ "\n" ∷ fence ∷ [])

  unfoldable pub preserve_structured_block : String → String
  preserve_structured_block content =
      let language = detect_structured_language (p.trim content) in
      if str_eq content ""
      then ""
      else if not (str_eq language "")
      then fence_block content language
      else content

  -- The loop over the documents, from the index `i`, of `total`.
  unfoldable pub read_documents : List SearchResult → ℕ → ℕ → List Document → String
  read_documents hits total i [] = ""
  read_documents hits total i (d ∷ ds) = concat (
      "### 精读 "
      ∷ p.show (i + 1)
      ∷ "/"
      ∷ p.show total
      ∷ ": "
      ∷ d.file
      ∷ " (score: "
      ∷ p.show_score (find_score_by_uri hits d.file)
      ∷ ")\n\n"
      ∷ preserve_structured_block d.content
      ∷ "\n\n"
      ∷ read_documents hits total (i + 1) ds
      ∷ [])

  unfoldable pub truncated_lines : List String → String
  truncated_lines [] = ""
  truncated_lines (f ∷ fs) = concat (f ∷ " (TRUNCATED)\n" ∷ truncated_lines fs ∷ [])

  unfoldable pub has_document : List Document → SearchResult → Bool
  has_document docs hit = exists (λ d. str_eq d.file (preferred_hit_uri hit)) docs

  unfoldable pub render_search_and_get_text :
      List SearchResult → List Document → List String → SearchMeta → String
  render_search_and_get_text file_hits docs truncated meta = p.trim (
      concat (
        "## 检索命中 ("
        ∷ format_scope meta.collections_searched
        ∷ ", "
        ∷ p.show (length file_hits)
        ∷ " files)\n\n"
        ∷ read_documents file_hits (length docs) 0 docs
        ∷ (if length truncated == 0
            then ""
            else concat ("### 已省略内容\n\n" ∷ truncated_lines truncated ∷ "\n" ∷ []))
        ∷ (if ltb (length docs) (length file_hits)
            then concat (
                "### 其他相关文件\n\n"
                ∷ hit_lines (select (λ hit. not (has_document docs hit)) file_hits)
                ∷ [])
            else "")
        ∷ []))
