-- ===== src/Executor/Parse/Names.antt =====
-- executor/parse.go: the collections in a text, with no name twice.
use Prim.Native.String.{String}
use text.Mathlib.Text.{◌==◌ as str_eq}
use qmdsr.Prelude.{
  ◌⊎◌, inl, inr, Bool, ◌&&◌, ◌||◌, Option, none, some, List, [], ◌∷◌, ◌++◌, ◌==◌, if◌then◌else◌,
  length, exists,
}
use qmdsr.Prelude.Int.{ℤ, pos}
use qmdsr.Types.{CollectionInfo, IndexStatus}
use qmdsr.Executor.Parse.{Formats, before}

unfoldable pub has_name : String → CollectionInfo → Bool
has_name name c = str_eq c.name name

-- A collection of which only the name is known.
abbrev pub named : String → CollectionInfo
named name = record { name = name; path = ""; mask = ""; files = pos 0 }

-- A name that is read; the keys of `indexByName` are the names of the collections.
unfoldable pub add_name : String → List CollectionInfo → List CollectionInfo
add_name name cols =
    if str_eq name ""
    then cols
    else if exists (has_name name) cols
    then cols
    else cols ++ (named name ∷ [])

-- An assignment to the last collection, if there is one.
unfoldable pub on_last :
    (CollectionInfo → CollectionInfo) → List CollectionInfo → List CollectionInfo
on_last g [] = []
on_last g (c ∷ []) = g c ∷ []
on_last g (c ∷ d ∷ cols) = c ∷ on_last g (d ∷ cols)

module _ (f : Formats) where
  -- The first word after a label, as a number.
  unfoldable pub number_after : String → String → Option ℤ
  number_after line label = elim (f.fields (f.trim (f.trim_prefix line label))) [
    | [] ↦ none
    | word ∷ words ↦ f.atoi word
  ]

  unfoldable pub set_files : String → List CollectionInfo → List CollectionInfo
  set_files line cols = elim (number_after line "Files:") [
    | none ↦ cols
    | some n ↦ on_last (λ c. record c { files = n }) cols
  ]

  unfoldable pub set_mask : String → List CollectionInfo → List CollectionInfo
  set_mask line cols =
      on_last (λ c. record c { mask = f.trim (f.trim_prefix line "Pattern:") }) cols

  abbrev pub is_heading : String → Bool
  is_heading line = f.contains line " (qmd://" && f.has_suffix line ")"

  -- One line of the list of collections.
  unfoldable pub read_list_line : String → List CollectionInfo → List CollectionInfo
  read_list_line raw cols =
      let line = f.trim raw in
      if str_eq line "" || f.has_prefix line "Collections"
      then cols
      else if is_heading line
      then add_name (f.trim (before f line " (qmd://")) cols
      else if f.has_prefix line "qmd://" && f.contains line "/"
      then add_name (f.trim (before f (f.trim_prefix line "qmd://") "/")) cols
      else if f.has_prefix line "Pattern:"
      then set_mask line cols
      else if f.has_prefix line "Files:"
      then set_files line cols
      else cols

  unfoldable pub read_list : List String → List CollectionInfo → List CollectionInfo
  read_list [] cols = cols
  read_list (raw ∷ lines) cols = read_list lines (read_list_line raw cols)

  unfoldable pub parse_collection_list_text : String → List CollectionInfo ⊎ String
  parse_collection_list_text out =
      let cols = read_list (f.lines out) [] in
      if length cols == 0 then inr "no collections parsed" else inl cols

  -- The collections, and the number of vectors once a line has given it.
  abbrev pub StatusState : Type 0
  StatusState = List CollectionInfo × Option ℤ

  abbrev pub or_old : Option ℤ → Option ℤ → Option ℤ
  or_old none old = old
  or_old (some v) old = some v

  -- One line of the status.
  unfoldable pub read_status_line : String → StatusState → StatusState
  read_status_line raw (cols, vectors) =
      let line = f.trim raw in
      if str_eq line ""
      then (cols, vectors)
      else if f.has_prefix line "Vectors:"
      then (cols, or_old (number_after line "Vectors:") vectors)
      else if is_heading line
      then (add_name (f.trim (before f line " (qmd://")) cols, vectors)
      else if f.has_prefix line "Files:"
      then (set_files line cols, vectors)
      else (cols, vectors)

  unfoldable pub read_status : List String → StatusState → StatusState
  read_status [] st = st
  read_status (raw ∷ lines) st = read_status lines (read_status_line raw st)

  unfoldable pub parse_status_text : String → IndexStatus ⊎ String
  parse_status_text out =
      let (cols, vectors) = read_status (f.lines out) ([], none) in
      elim vectors [
        | none ↦ inr "vectors line not found"
        | some v ↦ inl (record { collections = cols; vectors = v; raw = "" })
      ]
