-- ===== src/Orchestrator/Exclude.antt =====
-- orchestrator/orchestrator.go: which hits the patterns of a collection exclude.
pub mod Directories
mod Examples
use Prim.Native.String.{String}
use text.Mathlib.Text.{◌==◌ as str_eq}
use qmdsr.Prelude.{
  ℕ, zero, suc, ◌+◌, ◌<◌, ◌≡◌, refl, sym, ap, ◌∙◌, ◌⊎◌, inl, inr, Bool, true, false, not, ◌&&◌,
  ◌||◌, List, [], ◌∷◌, arith, if◌then◌else◌, Bool-cases, select, exists,
}
use Prim.Native.String.{◌++◌ as str_append}
use qmdsr.Prelude.Text.{rune_count}
use qmdsr.Types.{SearchResult}
use qmdsr.Config.{CollectionCfg}

-- The functions of `strings` and `filepath`; `matches` takes the pattern first, and an error of
-- `filepath.Match` is false.
pub record Paths : Type 0 where
  pub clean : String → String
  pub dir : String → String
  pub matches : String → String → Bool
  pub has_prefix : String → String → Bool
  pub has_suffix : String → String → Bool
  pub trim_prefix : String → String → String
  pub trim_suffix : String → String → String

module _ (p : Paths) where
  abbrev pub is_top : String → Bool
  is_top dir = str_eq dir "." || str_eq dir "/"

  -- The loop over the directories above a path, on fuel.
  unfoldable pub dirs_match : ℕ → String → String → Bool
  dirs_match zero pattern dir = false
  dirs_match (suc n) pattern dir =
      let above = dirs_match n pattern (p.dir dir) in
      if is_top dir then false else p.matches pattern (str_append dir "/") || above

  unfoldable pub pattern_excludes : String → String → Bool
  pattern_excludes rel_path pattern =
      let dir = p.dir rel_path in
      let prefix = p.trim_suffix pattern "/**" in
      p.matches pattern rel_path
      || dirs_match (rune_count dir + 1) pattern dir
      || p.has_suffix pattern "/**"
        && (p.has_prefix rel_path (str_append prefix "/") || str_eq rel_path prefix)

  unfoldable pub rel_path_of : CollectionCfg → SearchResult → String
  rel_path_of c r = p.clean (
      if p.has_prefix r.file c.path
      then p.trim_prefix (p.trim_prefix r.file c.path) "/"
      else r.file)

  unfoldable pub filter_exclude : CollectionCfg → List SearchResult → List SearchResult
  filter_exclude c results = elim c.exclude [
    | [] ↦ results
    | pattern ∷ patterns ↦
        select (λ r. not (exists (pattern_excludes (rel_path_of c r)) (pattern ∷ patterns))) results
  ]
