-- ===== src/Orchestrator/Exclude/Examples.antt =====
-- Paths of two levels.
use Prim.Native.String.{String}
use text.Mathlib.Text.{◌==◌ as str_eq}
use qmdsr.Prelude.{◌≡◌, refl, true, false, if◌then◌else◌}
use Prim.Native.String.{◌++◌ as str_append}
use qmdsr.Orchestrator.Exclude.{Paths, dirs_match, pattern_excludes}

abbrev dir_of : String → String
dir_of s = if str_eq s "a/b" then "a" else "."

abbrev paths : Paths
paths = record {
  clean = λ s. s;
  dir = dir_of;
  matches = λ pattern path. str_eq pattern path;
  has_prefix = λ s p. false;
  has_suffix = λ s p. false;
  trim_prefix = λ s p. s;
  trim_suffix = λ s p. s;
}

excluded : pattern_excludes paths "a/b" "a/" ≡ true
unfolding pattern_excludes dirs_match
excluded = refl
