-- ===== src/Orchestrator/Exclude/Directories.antt =====
-- orchestrator/orchestrator.go: the loop over the directories above a path in `filterExclude` ends, and
-- which of them it tries.
use Prim.Native.String.{String}
use text.Mathlib.Text.{◌==◌ as str_eq}
use qmdsr.Prelude.{ℕ, zero, suc, ◌≤◌, ◌<◌, ◌≡◌, ◌⊎◌, Bool, true, false}
use Prim.Native.String.{◌++◌ as str_append}
use qmdsr.Prelude.Text.{rune_count}
use qmdsr.Orchestrator.Exclude.{Paths, is_top}

module _ (p : Paths) where
  -- A directory is a top one or longer than the one above it, unless that is a top one.
  abbrev pub IsShorter : Type 0
  IsShorter =
      (dir : String)
      → is_top p dir ≡ false
      → (is_top p (p.dir dir) ≡ true) ⊎ (rune_count (p.dir dir) < rune_count dir)

  -- The directory so many steps above.
  abbrev pub above : ℕ → String → String
  above zero dir = dir
  above (suc k) dir = above k (p.dir dir)

  -- The pattern matches a directory with its slash, and neither it nor one below it is a top one.
  abbrev pub MatchesAbove : String → String → Type 0
  MatchesAbove pattern dir =
      (k : ℕ) × ((j : ℕ) → j ≤ k → is_top p (above j dir) ≡ false)
      × (p.matches pattern (str_append (above k dir) "/") ≡ true)
