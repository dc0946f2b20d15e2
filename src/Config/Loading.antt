-- ===== src/Config/Loading.antt =====
-- config/config.go: what `Load` accepts.
use text.Mathlib.Text.{◌==◌ as str_eq}
use qmdsr.Prelude.{
  ◌≡◌, refl, sym, ◌∙◌, ◌≢◌, ◌↔◌, inl, inr, true, false, none, List, [], ◌∷◌, arith, Option-cases,
  All,
}
use qmdsr.Prelude.Int.{is_zero}
use mathlib.Core.Option.{none-ne-some}
use qmdsr.Config.{Platform, CollectionCfg, Config}
use qmdsr.Config.Defaults.{
  normalize, ConfigError, validate_collection, validate_collections, validate, load,
}

abbrev pub IsUsable : CollectionCfg → Type 0
IsUsable c = (str_eq c.name "" ≡ false) × (str_eq c.path "" ≡ false) × (is_zero c.tier ≡ false)

pub record IsLoadable (os : Platform) (c : Config) : Type 0 where
  pub bin : str_eq c.qmd.bin "" ≡ false
  pub bin_exists : os.stat_ok c.qmd.bin ≡ true
  pub collected : c.collections ≢ []
  pub usable : All IsUsable c.collections

validate_collections-eq-none :
    (cs : List CollectionCfg) → validate_collections cs ≡ none → All IsUsable cs
unfolding validate_collections validate_collection
validate_collections-eq-none [] h = tt
validate_collections-eq-none (c ∷ cs) h =
    (ground arith, validate_collections-eq-none cs (ground arith))

validate_collections_of_usable :
    (cs : List CollectionCfg) → All IsUsable cs → validate_collections cs ≡ none
unfolding validate_collections validate_collection
validate_collections_of_usable [] h = refl
validate_collections_of_usable (c ∷ cs) (p, h) =
    ground (arith, p, validate_collections_of_usable cs h)

validate-eq-none : (os : Platform) (c : Config) → validate os c ≡ none → IsLoadable os c
unfolding validate
validate-eq-none os c h = record {
  bin = ground arith;
  bin_exists = ground arith;
  collected = λ e. ground arith;
  usable = validate_collections-eq-none c.collections (ground arith);
}

validate_of_loadable : (os : Platform) (c : Config) → IsLoadable os c → validate os c ≡ none
unfolding validate
validate_of_loadable os c g =
    ground (arith, validate_collections_of_usable c.collections g.usable, g.collected)

-- `Load` returns the normalised configuration exactly if that names an existing binary and has at
-- least one collection, each with a name, a path and a tier; otherwise it returns an error.
pub load_iff :
    (os : Platform) (c : Config)
    → ((load os c ≡ inl (normalize os c)) ↔ IsLoadable os (normalize os c))
      × (¬ IsLoadable os (normalize os c) → (e : ConfigError) × (load os c ≡ inr e))
unfolding load
load_iff os c = elim (Option-cases (validate os (normalize os c))) [
  | inl q ↦ (
    (λ _. validate-eq-none os (normalize os c) q, λ _. rw (q, load)),
    λ bad. absurd (bad (validate-eq-none os (normalize os c) q)),
  )
  | inr (e, q) ↦ (
    (
      λ h. absurd (ground arith),
      λ g. absurd (none-ne-some e (sym (validate_of_loadable os (normalize os c) g) ∙ q)),
    ),
    λ _. (e, rw (q, load)),
  )
]
