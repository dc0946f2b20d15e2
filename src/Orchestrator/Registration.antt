-- ===== src/Orchestrator/Registration.antt =====
-- orchestrator/orchestrator.go: the collections of the configuration and their contexts are made known
-- to the backend. What a call is answered is an argument, and the calls made are a list.
pub mod Settled
pub mod Backend
mod Examples
use Prim.Native.String.{String}
use text.Mathlib.Text.{◌==◌ as str_eq}
use text.Mathlib.TextEquality.{eq_iff}
use qmdsr.Prelude.{
  ℕ, zero, suc, ◌+◌, ◌-◌, ◌*◌, ◌/◌, ◌%◌, ◌^◌, ◌≤◌, ◌<◌, min, max, ◌≡◌, refl, sym, ap, ◌∙◌, ◌≢◌, ◌↔◌,
  ◌⊎◌, inl, inr, Bool, true, false, not, ◌&&◌, ◌||◌, Option, none, some, List, [], ◌∷◌, ◌++◌, map,
  arith, ltb, leb, ◌==◌, if◌then◌else◌, ltb→lt, lt→ltb, leb→le, Bool-cases, pick_true, pick_false,
  Option-cases, length, take, replicate, select, exists, All, count, count_hit, count_miss,
  length-append, length-take, length-select-le, All-append, All-take,
}
use qmdsr.Prelude.Int.{
  ℤ, pos, negsuc, pos_part, neg_part, sub_ℕ, ◌≤ℤ◌, ltb_ℤ, leb_ℤ, is_zero, is_nonpos, is_pos,
}
use qmdsr.Types.{CollectionInfo, PathContext}
use qmdsr.Config.{CollectionCfg}

-- The calls of the backend.
pub data Command : Type 0 where
  collection_add : String → String → String → Command
  context_add : String → String → Command
  context_remove : String → Command

-- Whether the backend answers a call with an error.
abbrev pub Fails : Type 0
Fails = Command → Bool

-- The contexts by their paths: `contextMap`.
abbrev pub ContextMap : Type 0
ContextMap = String → Option String

unfoldable pub set_context : String → String → ContextMap → ContextMap
set_context path description m p = if str_eq p path then some description else m p

unfoldable pub context_map : List PathContext → ContextMap → ContextMap
context_map [] m = m
context_map (c ∷ cs) m = context_map cs (set_context c.path c.description m)

-- `ContextAdd` in the loop of `syncCollectionContexts`: the calls and the map after it.
unfoldable pub add_context : Fails → CollectionCfg → ContextMap → List Command × ContextMap
add_context fails col m =
    let call = context_add col.path col.context in
    (call ∷ [], if fails call then m else set_context col.path col.context m)

unfoldable pub replace_context : Fails → CollectionCfg → ContextMap → List Command × ContextMap
replace_context fails col m =
    let call = context_remove col.path in
    let (calls, m') = add_context fails col m in
    if fails call then (call ∷ [], m) else (call ∷ calls, m')

-- One round of the loop of `syncCollectionContexts`.
unfoldable pub sync_context :
    (String → String) → Fails → CollectionCfg → ContextMap → List Command × ContextMap
sync_context trim fails col m =
    if str_eq (trim col.context) "" then ([], m) else elim (m col.path) [
      | none ↦ add_context fails col m
      | some description ↦
          if str_eq description col.context then ([], m) else replace_context fails col m
    ]

unfoldable pub sync_contexts :
    (String → String) → Fails → List CollectionCfg → ContextMap → List Command × ContextMap
sync_contexts trim fails [] m = ([], m)
sync_contexts trim fails (col ∷ cols) m =
    let (calls, m') = sync_context trim fails col m in
    let (more, m'') = sync_contexts trim fails cols m' in (calls ++ more, m'')

-- `syncCollectionContexts`, with the answer of `ContextList`.
unfoldable pub sync_collection_contexts :
    (String → String) → Fails → List CollectionCfg → List PathContext ⊎ String → List Command
sync_collection_contexts trim fails cols (inr err) = []
sync_collection_contexts trim fails cols (inl existing) =
    (sync_contexts trim fails cols (context_map existing (λ path. none))).0

unfoldable pub is_listed : List CollectionInfo → CollectionCfg → Bool
is_listed existing col = exists (λ c. str_eq c.name col.name) existing

-- One round of the loop of `EnsureCollections`.
unfoldable pub ensure_collection : Fails → List CollectionInfo → CollectionCfg → List Command
ensure_collection fails existing col =
    let mask = if str_eq col.mask "" then "**/*.md" else col.mask in
    let call = collection_add col.path col.name mask in
    if is_listed existing col
    then []
    else if fails call || str_eq col.context ""
    then call ∷ []
    else call ∷ context_add col.path col.context ∷ []

unfoldable pub ensure_each : Fails → List CollectionInfo → List CollectionCfg → List Command
ensure_each fails existing [] = []
ensure_each fails existing (col ∷ cols) =
    ensure_collection fails existing col ++ ensure_each fails existing cols

unfoldable pub listed_collections : List CollectionInfo ⊎ String → List CollectionInfo
listed_collections (inl existing) = existing
listed_collections (inr err) = []

-- `EnsureCollections`, with the answers of `CollectionList` and, after the calls of its loop, of
-- `ContextList`.
unfoldable pub ensure_collections :
    (String → String)
    → Fails
    → List CollectionCfg
    → List CollectionInfo ⊎ String
    → List PathContext ⊎ String
    → List Command
ensure_collections trim fails cols listed contexts =
    ensure_each fails (listed_collections listed) cols
    ++ sync_collection_contexts trim fails cols contexts
