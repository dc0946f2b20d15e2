-- ===== src/Orchestrator/Registration/Backend.antt =====
-- orchestrator/orchestrator.go: what the calls of `syncCollectionContexts` do to the backend.
use Prim.Native.String.{String}
use text.Mathlib.Text.{◌==◌ as str_eq}
use text.Mathlib.TextEquality.{eq_iff}
use qmdsr.Prelude.{
  ◌≡◌, refl, sym, ap, ◌∙◌, inl, inr, none, List, [], ◌∷◌, ◌++◌, Bool-cases, Option-cases, All,
  if◌then◌else◌,
}
use mathlib.Core.Path.{subst, fun_ext}
use qmdsr.Types.{PathContext}
use qmdsr.Config.{CollectionCfg}
use qmdsr.Orchestrator.Registration.{
  Command, context_add, context_remove, Fails, ContextMap, set_context, context_map, add_context,
  replace_context, sync_context, sync_contexts, sync_collection_contexts,
}
use qmdsr.Orchestrator.Registration.Settled.{
  IsConsistent, NeverFails, IsSettled, sync_contexts-settles, settled_quiet,
}

-- The map without the context of a path.
unfoldable pub clear_context : String → ContextMap → ContextMap
clear_context path m p = if str_eq p path then none else m p

-- A backend: what a call makes of its state, and what `ContextList` answers.
pub record Backend (S : Type 0) : Type 0 where
  pub step : Command → S → S
  pub listed : S → List PathContext

-- The calls, one after the other.
unfoldable pub run_calls : {S : Type 0} → Backend S → List Command → S → S
run_calls b [] s = s
run_calls b (call ∷ calls) s = run_calls b calls (b.step call s)

-- The contexts that the backend knows, by their paths.
abbrev pub contexts : {S : Type 0} → Backend S → S → ContextMap
contexts b s = context_map (b.listed s) (λ path. none)

-- What `qmd` documents: a context is added where there is none, and removed where it is; one that is
-- there is not replaced by an addition.
pub record KeepsContexts {S : Type 0} (b : Backend S) : Type 0 where
  pub added :
      (path description : String) (s : S)
      → contexts b s path ≡ none
      → contexts b (b.step (context_add path description) s)
        ≡ set_context path description (contexts b s)
  pub removed :
      (path : String) (s : S)
      → contexts b (b.step (context_remove path) s) ≡ clear_context path (contexts b s)

run_calls-append :
    {S : Type 0} (b : Backend S) (xs ys : List Command) (s : S)
    → run_calls b (xs ++ ys) s ≡ run_calls b ys (run_calls b xs s)
unfolding run_calls
run_calls-append b [] ys s = refl
run_calls-append b (x ∷ xs) ys s = run_calls-append b xs ys (b.step x s)

set_clear :
    (path description : String) (m : ContextMap)
    → set_context path description (clear_context path m) ≡ set_context path description m
unfolding set_context clear_context
set_clear path description m =
    fun_ext (λ p. elim (Bool-cases (str_eq p path)) [
      | inl same ↦ rw same refl
      | inr other ↦ rw other refl
    ])

clear_none : (path : String) (m : ContextMap) → clear_context path m path ≡ none
unfolding clear_context
clear_none path m = rw ((eq_iff path path).1 refl) refl

module _ {S : Type 0} (b : Backend S) (keeps : KeepsContexts b) (trim : String → String)
    (fails : Fails) (fine : NeverFails fails) where
  -- The map that goes with these calls is what the backend knows after them.
  abbrev Follows : List Command × ContextMap → S → Type 0
  Follows (calls, m) s = contexts b (run_calls b calls s) ≡ m

  add_context-Follows :
      (c : CollectionCfg) (s : S)
      → contexts b s c.path ≡ none
      → Follows (add_context fails c (contexts b s)) s
  unfolding add_context run_calls
  add_context-Follows c s unknown =
      rw (fine (context_add c.path c.context)) (keeps.added c.path c.context s unknown)

  replace_context-Follows :
      (c : CollectionCfg) (s : S) → Follows (replace_context fails c (contexts b s)) s
  unfolding replace_context add_context run_calls
  replace_context-Follows c s =
      let s1 = b.step (context_remove c.path) s in
      let gone = keeps.removed c.path s in
      let unknown : contexts b s1 c.path ≡ none =
        ap (λ m. m c.path) gone ∙ clear_none c.path (contexts b s) in
      let follows : contexts b (b.step (context_add c.path c.context) s1)
          ≡ set_context c.path c.context (contexts b s) =
        keeps.added c.path c.context s1 unknown
        ∙ ap (set_context c.path c.context) gone
        ∙ set_clear c.path c.context (contexts b s) in
      rw (fine (context_remove c.path), fine (context_add c.path c.context)) follows

  sync_context-Follows :
      (c : CollectionCfg) (s : S) → Follows (sync_context trim fails c (contexts b s)) s
  unfolding sync_context run_calls
  sync_context-Follows c s = elim (Bool-cases (str_eq (trim c.context) "")) [
    | inl blank ↦ rw blank refl
    | inr worded ↦ elim (Option-cases (contexts b s c.path)) [
      | inl unknown ↦ rw (worded, unknown) (add_context-Follows c s unknown)
      | inr (d, known) ↦ elim (Bool-cases (str_eq d c.context)) [
        | inl same ↦ rw (worded, known, same) refl
        | inr other ↦ rw (worded, known, other) (replace_context-Follows c s)
      ]
    ]
  ]

  sync_contexts-Follows :
      (cs : List CollectionCfg) (s : S) → Follows (sync_contexts trim fails cs (contexts b s)) s
  unfolding sync_contexts run_calls
  sync_contexts-Follows [] s = refl
  sync_contexts-Follows (c ∷ cs) s =
      let (calls, m) = sync_context trim fails c (contexts b s) in
      let s1 = run_calls b calls s in
      let rest =
        subst (λ m. Follows (sync_contexts trim fails cs m) s1) (sync_context-Follows c s)
          (sync_contexts-Follows cs s1) in
      ap (contexts b) (run_calls-append b calls (sync_contexts trim fails cs m).0 s) ∙ rest

  -- If the backend adds a context where there is none and removes one where it is, no call fails, and
  -- collections of one path have the same context: after the calls of a synchronisation the backend
  -- knows the context of every collection whose context is not blank, and a second synchronisation
  -- makes no call.
  pub sync_contexts_twice :
      (cs : List CollectionCfg) (s : S)
      → IsConsistent cs
      → let s' = run_calls b (sync_collection_contexts trim fails cs (inl (b.listed s))) s in
        All (IsSettled trim fails fine (contexts b s')) cs
        × (sync_collection_contexts trim fails cs (inl (b.listed s')) ≡ [])
  unfolding sync_collection_contexts
  sync_contexts_twice cs s ok =
      let settled =
        subst (λ m. All (IsSettled trim fails fine m) cs) (sym (sync_contexts-Follows cs s))
          (sync_contexts-settles trim fails fine cs (contexts b s) ok) in
      (settled, ap (λ out. out.0) (settled_quiet trim fails fine cs _ settled))
