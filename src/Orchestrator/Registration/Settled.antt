-- ===== src/Orchestrator/Registration/Settled.antt =====
-- orchestrator/orchestrator.go: which collections are settled in the map of `syncCollectionContexts`.
use Prim.Native.String.{String}
use text.Mathlib.Text.{◌==◌ as str_eq}
use text.Mathlib.TextEquality.{eq_iff}
use qmdsr.Prelude.{
  ◌≡◌, refl, sym, ap, ◌∙◌, ◌⊎◌, inl, inr, true, false, some, List, [], ◌∷◌, Bool-cases,
  Option-cases, All,
}
use qmdsr.Config.{CollectionCfg}
use qmdsr.Orchestrator.Registration.{
  Command, context_add, context_remove, Fails, ContextMap, set_context, add_context,
  replace_context, sync_context, sync_contexts,
}

-- Two collections of one path have the same context.
abbrev pub Agree : CollectionCfg → CollectionCfg → Type 0
Agree c d = c.path ≡ d.path → c.context ≡ d.context

abbrev pub IsConsistent : List CollectionCfg → Type 0
IsConsistent [] = Unit
IsConsistent (c ∷ cs) = All (Agree c) cs × IsConsistent cs

-- Every call succeeds.
abbrev pub NeverFails : Fails → Type 0
NeverFails fails = (c : Command) → fails c ≡ false

module _ (trim : String → String) (fails : Fails) (fine : NeverFails fails) where
  -- The context of a collection is known, or it has none.
  abbrev pub IsSettled : ContextMap → CollectionCfg → Type 0
  IsSettled m c = (str_eq (trim c.context) "" ≡ true) ⊎ (m c.path ≡ some c.context)

  -- One round makes no call if the collection is settled, and else settles it.
  Effect : CollectionCfg → ContextMap → List Command × ContextMap → Type 0
  Effect c m out = ((out ≡ ([], m)) × IsSettled m c) ⊎ (out.1 ≡ set_context c.path c.context m)

  set_round :
      (c : CollectionCfg) (m : ContextMap)
      → ((add_context fails c m).1 ≡ set_context c.path c.context m)
        × ((replace_context fails c m).1 ≡ set_context c.path c.context m)
  unfolding add_context replace_context
  set_round c m =
      let added = fine (context_add c.path c.context) in
      let removed = fine (context_remove c.path) in (rw added refl, rw (removed, added) refl)

  sync_context-Effect :
      (c : CollectionCfg) (m : ContextMap) → Effect c m (sync_context trim fails c m)
  unfolding sync_context Effect
  sync_context-Effect c m = elim (Bool-cases (str_eq (trim c.context) "")) [
    | inl blank ↦ inl (rw blank refl, inl blank)
    | inr worded ↦ elim (Option-cases (m c.path)) [
      | inl unknown ↦ inr (rw (worded, unknown) ((set_round c m).0))
      | inr (d, known) ↦ elim (Bool-cases (str_eq d c.context)) [
        | inl same ↦
            inl (rw (worded, known, same) refl, inr (known ∙ ap some ((eq_iff d c.context).0 same)))
        | inr other ↦ inr (rw (worded, known, other) ((set_round c m).1))
      ]
    ]
  ]

  sync_context-settles :
      (c : CollectionCfg) (m : ContextMap) → IsSettled (sync_context trim fails c m).1 c
  unfolding Effect set_context
  sync_context-settles c m = elim (sync_context-Effect c m) [
    | inl (q, k) ↦ rw q k
    | inr q ↦ inr (rw (q, (eq_iff c.path c.path).1 refl) refl)
  ]

  sync_context-keeps :
      (c d : CollectionCfg) (m : ContextMap)
      → Agree c d
      → IsSettled m c
      → IsSettled (sync_context trim fails d m).1 c
  unfolding Effect set_context
  sync_context-keeps c d m agree k = elim (sync_context-Effect d m) [
    | inl (q, settled) ↦ rw q k
    | inr q ↦ elim k [
      | inl blank ↦ inl blank
      | inr known ↦ elim (Bool-cases (str_eq c.path d.path)) [
        | inl same ↦ inr (rw (q, same) (ap some (sym (agree ((eq_iff c.path d.path).0 same)))))
        | inr other ↦ inr (rw (q, other) known)
      ]
    ]
  ]

  sync_contexts-keeps :
      (c : CollectionCfg) (cs : List CollectionCfg) (m : ContextMap)
      → All (Agree c) cs
      → IsSettled m c
      → IsSettled (sync_contexts trim fails cs m).1 c
  unfolding sync_contexts
  sync_contexts-keeps c [] m agree k = k
  sync_contexts-keeps c (d ∷ ds) m (agree, more) k =
      sync_contexts-keeps c ds _ more (sync_context-keeps c d m agree k)

  pub sync_contexts-settles :
      (cs : List CollectionCfg) (m : ContextMap)
      → IsConsistent cs
      → All (IsSettled (sync_contexts trim fails cs m).1) cs
  unfolding sync_contexts
  sync_contexts-settles [] m ok = tt
  sync_contexts-settles (c ∷ cs) m (agree, ok) =
      (sync_contexts-keeps c cs _ agree (sync_context-settles c m), sync_contexts-settles cs _ ok)

  settled_round :
      (c : CollectionCfg) (m : ContextMap) → IsSettled m c → sync_context trim fails c m ≡ ([], m)
  unfolding sync_context
  settled_round c m (inl blank) = rw blank refl
  settled_round c m (inr known) = elim (Bool-cases (str_eq (trim c.context) "")) [
    | inl blank ↦ rw blank refl
    | inr worded ↦ rw (worded, known, (eq_iff c.context c.context).1 refl) refl
  ]

  pub settled_quiet :
      (cs : List CollectionCfg) (m : ContextMap)
      → All (IsSettled m) cs
      → sync_contexts trim fails cs m ≡ ([], m)
  unfolding sync_contexts
  settled_quiet [] m ok = refl
  settled_quiet (c ∷ cs) m (k, ok) = rw (settled_round c m k, settled_quiet cs m ok) refl
