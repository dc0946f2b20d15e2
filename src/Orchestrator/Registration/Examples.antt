-- ===== src/Orchestrator/Registration/Examples.antt =====
-- Two collections whose contexts are made known to a backend that lists what was added last at the end.
use Prim.Native.String.{String}
use text.Mathlib.Text.{◌==◌ as str_eq}
use text.Mathlib.TextEquality.{eq_iff}
use qmdsr.Prelude.{
  ◌≡◌, refl, sym, ap, ◌∙◌, inl, inr, Bool, true, false, not, Option, none, List, [], ◌∷◌, ◌++◌,
  Bool-cases, select, if◌then◌else◌, All,
}
use mathlib.Core.Path.{fun_ext}
use qmdsr.Prelude.Int.{pos}
use mathlib.Core.Bool.{true≢false}
use qmdsr.Types.{PathContext}
use qmdsr.Config.{CollectionCfg}
use qmdsr.Orchestrator.Registration.{
  Command, collection_add, context_add, context_remove, ContextMap, set_context, context_map,
  add_context, replace_context, sync_context, sync_contexts, sync_collection_contexts,
}
use qmdsr.Orchestrator.Registration.Settled.{IsSettled}
use qmdsr.Orchestrator.Registration.Backend.{
  clear_context, Backend, run_calls, contexts, KeepsContexts, sync_contexts_twice,
}

abbrev diaries : CollectionCfg
diaries = record {
  name = "diaries";
  path = "/srv/diaries";
  mask = "";
  exclude = [];
  context = "what was written in the evening";
  tier = pos 2;
  embed = false;
  require_explicit = true;
  safety_prompt = true;
}

abbrev notes : CollectionCfg
notes = record diaries { name = "notes"; path = "/srv/notes"; context = "notes" }

abbrev apply : Command → List PathContext → List PathContext
apply (collection_add path name mask) s = s
apply (context_add path description) s = s ++ record { path = path; description = description } ∷ []
apply (context_remove path) s = select (λ c. not (str_eq c.path path)) s

abbrev listing : Backend (List PathContext)
listing = record { step = apply; listed = λ s. s }

context_map-append :
    (cs : List PathContext) (c : PathContext) (m : ContextMap)
    → context_map (cs ++ c ∷ []) m ≡ set_context c.path c.description (context_map cs m)
unfolding context_map
context_map-append [] c m = refl
context_map-append (d ∷ cs) c m = context_map-append cs c (set_context d.path d.description m)

clear_set :
    (path q description : String) (m : ContextMap)
    → (str_eq q path ≡ true
        → clear_context path (set_context q description m) ≡ clear_context path m)
      × (str_eq q path ≡ false
          → clear_context path (set_context q description m)
            ≡ set_context q description (clear_context path m))
unfolding clear_context set_context
clear_set path q description m = (
  λ same. fun_ext (λ p. elim (Bool-cases (str_eq p path)) [
    | inl here ↦ rw here refl
    | inr away ↦ rw (away, away_from p (away ∙ refl) same) refl
  ]),
  λ other. fun_ext (λ p. elim (Bool-cases (str_eq p q)) [
    | inl here ↦ rw (here, (eq_iff p q).0 here, other) refl
    | inr away ↦ rw away refl
  ]),
)
  where
    away_from : (p : String) → str_eq p path ≡ false → str_eq q path ≡ true → str_eq p q ≡ false
    away_from p away same = rw ((eq_iff q path).0 same) away

context_map-select :
    (path : String) (cs : List PathContext) (m : ContextMap)
    → context_map (select (λ c. not (str_eq c.path path)) cs) (clear_context path m)
      ≡ clear_context path (context_map cs m)
unfolding context_map
context_map-select path [] m = refl
context_map-select path (c ∷ cs) m =
    let (dropped, kept) = clear_set path c.path c.description m in
    elim (Bool-cases (str_eq c.path path)) [
      | inl same ↦
          rw (same, ← (dropped same))
            (context_map-select path cs (set_context c.path c.description m))
      | inr other ↦
          rw (other, ← (kept other))
            (context_map-select path cs (set_context c.path c.description m))
    ]

clear_nothing : (path : String) → clear_context path (λ p. none) ≡ (λ p. none)
unfolding clear_context
clear_nothing path = fun_ext (λ p. same_none (str_eq p path))
  where
    same_none : (b : Bool) → Path (Option String) (if b then none else none) none
    same_none true = refl
    same_none false = refl

listing-KeepsContexts : KeepsContexts listing
listing-KeepsContexts = record {
  added = λ path description s unknown. context_map-append s _ (λ p. none);
  removed = λ path s.
      ap (context_map (select (λ c. not (str_eq c.path path)) s)) (sym (clear_nothing path))
      ∙ context_map-select path s (λ p. none);
}

abbrev known : List PathContext
known = record { path = "/srv/notes"; description = "old notes" } ∷ []

sync_contexts_twice_example :
    let cols = diaries ∷ notes ∷ [] in
    let calls =
      λ (s : List PathContext). sync_collection_contexts (λ s. s) (λ c. false) cols (inl s) in
    let s' = run_calls listing (calls known) known in
    All (IsSettled (λ s. s) (λ c. false) (λ c. refl) (contexts listing s')) cols × (calls s' ≡ [])
sync_contexts_twice_example =
    sync_contexts_twice listing listing-KeepsContexts (λ s. s) (λ c. false) (λ c. refl)
      (diaries ∷ notes ∷ []) known ((apart, tt), (tt, tt))
  where
    apart : diaries.path ≡ notes.path → diaries.context ≡ notes.context
    apart e = absurd (true≢false (sym ((eq_iff "/srv/diaries" "/srv/notes").1 e)))

-- The old context of the notes is removed before the new one is added.
calls_made :
    sync_collection_contexts (λ s. s) (λ c. false) (diaries ∷ notes ∷ []) (inl known)
    ≡ context_add "/srv/diaries" "what was written in the evening"
      ∷ context_remove "/srv/notes"
      ∷ context_add "/srv/notes" "notes"
      ∷ []
unfolding sync_collection_contexts sync_contexts sync_context add_context replace_context
    set_context context_map
calls_made = refl
