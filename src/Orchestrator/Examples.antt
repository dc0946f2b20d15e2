-- ===== src/Orchestrator/Examples.antt =====
-- Tokens for two searches, and samples of searches.
use qmdsr.Prelude.{refl, true, false, List, [], ◌∷◌, arith}
use qmdsr.Orchestrator.Tokens.{
  begin_search, end_holding, end_free, no_searches, run_searches, IsTokened, run_searches-IsTokened,
}
use qmdsr.Orchestrator.Observation.{
  Sample, observe_all, new_observations, IsObserved, observe_all_lem,
}

no_searches-IsTokened : IsTokened 2 no_searches
unfolding no_searches
no_searches-IsTokened = record { each = refl; within = omega arith }

run_searches-IsTokened_example : IsTokened 2 (
    run_searches 2
      (begin_search true ∷ begin_search false ∷ end_holding ∷ begin_search true ∷ end_free ∷ [])
      no_searches)
run_searches-IsTokened_example =
    run_searches-IsTokened 2
      (begin_search true ∷ begin_search false ∷ end_holding ∷ begin_search true ∷ end_free ∷ [])
      no_searches no_searches-IsTokened

abbrev samples : List Sample
samples =
    record { latency_ms = 12; hits = 0; degraded = true; now = 5 }
    ∷ record { latency_ms = 7; hits = 9; degraded = false; now = 6 }
    ∷ []

observe_all_lem_example :
    IsObserved (new_observations 0) samples (observe_all samples (new_observations 0))
observe_all_lem_example = observe_all_lem samples (new_observations 0)
