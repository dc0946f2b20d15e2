-- ===== src/Executor/LowResource.antt =====
-- executor/cli.go: without a GPU to rely on, the searches that would use it run on the CPU.
use Prim.Native.String.{String}
use qmdsr.Prelude.{
  ℕ, ◌≡◌, refl, sym, ap, inl, inr, Bool, true, false, not, ◌&&◌, Option, List, [], ◌∷◌, arith,
  if◌then◌else◌, Bool-cases,
}
use qmdsr.Prelude.Int.{ℤ}
use mathlib.Core.Path.{subst}
use mathlib.Core.Sum.{inl-ne-inr, inl-injective}
use qmdsr.Orchestrator.Tiers.{SearchOpts}
use qmdsr.Executor.{
  Cli, Call, Processes, HelpTexts, should_disable_vulkan, run, output_of, probe, probe_caps,
  succeeds, probe_timeout,
}
use qmdsr.Executor.Parse.{Formats}
use qmdsr.Executor.Commands.{
  Printers, append_search_args, search_args, read_results, exec_search, after_queue,
  default_timeout, vsearch, query,
}

-- What a probe of a low-resource service makes sure of: a mode that needs the GPU is on only if the
-- CPU may stand in for it.
pub record IsFrugal (e : Cli) : Type 0 where
  pub low : e.low_resource ≡ true
  pub deep : e.caps.deep_query ≡ true → e.cpu_deep ≡ true
  pub vector : e.caps.vector ≡ true → e.cpu_vsearch ≡ true

probe-IsFrugal :
    (t : HelpTexts) (e : Cli) (p : Processes) {e' : Cli}
    → e.low_resource ≡ true
    → probe t e p ≡ inl e'
    → IsFrugal e'
unfolding probe probe_caps
probe-IsFrugal t e p {e'} low q =
    let no_version = not (succeeds (run e p 0 probe_timeout ("--version" ∷ []))) in
    let no_help = not (succeeds (run e p 1 probe_timeout ("--help" ∷ []))) in
    elim (Bool-cases (no_version && no_help)) [
      | inl gone ↦ absurd (inl-ne-inr (sym (rw gone at q)))
      | inr here ↦
          subst (λ x. IsFrugal x) (inl-injective _ e' (rw here at q))
            (record {
              low = low;
              deep = λ h. ground (arith, h, low);
              vector = λ h. ground (arith, h, low);
            })
    ]

-- Two worlds in which the same becomes of every process that has the GPU turned off.
abbrev pub AgreeOffGpu : Processes → Processes → Type 0
AgreeOffGpu p q = (i : ℕ) (c : Call) → c.disable_vulkan ≡ true → p i c ≡ q i c

run_off :
    (e : Cli) (p q : Processes) (i : ℕ) (timeout : ℤ) (args : List String)
    → AgreeOffGpu p q
    → should_disable_vulkan e args ≡ true
    → run e p i timeout args ≡ run e q i timeout args
unfolding run
run_off e p q i timeout args agree off = ap (output_of args) (agree i _ off)

exec_search_off :
    (f : Formats) (pr : Printers) (e : Cli) (p q : Processes) (args : List String) (timeout : ℤ)
    → AgreeOffGpu p q
    → should_disable_vulkan e args ≡ true
    → exec_search f pr e p args timeout ≡ exec_search f pr e q args timeout
unfolding exec_search
exec_search_off f pr e p q args timeout agree off =
    ap (read_results f pr) (run_off e p q 0 timeout args agree off)

query_off :
    (f : Formats) (pr : Printers) (e : Cli) (text : String) (opts : SearchOpts)
    → e.low_resource ≡ true
    → e.cpu_deep ≡ true
    → should_disable_vulkan e (search_args f pr "query" text opts) ≡ true
unfolding should_disable_vulkan search_args append_search_args
query_off f pr e text opts low cpu = rw (low, cpu) refl

vsearch_off :
    (f : Formats) (pr : Printers) (e : Cli) (text : String) (opts : SearchOpts)
    → e.low_resource ≡ true
    → e.cpu_vsearch ≡ true
    → should_disable_vulkan e (search_args f pr "vsearch" text opts) ≡ true
unfolding should_disable_vulkan search_args append_search_args
vsearch_off f pr e text opts low cpu = rw (low, cpu) refl

gated :
    {A : Type 0} {x y : A} (z : A) (b : Bool)
    → (b ≡ true → x ≡ y)
    → (if not b then z else x) ≡ (if not b then z else y)
gated z true h = h refl
gated z false h = refl

-- If a probe in low-resource mode ends well, no deep query and no vector search that follows uses a
-- process with the GPU on: it answers the same in all worlds that agree on the processes with the GPU
-- off.
pub searches_off_gpu :
    (f : Formats) (pr : Printers) (t : HelpTexts) (e : Cli) (p : Processes) (e' : Cli)
    → e.low_resource ≡ true
    → probe t e p ≡ inl e'
    → (q r : Processes) → AgreeOffGpu q r
    → (slot_err : Option String) (text : String) (opts : SearchOpts)
    → (query f pr e' q slot_err text opts ≡ query f pr e' r slot_err text opts)
      × (vsearch f pr e' q text opts ≡ vsearch f pr e' r text opts)
unfolding query vsearch
searches_off_gpu f pr t e p e' low probed q r agree slot_err text opts =
    let k = probe-IsFrugal t e p low probed in
    (
      gated _ e'.caps.deep_query (λ deep. ap (after_queue f pr slot_err) (
          exec_search_off f pr e' q r (search_args f pr "query" text opts) _ agree
            (query_off f pr e' text opts k.low (k.deep deep)))),
      gated _ e'.caps.vector (λ vector.
          exec_search_off f pr e' q r (search_args f pr "vsearch" text opts) default_timeout agree
            (vsearch_off f pr e' text opts k.low (k.vector vector))),
    )
