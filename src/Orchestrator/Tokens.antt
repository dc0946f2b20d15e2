-- ===== src/Orchestrator/Tokens.antt =====
-- orchestrator/orchestrator.go: the tokens that a search needs under overload.
use qmdsr.Prelude.{
  ℕ, ◌+◌, ◌-◌, ◌≤◌, ◌≡◌, Bool, true, false, not, Option, none, some, List, [], ◌∷◌, arith, ltb,
  ◌==◌, if◌then◌else◌,
}
use qmdsr.Prelude.Int.{pos_part, is_nonpos}
use qmdsr.Config.{RuntimeConfig}

unfoldable pub max_concurrent_search : RuntimeConfig → ℕ
max_concurrent_search r =
    if is_nonpos r.overload_max_concurrent_search
    then 2
    else pos_part r.overload_max_concurrent_search

-- A send that does not wait: the tokens in the channel after it, and whether the search holds one;
-- `none` if it has to wait.
unfoldable pub acquire_overload_search_token : Bool → ℕ → ℕ → Option (ℕ × Bool)
acquire_overload_search_token overloaded capacity used =
    if not overloaded
    then some (used, false)
    else if ltb used capacity
    then some (used + 1, true)
    else none

unfoldable pub release_overload_search_token : Bool → ℕ → ℕ
release_overload_search_token holds used = if holds then used - 1 else used

-- The tokens in the channel, and the searches of the backend that run with a token and without.
pub record Searches : Type 0 where
  pub used : ℕ
  pub holding : ℕ
  pub free : ℕ

-- A search that begins while the overload flag is as given, and one of either kind that ends.
pub data SearchEvent : Type 0 where
  begin_search : Bool → SearchEvent
  end_holding end_free : SearchEvent

unfoldable pub count_search : Searches → ℕ × Bool → Searches
count_search s (used, true) = record s { used = used; holding = s.holding + 1 }
count_search s (used, false) = record s { used = used; free = s.free + 1 }

unfoldable pub search_step : ℕ → SearchEvent → Searches → Searches
search_step capacity (begin_search overloaded) s =
    elim (acquire_overload_search_token overloaded capacity s.used) [
      | none ↦ s
      | some got ↦ count_search s got
    ]
search_step capacity end_holding s =
    if s.holding == 0
    then s
    else record s { used = release_overload_search_token true s.used; holding = s.holding - 1 }
search_step capacity end_free s =
    if s.free == 0
    then s
    else record s { used = release_overload_search_token false s.used; free = s.free - 1 }

unfoldable pub run_searches : ℕ → List SearchEvent → Searches → Searches
run_searches capacity [] s = s
run_searches capacity (e ∷ es) s = run_searches capacity es (search_step capacity e s)

unfoldable pub no_searches : Searches
no_searches = record { used = 0; holding = 0; free = 0 }

pub record IsTokened (capacity : ℕ) (s : Searches) : Type 0 where
  pub each : s.used ≡ s.holding
  pub within : s.holding ≤ capacity

search_step-IsTokened :
    (capacity : ℕ) (e : SearchEvent) (s : Searches)
    → IsTokened capacity s
    → IsTokened capacity (search_step capacity e s)
unfolding search_step acquire_overload_search_token release_overload_search_token count_search
search_step-IsTokened capacity (begin_search overloaded) s k = record {
  each = ground (arith, k.each);
  within = ground (arith, k.each, k.within);
}
search_step-IsTokened capacity end_holding s k = record {
  each = ground (arith, k.each);
  within = ground (arith, k.within);
}
search_step-IsTokened capacity end_free s k = record {
  each = ground (arith, k.each);
  within = ground (arith, k.within);
}

-- However the overload flag changes: each search that began under overload and has not ended holds its
-- own token, and they are never more than the channel has room for, if that was so before.
pub run_searches-IsTokened :
    (capacity : ℕ) (es : List SearchEvent) (s : Searches)
    → IsTokened capacity s
    → IsTokened capacity (run_searches capacity es s)
unfolding run_searches
run_searches-IsTokened capacity [] s k = k
run_searches-IsTokened capacity (e ∷ es) s k =
    run_searches-IsTokened capacity es _ (search_step-IsTokened capacity e s k)
