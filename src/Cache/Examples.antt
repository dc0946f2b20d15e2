-- ===== src/Cache/Examples.antt =====
-- A cache of one entry, and the theorems about it at concrete calls.
use qmdsr.Prelude.{
  ◌+◌, ◌≤◌, max, ◌≡◌, refl, true, false, not, none, some, [], ◌∷◌, arith, length, select,
}
use qmdsr.Prelude.Int.{pos, pos_part, sub_ℕ, ◌≤ℤ◌}
use qmdsr.Cache.{
  Entry, Cache, CacheConfig, new, lookup, delete, element, unlink, back, is_expired,
  version_mismatch, remove, evict, get_element, get_handle, get, push, is_full, stamp, put,
  set_version, clear, is_stale, cleanup, cleanup_loop, cleanup_one,
}
use qmdsr.Cache.Elements.{handle_of}
use qmdsr.Cache.Coherence.{IsCoherent, start-IsCoherent, get-IsCoherent, put-IsCoherent}
use qmdsr.Cache.Recency.{view, find, without, drop_last, seen, used, kept}
use qmdsr.Cache.Methods.{get_refines, put_refines, get-put_self, get_fresh, put_bounded}
use qmdsr.Cache.Cleanup.{cleanup_lem}

program : Unit {0}
unfolding new lookup delete element unlink back is_expired version_mismatch remove evict get_element
    get_handle get push is_full stamp put set_version clear is_stale cleanup cleanup_loop
    cleanup_one find without drop_last seen used kept handle_of
program = tt

abbrev settings : CacheConfig
settings = record {
  enabled = true;
  ttl = pos 100;
  max_entries = pos 1;
  cleanup_interval = pos 1;
  version_aware = true;
}

abbrev answer : Entry
answer = record {
  results = [];
  index_version = "old";
  created_at = 0;
  query = "q";
  mode = "search";
  collection = "notes";
  fallback_triggered = false;
  degraded = false;
  degrade_reason = "";
}

abbrev empty : Cache
empty = new settings

abbrev one : Cache
one = put empty "k" answer 10

empty-IsCoherent : IsCoherent empty
unfolding program
empty-IsCoherent = record { index = λ k. refl; listed = tt; distinct = tt; fresh = tt }

start-IsCoherent_example :
    IsCoherent (new settings) × IsCoherent (clear empty) × IsCoherent (set_version empty "v")
start-IsCoherent_example = start-IsCoherent settings empty "v" empty-IsCoherent

put-IsCoherent_example : IsCoherent one
put-IsCoherent_example = put-IsCoherent empty "k" answer 10 empty-IsCoherent

get-IsCoherent_example : IsCoherent (get one "k" 200).0
get-IsCoherent_example = get-IsCoherent one "k" 200 put-IsCoherent_example

get_refines_example :
    ((get one "k" 20).1 ≡ seen one 20 (find "k" (view one)))
    × (view (get one "k" 20).0 ≡ used one 20 "k" (view one) (find "k" (view one)))
unfolding program
get_refines_example = get_refines one "k" 20 put-IsCoherent_example refl

-- The second key displaces the first: the capacity is one.
put_refines_example :
    view (put one "l" answer 20)
    ≡ ("l", stamp one answer 20) ∷ kept one "l" (view one) (find "l" (view one))
unfolding program
put_refines_example = put_refines one "l" answer 20 put-IsCoherent_example refl

displaced : (get (put one "l" answer 20) "k" 20).1 ≡ none
unfolding program
displaced = refl

get-put_self_example : (get one "k" 110).1 ≡ some (stamp empty answer 10)
unfolding program
get-put_self_example = get-put_self empty "k" answer 10 110 empty-IsCoherent refl (omega arith)

get_fresh_example :
    (sub_ℕ 110 10 ≤ℤ one.ttl)
    × (one.version_aware ≡ true → (stamp empty answer 10).index_version ≡ one.version)
unfolding program
get_fresh_example = get_fresh one "k" 110 put-IsCoherent_example refl

put_bounded_example : length (put one "l" answer 20).order ≤ max 1 (pos_part one.max_entries)
unfolding program
put_bounded_example = put_bounded one "l" answer 20 put-IsCoherent_example (omega arith)

cleanup_lem_example :
    IsCoherent (cleanup one 500).0
    × ((cleanup one 500).0.order ≡ select (λ e. not (is_stale one 500 e.entry)) one.order)
    × ((cleanup one 500).1 + length (cleanup one 500).0.order ≡ length one.order)
cleanup_lem_example = cleanup_lem one 500 put-IsCoherent_example

-- A new version makes the entry stale, and the clean-up removes it.
removed_one : (cleanup (set_version one "v") 20).1 ≡ 1
unfolding program
removed_one = refl
