-- ===== src/Cache.antt =====
-- cache/cache.go: the least-recently-used result cache. `items` is the map from keys to list elements,
-- `order` the list of elements, most recent first. An element is known by its `handle`, which stands
-- for its pointer; `time.Now()` is the argument `now`. Each method is one step, under its lock.
pub mod Elements
pub mod Coherence
pub mod Recency
pub mod Methods
pub mod Hits
pub mod Cleanup
mod Examples
use Prim.Native.String.{String}
use text.Mathlib.Text.{◌==◌ as str_eq}
use text.Mathlib.TextEquality.{eq_iff}
use qmdsr.Prelude.{
  ℕ, zero, suc, ◌+◌, ◌-◌, ◌*◌, ◌/◌, ◌%◌, ◌^◌, ◌≤◌, ◌<◌, min, max, ◌≡◌, refl, sym, ap, ◌∙◌, ◌≢◌, ◌↔◌,
  ◌⊎◌, inl, inr, Bool, true, false, not, ◌&&◌, ◌||◌, Option, none, some, List, [], ◌∷◌, ◌++◌, map,
  arith, ltb, leb, ◌==◌, if◌then◌else◌, ltb→lt, lt→ltb, leb→le, Bool-cases, Option-cases, length,
  take, replicate, select, exists, All, length-append, length-take, length-select-le, All-append,
  All-take,
}
use qmdsr.Prelude.Int.{
  ℤ, pos, negsuc, pos_part, neg_part, sub_ℕ, ◌≤ℤ◌, ltb_ℤ, leb_ℤ, is_zero, is_nonpos, is_pos,
}
use qmdsr.Types.{SearchResult}

pub record Entry : Type 0 where
  pub results : List SearchResult
  pub index_version : String
  pub created_at : ℕ
  pub query : String
  pub mode : String
  pub collection : String
  pub fallback_triggered : Bool
  pub degraded : Bool
  pub degrade_reason : String

-- A `list.Element` with the `cacheItem` that it holds.
pub record Element : Type 0 where
  pub handle : ℕ
  pub key : String
  pub entry : Entry

pub record Cache : Type 0 where
  pub items : List (String × ℕ)
  pub order : List Element
  pub next_handle : ℕ
  pub max_entries : ℤ
  pub ttl : ℤ
  pub version_aware : Bool
  pub version : String
  pub enabled : Bool
  pub hits : ℕ
  pub misses : ℕ

pub record CacheConfig : Type 0 where
  pub enabled : Bool
  pub ttl : ℤ
  pub max_entries : ℤ
  pub cleanup_interval : ℤ
  pub version_aware : Bool

unfoldable pub new : CacheConfig → Cache
new cfg = record {
  items = [];
  order = [];
  next_handle = 0;
  max_entries = cfg.max_entries;
  ttl = cfg.ttl;
  version_aware = cfg.version_aware;
  version = "";
  enabled = cfg.enabled;
  hits = 0;
  misses = 0;
}

-- `c.items[key]`.
unfoldable pub lookup : String → List (String × ℕ) → Option ℕ
lookup key [] = none
lookup key ((k, h) ∷ items) = if str_eq k key then some h else lookup key items

-- `delete(c.items, key)`.
unfoldable pub delete : String → List (String × ℕ) → List (String × ℕ)
delete key [] = []
delete key ((k, h) ∷ items) = if str_eq k key then delete key items else (k, h) ∷ delete key items

-- The element behind a pointer, if it is in the list.
unfoldable pub element : ℕ → List Element → Option Element
element h [] = none
element h (e ∷ order) = if e.handle == h then some e else element h order

-- `c.order.Remove(elem)`.
unfoldable pub unlink : ℕ → List Element → List Element
unlink h [] = []
unlink h (e ∷ order) = if e.handle == h then unlink h order else e ∷ unlink h order

-- `c.order.Back()`.
unfoldable pub back : List Element → Option Element
back [] = none
back (e ∷ []) = some e
back (e ∷ f ∷ order) = back (f ∷ order)

-- `time.Since(entry.CreatedAt) > c.ttl`.
unfoldable pub is_expired : Cache → ℕ → Entry → Bool
is_expired c now e = ltb_ℤ c.ttl (sub_ℕ now e.created_at)

unfoldable pub version_mismatch : Cache → Entry → Bool
version_mismatch c e = c.version_aware && not (str_eq e.index_version c.version)

unfoldable pub remove : Cache → String → Cache
remove c key = elim (lookup key c.items) [
  | none ↦ c
  | some h ↦ record c { order = unlink h c.order; items = delete key c.items }
]

unfoldable pub evict : Cache → Cache
evict c = elim (back c.order) [
  | none ↦ c
  | some e ↦ record c { order = unlink e.handle c.order; items = delete e.key c.items }
]

-- What `Get` does with the element that it found.
unfoldable pub get_element : Cache → String → ℕ → Element → Cache × Option Entry
get_element c key now e =
    if is_expired c now e.entry
    then (record (remove c key) { misses = c.misses + 1 }, none)
    else if version_mismatch c e.entry
    then (record (remove c key) { misses = c.misses + 1 }, none)
    else (record c { order = e ∷ unlink e.handle c.order; hits = c.hits + 1 }, some e.entry)

-- A handle in the map that is not in the list would be a dangling pointer; coherence excludes it.
unfoldable pub get_handle : Cache → String → ℕ → Option Element → Cache × Option Entry
get_handle c key now none = (c, none)
get_handle c key now (some e) = get_element c key now e

unfoldable pub get : Cache → String → ℕ → Cache × Option Entry
get c key now =
    if c.enabled
    then elim (lookup key c.items) [
      | none ↦ (record c { misses = c.misses + 1 }, none)
      | some h ↦ get_handle c key now (element h c.order)
    ]
    else (c, none)

-- `PushFront` of a new element.
unfoldable pub push : Cache → String → Entry → Cache
push c key entry = record c {
  order = record { handle = c.next_handle; key = key; entry = entry } ∷ c.order;
  items = (key, c.next_handle) ∷ c.items;
  next_handle = c.next_handle + 1;
}

-- `c.order.Len() >= c.maxEntries`.
unfoldable pub is_full : Cache → Bool
is_full c = leb_ℤ c.max_entries (pos (length c.order))

unfoldable pub stamp : Cache → Entry → ℕ → Entry
stamp c entry now = record entry { index_version = c.version; created_at = now }

unfoldable pub put : Cache → String → Entry → ℕ → Cache
put c key entry now =
    if c.enabled
    then elim (lookup key c.items) [
      | some h ↦ record c {
        order = record { handle = h; key = key; entry = stamp c entry now } ∷ unlink h c.order;
      }
      | none ↦ push (if is_full c then evict c else c) key (stamp c entry now)
    ]
    else c

unfoldable pub set_version : Cache → String → Cache
set_version c version = record c { version = version }

unfoldable pub clear : Cache → Cache
clear c = record c { items = []; order = [] }

unfoldable pub is_stale : Cache → ℕ → Entry → Bool
is_stale c now e = is_expired c now e || version_mismatch c e

-- One round of the loop of `Cleanup`, over a key and the element behind its handle.
unfoldable pub cleanup_one : Cache × ℕ → ℕ → String → Option Element → Cache × ℕ
cleanup_one (c, removed) now key none = (c, removed)
cleanup_one (c, removed) now key (some e) =
    if is_stale c now e.entry
    then (record c { order = unlink e.handle c.order; items = delete key c.items }, removed + 1)
    else (c, removed)

unfoldable pub cleanup_loop : List (String × ℕ) → Cache × ℕ → ℕ → Cache × ℕ
cleanup_loop [] s now = s
cleanup_loop ((key, h) ∷ items) s now =
    cleanup_loop items (cleanup_one s now key (element h s.0.order)) now

unfoldable pub cleanup : Cache → ℕ → Cache × ℕ
cleanup c now = cleanup_loop c.items (c, 0) now

-- `Stats`.
unfoldable pub stats : Cache → ℕ × ℕ × ℕ
stats c = (length c.order, c.hits, c.misses)
